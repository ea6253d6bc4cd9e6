-- ===== src/Device.antt =====
-- The device: FederatedLearningESP32.
pub mod Gradient
pub mod BackPropagation
pub mod Functions
pub mod Training
pub mod HttpClient
pub mod Utf8
pub mod Interaction
pub mod WebSocketClient
