-- ===== src/Tests.antt =====
-- Tests: the functions on small inputs, and each theorem at an input where its hypotheses hold.
mod Samples
mod NetworkTests
mod ServerTests
mod FreeTests
mod SystemTests
mod StartTests
mod BufferTests
mod JsonTree
mod JsonTests
mod DeviceTests
mod HttpTests
mod TogetherTests
mod InteractionTests
