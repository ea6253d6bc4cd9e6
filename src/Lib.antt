-- ===== src/Lib.antt =====
-- Federated learning between ESP32 devices and a server. The server keeps a global neural network;
-- the devices register over HTTP, fetch the network, train it on their own data and send it back
-- over a websocket; the server sums what it receives, weighted by each device's number of training
-- steps, and publishes the average when the last device has sent its network.
--
-- The parts, and the files that model them (paths from the root of the repository):
--
-- Base: C's `int` as its bit pattern below 2^32 (`add_int` wraps; `rounds` is how often
-- `for (i = 0; i < n; i++)` runs), Boolean tests, lists and options. `none` is a fault: a null
-- pointer that is dereferenced, a write past an array, or a loop that does not end.
-- Float: `float` and `double` arithmetic and the C library's `exp` and `log`, as a parameter of
-- everything that computes. No law of it is assumed but, for JSON, that a `float` that is widened
-- and narrowed again is the same.
-- Network: the structs of FederatedLearningServer/lib/federatedlearning.h and the functions of
-- FederatedLearningServer/src/federatedlearning.c on a network. Network/Chain has the linked
-- chains with their pointers and the two ways in which nodes are put at their end; elsewhere a
-- chain is the list of what its nodes hold. Network/Free has `freeNeuralNetwork` with the memory
-- that is allocated and the address of each node. Network/Copy has `CopyNeuralNetwork`,
-- Network/Activation and Network/Forward the activation functions and `FeedFoward`,
-- Network/Sample and Network/Metrics `PerformanceMetrics`, with the data set and the contents of
-- the stack as parameters, and Network/Loss `LossFunctionCalculation`.
-- Server: the state behind `getFederatedLearningInstance`. Server/Registry has
-- `handle_get_noderegister` and `handle_get_checkmodelstatus` of
-- FederatedLearningServer/src/httphandlers.c; Server/Averaging has `FederatedAveragingSum`,
-- `FederatedAveraging` and `SetNeuralNetworkZeroWeightValue`; Server/Aggregation has
-- `AggregationModel` and `handle_clint_model_message` of
-- FederatedLearningServer/src/websockethandlers.c, with the converter from JSON as an argument;
-- Server/WebSocket has the reception of a model in
-- FederatedLearningServer/src/websocketserver.c, and Server/Buffer the queue between it and the
-- aggregation, with its pointers.
-- Server/Service has the loop of `start_websocketserver` around these two: the library is the list
-- of fragments that each call of `lws_service` reports, in any sessions.
-- Server/System has the server and its devices at the same time, as a step relation: registrations,
-- status requests, messages that are sent, lost or handled, in any order.
-- Server/Http has `handle_request` of FederatedLearningServer/src/httpserver.c with what the
-- handlers write, with `strstr` and cJSON's printer as parameters. An address is at most 15
-- characters, but `ip_id` has 15 bytes: with 15 of them `strcpy` writes the terminator past the
-- array, into the padding of the struct. The two functions that copy an address go on and say so
-- with the outcome `overrun`, which `handle_request` takes for a fault; the loops of Server/Service
-- and the steps of Server/System go on.
-- Server/Start has `getFederatedLearningInstance` and `setFederatedLearningGlobalModel`, over
-- `InitializeNeuralNetWork` in Network/Initialize; what `rand` returns and what new memory holds
-- are parameters.
-- Json: `FederatedLearningToJSON` and `JSONToFederatedLearning` of
-- FederatedLearningServer/src/JSONConverter.c and of the device's copy in
-- FederatedLearningESP32/components/cJSON/JSONConverter.c, which differs in one field. cJSON is an
-- interface, `Cjson`, whose documented behaviour is `IsLawful`. Json/Exchange has what the server
-- and a device make of each other's texts.
-- Device: FederatedLearningESP32. Device/Gradient, Device/BackPropagation and Device/Training have
-- the training in components/federatedlearning/federatedlearning.c, over the functions of
-- Device/Functions, which that file has in the words of the server's; Device/HttpClient has
-- components/http/httpclient.c, with the life of its global variable `req`, Device/Utf8 its
-- `is_utf8`, Device/WebSocketClient the calls of components/websocket/websocketclient.c in their
-- order, with what they do to the client, the tree and the text (Held), and Device/Interaction `deep_learning` of main/main.c: a round of its
-- loop, alone, with the server's answers (Awaited), and as part of a whole interaction (Together),
-- and the device from its start on (Boot).
-- Tests: a computing arithmetic, a small network, a cJSON of trees, and the theorems applied to
-- them.
--
-- The parts meet in the state: the websocket hands a text with its sender's address to the
-- aggregation, which counts it for the sender's node in the registry, adds its network to the sums,
-- and evaluates and publishes the average when no node of the registry is awaited any longer. A
-- device asks for the status, reads the model that the server writes, trains and evaluates it, and
-- sends a text that the server reads as a model.
--
-- Loops over a count recurse on the count, and loops over a chain on the chain. Only the walk along
-- the pointers of a chain and the loop that empties the message buffer take fuel: one step more than
-- the chain has nodes, which is enough for every chain that has an end, and one for each message;
-- the websocket loop takes one for each fragment, the loops that free a network one for each of its
-- nodes, the wait of a device for the server one for each attempt, and `is_utf8` one for each byte.
--
-- Not modelled: allocation and freeing but for the trees of `req` and `freeNeuralNetwork`, which the
-- aggregation calls on the old global network; printing and sockets; locks, and threads that run at
-- the same time: in Server/System each handler is one step; and the vendored libraries cJSON and
-- esp_websocket_client.
pub mod Base
pub mod Float
pub mod Network
pub mod Server
pub mod Device
pub mod Tests
pub mod Json
