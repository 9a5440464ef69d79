-- ===== src/Lib.antt =====
-- Hyverk: a distributed network that trains and serves an open coding model. Contributors' nodes
-- connect to a coordinator, which splits the model's layers among them for serving, hands out
-- inference tasks and shards of training data, and collects what comes back.
--
-- This library models the coordinator's core (server/coordinator/src), its knowledge base, and the
-- preparation of training data. A function of the source that changes state is a function from the
-- old state to the new state and the result. The locks of the source make each method one step; a
-- module's `Step` and `Reach` put the steps in any order. One method takes two locks in turn:
-- `create_task` inserts the task and then queues its id; it is one step here all the same, so the
-- moment in between, in which a pending task is not queued yet, is left out.
--
--   Serving     serving_clusters.rs, the generations of the serving cluster. `ClusterManager` is
--               `Inner`; `rebalance`, `node_ready`, `active_slots`, `request_start`, `request_end`,
--               `maybe_retire_draining`, `is_operational`, `snapshot` and `node_reinitializing` carry
--               the source's names. A counter `Arc<AtomicU32>` is an address in the store `counters`,
--               which generations and requests share. Serving.Plan has the split of the layers,
--               Serving.Routing what `active_slots` and `is_operational` compute.
--   Tasks       task_store.rs, the inference tasks and the queue of the pending ones.
--   Registry    registry.rs, the nodes that are registered for polling.
--   Grpc        router.rs and grpc_server.rs, the service that nodes poll, over Registry and Tasks.
--   Training    training_store.rs, fine-tuning jobs cut into shards of a dataset.
--   Layers      layer_training.rs, rounds of layer-sharded training. `LayerTrainingStore` is `Inner`
--               with a log of the statements sent to SQLite; Layers.Schedule has the loop of
--               `create_round`, Layers.Disk what the log leaves in the tables.
--   NodeStats   node_stats.rs, the connects, disconnects and hops of each node; NodeStats.History has
--               the disconnects against all that happened, NodeStats.Uptime the uptime.
--   Ws          ws_handler.rs and the messages of shared/comms/src/messages.rs, the connections of the
--               nodes and the requests that pass along a chain of them, over Serving and NodeStats.
--               `WsState` has, next to the source's fields, what its calls leave outside: the messages
--               sent, the outcomes told to waiting requests, the channels that are closed and the
--               number of spawned calls of `maybe_retire_draining`.
--   Inference   http_api.rs, `ws_inference`: a request from its HTTP call on, cut at the awaits where
--               other handlers run in between; Inference.Runs puts all handlers in any order.
--   Dataset     dataset_store.rs, the examples collected for training: Dataset.Quality has the filter and
--               the hash that tells duplicates.
--   Batches     shared/training/src/dataset.rs, the examples for fine-tuning as tokens, labels and batches.
--   Rag         server/rag, the knowledge base: Rag.Index has the BM25 index of index.rs, Rag.Store the
--               chunks of store.rs in SQLite with that index over them.
--   Sandbox     server/sandbox, the code blocks of a response and their quality signals.
--   Common      the shared helpers: tests on numbers, lists, `HashMap`, ranges that follow one
--               another, text as lists of code points, and UTF-8.
--
-- Each component's children hold its proofs, and its `Examples` the theorems at concrete inputs.
--
-- What is outside: UUIDs and the clock are arguments of the calls. A hash map is a list of entries;
-- its order, which the source leaves open, is that of first insertion, except where it shows in a
-- result: the order in which the scores of Rag.Index come out of their map is a parameter. Floats are carried as their
-- bit patterns; arithmetic on them is a parameter, or left out. Logging is left out. Layer numbers and line
-- numbers are plain numbers, since they are bounded by what is in memory; the generation number wraps
-- at 2 ^ 64 and the request counters at 2 ^ 32, as in a release build. Sessions hold fewer than
-- 2 ^ 32 requests at a time. SQLite executes each statement that it is sent, and gives back what was
-- stored; Layers takes a method with the statements that it sends as one step, although the source
-- lets its lock go in between. A handler of ws_handler.rs is one step too, with the messages that it
-- sends; the steps of `ws_inference` are told apart. The JSON text of a message
-- is the value that it stands for. A handler that is dropped with its client's connection takes no
-- more steps.
--
-- Fuel: `Training.Sharding.chunks` takes as fuel the number of lines, and each chunk holds a line at least. The loop of
-- `assign_pending_task` makes as many rounds as the queue is long, as in the source. The
-- loop of `create_round` takes the number of layers as fuel: each assignment has one layer at least, or
-- the loop does not end, which is `none`. `batches_from` takes the number of rows, and each batch holds
-- a row at least.
--
-- Not modelled: the HTTP API except ws_inference, the chunker of the knowledge base and its sources,
-- the runner of the sandbox, and the clients; of the layer training store the merging of adapters by a script and
-- the estimates, and of the node statistics the score, which are floating point.
pub mod Batches
pub mod Common
pub mod Dataset
pub mod Grpc
pub mod Inference
pub mod Layers
pub mod NodeStats
pub mod Rag
pub mod Registry
pub mod Sandbox
pub mod Serving
pub mod Tasks
pub mod Training
pub mod Ws
