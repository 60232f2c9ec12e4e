-- ===== src/Lib.antt =====
-- fred, a client for Redis: the logic that decides where a command goes, when it is tried again, and how replies
-- are read.
--
-- A command (src/protocol/command.rs) has a kind, arguments and a policy that finds its hash slot
-- (src/protocol/hashers.rs). In a cluster the slot is looked up in a table (src/protocol/types.rs,
-- src/protocol/utils.rs) that is rebuilt from the reply to CLUSTER SLOTS (src/protocol/cluster.rs). The server
-- of the slot may have replicas, which take turns (src/router/replicas.rs). The router writes a command in a
-- loop (src/router/commands.rs, src/router/mod.rs, src/router/utils.rs, src/protocol/connection.rs), and runs
-- transactions (src/router/transactions.rs). Commands that manage the client go over a backchannel
-- (src/modules/backchannel.rs). Replies are put together for the caller by the responders
-- (src/protocol/responders.rs), and read as values (src/types/args.rs, src/modules/response.rs). When a
-- connection is lost, a policy (src/types/config.rs) says whether and when to connect again. Mocks
-- (src/modules/mocks.rs) can stand in for the server.
--
-- Which file models what:
-- - Prelude, Text, Machine: shared names and lemmas; text as lists of bytes with the parsers of the standard
--   library that are used; machine integers. Machine.Profile stands for the two builds: `debug` panics on
--   overflow, `release` wraps around.
-- - Error: src/error.rs; Result carries the error, and do blocks stand for `?`.
-- - Value, Value.Scalar, Value.Convert: RedisValue and RedisMap of src/types/args.rs, FromRedis of
--   src/modules/response.rs. A hash map is its entries in some order; an f64 is its bit pattern, and its text
--   form is the parameter Floats.
-- - Cluster.Types, Cluster.Address: Server, its printed form and parsers, MOVED and ASK texts.
-- - Cluster.Search: binary_search of src/protocol/utils.rs. The loop runs on the number of ranges plus 2 as
--   fuel; a round of the loop halves what is left, so that the fuel outlasts it. Search.Spec says what the owner
--   of a slot is.
-- - Cluster.Slots: src/protocol/cluster.rs; `is_ip` is the parameter for IpAddr::from_str.
-- - Cluster.Routing: ClusterRouting of src/protocol/types.rs. The change of host names by the TLS policy is a
--   parameter of `rebuild`, and the random index of `random_slot` an argument.
-- - Reconnect: ReconnectPolicy, incr_with_max and add_jitter; the random number is an argument.
-- - Command.Kind, DebugName, WireName, Subcommand, Policy: RedisCommandKind, its names and the tests on it.
-- - Command.Hash: ClusterHash; `keyslot` is the parameter for redis_keyslot of the redis-protocol crate.
-- - Command.Request: RedisCommand without its clocks, traces and router channel. Senders are numbers.
-- - Router.ServerMap, Router.Replicas: maps whose keys are servers, and ReplicaSet.
-- - Router.Writer: write_command and its parts of src/router/utils.rs, with the queue and the counters of
--   RedisWriter (src/protocol/connection.rs). Outside says what the socket and the encoder do with the command.
-- - Router.Commands: write_with_backpressure and handle_router_response of src/router/commands.rs, write_command
--   and write_replica_command of src/router/mod.rs. Wire holds what the connections do; a round of the loop
--   takes one unit of fuel, and each round counts an attempt. Fates are what the router does with a command:
--   answer its caller or buffer it.
-- - Router.Direct: process_ask and process_moved. Router.Retry: retry_buffer. Router.Redirection:
--   cluster_redirection and the owner of a slot in src/router/mod.rs, parse_cluster_changes, find_cluster_node
--   and process_cluster_error of src/router/clustered.rs.
-- - Router.Transactions: src/router/transactions.rs. Link holds the calls of the router, and a round of the
--   outer loop takes one unit of fuel. Events are what others see of a transaction.
-- - Frame, Frame.Results: what src/protocol/utils.rs reads of a frame. Resp3Frame belongs to the redis-protocol
--   crate; Shape is what the patterns of the source see of it, and FrameMethods holds the methods of the crate
--   that are called, and whether the build has the feature `mocks`, under which frame_to_single_result validates
--   nothing.
-- - Frame.Mocked: mocked_value_to_frame. Frame.Pubsub: messages in RESP2 and RESP3, with their tests in
--   src/router/responses.rs and src/router/utils.rs. Frame.Keyspace: parse_keyspace_notification.
--   Frame.Aggregate: flatten_frame and frame_to_map. Frame.Outgoing: value_to_outgoing_resp3_frame and
--   expect_ok. Command.Arguments: disallow_nested_values and check_lex_str of src/utils.rs. Frame.Special:
--   check_pubsub_message and check_special_errors of src/router/responses.rs.
-- - Backchannel: the backchannel's state; what the network answers is an argument.
-- - Responses: respond_buffer and respond_multiple over the cells that the clones of a command share. Frames are
--   a parameter, FrameOps, with the functions of the redis-protocol crate that are used. Messages are returned
--   as a list, and the order of deliveries is an argument.
-- - Value.Zset: flatten_redis_value and value_to_zset_result of src/protocol/utils.rs.
-- - Pool: RedisPool of src/modules/pool.rs; a client and the test whether it is connected are parameters.
-- - Mocks: Echo, SimpleMap and Buffer.
-- - Examples: concrete inputs.
--
-- Not modelled: sockets, codecs, TLS, the tasks that read responses, reconnection, sentinels, scans, the
-- functions that build the arguments of each command, metrics and tracing.
pub mod Prelude
pub mod Text
pub mod Error
pub mod Frame
pub mod Machine
pub mod Cluster
pub mod Reconnect
pub mod Value
pub mod Router
pub mod Command
pub mod Backchannel
pub mod Responses
pub mod Mocks
pub mod Pool
mod Examples
