-- ===== src/Lib.antt =====
-- A model of csyn, the command-line tool in rust/src that inspects, publishes, records and replays
-- Synapse topics over Zenoh, with proofs about it.
--
-- The parts of the program, and where they are modelled:
--
-- - rust/src/types.rs, payloads and catalog lookup: Types. `wrap_fixed_payload` and
--   `unwrap_fixed_payload` are in Types/Wrapper, and the methods of `TopicType`, `subscribe_keyexpr`
--   and `publish_key` in Types/Topic, all under the names of the source.
-- - rust/src/contract_warning.rs, the throttle for warnings: ContractWarning. `warn` takes the time
--   and returns the new throttle with the line that is printed, if one is.
-- - rust/src/bag.rs, MCAP bags: Bag. `profile_metadata` is in Bag/Profile, `channel_type` and
--   `unix_now_ns` in Bag/Channel, and `BagWriter` in Bag/Writer, as a state and error monad.
-- - rust/src/graph.rs, the graph debugger: Graph. `GraphState` and its `observe_topic` are in
--   Graph/State, `parse_admin_entities` and `add_admin_topology` with their helpers in Graph/Admin, and
--   `snapshot` in Graph/Snapshot. The two locals that a snapshot is built in are the record `Drawing`
--   of Graph/Drawing; a rate, an `f64` that is a count divided by 5.0, is that count.
--   `handle_connection` is in Graph/Http, and the threads that `serve` starts in Graph/Serve: the
--   observer, the admin poller and the requests meet at the mutex, which a panic poisons, and a step
--   relation takes their steps in any order. The thread that accepts connections is in Graph/Listen.
-- - rust/src/main.rs, the commands: Commands. `require_value_type` and `topic_list` are in
--   Commands/Receive, `topic_echo` in Commands/Echo with `print_sample` in Commands/Print, `topic_pub` in
--   Commands/Publish, `observe_topic` and the three commands on it in Commands/Observe, `bag_record` in
--   Commands/Record, `bag_info` in Commands/Info, `bag_play` in Commands/Play, `bag_export` in
--   Commands/Export and `run_type` in Commands/TypeInfo. `main` and the dispatch are in Main. A receive loop runs
--   over the list of what each round reads from the clocks and the subscriber, and ends where the
--   shutdown flag is seen; a command with effects gives its result and the list of its events
--   (Commands/Trace). Commands/RoundTrip composes the loops of `bag_record` and `bag_play`, and
--   Commands/RoundTrip/Bagged the commands; Commands/Export/Played compares `bag_export` with
--   `bag_play`.
-- - rust/src/zenoh_util.rs, the Zenoh session: Zenoh. `open_session` composes the configuration and
--   the hint that is printed behind its error; a session is known by whether it could be opened. In
--   Main, each command that asks for a session gets this one.
-- - rust/src/cli.rs, the command line: Cli, as the data that the derived parser gives.
-- - Common holds what they share: lists, bytes, texts as lists of code points, `BTreeMap` as a sorted
--   association list, and results with `anyhow` errors and panics.
-- - Tests holds runs on concrete inputs and the theorems at concrete inputs.
--
-- The parts meet as in the source: samples are resolved by their value contract (Types/Topic), warned
-- about when they are rejected (ContractWarning), and counted (Graph) or converted and written to a
-- bag (Bag/Writer, which calls Types/Topic, which calls Types/Wrapper). Replaying or exporting a bag
-- checks its profile and its channels (Bag/Profile, Bag/Channel) and converts payloads back.
--
-- What is not part of the repository is a parameter: the catalog, the schemas, the value contracts
-- and the decoder of the `synapse_fbs` crate and the table access of `flatbuffers` (Synapse), the MCAP
-- writer (`McapWriter`), the records and messages of the MCAP reader, the parser and values of
-- `serde_json` (`SerdeJson`), its writer and Base64 (`Encoders`, `EchoEncoders`), floating point with
-- `std::time` (`StdTime`), the configuration and session of `zenoh` (`ZenohCrate`), the text of its encodings (`encoding_text`), and how a quotient
-- is written (`Format`). What the program relies on is stated beside them (`IsClosed`, `ChecksSize`, `ChecksRoot`, `HasContract`, `Promises`,
-- `IsAccepting`, `Configures`, `McapFile`, `IsReadBack`) and is a hypothesis where it is used.
--
-- Conventions. A text is the list of its code points; searches for ASCII patterns and the order of
-- keys are the same as over UTF-8. A byte slice is a list of numbers. Machine words wrap by `%`.
-- A `usize` has 64 bits. Times are nanoseconds, and each function that reads a clock takes the time.
-- Overflow that a debug build would trap wraps, as in a release build. All loops are recursions on
-- lists, but for two that run on fuel: `to_string`, on one more than the number, which has no more
-- digits than that, and the loop of `topic_pub`, which without a limit only the shutdown flag ends;
-- its fuel is enough when it is above the number of rounds (Commands/Publish/Sent).
--
-- Not modelled: sockets, files, the threads and signals themselves, whose outcomes are inputs, the
-- parsing of the command line, what goes to the standard error but for warnings, the web page, and
-- the Zephyr module under zephyr, which is another program.
pub mod Common
pub mod ContractWarning
pub mod Synapse
pub mod Types
pub mod Graph
pub mod Bag
pub mod Commands
pub mod Cli
pub mod Zenoh
pub mod Main
pub mod Tests
