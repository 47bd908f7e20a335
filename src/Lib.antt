-- ===== src/Lib.antt =====
-- kMQTTd is an MQTT 3.1.1 broker in C++ on Boost.Asio. `MQTTServer` accepts connections; each becomes
-- an `MqttSession`, which reads packets from its socket, decodes them by `parseMqtt`, and hands them to
-- its `MqttClient`; answers are encoded and written back. Channels (topics) live in a `ChTree`.
--
-- The files and what they model:
-- - Base: Boolean tests, lists and options over the native numbers, bytes, `Exec` (a result or
--   undefined behaviour), and the bits of a number.
-- - Wire: `htons`, `htonl` and two bytes in memory, on a little-endian host (Wire/Words), and the
--   remaining length field, `encLen` and `decLen` of src/mqtt/Protocol.cpp (Wire/Length). Its reference
--   is `varint` (Wire/Length/Varint), the encoding of the MQTT standard.
-- - Protocol: the packets of src/mqtt/Protocol.hpp and src/mqtt/Protocol.cpp. Protocol/Header has the
--   fixed header, CONNECT's flags and the enumerations; Protocol/Frame what all encoders and decoders
--   share; then one file per packet class, with its fields as a record, its constructors, `encode` and
--   `decode`. `Message` is the class hierarchy as a sum; Protocol/Typed says which members are within
--   their types. `encode` takes the message and the buffer and
--   returns message, result and buffer; `decode` returns the message and the result in `Exec`, since a
--   read out of bounds or a range that runs backwards has no defined behaviour. What a constructor
--   leaves unset is read from `Stale`, a parameter.
-- - Session: `MqttSession` of src/MqttSession.hpp. Session/Parse has `parseMqtt`, Session/Read has
--   `length_ending` and `do_read_len` over a list of pieces or errors. Session/State has the fields and
--   the phase: what the session waits for, which in the source is the handler of a pending read.
--   Session/Message has the handlers of `do_read_message`, `do_read_len` and `do_read_remainder`, each
--   as a function from what a read gives to the next phase, and what the socket may give (`Gives`);
--   Session/Message/Run has any messages in a row, each in two reads, Session/Message/Acks runs of
--   acknowledgements, and Session/Message/Own what this program itself writes.
--   Session/Strand has what `dispatch` may do where the strand is busy; the other files take it to run its
--   functions at once. Session/Active has `start`, the functions that it sets, and the timer;
--   Session/Write has `write` and `do_write`. Session/Steps puts them together as a step relation with the sessions that can be
--   reached from `start`.
-- - Server: `MQTTServer` of src/MqttServer.hpp: the accept loop, `Start` and `Stop`.
--   Server/Steps has the server with its sessions, whose steps come in any order. Server/Life counts who holds a session (`shared_ptr`) and whether its thread
--   runs; when the last holder goes, the session is destroyed.
-- - Client: `MqttClient` of src/MqttClient.hpp: `deliver`, its handlers and `write` on a state with the
--   two windows (Client/Windows), the calls of `func_OnUnLogin` and the results of `write`. `do_write`
--   is empty in the source, so that no callback runs; what the callbacks would do is in
--   Client/Callbacks. Whether the cast of `deliver` fits the message is part of the step: a cast to
--   another class is undefined.
-- - ClientProgram: `main` of src/kMQTTc.cpp, as steps of its threads in any order, byte by byte.
-- - Text: `CppUtils` of src/CppUtils.hpp; a text is the list of its bytes, `npos` is `none`.
-- - Singleton: the template of src/CppUtils.hpp.
-- - Channels: `ChNode` and `ChTree` of src/ChTree.hpp, as a tree whose children stand in order;
--   Channels/Print is its `operator<<`. Channels/Store is `ChTree` once more, on nodes in memory: a
--   `shared_ptr` is an address, a node holds the addresses of its children, and the loops of
--   `addChannel`, `removeChannel`, `findNode`, `findChannel` and `operator<<` read and write nodes as
--   the source does, comparing addresses where it compares pointers; the tree is its abstract view.
--   Channels/Remove/Cut has where `removeChannel` cuts the tree.
-- - Global: the class of src/Global.hpp.
-- - Membership: `Channel` of src/mqtt/Channel.hpp, a set of client identifiers.
-- - Exception: the texts of errors, src/MqttException.hpp.
-- - Tests: runs on concrete inputs.
--
-- Bounds and fuel: the loops of `split` and `splitChannel` pass a byte in each round and have
-- `length s + 1` rounds, and a text has no more bytes than that. The loop over the topics of a
-- SUBSCRIBE or UNSUBSCRIBE has `size + 1` rounds, and each round moves `step` on by two or more, so that
-- the loop's own test fails before. Numbers are natural numbers; `Uint` is kept below 2^32, `Uint16`
-- below 2^16, `size_t` below 2^64.
--
-- The length field is read in at most four rounds, by structural recursion on the bytes. `operator<<` in
-- memory (Channels/Store/Print) has a bound on its nested calls, for which the number of nodes is enough.
--
-- Third-party code: of Boost.Asio only what its reads give is used: at least one byte and at most as
-- many as the buffer has (`async_read_some`), all of them (`async_read`), and all of the part that is
-- sent (`async_write`). The size of a `std::string`, and addresses with their equality are parameters. A
-- new timer holds no time, and when such a timer expires is left open. The handlers of one session run one by one; those of several
-- sessions come in any order.
--
-- Memory: in Channels/Store a node that nothing points at any more stays where it is, and addresses are
-- given out in order. The source compares only pointers to nodes that are alive, so that the use of an
-- address for a second time would change nothing.
--
-- Not modelled: the socket and the name resolution (pure I/O), `main` of src/kMQTTd.cpp, which makes the
-- server, calls `Start`, waits for a key and calls `Stop`, and what it returns where a session has no
-- defined behaviour or a handler throws (`remote_endpoint`), what the thread of a session does,
-- since the body of `sendRunLoop` is empty, the exceptions that Boost.Asio throws behind the
-- constructor of the server, `make_shared_array` of src/CppUtils.hpp, which nothing uses, and the
-- struct `User` and the aliases of src/mqtt/VarTypes.h and src/Client.hpp (data without operations).
pub mod Base
pub mod Wire
pub mod Protocol
pub mod Session
pub mod Server
pub mod Exception
pub mod Membership
pub mod Text
pub mod Singleton
pub mod Client
pub mod ClientProgram
pub mod Channels
pub mod Global
mod Tests
