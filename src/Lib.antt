-- ===== src/Lib.antt =====
-- Verification of Bungohan, a multiplayer game server framework: its binary protocol, the state
-- that the processes of a cluster share, and the server's small stateful components.
--
-- The parts, and the files of the repository that they model:
--
-- - Base: names that all modules share. Base.Dict is JavaScript's `Map` (entries in insertion
--   order), Base.Number a number of which the code only asks whether it is an integer.
-- - Clock: packages/types/src/clock.ts. The `SystemClock` hands out timer ids and forgets a timer
--   that fires or is cleared; what a timer calls is a value of the component that set it, and when
--   it fires is up to the platform.
-- - Numbers: packages/types/src/ints.ts and fixed.ts, integers of a width and the integer of
--   a fixed-point number. A double is its sign, its whole part and where its fraction lies.
-- - Serializer.Varint and Serializer.Frame: packages/serializer/src/frame.ts, the framing that
--   every message of the protocol has. A byte array is a list of numbers; a write out of range
--   changes nothing, as in a `Uint8Array`, and `set` throws where the source does not fit.
-- - Serializer.Zigzag, Serializer.Text, Serializer.Reader and Serializer.Writer:
--   packages/serializer/src/bytes.ts, the primitives of the schema codec. Text is a list of UTF-16
--   code units; the platform's text encoders and `DataView` for floating point numbers are
--   arguments. Serializer.Stream has sequences of writes and reads.
-- - Codec: packages/serializer/src/schema-codec.ts, the sessions that encode and decode the ops of
--   the state stream, over the class table of state-codec.ts and the field types of
--   packages/types/src/wire.ts. Codec.Tables has the tables with their undo journal, Codec.Encoder
--   and Codec.Decoder the ops, Codec.Session the calls of a session. A failure has no message. The
--   number type is an argument: a number is viewed as a double, and made from an integer.
-- - Cluster.Locks and Cluster.Coordinator: packages/core/src/cluster/locks.ts, the creation locks
--   of the matchmaker and the rendezvous hashing that says which process keeps them.
-- - Cluster.Requests: packages/core/src/cluster/requests.ts, requests and broadcasts between
--   processes with their timeouts.
-- - Cluster.Registry: packages/core/src/cluster/registry.ts, the processes that are alive.
-- - Store: packages/store/src/memory.ts and json.ts, the key-value store of one process.
-- - Backplane: packages/backplane/src/channels.ts and memory.ts, publishing inside one process.
-- - Limits: packages/core/src/limits.ts, the token buckets that a connection's frames and joins are
--   charged to, and the use of them in packages/core/src/server.ts.
-- - Loop: packages/core/src/loop.ts, the simulation loop with its accumulator and the interval loop.
--   The numbers are those of a type with the operations that the loops call, so that they round as
--   doubles do or in another way. A step of the game is the calls that it makes on the loop.
-- - Room: packages/core/src/room.ts, the seats of a room: joins, reservations, held seats and their
--   reconnection, pausing and disposal. Room.Seats and Room.Joins have the methods, Room.Calls the
--   orders in which they are called. An async method is cut at its awaits: each part is a call.
--   Hooks of the game are events; what a hook calls on the room is a call of its own.
--
-- A method is a function from the old state to the new one. A promise that a method resolves, or
-- a callback that it calls, is an entry of a list in the state, in order. `LockTable` and
-- `PendingRequests` set timers of the `Clock`; the timer's closure is the data that it captures.
-- A clock's reading is a whole number of milliseconds, in Loop one of its numbers, and an
-- argument of the method that takes it. The tokens of Limits are exact sums, where the source
-- adds and multiplies doubles. Fuel: the loops `while (rest >= 0x80)` run on fuel `rest`, which
-- is enough because each round divides by 128, and the loop `while (size < needed)` of `_reserve`
-- on fuel `needed`, which is enough because each round doubles a size of 1 or more. The loop of
-- `decodeOps` runs on as much fuel as the frame has bytes, which is enough because each round
-- reads one or more. All other loops are recursions on a list or on a counter of the source.
-- Strings that are only compared are the native strings; strings that are hashed or encoded are
-- their UTF-16 code units.
--
-- Not modelled: the transport (sockets), the platform's timers, Redis, the MessagePack and JSON
-- codecs of third parties, React bindings, code generators, the example applications, the
-- quotients `fromFixed` and `quantizeFixed`, and so far the contract messages of the schema
-- codec, the messages and the state sync of rooms, the matchmaker, the server and the state
-- synchronisation.
pub mod Base
pub mod Clock
pub mod Backplane
pub mod Codec
pub mod Loop
pub mod Numbers
pub mod Room
pub mod Limits
pub mod Store
pub mod Serializer
pub mod Cluster
