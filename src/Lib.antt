-- ===== src/Lib.antt =====
-- A model of the core of moq-web, a TypeScript library for Media over QUIC Transport, and what holds
-- of it.
--
-- The program: packages/core has the wire encoding, buffers and the state of connections and tracks;
-- packages/session builds on it the requests of a session; media, msf, cat and the applications
-- build on those. The model begins at the bottom.
--
-- Varint: packages/core/src/encoding/varint.ts (class VarInt: Varint/Quic) and moqt-varint.ts beside
-- it (class MOQTVarInt: Varint/Moqt). `encode`, `encode_to`, `decode` and `decode_number` are the
-- methods of those names, in snake case; `encode_bytes` is the switch of encode, `payload` that of
-- decode. Bytes are lists of numbers, a bigint is an integer, and what may throw gives a Result.
--
-- Buffers: BufferReader, BufferWriter and PreallocBufferWriter of the same varint.ts
-- (Buffers/Reader, Writer, Prealloc). A call on a writer is a WriteOp; `op_bytes` says what it is to
-- put out. The record ByteWriter of Buffers/Contract is what the users of WritableByteBuffer rely
-- on; Buffers/Chunks and Buffers/Growth fill it for the two writers. Text encoding belongs to the
-- platform and is a parameter.
--
-- StateMachines: packages/core/src/connection/state-machine.ts, the base class in StateMachines and
-- each subclass in a file below it, a method to a function that returns the machine, the result and
-- the handlers told. `step` and `run` of ConnectionLaws and SubscriptionLaws are calls and sequences
-- of them, for a connection with the inherited methods; ConnectionEdges is its table as a relation.
--
-- RingBuffer: class RingBuffer of packages/core/src/buffer/ring-buffer.ts, with its array, indices
-- and counters; Represents, of RingBuffer/Invariant, relates it to the list of its items.
--
-- Scheduler: packages/core/src/track/priority-scheduler.ts; the clock is an argument.
-- LocationFilter: packages/session/src/location-filter.ts. SendOrder:
-- packages/session/src/priority.ts. GroupNumbering: packages/msf/src/session/group-numbering.ts,
-- with its two classes in child modules. GroupGap: group-gap.ts beside it, the tracker, the encoder
-- and the decoder.
--
-- Draft18: the wire format of drafts 18 and 22. Draft18/Writer and Draft18/Reader are
-- Draft18BufferWriter and Draft18BufferReader of packages/core/src/encoding/protocol-codec.ts; a
-- call on a writer is a Field, Draft18/Fields says what it is to put out, and Draft18/Cursor how a
-- reader goes through what was put out, which the round trips of all formats use. Draft18/Names
-- (track namespaces and names), Draft18/Pairs (key-value pairs) and Draft18/Frame (control messages)
-- are of codec-helpers.ts beside it, Draft18/Subgroup (subgroup and fetch headers) and
-- Draft18/Objects (object headers and properties), Draft18/Datagram (object datagrams) and
-- Draft18/FetchObject (the objects of a fetch) of draft18-stream-codec.ts, and Draft18/RangeFilter
-- is draft22-range-filter.ts. What the messages hold is a callback of the frame and stays a
-- parameter.
--
-- ReorderBuffer: packages/media/src/pipeline/presentation-reorder-buffer.ts. An operation gives back
-- the calls of onFrame and close as a list of events. Subscriptions:
-- packages/session/src/subscription-manager.ts; the subscription objects, which several maps share
-- and which change, stand in a store by their references. Base/Maps is the JavaScript Map, by its
-- entries. NamespaceSubscriptions: incoming-namespace-subscriptions.ts beside it, with
-- namespacePrefixMatches of session-helpers.ts. Replay:
-- packages/core/src/security/auth-token-replay.ts. ReplayStore: class MemoryReplayStore of
-- packages/cat/src/replay.ts.
--
-- TrackManager: packages/core/src/track/track-manager.ts, its state in TrackManager, the keys of
-- tracks, as lists of code units, in TrackManager/Names, and a file each for published tracks,
-- subscriptions and announcements. A subscription carries its machine of StateMachines/Subscription.
-- TrackManager/Paired is what the two maps of each half have in common, by which
-- TrackManager/Consistent says that they are in step.
--
-- The strings that serve as keys of maps in Subscriptions, NamespaceSubscriptions and Replay are the
-- values they are made of, with an equality.
--
-- Loops are structural recursion, over the list that the loop walks or the number of rounds to go,
-- but for four, which have fuel and give none without any left. decodeKeyValuePairsToEnd and
-- decodeRangeFilter have a round more than bytes remain, decodeProperties one more than bytes stand
-- before its end, and each round reads a byte. The binary search of the reorder buffer has a round
-- more than frames wait, and each round makes the interval smaller.
--
-- Numbers are natural numbers where the program has non-negative integers. The arithmetic of 32-bit
-- shifts in VarInt.encode gives the same bytes as that of natural numbers, which is used.
--
-- Not modelled: logging; class PriorityRingBuffer; read-only statistics; of the wire format the
-- strings, reason phrases, tokens, the header of the setup stream and the messages; the object
-- router and the session above these parts; input and output, the other media code, cryptography and
-- applications.
mod Base
pub mod Varint
pub mod Buffers
pub mod StateMachines
pub mod RingBuffer
pub mod LocationFilter
pub mod Scheduler
pub mod SendOrder
pub mod GroupNumbering
pub mod GroupGap
pub mod Draft18
pub mod ReorderBuffer
pub mod Subscriptions
pub mod Replay
pub mod NamespaceSubscriptions
pub mod TrackManager
pub mod ReplayStore
