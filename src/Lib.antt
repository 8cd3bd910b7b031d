-- ===== src/Lib.antt =====
-- goactor: an actor runtime over a partitioned message queue. A node polls messages of the shards
-- it owns, starts an actor for each receiver and delivers to its mailbox; actors report snapshots of
-- their state, the node saves them, and an offset of the queue is committed once the effects of all
-- messages before it are saved.
--
-- The parts, and the files that model them:
-- - Prelude: int64 with wrap-around (Int), byte strings (Text), calls that may panic (Outcome),
--   slices (Slice) and association lists (Assoc).
-- - Structs: structs/map.go (Map), set.go (Set), bool_value.go (BoolValue), status.go (Status) and
--   ring.go (Ring). Ring/Refine and Ring/Look compare the ring with a bounded queue, by
--   the window of values that Ring/Window reads off the slice. QuadHeap is structs/quadheap.go:
--   Order and Index say what it means that a heap is in order and agrees with its index map, Up, Down
--   and Fix are about siftUp, siftDown and fix, Valid has what holds between two operations, Remove,
--   Release, Insert and Update are about the operations, and Fuel about the loops.
-- - Message: message/mm/message.go and mm.go, and shard.go (Shard).
-- - Core/Dedup: core/dedup.go, the ids of the messages handled last, over Ring and Set. Refine
--   compares it with a list of ids, Restore is about bringing ids back.
-- - Core/MessageId: core/message_id.go, the bytes that a generated id is the digest of.
-- - Core/Inflight: core/inflight.go, the window of a shard. Its state is the record of the source;
--   new_inflight, full, add, get_min_offset, complete, remove and reset_min_offset are its methods.
--   Complete is split into its loop (remove_all) and the rest (settle). Prefix is about the list of
--   one actor, Remove and Settle about the two halves, Invariant about what every operation keeps,
--   Complete and Window about what the operations promise, Again about a window that has emptied.
-- - Core/Node: core/node.go, node_actor.go and node_shard.go. The state is Node; each method is a
--   function of the same name. Saving has the snapshots, the commits and the resumed shards, Routing
--   has Dispatcher and startActor, and Handlers has the messages of actors and the select loop of Start: a
--   round takes one Event. Progress and Commit say which commits are safe, Snapshots, Stop, Rounds
--   and Dispatch follow them through the handlers, Loop and Reach put the rounds together.
--   Delivery is about the message that reaches its actor.
-- - Core/Timer, Core/Handlers, Core/Factory and Core/Clock: core/timer.go over QuadHeap, handler.go,
--   factory.go and time.go.
-- - Core/Actor: core/actor.go, over Timer, Dedup and Handlers. Context is core/context.go, Handle has
--   handle, drain and handleTimerTrigger, Loop has Start and the rounds of its goroutine. Trigger and
--   Fire follow the timers into the mailbox, Frame says what a handler cannot change, Again and Returns
--   are about handleNetwork, Latest, Rounds, Reach and Runs follow the Dedup, the offset and the
--   snapshots through the rounds, Ids is about the ids of messages.
-- - Mq: mq/mq.go, its records, and Mq/Convert: mq/convert.go, with the JSON codec as a parameter.
--   Mq/Kafka is mq/kafka.go: its calls of the client are a log, and what the client answers a
--   parameter. Convert/RoundTrip, Kafka/Batch and Kafka/DeadLetter follow messages to the queue and back,
--   Kafka/Connect has NewKafka and Subscribe, and Kafka/Subscribed follows the latter.
-- - Storage: storage/storage.go, snapshots, their checks and errors. Storage/Postgres is postgres.go,
--   with its statements in Sql, and Name, Save and Load; Storage/Mongo is mongo.go, with Save. Behaviour
--   has what the databases document of statements and updates, as hypotheses; Sample has a database in
--   memory that does so, by SampleLaws, and Scanner a reader of quoted names. Table and Contract say
--   what Save and Load promise, Checks is about validateBatch, Encoding about the placeholders, Meaning
--   and Meets are what the statements and updates of the code come to, Refine is about the rows and
--   updates of a batch, and Bulk, Promise, Increment and Loading show that each database keeps the
--   promise. Quoted is about the name of the table. Fencing and Fenced follow two owners of an actor,
--   Agree compares the two databases, RoundTrip reads back what was saved.
--
-- A handler of the application is a script of the methods of its Context, so its calls of NewTimer and
-- NewMessage and its writes of the state are the steps of a tree; it ends by returning or by a panic. A
-- send to the node is an entry of the actor's list `sent`, newest first, and the readings of the clock
-- are a parameter. Deadlines of the heap have any order that is total and agrees with its equality,
-- which the integers of the timer have.
--
-- The store runs on a state of the world that every call of the database hands on. A statement of
-- PostgreSQL is a value with the columns, placeholders, conflict, assignments, guard and RETURNING of its
-- text, and an update of MongoDB one with the conditions, operators and settings of its documents; what
-- is assumed of the databases speaks of all statements and updates of this form, on one table or
-- collection, and lets a call that ends in an error have taken effect. A state, and no state, are
-- sequences of bytes; which runes beyond ASCII are letters or digits is a parameter. A payload is a
-- slice of bytes, which may be nil, one that the runtime tells apart, or any other, which is opaque.
--
-- Calls of mq.IMQ, of the store and of the timers are entries of the node's log, newest first; how
-- they end is the parameter Env, which may depend on all calls made before. An actor is seen through
-- its mailbox, a list with a capacity, and its stop channel. Writes through the pointers that the maps
-- hold are writes to the map's entry, since no pointer is shared between entries. A nil pointer or an
-- index out of range is a panic. Go's range over a map visits the entries in the order of the list.
--
-- Loops go over lists, except those of QuadHeap: siftUp runs on the index as fuel, since a parent
-- lies below its child, and siftDown on the number of items, since a child lies above its parent. drain
-- runs on the number of messages in the mailbox, since no handler adds to it, and handleTimerTrigger on
-- the number of timers, since each round takes one.
-- PutUvarint runs on ten bytes, which a uint64 fits. Offsets are int64 with wrap-around; a window limit
-- is an int.
--
-- Not modelled: the Poll goroutine, timeouts, sends that block, what other goroutines put into a mailbox
-- while an actor drains it, deadlines of the calls of a database, and generated code. Nothing is
-- said of the renumbering of a heap whose sequence numbers are used up.
pub mod Prelude
pub mod Structs
pub mod Message
pub mod Core
pub mod Mq
pub mod Storage
