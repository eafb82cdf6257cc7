-- ===== src/Lib.antt =====
-- Verification of yaraft, a Raft consensus library in C++: the log, the replication state and the
-- message handlers, as functions on values. Paths are from the repository's root.
--
-- The parts and their files:
--   Outcome        include/yaraft/errors.h: `error_s` and `error_with`; see below
--   Errors         include/yaraft/errors.h: `error_code` and `error_s`, shared through their pointers
--   Idl            include/yaraft/idl_wrapper.h: messages, entries, snapshots, hard states
--   Util           src/util.cc, src/util.h, include/yaraft/span.h: `limitSize`, spans
--   Entries        entries with consecutive indexes, which the log and the storage hold
--   GoSlice        include/yaraft/go_slice.h: a vector and a view of it
--   Storage        include/yaraft/storage.h: the interface, as the record of its answers
--   MemoryStorage  src/memory_storage.cc, include/yaraft/memory_storage.h
--   Unstable       src/unstable.h: the entries that are not in the storage yet
--   RaftLog        src/raft_log.h: storage and unstable entries as one log
--   Inflights      src/inflights.h: the sliding window of a follower, as a ring
--   Progress       src/progress.cc, include/yaraft/progress.h: a follower as its leader sees it
--   ReadOnly       src/read_only.cc, include/yaraft/read_only.h: pending read requests
--   Config         src/conf.cc, include/yaraft/conf.h
--   Assoc          std::map and std::unordered_map, as lists of keys with values
--   Raft           src/raft.cc, src/raft.h: the state machine, in children
--     State        the fields, and what only reads them
--     Replicate    `send`, `maybeSendAppend`, heartbeats, `maybeCommit`, `appendEntry`
--     Roles        `reset`, `becomeFollower` and the like, `poll`, `campaign`
--     Membership   `addNode`, `addLearner`, `removeNode`, `restore`
--     Members      who is a voter and who is a learner
--     Handlers     `handleAppendEntries`, `handleHeartbeat`, `handleSnapshot`
--     Leader       `stepLeader`
--     Step         `Step`, `stepFollower`, `stepCandidate`, the ticks
--     New          `Raft::New`, `loadState`
--     Status       `getStatus`, `Progress::Clone`, include/yaraft/status.h
--     Sending      the loop that sends, with the fuel that is enough for it
--     Restart      a node that is made over a storage
--     Timeout      the ticks up to an election
--     Log, Later   how a node's log, term and vote go on under `Step` and `Tick`
--     Turn         how the role and the counted votes of a node go on under `Step`
--     Sent         what a node puts out under `Step`
--   Cluster        voters, as src/raft.cc runs them, and the messages between them, which may be lost, repeated
--                  and reordered, with the votes that were given in each term as a ledger
--   RawNode        src/raw_node.cc, include/yaraft/raw_node.h, include/yaraft/ready.h
--
-- How they interact: `RawNode` owns a `Raft`, which owns a `RaftLog` over a `Storage`, a `Progress`
-- with an `Inflights` for each peer, and a `ReadOnly`. An operation of the C++ that changes its
-- object is a function from the state to an `Outcome` of the new state; `Step` also returns the
-- error that the caller gets. Messages go to the list `msgs`, from which a `Ready` takes them.
--
-- `Outcome` tells four ends apart: `ok`, `err` for a returned error, `panic` for a fatal log line,
-- and `fault` for what C++ leaves undefined, such as a null pointer or an index out of range.
--
-- Where an object is assigned from a view of itself (`truncateAndAppend`, through `GoSlice`), the model faults, as the code
-- reads destroyed entries; a request that was moved out of the map of `ReadOnly` is none. A template that calls itself
-- for ever (`operator<<` on an error) is a function on fuel that never ends.
--
-- Numbers are naturals. Those of type `uint64_t` and `size_t` that the code adds or subtracts go
-- through `add64` and `sub64`, which wrap at 2^64. Tick counters are `int` and are taken not to
-- overflow.
--
-- Fuel: the loop `while (maybeSendAppend(to, false))` runs on the capacity of the follower's window
-- and two more, since every message that carries entries fills a place or pauses the follower.
-- All other loops are recursions on lists or counts.
--
-- Parameters: the draws of src/rand.cc, a function of the number of the call and the bound; the
-- capacity that `std::vector::reserve` gives; the marshalling of a configuration change.
--
-- Not modelled: the code that thrift or protobuf generates, and the sharing of a message through
-- its pointer; logging and printing, include/yaraft/string_view.h (of Abseil) and src/stderr_logger.cc
-- (of glog) with them; `MarshalJSON` of a status, which has no definition; the copy of a `GoSlice`;
-- the tests and the build. The entries of the log are lists, which is what its slices show.
pub mod Prelude
pub mod Outcome
pub mod Errors
pub mod Idl
pub mod Entries
pub mod GoSlice
pub mod Util
pub mod Storage
pub mod MemoryStorage
pub mod Unstable
pub mod Inflights
pub mod Progress
pub mod RaftLog
pub mod ReadOnly
pub mod Config
pub mod Assoc
pub mod Cluster
pub mod Raft
pub mod RawNode
