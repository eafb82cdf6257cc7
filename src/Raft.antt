-- ===== src/Raft.antt =====
-- src/raft.h and src/raft.cc: the state machine of a node.
pub mod State
pub mod Replicate
pub mod Roles
pub mod Membership
pub mod Members
pub mod Handlers
pub mod Leader
pub mod Step
pub mod New
pub mod Status
pub mod Sending
pub mod Restart
pub mod Timeout
pub mod Turn
pub mod Sent
pub mod Same
pub mod Quorum
pub mod Acks
pub mod Log
pub mod Later
pub mod Ballot
pub mod Elected
pub mod Tests
