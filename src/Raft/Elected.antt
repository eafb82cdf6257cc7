-- ===== src/Raft/Elected.antt =====
-- How a node becomes a leader: by the votes of a quorum, and in no other way.
use yaraft.Prelude.{◌≡◌, ◌⊎◌, not}
use yaraft.Idl.{Message, msg_vote_resp}
use yaraft.Raft.State.{Raft, candidate, quorum}
use yaraft.Raft.Roles.{poll}

-- The candidate `r` has the votes of a quorum when it has counted the vote `m`.
abbrev pub HasWon : Message → Raft → Type 0
HasWon m r = (r.state ≡ candidate) × ((poll m.from (not m.reject) r).1 ≡ quorum r)

-- Which messages make a leader of a node that is none.
abbrev pub IsElection : Message → Raft → Type 0
IsElection m r =
    (quorum r ≡ 1)
    ⊎ ((m.msg_type ≡ msg_vote_resp) × ((m.term ≡ 0) ⊎ (m.term ≡ r.term)) × HasWon m r)
