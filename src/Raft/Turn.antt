-- ===== src/Raft/Turn.antt =====
-- What a message makes of a node's role and of the votes that it has counted.
pub mod Handling
pub mod Campaigning
pub mod Stepping
use yaraft.Prelude.{ℕ, ◌≡◌, ◌⊎◌, arith, Bool, true, List, [], ◌∷◌, not}
use yaraft.Idl.{Message, msg_vote_resp}
use yaraft.Raft.State.{Raft, follower, candidate, pre_candidate, leader, quorum}
use yaraft.Raft.Roles.{poll}
use yaraft.Raft.Same.{Same}

-- What the handlers of a role leave.
pub record Stays (r r' : Raft) : Type 0 where
  pub same_id : r'.id ≡ r.id
  pub same_term : r'.term ≡ r.term
  pub same_vote : r'.vote ≡ r.vote
  pub same_state : r'.state ≡ r.state
  pub same_votes : r'.votes ≡ r.votes

pub Stays-refl : (r : Raft) → Stays r r
Stays-refl r = ground arith

pub Stays-trans : {q r t : Raft} → Stays q r → Stays r t → Stays q t
Stays-trans f g = ground arith

pub Same-Stays : {r r' : Raft} → Same r r' → Stays r r'
Same-Stays h = ground arith

-- A candidate that has voted for itself and has counted that.
abbrev pub IsFresh : Raft → Type 0
IsFresh r = (r.state ≡ candidate) × (r.votes ≡ (r.id, true) ∷ []) × (r.vote ≡ r.id)

-- How a campaign ends.
abbrev pub Campaigned : Raft → Raft → Type 0
Campaigned r r' =
    (r'.state ≡ pre_candidate)
    ⊎ IsFresh r'
    ⊎ ((r'.state ≡ leader) × (quorum r ≡ 1) × (r'.vote ≡ r'.id))

-- A candidate that counts the answer `m`.
abbrev pub Counts : Message → Raft → Type 0
Counts m r =
    (r.state ≡ candidate) × (m.msg_type ≡ msg_vote_resp) × ((m.term ≡ 0) ⊎ (m.term ≡ r.term))

-- How the role and the votes go on.
abbrev pub Turn : Message → Raft → Raft → Type 0
Turn m r r' =
    (r'.state ≡ follower)
    ⊎ Campaigned r r'
    ⊎ ((r'.state ≡ r.state) × (r'.term ≡ r.term) × (r'.votes ≡ r.votes))
    ⊎ ((r'.state ≡ candidate)
        × Counts m r
        × (r'.term ≡ r.term)
        × (r'.votes ≡ (poll m.from (not m.reject) r).0.votes))
    ⊎ ((r'.state ≡ leader)
        × Counts m r
        × (r'.term ≡ r.term)
        × ((poll m.from (not m.reject) r).1 ≡ quorum r))
