-- ===== src/Raft/Ballot.antt =====
-- What resets and changes of role keep of the voters and the votes of a node.
use yaraft.Prelude.{ℕ, ◌≡◌, refl, Bool, true, List, [], ◌∷◌, length, arith}
use yaraft.Outcome.{ok}
use yaraft.Progress.{Progress}
use yaraft.Raft.State.{Raft, candidate, pre_candidate, follower, quorum}
use yaraft.Raft.Roles.{
  renew, reset, reset_with, become_follower, become_candidate, become_pre_candidate, poll, granted,
}
use yaraft.Assoc

length-renew :
    (last : ℕ) (r : Raft) (prs : List (ℕ × Progress)) → length (renew last r prs) ≡ length prs
unfolding renew
length-renew last r [] = refl
length-renew last r ((id, p) ∷ prs) = ground (arith, length-renew last r prs)

-- A reset keeps the voters and forgets the votes.
length-reset :
    (term : ℕ) (r : Raft) {r' : Raft} → reset term r ≡ ok r' → length r'.prs ≡ length r.prs
unfolding reset reset_with
length-reset term r e = grind (arith, length-renew)

votes-reset : (term : ℕ) (r : Raft) {r' : Raft} → reset term r ≡ ok r' → r'.votes ≡ []
unfolding reset reset_with
votes-reset term r e = ground arith

pub become_follower_lem :
    (term lead : ℕ) (r : Raft) {r' : Raft}
    → become_follower term lead r ≡ ok r'
    → (r'.state ≡ follower) × (quorum r' ≡ quorum r)
unfolding become_follower quorum
become_follower_lem term lead r e = grind (arith, length-reset)

pub state-become_follower :
    (term lead : ℕ) (r : Raft) {r' : Raft}
    → become_follower term lead r ≡ ok r'
    → r'.state ≡ follower
state-become_follower term lead r e = (become_follower_lem term lead r e).0

pub become_candidate_lem :
    (r : Raft) {r' : Raft}
    → become_candidate r ≡ ok r'
    → (r'.state ≡ candidate) × (r'.votes ≡ []) × (quorum r' ≡ quorum r)
unfolding become_candidate quorum
become_candidate_lem r e = grind (arith, length-reset, votes-reset)

pub become_pre_candidate_lem :
    (r : Raft) {r' : Raft}
    → become_pre_candidate r ≡ ok r'
    → (r'.state ≡ pre_candidate) × (r'.votes ≡ []) × (quorum r' ≡ quorum r)
unfolding become_pre_candidate quorum
become_pre_candidate_lem r e = ground arith

pub poll_lem :
    (id : ℕ) (v : Bool) (r : Raft)
    → ((poll id v r).0.state ≡ r.state) × (quorum (poll id v r).0 ≡ quorum r)
unfolding poll quorum
poll_lem id v r = ground arith

-- The first vote of a campaign is the node's own.
pub poll_first : (id : ℕ) (r : Raft) → r.votes ≡ [] → (poll id true r).1 ≡ 1
unfolding poll granted Assoc.insert Assoc.has_key Assoc.find
poll_first id r h = rw h refl
