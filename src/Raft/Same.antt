-- ===== src/Raft/Same.antt =====
-- Sending leaves the term, the vote and the log of a node as they are.
use yaraft.Prelude.{ℕ, zero, suc, ◌≡◌, Bool, List, [], ◌∷◌, Option, Bytes, arith}
use yaraft.Outcome.{Outcome, ok}
use yaraft.Idl.{Entry, Message}
use yaraft.Progress.{Progress}
use yaraft.Raft.State.{Raft, put_progress}
use yaraft.Raft.Replicate.{
  send, send_snapshot, send_entries, send_append_or_snapshot, maybe_send_append, send_append,
  send_all, for_each_other, bcast_append, send_heartbeat, bcast_heartbeat_with_ctx, bcast_heartbeat,
  send_timeout_now,
}

-- What sending keeps.
pub record Same (r r' : Raft) : Type 0 where
  pub same_id : r'.id ≡ r.id
  pub same_term : r'.term ≡ r.term
  pub same_vote : r'.vote ≡ r.vote
  pub same_log : r'.raft_log ≡ r.raft_log
  pub same_state : r'.state ≡ r.state
  pub same_votes : r'.votes ≡ r.votes

pub Same-refl : (r : Raft) → Same r r
Same-refl r = ground arith

pub Same-trans : {r s t : Raft} → Same r s → Same s t → Same r t
Same-trans h k = ground arith

pub put_progress-Same : (id : ℕ) (p : Progress) (r : Raft) → Same r (put_progress id p r)
unfolding put_progress
put_progress-Same id p r = ground arith

pub send-Same : (m : Message) (r : Raft) {r' : Raft} → send m r ≡ ok r' → Same r r'
unfolding send
send-Same m r e = ground arith

send_snapshot-Same :
    (to : ℕ) (pr : Progress) (r : Raft) {p : Raft × Bool}
    → send_snapshot to pr r ≡ ok p
    → Same r p.0
unfolding send_snapshot
send_snapshot-Same to pr r e = grind (arith, send-Same, put_progress-Same, Same-trans, Same-refl)

send_entries-Same :
    (to : ℕ) (pr : Progress) (term : ℕ) (ents : List Entry) (r : Raft) {p : Raft × Bool}
    → send_entries to pr term ents r ≡ ok p
    → Same r p.0
unfolding send_entries
send_entries-Same to pr term ents r e = grind (arith, send-Same, put_progress-Same, Same-trans)

send_append_or_snapshot-Same :
    (to : ℕ) (b : Bool) (pr : Progress) (t : Option ℕ) (ents : Option (List Entry)) (r : Raft)
    {p : Raft × Bool}
    → send_append_or_snapshot to b pr t ents r ≡ ok p
    → Same r p.0
unfolding send_append_or_snapshot
send_append_or_snapshot-Same to b pr t ents r e =
    grind (arith, send_entries-Same, send_snapshot-Same, Same-refl)

maybe_send_append-Same :
    (to : ℕ) (b : Bool) (r : Raft) {p : Raft × Bool} → maybe_send_append to b r ≡ ok p → Same r p.0
unfolding maybe_send_append
maybe_send_append-Same to b r e = grind (arith, send_append_or_snapshot-Same, Same-refl)

pub send_append-Same : (to : ℕ) (r : Raft) {r' : Raft} → send_append to r ≡ ok r' → Same r r'
unfolding send_append
send_append-Same to r e = grind (arith, maybe_send_append-Same)

pub send_all-Same : (fuel to : ℕ) (r : Raft) {r' : Raft} → send_all fuel to r ≡ ok r' → Same r r'
unfolding send_all
send_all-Same zero to r e = cc
send_all-Same (suc fuel) to r e =
    grind (arith, maybe_send_append-Same, send_all-Same fuel, Same-trans)

pub for_each_other-Same :
    (f : ℕ → Raft → Outcome Raft)
    → ((to : ℕ) (r r' : Raft) → f to r ≡ ok r' → Same r r')
    → (ids : List ℕ) (r : Raft) {r' : Raft} → for_each_other f ids r ≡ ok r'
    → Same r r'
unfolding for_each_other
for_each_other-Same f h [] r e = grind (arith, Same-refl)
for_each_other-Same f h (to ∷ ids) r e = grind (arith, for_each_other-Same f h ids, Same-trans, h)

pub bcast_append-Same : (r : Raft) {r' : Raft} → bcast_append r ≡ ok r' → Same r r'
unfolding bcast_append
bcast_append-Same r e = for_each_other-Same send_append (λ to s s'. send_append-Same to s) _ r e

send_heartbeat-Same :
    (ctx : Bytes) (to : ℕ) (r : Raft) {r' : Raft} → send_heartbeat ctx to r ≡ ok r' → Same r r'
unfolding send_heartbeat
send_heartbeat-Same ctx to r e = grind (arith, send-Same)

pub bcast_heartbeat_with_ctx-Same :
    (ctx : Bytes) (r : Raft) {r' : Raft} → bcast_heartbeat_with_ctx ctx r ≡ ok r' → Same r r'
unfolding bcast_heartbeat_with_ctx
bcast_heartbeat_with_ctx-Same ctx r e =
    for_each_other-Same (send_heartbeat ctx) (λ to s s'. send_heartbeat-Same ctx to s) _ r e

pub bcast_heartbeat-Same : (r : Raft) {r' : Raft} → bcast_heartbeat r ≡ ok r' → Same r r'
unfolding bcast_heartbeat
bcast_heartbeat-Same r e = bcast_heartbeat_with_ctx-Same _ r e

pub send_timeout_now-Same :
    (to : ℕ) (r : Raft) {r' : Raft} → send_timeout_now to r ≡ ok r' → Same r r'
unfolding send_timeout_now
send_timeout_now-Same to r e = send-Same _ r e
