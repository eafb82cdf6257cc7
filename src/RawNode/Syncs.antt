-- ===== src/RawNode/Syncs.antt =====
-- When a Ready says that its writes must be synchronous.
use yaraft.Prelude.{
  ◌∙◌, ap, sym, if◌then◌else◌, ℕ, ◌<◌, ◌≡◌, ◌≢◌, refl, ◌⊎◌, inl, inr, true, false, List, [], ◌∷◌,
  length, arith,
}
use yaraft.Outcome.{ok, bind-ok}
use yaraft.Idl.{Entry, HardState, empty_hard_state, is_hard_state_equal}
use yaraft.RaftLog
use yaraft.Raft.State.{Raft, SoftState, hard_state}
use yaraft.RawNode.{Ready, clamp_commit, must_sync, new_ready}

clamp_commit-kept :
    (st : HardState) (es : List Entry)
    → ((clamp_commit st es).term ≡ st.term) × ((clamp_commit st es).vote ≡ st.vote)
unfolding clamp_commit
clamp_commit-kept st [] = (refl, refl)
clamp_commit-kept st (e ∷ []) = ground arith
clamp_commit-kept st (e ∷ e' ∷ es) = clamp_commit-kept st (e' ∷ es)

-- Nothing to write, and the term and the vote that were written before.
pub record IsClean (ph : HardState) (r : Raft) (rd : Ready) : Type 0 where
  pub async : rd.must_sync ≡ false
  pub nothing : length rd.entries ≡ 0
  pub all : RaftLog.unstable_entries r.raft_log ≡ rd.entries
  pub same_term : r.term ≡ ph.term
  pub same_vote : r.vote ≡ ph.vote

-- What calls for a synchronous write: `n` new entries, a new term, a new vote, or a hard state that is the one before.
abbrev pub Cause : HardState → HardState → ℕ → Type 0
Cause ph st n =
    (0 < n)
    ⊎ (st.term ≢ ph.term)
    ⊎ (st.vote ≢ ph.vote)
    ⊎ ((is_hard_state_equal st ph ≡ true) × ((0 < ph.term) ⊎ (0 < ph.vote)))

must_sync_cases :
    (ph st h : HardState) (n : ℕ)
    → h.term ≡ st.term
    → h.vote ≡ st.vote
    → ((must_sync (if is_hard_state_equal st ph then empty_hard_state else h) ph n ≡ false)
        × (n ≡ 0)
        × (st.term ≡ ph.term)
        × (st.vote ≡ ph.vote))
      ⊎ ((must_sync (if is_hard_state_equal st ph then empty_hard_state else h) ph n ≡ true)
          × Cause ph st n)
unfolding must_sync is_hard_state_equal
must_sync_cases ph st h n t v = ground arith

ready_is : {a b : Ready} → ok a ≡ ok b → a ≡ b
ready_is e = cc

-- A Ready need not be written synchronously only if the log has no entries to store and the term and the vote are
-- those of the hard state before. Where it must be, there are such entries, a new term or a new vote,
-- or else the hard state is the one before, and this has a term or a vote.
pub new_ready-syncs :
    (ps : SoftState) (ph : HardState) (r : Raft) {rd : Ready}
    → new_ready ps ph r ≡ ok rd
    → IsClean ph r rd
      ⊎ ((rd.must_sync ≡ true)
          × Cause ph (hard_state r) (length (RaftLog.unstable_entries r.raft_log)))
unfolding new_ready hard_state
new_ready-syncs ps ph r {rd = rd} run =
    let (committed, one, rest) = bind-ok (RaftLog.next_ents r.raft_log) _ run in
    let (t, v) = clamp_commit-kept (hard_state r) committed in
    let same : rd.must_sync
        ≡ must_sync
            (if is_hard_state_equal (hard_state r) ph
              then empty_hard_state
              else clamp_commit (hard_state r) committed)
            ph (length (RaftLog.unstable_entries r.raft_log)) =
      ap (λ x. x.must_sync) (sym (ready_is rest)) in
    let all : rd.entries ≡ RaftLog.unstable_entries r.raft_log =
      ap (λ x. x.entries) (sym (ready_is rest)) in
    elim (must_sync_cases ph (hard_state r) (clamp_commit (hard_state r) committed)
      (length (RaftLog.unstable_entries r.raft_log)) t v) [
        | inl (async, none_new, term, vote) ↦ inl (record {
          async = same ∙ async;
          nothing = ap length all ∙ none_new;
          all = sym all;
          same_term = term;
          same_vote = vote;
        })
        | inr (sync, cause) ↦ inr (same ∙ sync, cause)
      ]
