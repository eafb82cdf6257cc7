-- ===== src/Raft/Acks.antt =====
-- What the answers of a follower do to its progress.
use yaraft.Prelude.{
  Bool, subst, sym, List, [], ◌∷◌, true, false, ltb, dec_lt, if◌then◌else◌, leb, inl, inr, ℕ, ◌+◌,
  ◌<◌, ◌≡◌, ◌≢◌, refl, ◌⊎◌, arith, u64_mod,
}
use yaraft.Outcome.{ok}
use yaraft.Inflights.{reset}
use yaraft.Inflights.Refine.{contents, drop_up_to, free_to_refines}
use yaraft.Progress.{
  Progress, StateType, probe, replicate, snapshot, become_probe, become_replicate,
  need_snapshot_abort,
}
use yaraft.Progress.Inv.{IsValid, become_probe-IsValid, become_replicate-IsValid}
use yaraft.Raft.Leader.{after_match}

-- The state in which a follower goes on once its match has gone up.
abbrev pub next_state : Progress → StateType
next_state p = elim p.state [
  | probe ↦ replicate
  | replicate ↦ replicate
  | snapshot ↦ if leb p.pending_snapshot p.matched then probe else snapshot
]

-- All indexes are behind `i`.
abbrev pub AllAfter : ℕ → List ℕ → Type 0
AllAfter i [] = Unit {0}
AllAfter i (x ∷ xs) = (i < x) × AllAfter i xs

abbrev pub IsAscending : List ℕ → Type 0
IsAscending [] = Unit {0}
IsAscending (x ∷ xs) = AllAfter x xs × IsAscending xs

AllAfter-trans : (i j : ℕ) (xs : List ℕ) → i < j → AllAfter j xs → AllAfter i xs
AllAfter-trans i j [] h a = tt
AllAfter-trans i j (x ∷ xs) h (l, a) = (omega (arith, l), AllAfter-trans i j xs h a)

-- Behind the first larger index all are larger.
drop_up_to-AllAfter :
    (to : ℕ) (xs : List ℕ)
    → IsAscending xs
    → AllAfter to (drop_up_to to xs) × IsAscending (drop_up_to to xs)
drop_up_to-AllAfter to [] h = (tt, tt)
drop_up_to-AllAfter to (x ∷ xs) (a, h) = elim (dec_lt to x) [
  | yes above ↦
      let first : ltb to x ≡ true = ground arith in
      rw first ((above, AllAfter-trans to x xs above a), (a, h))
  | no below ↦ let first : ltb to x ≡ false = ground arith in rw first (drop_up_to-AllAfter to xs h)
]

-- The progress `p'` in which `p` goes on.
abbrev pub GoesOn : ℕ → Progress → Progress → Type 0
GoesOn index p p' =
    (after_match index p ≡ ok p')
    × IsValid p'
    × (p'.matched ≡ p.matched)
    × (p'.state ≡ next_state p)
    × ((p.state ≢ replicate) ⊎ (contents p'.ins ≡ drop_up_to index (contents p.ins)))
    × (((p.state ≡ snapshot) × (p' ≡ p))
        ⊎ (AllAfter index (contents p'.ins) × IsAscending (contents p'.ins)))

state-cases : (s : StateType) → (s ≡ probe) ⊎ (s ≡ replicate) ⊎ (s ≡ snapshot)
state-cases probe = inl refl
state-cases replicate = inr (inl refl)
state-cases snapshot = inr (inr refl)

after_match-probe :
    (index : ℕ) (p : Progress) → IsValid p → p.state ≡ probe → GoesOn index p (become_replicate p)
unfolding after_match become_replicate reset
after_match-probe index p v s = (
  ground arith,
  become_replicate-IsValid p v,
  refl,
  ground arith,
  inl (ground arith),
  inr (tt, tt),
)

window_reset : (p : Progress) → p.state ≡ snapshot → contents (become_probe p).ins ≡ []
unfolding become_probe reset
window_reset p s = rw s refl

pending_or_probing :
    (index : ℕ) (p : Progress)
    → p.state ≡ snapshot
    → (b : Bool)
    → ((p.state ≡ snapshot) × ((if b then become_probe p else p) ≡ p))
      ⊎ (AllAfter index (contents (if b then become_probe p else p).ins)
          × IsAscending (contents (if b then become_probe p else p).ins))
pending_or_probing index p s true =
    inr (subst (λ xs. AllAfter index xs × IsAscending xs) (sym (window_reset p s)) (tt, tt))
pending_or_probing index p s false = inl (s, refl)

after_match-snapshot :
    (index : ℕ) (p : Progress)
    → IsValid p
    → p.pending_snapshot + 1 < u64_mod
    → p.state ≡ snapshot
    → GoesOn index p (if need_snapshot_abort p then become_probe p else p)
unfolding after_match become_probe need_snapshot_abort
after_match-snapshot index p v h s = (
  ground arith,
  ground (arith, become_probe-IsValid p v h),
  ground arith,
  ground arith,
  inl (ground arith),
  pending_or_probing index p s (need_snapshot_abort p),
)

-- An acknowledgement that raises the match is always taken: the progress stays valid and keeps its match, a follower
-- that was probing replicates, one that has caught up with its snapshot probes behind it, and one that was
-- replicating frees its inflights up to the first that is larger than the acknowledged index. Then no inflight up to
-- that index is left, and those that are left ascend, unless the follower goes on to wait for its snapshot,
-- unchanged. The progress is valid, its inflights ascend, and its pending snapshot is below 2^64 - 1.
pub after_match_lem :
    (index : ℕ) (p : Progress)
    → IsValid p
    → p.pending_snapshot + 1 < u64_mod
    → IsAscending (contents p.ins)
    → (p' : Progress) × GoesOn index p p'
unfolding after_match
after_match_lem index p v h asc = elim (state-cases p.state) [
  | inl s ↦ (become_replicate p, after_match-probe index p v s)
  | inr (inl s) ↦
      let (ins, run, valid, cap, rest) = free_to_refines p.ins index v.window in
      let left = rw (sym rest) at (drop_up_to-AllAfter index (contents p.ins) asc) in
      (record p { ins = ins }, (ground arith, ground arith, refl, ground arith, inr rest, inr left))
  | inr (inr s) ↦ (_, after_match-snapshot index p v h s)
]
