-- ===== src/Progress.antt =====
-- include/yaraft/progress.h and src/progress.cc: a follower as its leader sees it.
pub mod Inv
mod Tests
use yaraft.Prelude.{
  ℕ, Bool, true, false, ◌&&◌, ltb, leb, ◌==◌, if◌then◌else◌, not, add64, sub64, min, max, Option,
  none, some,
}
use yaraft.Inflights
use yaraft.Inflights.{Inflights}
use yaraft.Outcome.{Outcome, ok, fault, ◌>>=◌, or_fault}

pub data StateType : Type 0 where
  probe replicate snapshot : StateType

-- `ins` is `none` until `Ins` has made the window.
pub record Progress : Type 0 where
  pub next : ℕ
  pub matched : ℕ
  pub state : StateType
  pub paused : Bool
  pub pending_snapshot : ℕ
  pub recent_active : Bool
  pub ins : Inflights
  pub is_learner : Bool

-- `Progress().Next(next).Match(match).Ins(cap).IsLearner(is_learner)`, with the capacity that the
-- window gets.
unfoldable pub make : ℕ → ℕ → ℕ → Bool → Progress
make next matched capacity is_learner = record {
  next = next;
  matched = matched;
  state = probe;
  paused = false;
  pending_snapshot = 0;
  recent_active = false;
  ins = Inflights.init capacity;
  is_learner = is_learner;
}

unfoldable pub reset_state : StateType → Progress → Progress
reset_state st p = record p {
  state = st;
  paused = false;
  pending_snapshot = 0;
  ins = Inflights.reset p.ins;
}

unfoldable pub become_probe : Progress → Progress
unfolding reset_state
become_probe p = elim p.state [
  | snapshot ↦
      let pending = p.pending_snapshot in
      record (reset_state probe p) { next = max (add64 p.matched 1) (add64 pending 1) }
  | _ ↦ record (reset_state probe p) { next = add64 p.matched 1 }
]

unfoldable pub become_replicate : Progress → Progress
unfolding reset_state
become_replicate p = record (reset_state replicate p) { next = add64 p.matched 1 }

unfoldable pub become_snapshot : ℕ → Progress → Progress
unfolding reset_state
become_snapshot i p = record (reset_state snapshot p) { pending_snapshot = i }

unfoldable pub pause : Progress → Progress
pause p = record p { paused = true }

unfoldable pub resume : Progress → Progress
resume p = record p { paused = false }

unfoldable pub maybe_update : ℕ → Progress → Progress × Bool
unfolding resume
maybe_update n p =
    let updated = ltb p.matched n in
    let p' = if updated then resume (record p { matched = n }) else p in
    (if ltb p'.next (add64 n 1) then record p' { next = add64 n 1 } else p', updated)

unfoldable pub optimistic_update : ℕ → Progress → Progress
optimistic_update n p = record p { next = add64 n 1 }

is_replicate : StateType → Bool
is_replicate replicate = true
is_replicate _ = false

decr_probing : ℕ → ℕ → Progress → Progress × Bool
unfolding resume
decr_probing rejected last p =
    if not (sub64 p.next 1 == rejected)
    then (p, false)
    else (let next' = min rejected (add64 last 1) in
        (resume (record p { next = if ltb next' 1 then 1 else next' }), true))

unfoldable pub maybe_decr_to : ℕ → ℕ → Progress → Progress × Bool
unfolding decr_probing
maybe_decr_to rejected last p = elim p.state [
  | replicate ↦
      if leb rejected p.matched then (p, false) else (record p { next = add64 p.matched 1 }, true)
  | _ ↦ decr_probing rejected last p
]

unfoldable pub is_paused : Progress → Bool
is_paused p = elim p.state [ probe ↦ p.paused | replicate ↦ Inflights.full p.ins | snapshot ↦ true ]

unfoldable pub snapshot_failure : Progress → Progress
snapshot_failure p = record p { pending_snapshot = 0 }

unfoldable pub need_snapshot_abort : Progress → Bool
need_snapshot_abort p = elim p.state [ snapshot ↦ leb p.pending_snapshot p.matched | _ ↦ false ]
