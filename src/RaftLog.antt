-- ===== src/RaftLog.antt =====
-- src/raft_log.h: the log of a node, stable entries in the storage and later ones in `Unstable`.
-- `String`, `ltoa` and `allEntries` serve logging and tests.
pub mod Commit
pub mod Append
pub mod Match
pub mod Persist
pub mod Tests
use yaraft.Prelude.{
  ℕ, ◌-◌, Bool, true, false, ◌&&◌, ◌||◌, List, [], ◌∷◌, ◌++◌, Option, none, some, ltb, leb, ◌==◌,
  if◌then◌else◌, length, get_elem?, add64, sub64, min, max,
}
use yaraft.Outcome.{
  Outcome, ok, err, panic, fault, Error, compacted, unavailable, ◌>>=◌, ◌>>◌, panic_if, err_if,
  or_fault, get_value,
}
use yaraft.Idl.{Entry, Snapshot}
use yaraft.Util.{slice_from, limit_size}
use yaraft.Storage.{Storage}
use yaraft.Unstable
use yaraft.Unstable.{Unstable}

pub record RaftLog : Type 0 where
  pub storage : Storage
  pub unstable : Unstable
  pub committed : ℕ
  pub applied : ℕ
  pub max_msg_size : ℕ

-- The constructor; a null storage is not a value of the model.
unfoldable pub init : Storage → ℕ → Outcome RaftLog
init storage max_msg_size = do
  first ← get_value storage.first_index
  last ← get_value storage.last_index
  ok (record {
    storage = storage;
    unstable = record { snapshot = none; entries = []; offset = add64 last 1 };
    committed = sub64 first 1;
    applied = sub64 first 1;
    max_msg_size = max_msg_size;
  })

value_or : Option ℕ → Outcome ℕ → Outcome ℕ
value_or (some i) stored = ok i
value_or none stored = get_value stored

unfoldable pub first_index : RaftLog → Outcome ℕ
unfolding value_or
first_index l = value_or (Unstable.maybe_first_index l.unstable) l.storage.first_index

unfoldable pub last_index : RaftLog → Outcome ℕ
unfolding value_or
last_index l = value_or (Unstable.maybe_last_index l.unstable) l.storage.last_index

-- Of the storage's errors only two are passed on.
pass_on : Outcome ℕ → Outcome ℕ
pass_on (ok t) = ok t
pass_on (err compacted) = err compacted
pass_on (err unavailable) = err unavailable
pass_on (err _) = panic
pass_on panic = panic
pass_on fault = fault

pub term_or : Option ℕ → Outcome ℕ → Outcome ℕ
unfolding pass_on
term_or (some t) stored = ok t
term_or none stored = pass_on stored

unfoldable pub term : RaftLog → ℕ → Outcome ℕ
unfolding term_or
term l i = do
  first ← first_index l
  last ← last_index l
  let dummy_index = sub64 first 1
  if ltb i dummy_index || ltb last i
      then ok 0
      else (Unstable.maybe_term l.unstable i >>= λ t. term_or t (l.storage.term i))

unfoldable pub last_term : RaftLog → Outcome ℕ
last_term l = last_index l >>= λ last. get_value (term l last)

unfoldable pub zero_term_on_err_compacted : Outcome ℕ → Outcome ℕ
zero_term_on_err_compacted (ok t) = ok t
zero_term_on_err_compacted (err compacted) = ok 0
zero_term_on_err_compacted (err _) = panic
zero_term_on_err_compacted panic = panic
zero_term_on_err_compacted fault = fault

same_term : ℕ → Outcome ℕ → Outcome Bool
same_term t (ok t') = ok (t == t')
same_term t (err _) = ok false
same_term t panic = panic
same_term t fault = fault

unfoldable pub match_term : RaftLog → ℕ → ℕ → Outcome Bool
unfolding same_term
match_term l i t = same_term t (term l i)

unfoldable pub is_up_to_date : RaftLog → ℕ → ℕ → Outcome Bool
is_up_to_date l index t = do
  ours ← last_term l
  last ← last_index l
  ok (ltb ours t || ((t == ours) && leb last index))

-- The message about a conflict evaluates the existing term.
log_conflict : RaftLog → ℕ → Outcome (Unit {0})
log_conflict l i = do
  last ← last_index l
  if leb i last then (zero_term_on_err_compacted (term l i) >>= λ _. ok tt) else ok tt

unfoldable pub find_conflict : RaftLog → List Entry → Outcome ℕ
unfolding log_conflict
find_conflict l [] = ok 0
find_conflict l (ne ∷ ents) =
    let rest = find_conflict l ents in
    match_term l ne.index ne.term >>= λ same. elim same [
      | true ↦ rest
      | false ↦ log_conflict l ne.index >> ok ne.index
    ]

unfoldable pub append : RaftLog → List Entry → Outcome (RaftLog × ℕ)
append l [] = last_index l >>= λ last. ok (l, last)
append l (e ∷ es) = do
  panic_if (ltb (sub64 e.index 1) l.committed)
  u ← Unstable.truncate_and_append l.unstable (e ∷ es)
  let l' = record l { unstable = u }
  last ← last_index l'
  ok (l', last)

unfoldable pub commit_to : RaftLog → ℕ → Outcome RaftLog
commit_to l to_commit =
    if ltb l.committed to_commit
    then (last_index l >>= λ last.
        panic_if (ltb last to_commit) >> ok (record l { committed = to_commit }))
    else ok l

-- The part of `maybeAppend` between `findConflict` and `commitTo`.
append_from : RaftLog → ℕ → List Entry → ℕ → Outcome RaftLog
append_from l index ents ci =
    if ci == 0
    then ok l
    else if leb ci l.committed
    then panic
    else (slice_from (sub64 ci (add64 index 1)) ents >>= λ rest.
        append l rest >>= λ appended. ok appended.0)

-- `{lastnewi, true}` is `some lastnewi`, `{0, false}` is `none`.
unfoldable pub maybe_append : RaftLog → ℕ → ℕ → ℕ → List Entry → Outcome (RaftLog × Option ℕ)
unfolding append_from
maybe_append l index log_term committed ents = match_term l index log_term >>= λ matches.
    if matches
    then (do
      let lastnewi = add64 index (length ents)
      ci ← find_conflict l ents
      l' ← append_from l index ents ci
      l'' ← commit_to l' (min committed lastnewi)
      ok (l'', some lastnewi))
    else ok (l, none)

unfoldable pub must_check_out_of_bounds : RaftLog → ℕ → ℕ → Outcome (Unit {0})
must_check_out_of_bounds l lo hi = do
  panic_if (ltb hi lo)
  fi ← first_index l
  err_if (ltb lo fi) compacted
  last ← last_index l
  let len = sub64 (add64 last 1) fi
  panic_if (ltb lo fi || ltb (add64 fi len) hi)

-- The stored part of a slice: only the error `compacted` is passed on.
stored_part : Outcome (List Entry) → Outcome (List Entry)
stored_part (ok ents) = ok ents
stored_part (err compacted) = err compacted
stored_part (err _) = panic
stored_part panic = panic
stored_part fault = fault

-- The unstable part, behind the stored one.
with_unstable : RaftLog → ℕ → ℕ → ℕ → List Entry → Outcome (List Entry)
with_unstable l lo hi max_size ents =
    if ltb l.unstable.offset hi
    then (Unstable.slice l.unstable (max lo l.unstable.offset) hi >>= λ rest.
        ok (limit_size max_size (ents ++ rest)))
    else ok (limit_size max_size ents)

unfoldable pub slice : RaftLog → ℕ → ℕ → ℕ → Outcome (List Entry)
unfolding stored_part with_unstable
slice l lo hi max_size =
    must_check_out_of_bounds l lo hi
    >> (if lo == hi
        then ok []
        else if ltb lo l.unstable.offset
        then (let mid = min hi l.unstable.offset in
            stored_part (l.storage.entries lo mid max_size) >>= λ stored.
            if ltb (length stored) (sub64 mid lo)
            then ok stored
            else with_unstable l lo hi max_size stored)
        else with_unstable l lo hi max_size [])

unfoldable pub entries : RaftLog → ℕ → ℕ → Outcome (List Entry)
entries l i max_size =
    last_index l >>= λ last. if ltb last i then ok [] else slice l i (add64 last 1) max_size

unfoldable pub unstable_entries : RaftLog → List Entry
unstable_entries l = l.unstable.entries

unfoldable pub has_next_ents : RaftLog → Outcome Bool
has_next_ents l =
    first_index l >>= λ first. ok (ltb (max (add64 l.applied 1) first) (add64 l.committed 1))

unfoldable pub next_ents : RaftLog → Outcome (List Entry)
next_ents l = do
  first ← first_index l
  let off = max (add64 l.applied 1) first
  if ltb off (add64 l.committed 1)
      then get_value (slice l off (add64 l.committed 1) l.max_msg_size)
      else ok []

unfoldable pub snapshot : RaftLog → Outcome Snapshot
snapshot l = elim l.unstable.snapshot [ none ↦ l.storage.snapshot | some s ↦ ok s ]

unfoldable pub applied_to : RaftLog → ℕ → Outcome RaftLog
applied_to l i =
    if i == 0
    then ok l
    else (panic_if (ltb l.committed i || ltb i l.applied) >> ok (record l { applied = i }))

unfoldable pub stable_to : RaftLog → ℕ → ℕ → Outcome RaftLog
stable_to l i t = Unstable.stable_to l.unstable i t >>= λ u. ok (record l { unstable = u })

-- Its body is empty.
unfoldable pub stable_snap_to : RaftLog → ℕ → RaftLog
stable_snap_to l i = l

unfoldable pub maybe_commit : RaftLog → ℕ → ℕ → Outcome (RaftLog × Bool)
maybe_commit l max_index t =
    if ltb l.committed max_index
    then (zero_term_on_err_compacted (term l max_index) >>= λ t'.
        if t' == t then (commit_to l max_index >>= λ l'. ok (l', true)) else ok (l, false))
    else ok (l, false)

unfoldable pub restore : RaftLog → Snapshot → RaftLog
restore l snap = record l { committed = snap.metadata_index; unstable = Unstable.restore snap }
