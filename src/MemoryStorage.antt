-- ===== src/MemoryStorage.antt =====
-- include/yaraft/memory_storage.h and src/memory_storage.cc: a storage in memory. Each method holds
-- the mutex for its whole length, so a call is one step.
pub mod Inv
pub mod Append
pub mod Compact
pub mod Tests
use yaraft.Prelude.{
  ℕ, List, [], ◌∷◌, ◌++◌, Option, none, some, ltb, leb, ◌==◌, if◌then◌else◌, length, get_elem?,
  add64, sub64, Bytes,
}
use yaraft.Outcome.{
  Outcome, ok, panic, compacted, unavailable, snap_out_of_date, ◌>>=◌, ◌>>◌, panic_if, err_if,
  or_fault,
}
use yaraft.Idl.{
  Entry, Snapshot, HardState, ConfState, empty_entry, empty_snapshot, empty_hard_state,
}
use yaraft.Util.{slice, slice_from, limit_size}
use yaraft.Storage.{Storage}

pub record MemoryStorage : Type 0 where
  pub hard_state : HardState
  pub snapshot : Snapshot
  pub ents : List Entry

-- The constructor: a dummy entry at term zero.
unfoldable pub init : MemoryStorage
init = record { hard_state = empty_hard_state; snapshot = empty_snapshot; ents = empty_entry ∷ [] }

-- `ents_[0].index()`
unfoldable pub front_index : MemoryStorage → Outcome ℕ
front_index ms = or_fault (get_elem? ms.ents 0) >>= λ e. ok e.index

unfoldable pub first_index : MemoryStorage → Outcome ℕ
first_index ms = front_index ms >>= λ offset. ok (add64 offset 1)

unfoldable pub last_index : MemoryStorage → Outcome ℕ
last_index ms = front_index ms >>= λ offset. ok (sub64 (add64 offset (length ms.ents)) 1)

unfoldable pub set_hard_state : MemoryStorage → HardState → MemoryStorage
set_hard_state ms st = record ms { hard_state = st }

unfoldable pub initial_state : MemoryStorage → Outcome (HardState × ConfState)
initial_state ms = ok (ms.hard_state, ms.snapshot.metadata_conf_state)

unfoldable pub entries : MemoryStorage → ℕ → ℕ → ℕ → Outcome (List Entry)
entries ms lo hi max_size = do
  offset ← front_index ms
  err_if (leb lo offset) compacted
  last ← last_index ms
  panic_if (ltb (add64 last 1) hi)
  err_if (length ms.ents == 1) unavailable
  ents ← slice (sub64 lo offset) (sub64 hi offset) ms.ents
  ok (limit_size max_size ents)

unfoldable pub term : MemoryStorage → ℕ → Outcome ℕ
term ms i = do
  offset ← front_index ms
  err_if (ltb i offset) compacted
  err_if (leb (length ms.ents) (sub64 i offset)) unavailable
  e ← or_fault (get_elem? ms.ents (sub64 i offset))
  ok e.term

unfoldable pub apply_snapshot : MemoryStorage → Snapshot → Outcome MemoryStorage
apply_snapshot ms snap = do
  err_if (leb snap.metadata_index ms.snapshot.metadata_index) snap_out_of_date
  ok (record ms {
    ents = record empty_entry { term = snap.metadata_term; index = snap.metadata_index } ∷ [];
    snapshot = snap;
  })

-- `*cs`, or what was there where `cs` is null.
conf_state_or : Option ConfState → ConfState → ConfState
conf_state_or none old = old
conf_state_or (some cs) old = cs

unfoldable pub create_snapshot :
    MemoryStorage → ℕ → Option ConfState → Bytes → Outcome (MemoryStorage × Snapshot)
unfolding conf_state_or
create_snapshot ms i cs payload = do
  err_if (leb i ms.snapshot.metadata_index) snap_out_of_date
  offset ← front_index ms
  last ← last_index ms
  panic_if (ltb last i)
  e ← or_fault (get_elem? ms.ents (sub64 i offset))
  let snap = record ms.snapshot {
    metadata_index = i;
    metadata_term = e.term;
    metadata_conf_state = conf_state_or cs ms.snapshot.metadata_conf_state;
    payload = payload;
  }
  ok (record ms { snapshot = snap }, snap)

unfoldable pub compact : MemoryStorage → ℕ → Outcome MemoryStorage
compact ms compact_index = do
  offset ← front_index ms
  err_if (leb compact_index offset) compacted
  last ← last_index ms
  panic_if (ltb last compact_index)
  let i = sub64 compact_index offset
  e ← or_fault (get_elem? ms.ents i)
  rest ← slice_from (add64 i 1) ms.ents
  ok (record ms { ents = record empty_entry { index = e.index; term = e.term } ∷ rest })

-- The entries written at `offset` from the dummy entry.
append_at : MemoryStorage → ℕ → List Entry → Outcome MemoryStorage
append_at ms offset entries =
    if ltb offset (length ms.ents)
    then (slice 0 offset ms.ents >>= λ kept. ok (record ms { ents = kept ++ entries }))
    else if length ms.ents == offset
    then ok (record ms { ents = ms.ents ++ entries })
    else panic

unfoldable pub append : MemoryStorage → List Entry → Outcome MemoryStorage
unfolding append_at
append ms [] = ok ms
append ms (e ∷ es) = do
  first ← first_index ms
  let last = sub64 (add64 e.index (length (e ∷ es))) 1
  let kept = (if ltb e.index first then slice_from (sub64 first e.index) (e ∷ es) else ok (e ∷ es))
  if ltb last first
      then ok ms
      else (kept >>= λ entries. or_fault (get_elem? entries 0) >>= λ e'.
          front_index ms >>= λ front. append_at ms (sub64 e'.index front) entries)

-- The `Storage` that the log sees.
unfoldable pub to_storage : MemoryStorage → Storage
to_storage ms = record {
  initial_state = initial_state ms;
  entries = entries ms;
  term = term ms;
  last_index = last_index ms;
  first_index = first_index ms;
  snapshot = ok ms.snapshot;
}
