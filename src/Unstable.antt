-- ===== src/Unstable.antt =====
-- src/unstable.h: the entries and the snapshot that are not in stable storage yet.
pub mod Lookup
pub mod Stable
pub mod Window
mod Tests
use yaraft.Prelude.{
  ℕ, ◌&&◌, ◌||◌, List, [], ◌∷◌, ◌++◌, Option, none, some, ltb, leb, ◌==◌, if◌then◌else◌, length,
  get_elem?, add64, sub64,
}
use yaraft.Outcome.{Outcome, ok, fault, ◌>>=◌, ◌>>◌, panic_if, or_fault}
use yaraft.Idl.{Entry, Snapshot}
use yaraft.Util
use yaraft.Util.{slice_from}

pub record Unstable : Type 0 where
  pub snapshot : Option Snapshot
  pub entries : List Entry
  pub offset : ℕ

-- The pairs `{i, ok}` of the source are options.
unfoldable pub maybe_first_index : Unstable → Option ℕ
maybe_first_index u = elim u.snapshot [ none ↦ none | some s ↦ some (add64 s.metadata_index 1) ]

last_of : ℕ → List Entry → Option Snapshot → Option ℕ
last_of offset (e ∷ es) _ = some (sub64 (add64 offset (length (e ∷ es))) 1)
last_of offset [] (some s) = some s.metadata_index
last_of offset [] none = none

unfoldable pub maybe_last_index : Unstable → Option ℕ
unfolding last_of
maybe_last_index u = last_of u.offset u.entries u.snapshot

pub snapshot_term : Option Snapshot → ℕ → Option ℕ
snapshot_term none i = none
snapshot_term (some s) i = if s.metadata_index == i then some s.metadata_term else none

entry_term : Unstable → ℕ → Option ℕ → Outcome (Option ℕ)
entry_term u i none = ok none
entry_term u i (some last) =
    if ltb last i
    then ok none
    else (or_fault (get_elem? u.entries (sub64 i u.offset)) >>= λ e. ok (some e.term))

unfoldable pub maybe_term : Unstable → ℕ → Outcome (Option ℕ)
unfolding snapshot_term entry_term
maybe_term u i =
    if ltb i u.offset then ok (snapshot_term u.snapshot i) else entry_term u i (maybe_last_index u)

-- `shrinkEntriesArray` moves the entries to a smaller array and leaves them as they are.
cut_to : Unstable → ℕ → ℕ → Option ℕ → Outcome Unstable
cut_to u i t none = ok u
cut_to u i t (some gt) =
    if (gt == t) && leb u.offset i
    then (slice_from (sub64 (add64 i 1) u.offset) u.entries >>= λ rest.
        ok (record u { entries = rest; offset = add64 i 1 }))
    else ok u

unfoldable pub stable_to : Unstable → ℕ → ℕ → Outcome Unstable
unfolding cut_to
stable_to u i t = maybe_term u i >>= cut_to u i t

unfoldable pub stable_snap_to : Unstable → ℕ → Unstable
stable_snap_to u i = elim u.snapshot [
  | none ↦ u
  | some s ↦ if s.metadata_index == i then record u { snapshot = none } else u
]

unfoldable pub restore : Snapshot → Unstable
restore s = record { snapshot = some s; entries = []; offset = add64 s.metadata_index 1 }

unfoldable pub must_check_out_of_bounds : Unstable → ℕ → ℕ → Outcome (Unit {0})
must_check_out_of_bounds u lo hi = do
  panic_if (ltb hi lo)
  panic_if (ltb lo u.offset || ltb (add64 u.offset (length u.entries)) hi)

unfoldable pub slice : Unstable → ℕ → ℕ → Outcome (List Entry)
slice u lo hi = do
  must_check_out_of_bounds u lo hi
  Util.slice (sub64 lo u.offset) (sub64 hi u.offset) u.entries

-- `entries = slice(offset, after)`: the assignment of a span clears the vector first and then copies the
-- span, so a span of the vector itself is read after its elements are destroyed, unless it is empty.
assign_own : List Entry → Outcome (List Entry)
assign_own [] = ok []
assign_own (e ∷ es) = fault

unfoldable pub truncate_and_append : Unstable → List Entry → Outcome Unstable
unfolding assign_own
truncate_and_append u ents = or_fault (get_elem? ents 0) >>= λ e.
    let after = e.index in
    if after == add64 u.offset (length u.entries)
    then ok (record u { entries = u.entries ++ ents })
    else if leb after u.offset
    then ok (record u { offset = after; entries = ents })
    else (slice u u.offset after >>= assign_own >>= λ kept.
        ok (record u { entries = kept ++ ents }))
