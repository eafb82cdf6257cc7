-- ===== src/Unstable/Window.antt =====
-- The terms of the unstable entries where no snapshot waits.
use yaraft.Prelude.{
  ℕ, ◌+◌, ◌-◌, ◌<◌, ◌≡◌, refl, List, [], Option, none, some, length, get_elem?_within, ◌⊎◌, inl,
  inr, dec_lt, arith,
}
use yaraft.Outcome.{ok}
use yaraft.Idl.{Entry}
use yaraft.Unstable.{Unstable, maybe_last_index, maybe_term, snapshot_term, entry_term, last_of}
use yaraft.Unstable.Lookup.{entry_at, IsSmall}
use yaraft.Unstable.Stable.{maybe_term_inside, maybe_term_beyond, entry_at_beyond}

pub maybe_last_index_empty :
    (u : Unstable) → u.entries ≡ [] → u.snapshot ≡ none → maybe_last_index u ≡ none
unfolding maybe_last_index last_of
maybe_last_index_empty u h k = rw (h, k) refl

maybe_term_empty :
    (u : Unstable) (i : ℕ) → u.entries ≡ [] → u.snapshot ≡ none → maybe_term u i ≡ ok none
unfolding maybe_term snapshot_term entry_term
maybe_term_empty u i h k = ground (arith, maybe_last_index_empty u h k, k)

maybe_term_low :
    (u : Unstable) (i : ℕ) → i < u.offset → u.snapshot ≡ none → maybe_term u i ≡ ok none
unfolding maybe_term snapshot_term
maybe_term_low u i h k = ground (arith, k)

pub entries-cases : (es : List Entry) → (es ≡ []) ⊎ (0 < length es)
entries-cases es = ground arith

abbrev pub term? : Option Entry → Option ℕ
term? none = none
term? (some e) = some e.term

-- The window shows the terms of its entries.
pub maybe_term_window :
    (u : Unstable) (i : ℕ)
    → IsSmall u
    → u.snapshot ≡ none
    → maybe_term u i ≡ ok (term? (entry_at u i))
maybe_term_window u i s k = elim (entries-cases u.entries) [
  | inl empty ↦ ground (arith, maybe_term_empty u i empty k, empty)
  | inr full ↦ elim (dec_lt i u.offset) [
    | yes low ↦ ground (arith, maybe_term_low u i low k)
    | no high ↦ elim (dec_lt i (u.offset + length u.entries)) [
      | no beyond ↦ ground (arith, maybe_term_beyond u i s full, entry_at_beyond u i)
      | yes within ↦
          let (e, f) = get_elem?_within u.entries (i - u.offset) (omega arith) in
          ground (arith, maybe_term_inside u i e s (omega arith) within f, f)
    ]
  ]
]
