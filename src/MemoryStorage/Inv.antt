-- ===== src/MemoryStorage/Inv.antt =====
-- The stored entries as a window of the log behind a dummy entry.
use yaraft.Prelude.{
  ℕ, ◌+◌, ◌-◌, ◌≤◌, ◌<◌, ◌≡◌, refl, ◌⊎◌, inl, inr, List, [], ◌∷◌, Option, some, length, get_elem?,
  get_elem?_within, get_elem?_bound, arith, u64_mod, dec_lt, dec_le, add64, sub64,
}
use yaraft.Outcome.{ok, err, compacted, unavailable, or_fault, ◌>>=◌}
use yaraft.Idl.{Entry}
use yaraft.Entries.{IsRun, index-get_elem?, at_index}
use yaraft.MemoryStorage.{MemoryStorage, init, front_index, first_index, last_index, term}

-- The index of the dummy entry.
abbrev pub dummy : List Entry → ℕ
dummy [] = 0
dummy (d ∷ es) = d.index

-- What is stored at an index, the dummy entry included.
abbrev pub stored_at : MemoryStorage → ℕ → Option Entry
stored_at ms i = at_index (dummy ms.ents) ms.ents i

pub record IsValid (ms : MemoryStorage) : Type 0 where
  pub filled : 0 < length ms.ents
  pub run : IsRun (dummy ms.ents) ms.ents
  pub small : dummy ms.ents + length ms.ents < u64_mod

pub init-IsValid : IsValid init
unfolding init
init-IsValid = record { filled = omega arith; run = (refl, tt); small = omega arith }

front_of :
    (es : List Entry)
    → 0 < length es
    → (or_fault (get_elem? es 0) >>= λ e. ok e.index) ≡ ok (dummy es)
front_of [] h = absurd (omega arith)
front_of (e ∷ es) h = refl

pub front_index_lem : (ms : MemoryStorage) → IsValid ms → front_index ms ≡ ok (dummy ms.ents)
unfolding front_index
front_index_lem ms v = front_of ms.ents v.filled

pub first_index_lem : (ms : MemoryStorage) → IsValid ms → first_index ms ≡ ok (dummy ms.ents + 1)
unfolding first_index
first_index_lem ms v =
    let next : add64 (dummy ms.ents) 1 ≡ dummy ms.ents + 1 = omega (arith, v.small, v.filled) in
    rw (front_index_lem ms v, next) refl

pub last_index_lem :
    (ms : MemoryStorage) → IsValid ms → last_index ms ≡ ok (dummy ms.ents + length ms.ents - 1)
unfolding last_index
last_index_lem ms v =
    let last : sub64 (add64 (dummy ms.ents) (length ms.ents)) 1
        ≡ dummy ms.ents + length ms.ents - 1 =
      omega (arith, v.small, v.filled) in
    rw (front_index_lem ms v, last) refl

-- How `Term` answers for an index.
abbrev pub TermOf : MemoryStorage → ℕ → Type 0
TermOf ms i =
    ((i < dummy ms.ents) × (term ms i ≡ err compacted))
    ⊎ ((dummy ms.ents + length ms.ents ≤ i) × (term ms i ≡ err unavailable))
    ⊎ ((e : Entry) × (stored_at ms i ≡ some e) × (e.index ≡ i) × (term ms i ≡ ok e.term))

term_inside :
    (ms : MemoryStorage) (i : ℕ) (e : Entry)
    → IsValid ms
    → dummy ms.ents ≤ i
    → get_elem? ms.ents (i - dummy ms.ents) ≡ some e
    → term ms i ≡ ok e.term
unfolding term
term_inside ms i e v h f =
    let bound = get_elem?_bound ms.ents (i - dummy ms.ents) f in
    let place : sub64 i (dummy ms.ents) ≡ i - dummy ms.ents = omega (arith, v.small) in
    rw (front_index_lem ms v, place, f) (ground arith)

term_outside :
    (ms : MemoryStorage) (i : ℕ)
    → IsValid ms
    → i < u64_mod
    → ((i < dummy ms.ents) → term ms i ≡ err compacted)
      × ((dummy ms.ents + length ms.ents ≤ i) → term ms i ≡ err unavailable)
unfolding term
term_outside ms i v s = rw (front_index_lem ms v) ((λ h. ground arith), (λ h. ground arith))

-- On a valid storage `Term` gives the term of the entry that is stored at the index, the dummy entry
-- included; below it the error is `compacted`, above the last entry `unavailable`, for an index below 2^64.
pub term_lem : (ms : MemoryStorage) (i : ℕ) → IsValid ms → i < u64_mod → TermOf ms i
term_lem ms i v s = elim (dec_lt i (dummy ms.ents)) [
  | yes h ↦ inl (h, (term_outside ms i v s).0 h)
  | no h ↦ elim (dec_le (dummy ms.ents + length ms.ents) i) [
    | yes k ↦ inr (inl (k, (term_outside ms i v s).1 k))
    | no k ↦
        let (e, f) = get_elem?_within ms.ents (i - dummy ms.ents) (omega arith) in
        inr (
          inr (
            e,
            ground arith,
            omega (arith, index-get_elem? (dummy ms.ents) ms.ents (i - dummy ms.ents) v.run f),
            term_inside ms i e v (omega arith) f,
          ))
  ]
]
