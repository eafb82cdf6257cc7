-- ===== src/MemoryStorage/Append.antt =====
-- `Append` on the stored entries.
use yaraft.Prelude.{
  ℕ, zero, suc, ◌+◌, ◌-◌, ◌≤◌, ◌<◌, ◌≡◌, refl, ◌∙◌, ◌⊎◌, inl, inr, true, false, ◌||◌, List, [], ◌∷◌,
  ◌++◌, ltb, leb, if◌then◌else◌, length, get_elem?, take, drop, length-append, length-take,
  length-drop, get_elem?-drop, take_all, arith, u64_mod, dec_lt, dec_le, add64, sub64,
}
use yaraft.Outcome.{ok, panic, or_fault, ◌>>=◌}
use yaraft.Idl.{Entry}
use yaraft.Entries.{IsRun, at_index-splice, IsRun-append, IsRun-take, IsRun-drop}
use yaraft.Util
use yaraft.MemoryStorage.{MemoryStorage, front_index, append, append_at}
use yaraft.MemoryStorage.Inv.{dummy, stored_at, IsValid, front_index_lem, first_index_lem}

-- The stored entries from place `n` on replaced.
abbrev replaced : MemoryStorage → ℕ → List Entry → MemoryStorage
replaced ms n entries = record ms { ents = take n ms.ents ++ entries }

dummy-replaced :
    (es : List Entry) (n : ℕ) (entries : List Entry)
    → 0 < n
    → 0 < length es
    → dummy (take n es ++ entries) ≡ dummy es
dummy-replaced [] n entries h k = absurd (omega arith)
dummy-replaced (d ∷ es) zero entries h k = absurd (omega arith)
dummy-replaced (d ∷ es) (suc n) entries h k = refl

replaced-IsValid :
    (ms : MemoryStorage) (n : ℕ) (entries : List Entry)
    → IsValid ms
    → 0 < n
    → n ≤ length ms.ents
    → IsRun (dummy ms.ents + n) entries
    → dummy ms.ents + n + length entries < u64_mod
    → IsValid (replaced ms n entries)
replaced-IsValid ms n entries v h k r s =
    let same = dummy-replaced ms.ents n entries h v.filled in
    let len : length (take n ms.ents ++ entries) ≡ n + length entries =
      omega (arith, length-append (take n ms.ents) entries, length-take n ms.ents) in
    let front : length (take n ms.ents) ≡ n = omega (arith, length-take n ms.ents) in
    record {
      filled = omega (arith, len);
      run = rw same (
          IsRun-append (dummy ms.ents) (take n ms.ents) entries
            (IsRun-take (dummy ms.ents) n ms.ents v.run) (rw front r));
      small = omega (arith, len, same);
    }

stored_at-replaced :
    (ms : MemoryStorage) (n : ℕ) (entries : List Entry) (i : ℕ)
    → IsValid ms
    → 0 < n
    → n ≤ length ms.ents
    → stored_at (replaced ms n entries) i ≡ (
        if ltb i (dummy ms.ents + n)
        then stored_at ms i
        else get_elem? entries (i - (dummy ms.ents + n)))
stored_at-replaced ms n entries i v h k =
    rw (dummy-replaced ms.ents n entries h v.filled)
      (at_index-splice (dummy ms.ents) n ms.ents entries i k)

append_at_lem :
    (ms : MemoryStorage) (n : ℕ) (entries : List Entry)
    → n ≤ length ms.ents
    → append_at ms n entries ≡ ok (replaced ms n entries)
unfolding append_at Util.slice
append_at_lem ms n entries h = elim (dec_lt n (length ms.ents)) [
  | yes k ↦ let whole : n - 0 ≡ n = omega arith in rw whole (ground arith)
  | no k ↦ let all : n ≡ length ms.ents = omega arith in rw (all, take_all ms.ents) (ground arith)
]

append_at_gap :
    (ms : MemoryStorage) (n : ℕ) (entries : List Entry)
    → length ms.ents < n
    → append_at ms n entries ≡ panic
unfolding append_at
append_at_gap ms n entries h = ground arith

-- `entries` from their first index on, behind the dummy entry.
written :
    (ms : MemoryStorage) (b : ℕ) (entries : List Entry)
    → IsValid ms
    → 0 < length entries
    → IsRun b entries
    → dummy ms.ents < b
    → b < u64_mod
    → (or_fault (get_elem? entries 0) >>= λ e.
        front_index ms >>= λ front. append_at ms (sub64 e.index front) entries)
      ≡ append_at ms (b - dummy ms.ents) entries
written ms b [] v h r k s = absurd (omega arith)
written ms b (x ∷ xs) v h (at, r) k s =
    let place : sub64 b (dummy ms.ents) ≡ b - dummy ms.ents = omega arith in
    rw (front_index_lem ms v, at, place) refl

-- The three ways of `Append`.
module _ (ms : MemoryStorage) (e : Entry) (es : List Entry) (v : IsValid ms)
    (fits : e.index + length (e ∷ es) < u64_mod) where
  append_old : e.index + length es ≤ dummy ms.ents → append ms (e ∷ es) ≡ ok ms
  unfolding append
  append_old h =
      let last : ltb (sub64 (add64 e.index (length (e ∷ es))) 1) (dummy ms.ents + 1) ≡ true =
        ground arith in
      rw (first_index_lem ms v, last) refl

  append_behind :
      IsRun e.index (e ∷ es)
      → dummy ms.ents < e.index
      → append ms (e ∷ es) ≡ append_at ms (e.index - dummy ms.ents) (e ∷ es)
  unfolding append
  append_behind r h =
      let last : ltb (sub64 (add64 e.index (length (e ∷ es))) 1) (dummy ms.ents + 1) ≡ false =
        ground arith in
      let whole : ltb e.index (dummy ms.ents + 1) ≡ false = ground arith in
      rw (first_index_lem ms v, last, whole)
        (written ms e.index (e ∷ es) v (omega arith) r h (omega arith))

  append_across :
      IsRun e.index (e ∷ es)
      → e.index ≤ dummy ms.ents
      → dummy ms.ents < e.index + length es
      → append ms (e ∷ es) ≡ append_at ms 1 (drop (dummy ms.ents + 1 - e.index) (e ∷ es))
  unfolding append Util.slice_from
  append_across r h k =
      let last : ltb (sub64 (add64 e.index (length (e ∷ es))) 1) (dummy ms.ents + 1) ≡ false =
        ground arith in
      let cut : ltb e.index (dummy ms.ents + 1) ≡ true = ground arith in
      let place : sub64 (dummy ms.ents + 1) e.index ≡ dummy ms.ents + 1 - e.index =
        omega (arith, v.small, v.filled) in
      let inside : ltb (length (e ∷ es)) (dummy ms.ents + 1 - e.index) ≡ false = ground arith in
      let one : dummy ms.ents + 1 - dummy ms.ents ≡ 1 = omega arith in
      let next : e.index + (dummy ms.ents + 1 - e.index) ≡ dummy ms.ents + 1 = omega arith in
      rw (first_index_lem ms v, last, cut, place, inside)
        (rw one at (
          written ms (dummy ms.ents + 1) (drop (dummy ms.ents + 1 - e.index) (e ∷ es)) v
            (omega (arith, length-drop (dummy ms.ents + 1 - e.index) (e ∷ es)))
            (rw next at (IsRun-drop e.index (dummy ms.ents + 1 - e.index) (e ∷ es) r)) (omega arith)
            (omega (arith, v.small, v.filled))))

-- `ms'` holds `ents` from index `a` on, and what `ms` held below, the dummy entry always.
pub record IsSpliced (ms : MemoryStorage) (a : ℕ) (ents : List Entry) (ms' : MemoryStorage)
    : Type 0 where
  pub valid : IsValid ms'
  pub same_dummy : dummy ms'.ents ≡ dummy ms.ents
  pub same_state : ms'.hard_state ≡ ms.hard_state
  pub same_snapshot : ms'.snapshot ≡ ms.snapshot
  pub end : dummy ms'.ents + length ms'.ents ≡ a + length ents
  pub stored :
      (i : ℕ)
      → stored_at ms' i
        ≡ (if leb i (dummy ms.ents) || ltb i a then stored_at ms i else get_elem? ents (i - a))

behind-IsSpliced :
    (ms : MemoryStorage) (a : ℕ) (ents : List Entry)
    → IsValid ms
    → IsRun a ents
    → a + length ents < u64_mod
    → dummy ms.ents < a
    → a ≤ dummy ms.ents + length ms.ents
    → IsSpliced ms a ents (replaced ms (a - dummy ms.ents) ents)
behind-IsSpliced ms a ents v r s h k =
    let back : dummy ms.ents + (a - dummy ms.ents) ≡ a = omega arith in
    let same = dummy-replaced ms.ents (a - dummy ms.ents) ents (omega arith) v.filled in
    record {
      valid =
          replaced-IsValid ms (a - dummy ms.ents) ents v (omega arith) (omega arith) (rw back r)
            (rw back s);
      same_dummy = same;
      same_state = refl;
      same_snapshot = refl;
      end = omega (
        arith,
        same,
        length-append (take (a - dummy ms.ents) ms.ents) ents,
        length-take (a - dummy ms.ents) ms.ents,
      );
      stored = λ i. ground (
        arith,
        rw back at (stored_at-replaced ms (a - dummy ms.ents) ents i v (omega arith) (omega arith)),
      );
    }

across-stored :
    (ms : MemoryStorage) (a : ℕ) (ents : List Entry)
    → IsValid ms
    → a ≤ dummy ms.ents
    → (i : ℕ)
    → stored_at (replaced ms 1 (drop (dummy ms.ents + 1 - a) ents)) i
      ≡ (if leb i (dummy ms.ents) || ltb i a then stored_at ms i else get_elem? ents (i - a))
across-stored ms a ents v h i =
    let new =
      stored_at-replaced ms 1 (drop (dummy ms.ents + 1 - a) ents) i v (omega arith)
        (omega (arith, v.filled)) in
    elim (dec_le i (dummy ms.ents)) [
      | yes k ↦ ground (arith, new)
      | no k ↦
          let place : dummy ms.ents + 1 - a + (i - (dummy ms.ents + 1)) ≡ i - a = omega arith in
          ground (
            arith,
            new,
            rw place at (get_elem?-drop (dummy ms.ents + 1 - a) ents (i - (dummy ms.ents + 1))),
          )
    ]

across-IsSpliced :
    (ms : MemoryStorage) (a : ℕ) (ents : List Entry)
    → IsValid ms
    → IsRun a ents
    → a + length ents < u64_mod
    → a ≤ dummy ms.ents
    → dummy ms.ents + 1 < a + length ents
    → IsSpliced ms a ents (replaced ms 1 (drop (dummy ms.ents + 1 - a) ents))
across-IsSpliced ms a ents v r s h k =
    let next : a + (dummy ms.ents + 1 - a) ≡ dummy ms.ents + 1 = omega arith in
    let len = length-drop (dummy ms.ents + 1 - a) ents in
    let same =
      dummy-replaced ms.ents 1 (drop (dummy ms.ents + 1 - a) ents) (omega arith) v.filled in
    record {
      valid =
          replaced-IsValid ms 1 (drop (dummy ms.ents + 1 - a) ents) v (omega arith)
            (omega (arith, v.filled)) (rw next at (IsRun-drop a (dummy ms.ents + 1 - a) ents r))
            (omega (arith, len));
      same_dummy = same;
      same_state = refl;
      same_snapshot = refl;
      end = omega (
        arith,
        same,
        len,
        length-append (take 1 ms.ents) (drop (dummy ms.ents + 1 - a) ents),
        length-take 1 ms.ents,
        v.filled,
      );
      stored = across-stored ms a ents v h;
    }

-- On a valid storage, `Append` of consecutive entries with indexes below 2^64 changes nothing where all of them are at or below the dummy entry, and
-- panics where they leave a gap. Otherwise it holds them from their first index on, what it held below
-- them, and nothing behind them, and its entries are consecutive again.
pub append_stored_lem :
    (ms : MemoryStorage) (e : Entry) (es : List Entry)
    → IsValid ms
    → IsRun e.index (e ∷ es)
    → e.index + length (e ∷ es) < u64_mod
    → ((e.index + length es ≤ dummy ms.ents) × (append ms (e ∷ es) ≡ ok ms))
      ⊎ ((dummy ms.ents + length ms.ents < e.index) × (append ms (e ∷ es) ≡ panic))
      ⊎ ((ms' : MemoryStorage) × (append ms (e ∷ es) ≡ ok ms')
          × (dummy ms.ents < e.index + length es)
          × IsSpliced ms e.index (e ∷ es) ms')
append_stored_lem ms e es v r s = elim (dec_le (e.index + length es) (dummy ms.ents)) [
  | yes old ↦ inl (old, append_old ms e es v s old)
  | no fresh ↦ elim (dec_lt (dummy ms.ents) e.index) [
    | no across ↦ inr (
        inr (
          _,
          append_across ms e es v s r (omega arith) (omega arith)
              ∙ append_at_lem ms 1 _ (omega (arith, v.filled)),
          omega arith,
          across-IsSpliced ms e.index (e ∷ es) v r s (omega arith) (omega arith),
        ))
    | yes behind ↦ elim (dec_lt (dummy ms.ents + length ms.ents) e.index) [
      | yes gap ↦ inr (
          inl (gap, append_behind ms e es v s r behind ∙ append_at_gap ms _ (e ∷ es) (omega arith)))
      | no near ↦ inr (
          inr (
            _,
            append_behind ms e es v s r behind ∙ append_at_lem ms _ (e ∷ es) (omega arith),
            omega arith,
            behind-IsSpliced ms e.index (e ∷ es) v r s behind (omega arith),
          ))
    ]
  ]
]
