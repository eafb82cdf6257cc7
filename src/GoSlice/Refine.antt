-- ===== src/GoSlice/Refine.antt =====
-- A slice as the list that its view shows.
use yaraft.Prelude.{
  ℕ, zero, suc, ◌+◌, ◌-◌, ◌≤◌, ◌<◌, ◌≡◌, refl, sym, ◌∙◌, ap, List, [], ◌∷◌, ◌++◌, ltb, false, ◌&&◌,
  min, length, take, drop, length-append, length-take, length-drop, inl, inr, ◌⊎◌, arith, u64_mod,
  sub64, dec_le,
}
use mathlib.Core.List.{append-nil}
use yaraft.Outcome.{ok, panic, fault}
use yaraft.GoSlice.{GoSlice, view, push_back, append, subspan, slice_from, resize, slice}

-- The view ends where the vector ends.
pub record IsValid {ℓ} {A : Type ℓ} (g : GoSlice A) : Type 0 where
  pub suffix : g.start + g.len ≡ length g.storage
  pub small : length g.storage < u64_mod

-- What the view of a valid slice shows.
abbrev pub contents {ℓ} : {A : Type ℓ} → GoSlice A → List A
contents g = drop g.start g.storage

module _ {ℓ} {A : Type ℓ} where
  take_over : (n : ℕ) (xs : List A) → length xs ≤ n → take n xs ≡ xs
  take_over zero [] h = refl
  take_over zero (x ∷ xs) h = absurd (omega arith)
  take_over (suc n) [] h = refl
  take_over (suc n) (x ∷ xs) h = ap (λ r. x ∷ r) (take_over n xs (omega arith))

  drop-append : (n : ℕ) (xs ys : List A) → n ≤ length xs → drop n (xs ++ ys) ≡ drop n xs ++ ys
  drop-append zero xs ys h = refl
  drop-append (suc n) [] ys h = absurd (omega arith)
  drop-append (suc n) (x ∷ xs) ys h = drop-append n xs ys (omega arith)

  drop_nil : (n : ℕ) → drop {A = A} n [] ≡ []
  drop_nil zero = refl
  drop_nil (suc n) = refl

  take_nil : (n : ℕ) → take {A = A} n [] ≡ []
  take_nil zero = refl
  take_nil (suc n) = refl

  drop-drop : (m n : ℕ) (xs : List A) → drop (m + n) xs ≡ drop n (drop m xs)
  drop-drop zero n xs = let z : 0 + n ≡ n = omega arith in rw z refl
  drop-drop (suc m) n [] = let z : suc m + n ≡ suc (m + n) = omega arith in rw z (sym (drop_nil n))
  drop-drop (suc m) n (x ∷ xs) =
      let z : suc m + n ≡ suc (m + n) = omega arith in rw z (drop-drop m n xs)

  drop-take : (m n : ℕ) (xs : List A) → drop m (take (m + n) xs) ≡ take n (drop m xs)
  drop-take zero n xs = let z : 0 + n ≡ n = omega arith in rw z refl
  drop-take (suc m) n [] = let z : suc m + n ≡ suc (m + n) = omega arith in rw z (sym (take_nil n))
  drop-take (suc m) n (x ∷ xs) =
      let z : suc m + n ≡ suc (m + n) = omega arith in rw z (drop-take m n xs)

  view-contents : (g : GoSlice A) → IsValid g → view g ≡ ok (contents g)
  unfolding view
  view-contents g v =
      let all =
        take_over g.len (drop g.start g.storage)
          (omega (arith, v.suffix, length-drop g.start g.storage)) in
      let inside : (ltb (length g.storage) (g.start + g.len) && ltb 0 g.len) ≡ false =
        ground (arith, v.suffix) in
      rw (inside, all) refl

  grown :
      (g : GoSlice A) (x : A) (xs : List A)
      → IsValid g
      → length g.storage + length (x ∷ xs) < u64_mod
      → IsValid (append (x ∷ xs) g) × (contents (append (x ∷ xs) g) ≡ contents g ++ (x ∷ xs))
  unfolding append
  grown g x xs v s =
      let off : sub64 (length g.storage) g.len ≡ g.start = omega (arith, v.suffix, v.small) in
      let len = length-append g.storage (x ∷ xs) in
      (
        record { suffix = omega (arith, off, len, v.suffix); small = omega (arith, len) },
        rw off (drop-append g.start g.storage (x ∷ xs) (omega (arith, v.suffix))),
      )

  cut_to_list :
      (e : ℕ) (g : GoSlice A)
      → IsValid g
      → drop g.start (take (e + g.start) g.storage) ≡ take e (contents g)
  cut_to_list e g v =
      let sum : e + g.start ≡ g.start + e = omega arith in rw sum (drop-take g.start e g.storage)

-- On a valid slice, `Append` and `push_back` keep the view at the end of the vector and add to the list that it shows, as
-- long as the sizes are below 2^64.
pub append_refines {ℓ} :
    {A : Type ℓ} (g : GoSlice A) (xs : List A)
    → IsValid g
    → length g.storage + length xs < u64_mod
    → IsValid (append xs g)
      × (view (append xs g) ≡ ok (contents g ++ xs))
      × ((x : A) → push_back x g ≡ append (x ∷ []) g)
unfolding append push_back
append_refines g [] v s = (v, view-contents g v ∙ ap ok (sym (append-nil (contents g))), λ x. refl)
append_refines g (x ∷ xs) v s =
    let (valid, shows) = grown g x xs v s in
    (valid, view-contents (append (x ∷ xs) g) valid ∙ ap ok shows, λ y. refl)

-- On a valid slice, `SliceFrom` drops from the front of the list; beyond its end it throws.
pub slice_from_refines {ℓ} :
    {A : Type ℓ} (g : GoSlice A) (b : ℕ)
    → IsValid g
    → ((g.len < b) × (slice_from b g ≡ panic))
      ⊎ ((b ≤ g.len)
          × (g' : GoSlice A) × (slice_from b g ≡ ok g')
          × IsValid g'
          × (view g' ≡ ok (drop b (contents g))))
unfolding slice_from
slice_from_refines g b v = elim (dec_le b g.len) [
  | no h ↦ inl (omega arith, ground arith)
  | yes h ↦
      let g' = record g { start = g.start + b; len = g.len - b } in
      let valid : IsValid (record g { start = g.start + b; len = g.len - b }) = record {
        suffix = omega (arith, v.suffix);
        small = v.small;
      } in
      inr (h, _, ground arith, valid, view-contents _ valid ∙ ap ok (drop-drop g.start b g.storage))
]

-- What `Slice` leaves: the view moves on by `b`, and the vector ends `b` places too early.
slice_run {ℓ} :
    {A : Type ℓ} (blank : A) (g : GoSlice A) (b e : ℕ)
    → IsValid g
    → b ≤ e
    → e ≤ g.len
    → slice blank b e g
      ≡ ok (record { storage = take (e - b + g.start) g.storage; start = g.start + b; len = e - b })
unfolding slice subspan resize
slice_run blank g b e v h k =
    let off : sub64 (length g.storage) g.len ≡ g.start = omega (arith, v.suffix, v.small) in
    let low : ltb e b ≡ false = ground arith in
    let inside : ltb g.len b ≡ false = ground arith in
    let count : min (g.len - b) (e - b) ≡ e - b = omega arith in
    let shrinks : ltb (length g.storage) (e - b + g.start) ≡ false = ground (arith, v.suffix) in
    rw (off, low, inside, count, shrinks) refl

-- How `Slice` from `b` to `e` ends.
abbrev pub SliceEnds {ℓ} : {A : Type ℓ} → GoSlice A → ℕ → ℕ → GoSlice A → Type ℓ
SliceEnds g b e g' =
    ((b ≡ 0) × IsValid g' × (view g' ≡ ok (take e (contents g))))
    ⊎ ((b ≡ e) × (view g' ≡ ok []))
    ⊎ ((0 < b) × (b < e) × (view g' ≡ fault))

module _ {ℓ} {A : Type ℓ} (g : GoSlice A) (b e : ℕ) (v : IsValid g) (h : b ≤ e)
    (k : e ≤ g.len) where
  sliced : GoSlice A
  sliced = record { storage = take (e - b + g.start) g.storage; start = g.start + b; len = e - b }

  sliced-front : b ≡ 0 → IsValid sliced × (view sliced ≡ ok (take e (contents g)))
  unfolding sliced
  sliced-front z =
      let len = length-take (e - b + g.start) g.storage in
      let from : g.start + b ≡ g.start = omega arith in
      let to : e - b ≡ e = omega arith in
      let valid : IsValid (record {
        storage = take (e - b + g.start) g.storage;
        start = g.start + b;
        len = e - b;
      }) =
        record { suffix = omega (arith, len, v.suffix); small = omega (arith, len, v.small) } in
      (valid, view-contents _ valid ∙ ap ok (rw (from, to) (cut_to_list e g v)))

  sliced-none : b ≡ e → view sliced ≡ ok []
  unfolding sliced view
  sliced-none z = let none_left : e - b ≡ 0 = omega arith in rw none_left (ground arith)

  sliced-broken : 0 < b → b < e → view sliced ≡ fault
  unfolding sliced view
  sliced-broken z w = ground (arith, length-take (e - b + g.start) g.storage, v.suffix)

-- On a valid slice and inside its view, `Slice` from 0, and so `SliceTo`, takes from the front of the list. From a later place on it cuts the
-- end of the view off the vector, so that reading the view is a fault, where Go would give the elements
-- from `b` to `e`; only an empty range does no harm.
pub slice_lem {ℓ} :
    {A : Type ℓ} (blank : A) (g : GoSlice A) (b e : ℕ)
    → IsValid g
    → b ≤ e
    → e ≤ g.len
    → (g' : GoSlice A) × (slice blank b e g ≡ ok g') × SliceEnds g b e g'
unfolding sliced
slice_lem blank g b e v h k = (
  _,
  slice_run blank g b e v h k,
  (elim (dec_le b 0) [
    | yes z ↦
        let (valid, shows) = sliced-front g b e v h k (omega arith) in
        inl (omega arith, valid, shows)
    | no z ↦ elim (dec_le e b) [
      | yes w ↦ inr (inl (omega arith, sliced-none g b e v h k (omega arith)))
      | no w ↦
          inr
            (inr (omega arith, omega arith, sliced-broken g b e v h k (omega arith) (omega arith)))
    ]
  ]),
)
