-- ===== src/Entries.antt =====
-- Entries with consecutive indexes, as the logs of include/yaraft and src hold them.
use yaraft.Prelude.{
  ℕ, zero, suc, ◌+◌, ◌-◌, ◌≤◌, ◌<◌, ◌≡◌, List, [], ◌∷◌, ◌++◌, some, none, Option, ltb,
  if◌then◌else◌, length-take, get_elem?-take, length, get_elem?, take, drop, arith,
}
use yaraft.Idl.{Entry}

get_elem?-append_cases {ℓ} :
    {A : Type ℓ} (xs ys : List A) (i : ℕ)
    → get_elem? (xs ++ ys) i
      ≡ (if ltb i (length xs) then get_elem? xs i else get_elem? ys (i - length xs))
get_elem?-append_cases [] ys i = ground arith
get_elem?-append_cases (x ∷ xs) ys zero = ground arith
get_elem?-append_cases (x ∷ xs) ys (suc i) = ground (arith, get_elem?-append_cases xs ys i)

-- What stands at an index of a window of the log that starts at index `f`.
abbrev pub at_index : ℕ → List Entry → ℕ → Option Entry
at_index f es i = if ltb i f then none else get_elem? es (i - f)

-- The entries from place `n` on replaced.
pub at_index-splice :
    (f n : ℕ) (es ents : List Entry) (i : ℕ)
    → n ≤ length es
    → at_index f (take n es ++ ents) i
      ≡ (if ltb i (f + n) then at_index f es i else get_elem? ents (i - (f + n)))
at_index-splice f n es ents i h =
    let len : length (take n es) ≡ n = omega (arith, length-take n es) in
    let step : i - (f + n) ≡ i - f - n = omega arith in
    rw (step) (
      grind (
        arith,
        rw len at (get_elem?-append_cases (take n es) ents (i - f)),
        get_elem?-take n es (i - f),
      ))

pub at_index-head : (f i : ℕ) (x : Entry) (xs : List Entry) → i ≡ f → at_index f (x ∷ xs) i ≡ some x
at_index-head f i x xs h = let place : i - f ≡ 0 = omega arith in rw place (ground arith)

pub at_index-tail :
    (f i : ℕ) (x : Entry) (xs : List Entry)
    → f < i
    → at_index f (x ∷ xs) i ≡ get_elem? xs (i - (f + 1))
at_index-tail f i x xs h =
    let place : i - f ≡ suc (i - (f + 1)) = omega arith in rw place (ground arith)

-- The indexes are `a`, `a + 1`, ….
abbrev pub IsRun : ℕ → List Entry → Type 0
IsRun a [] = Unit {0}
IsRun a (e ∷ es) = (e.index ≡ a) × IsRun (a + 1) es

pub index-get_elem? :
    (a : ℕ) (es : List Entry) (k : ℕ) {e : Entry}
    → IsRun a es
    → get_elem? es k ≡ some e
    → e.index ≡ a + k
index-get_elem? a [] k r f = cc
index-get_elem? a (x ∷ es) zero r f = ground arith
index-get_elem? a (x ∷ es) (suc k) r f = omega (arith, index-get_elem? (a + 1) es k r.1 f)

pub IsRun-back :
    (a : ℕ) (pre rest : List Entry) → IsRun a (pre ++ rest) → IsRun (a + length pre) rest
IsRun-back a [] rest r = ground (arith, r)
IsRun-back a (x ∷ pre) rest r =
    let step : a + 1 + length pre ≡ a + suc (length pre) = omega arith in
    rw step at (IsRun-back (a + 1) pre rest r.1)

pub IsRun-front : (a : ℕ) (pre rest : List Entry) → IsRun a (pre ++ rest) → IsRun a pre
IsRun-front a [] rest r = tt
IsRun-front a (x ∷ pre) rest r = (r.0, IsRun-front (a + 1) pre rest r.1)

pub IsRun-append :
    (a : ℕ) (xs ys : List Entry) → IsRun a xs → IsRun (a + length xs) ys → IsRun a (xs ++ ys)
IsRun-append a [] ys r s = let step : a + 0 ≡ a = omega arith in rw step at s
IsRun-append a (x ∷ xs) ys r s =
    let step : a + suc (length xs) ≡ a + 1 + length xs = omega arith in
    (r.0, IsRun-append (a + 1) xs ys r.1 (rw step at s))

pub IsRun-take : (a n : ℕ) (xs : List Entry) → IsRun a xs → IsRun a (take n xs)
IsRun-take a zero xs r = tt
IsRun-take a (suc n) [] r = tt
IsRun-take a (suc n) (x ∷ xs) r = (r.0, IsRun-take (a + 1) n xs r.1)

pub IsRun-drop : (a n : ℕ) (xs : List Entry) → IsRun a xs → IsRun (a + n) (drop n xs)
IsRun-drop a zero xs r = let step : a + 0 ≡ a = omega arith in rw step r
IsRun-drop a (suc n) [] r = tt
IsRun-drop a (suc n) (x ∷ xs) r =
    let step : a + suc n ≡ a + 1 + n = omega arith in rw step (IsRun-drop (a + 1) n xs r.1)
