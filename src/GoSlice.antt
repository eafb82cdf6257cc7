-- ===== src/GoSlice.antt =====
-- include/yaraft/go_slice.h: a vector with a view of it. A view is a place in the vector and a length;
-- the pointer of the source is the place. The capacity is not modelled. The view of a copy, which the
-- source leaves in the original's vector, is not modelled either.
pub mod Refine
mod Tests
use yaraft.Prelude.{
  ℕ, zero, suc, ◌+◌, ◌-◌, Bool, true, false, ◌&&◌, List, [], ◌∷◌, ◌++◌, ltb, if◌then◌else◌, length,
  take, drop, sub64, min,
}
use yaraft.Outcome.{Outcome, ok, panic, fault, ◌>>=◌, ◌>>◌, panic_if}

pub record GoSlice {ℓ} (A : Type ℓ) : Type ℓ where
  pub storage : List A
  pub start : ℕ
  pub len : ℕ

module _ {ℓ} {A : Type ℓ} where
  unfoldable pub empty : GoSlice A
  empty = record { storage = []; start = 0; len = 0 }

  -- `GoSlice(std::initializer_list)`
  unfoldable pub of_list : List A → GoSlice A
  of_list xs = record { storage = xs; start = 0; len = length xs }

  -- Reading the elements of the view. Elements that are not in the vector any more are a fault, if there are any to read.
  unfoldable pub view : GoSlice A → Outcome (List A)
  view g =
      if ltb (length g.storage) (g.start + g.len) && ltb 0 g.len
      then fault
      else ok (take g.len (drop g.start g.storage))

  unfoldable pub push_back : A → GoSlice A → GoSlice A
  push_back e g = record {
    storage = g.storage ++ (e ∷ []);
    start = sub64 (length g.storage) g.len;
    len = g.len + 1;
  }

  -- `Append`, of a span of another vector.
  unfoldable pub append : List A → GoSlice A → GoSlice A
  append [] g = g
  append (e ∷ es) g = record {
    storage = g.storage ++ (e ∷ es);
    start = sub64 (length g.storage) g.len;
    len = g.len + length (e ∷ es);
  }

  -- `operator=(const_span)`, of a span of another vector.
  unfoldable pub assign : List A → GoSlice A
  assign ents = append ents empty

  -- `const_span::subspan` of the view.
  unfoldable pub subspan : ℕ → ℕ → GoSlice A → Outcome (ℕ × ℕ)
  subspan pos n g = if ltb g.len pos then panic else ok (g.start + pos, min (g.len - pos) n)

  unfoldable pub slice_from : ℕ → GoSlice A → Outcome (GoSlice A)
  slice_from begin g =
      if ltb g.len begin
      then panic
      else ok (record g { start = g.start + begin; len = g.len - begin })

-- Elements that are made by default are `blank`.
module _ {ℓ} {A : Type ℓ} (blank : A) where
  unfoldable pub blanks : ℕ → List A
  blanks zero = []
  blanks (suc n) = blank ∷ blanks n

  -- `make(len, cap)`
  unfoldable pub make : ℕ → GoSlice A
  make n = record { storage = blanks n; start = 0; len = n }

  -- `std::vector::resize`
  unfoldable pub resize : ℕ → List A → List A
  resize n xs = if ltb (length xs) n then xs ++ blanks (n - length xs) else take n xs

  unfoldable pub slice : ℕ → ℕ → GoSlice A → Outcome (GoSlice A)
  slice begin end g =
      let off = sub64 (length g.storage) g.len in
      panic_if (ltb end begin)
      >> (subspan begin (end - begin) g >>= λ v.
          ok (record { storage = resize (v.1 + off) g.storage; start = v.0; len = v.1 }))

  unfoldable pub slice_to : ℕ → GoSlice A → Outcome (GoSlice A)
  slice_to end g = slice 0 end g
