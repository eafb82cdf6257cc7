-- ===== src/Cluster/Ledger.antt =====
-- Which vote each node has given in each term, 0 for none, and majorities of such votes.
use yaraft.Prelude.{
  ℕ, ◌+◌, ◌≤◌, ◌<◌, ◌≡◌, ◌⊎◌, inl, inr, refl, Bool, true, false, ◌&&◌, ◌==◌, ==_iff, if◌then◌else◌,
  List, [], ◌∷◌, length, Bool-cases, ℕ_discrete, arith,
}
use yaraft.Cluster.{is_voter}

abbrev pub Ledger : Type 0
Ledger = ℕ → ℕ → ℕ

unfoldable pub write : ℕ → ℕ → ℕ → Ledger → Ledger
write i t v b j u = if (j == i) && (u == t) then v else b j u

-- No vote is taken back.
abbrev pub Extends : Ledger → Ledger → Type 0
Extends b b' = (j u : ℕ) → (b j u ≡ 0) ⊎ (b' j u ≡ b j u)

pub Extends-refl : (b : Ledger) → Extends b b
Extends-refl b j u = inr refl

pub Extends-trans : {a b c : Ledger} → Extends a b → Extends b c → Extends a c
Extends-trans f g j u = ground (arith, f j u, g j u)

pub extended : {b b' : Ledger} → Extends b b' → (j u i : ℕ) → 0 < i → b j u ≡ i → b' j u ≡ i
extended f j u i h e = ground (arith, f j u)

pub write-Extends : (b : Ledger) (i t v : ℕ) → (b i t ≡ 0) ⊎ (v ≡ b i t) → Extends b (write i t v b)
unfolding write
write-Extends b i t v h j u = grind (arith, ==_iff)

pub write_self : (b : Ledger) (i t v : ℕ) → write i t v b i t ≡ v
unfolding write
write_self b i t v = ground arith

pub write_other_node : (b : Ledger) (i t v j u : ℕ) → (j == i) ≡ false → write i t v b j u ≡ b j u
unfolding write
write_other_node b i t v j u h = ground arith

pub write_other_term : (b : Ledger) (i t v j u : ℕ) → t < u → write i t v b j u ≡ b j u
unfolding write
write_other_term b i t v j u h = ground arith

-- How many of a list meet a test.
unfoldable pub count : (ℕ → Bool) → List ℕ → ℕ
count f [] = 0
count f (v ∷ vs) = (if f v then 1 else 0) + count f vs

pub count-le :
    (f g : ℕ → Bool) (vs : List ℕ) → ((v : ℕ) → f v ≡ true → g v ≡ true) → count f vs ≤ count g vs
unfolding count
count-le f g [] h = omega arith
count-le f g (v ∷ vs) h = ground (arith, count-le f g vs h, h v)

-- One answer more.
pub count-put :
    (f : ℕ → Bool) (k : ℕ) (b : Bool) (vs : List ℕ)
    → is_voter vs k ≡ true
    → f k ≡ false
    → count f vs + (if b then 1 else 0) ≤ count (λ v. if v == k then b else f v) vs
unfolding count is_voter
count-put f k b [] h e = cc
count-put f k b (v ∷ vs) h e = elim (ℕ_discrete v k) [
  | yes same ↦
      ground
        (arith, count-le f (λ v. if v == k then b else f v) vs (λ v q. ground (arith, e)), same, e)
  | no other ↦ ground (arith, count-put f k b vs)
]

pub count_one :
    (k : ℕ) (f : ℕ → Bool) (vs : List ℕ) → is_voter vs k ≡ true → f k ≡ true → 1 ≤ count f vs
unfolding count is_voter
count_one k f [] h e = cc
count_one k f (v ∷ vs) h e = elim (ℕ_discrete v k) [
  | yes same ↦ ground (arith, same, e)
  | no other ↦ ground (arith, count_one k f vs)
]

-- Two counts that are more than there is together meet.
pub counts_meet :
    (f g : ℕ → Bool) (vs : List ℕ)
    → length vs < count f vs + count g vs
    → (v : ℕ) × (f v ≡ true) × (g v ≡ true)
unfolding count
counts_meet f g [] h = absurd (omega arith)
counts_meet f g (v ∷ vs) h = elim (Bool-cases (f v)) [
  | inl one ↦ elim (Bool-cases (g v)) [
    | inl two ↦ (v, one, two)
    | inr lacks ↦ counts_meet f g vs (ground (arith, one, lacks))
  ]
  | inr lacks ↦ counts_meet f g vs (ground (arith, lacks))
]
