-- ===== src/Util/Limit.antt =====
-- How much of a list of entries `limitSize` keeps.
use yaraft.Prelude.{
  ℕ, suc, ◌+◌, ◌≤◌, ◌<◌, ◌≡◌, refl, ap, ◌⊎◌, inl, inr, List, [], ◌∷◌, take, length, ltb, Bool-cases,
  u64_mod, arith, add64,
}
use yaraft.Idl.{Entry, byte_size}
use yaraft.Util.{limit_loop, limit_size}

-- The bytes of a list of entries, with no bound.
abbrev pub total_size : List Entry → ℕ
total_size [] = 0
total_size (e ∷ es) = byte_size e + total_size es

-- The loop stops at a `limit + k`: the first `k` entries fit, and one more would not.
limit_loop_stops :
    (m size : ℕ) (es : List Entry) (limit : ℕ)
    → size + total_size es < u64_mod
    → (k : ℕ) × (limit_loop m size es limit ≡ limit + k)
      × (k ≤ length es)
      × ((k ≡ 0) ⊎ (size + total_size (take k es) ≤ m))
      × ((k ≡ length es) ⊎ (m < size + total_size (take (suc k) es)))
unfolding limit_loop
limit_loop_stops m size [] limit h = (0, omega arith, omega arith, inl refl, inl refl)
limit_loop_stops m size (e ∷ es) limit h = elim (Bool-cases (ltb m (add64 size (byte_size e)))) [
  | inl over ↦ (0, rw over (omega arith), omega arith, inl refl, inr (ground arith))
  | inr fits ↦
      let wide : add64 size (byte_size e) ≡ size + byte_size e = omega arith in
      let (k, stop, bound, low, high) =
        limit_loop_stops m (add64 size (byte_size e)) es (limit + 1) (omega arith) in
      (suc k, rw fits (omega (arith, stop)), omega arith, inr (ground arith), ground arith)
]

-- `limitSize` returns a prefix, at least one entry of a list that has any, no more than `max_size`
-- bytes unless it is that one entry, and as long a prefix as that allows.
pub limit_size-IsLongest :
    (m : ℕ) (e : Entry) (es : List Entry)
    → total_size (e ∷ es) < u64_mod
    → (k : ℕ) × (limit_size m (e ∷ es) ≡ take (suc k) (e ∷ es))
      × (k ≤ length es)
      × ((k ≡ 0) ⊎ (total_size (take (suc k) (e ∷ es)) ≤ m))
      × ((k ≡ length es) ⊎ (m < total_size (take (suc (suc k)) (e ∷ es))))
unfolding limit_size
limit_size-IsLongest m e es h =
    let (k, stop, bound, low, high) = limit_loop_stops m (byte_size e) es 1 h in
    (k, rw stop (ap (λ n. take n (e ∷ es)) {y = suc k} (omega arith)), bound, low, high)
