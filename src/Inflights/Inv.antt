-- ===== src/Inflights/Inv.antt =====
-- The representation invariant of the ring, and that no operation breaks it or faults.
use yaraft.Prelude.{
  ℕ, suc, ◌+◌, ◌≤◌, ◌<◌, ◌≡◌, ◌⊎◌, ◌≢◌, List, [], ◌∷◌, length, length-set, length-append, arith,
  u64_mod, add64,
}
use yaraft.Outcome.{ok, panic}
use yaraft.Inflights.{Inflights, init, full, rotate, write, add, reset}

-- The slots in use are written ones: the buffer is full, or the window does not reach past its end.
pub record IsValid (s : Inflights) : Type 0 where
  pub small : s.capacity + s.capacity < u64_mod
  pub buffered : length s.buffer ≤ s.capacity
  pub counted : s.count ≤ s.capacity
  pub started : (s.start < s.capacity) ⊎ (s.start ≡ 0)
  pub written : (length s.buffer ≡ s.capacity) ⊎ (s.start + s.count ≤ length s.buffer)

pub init-IsValid : (c : ℕ) → c + c < u64_mod → IsValid (init c)
unfolding init
init-IsValid c h = ground arith

pub reset-IsValid : (s : Inflights) → IsValid s → IsValid (reset s)
unfolding reset
reset-IsValid s v = ground arith

-- `i` modulo `cap`, for an `i` that is less than two rounds.
pub rotate_lem :
    (cap i : ℕ)
    → i < u64_mod
    → ((i < cap) × (rotate cap i ≡ i)) ⊎ ((cap ≤ i) × (rotate cap i + cap ≡ i))
unfolding rotate
rotate_lem cap i h = ground arith

length-write :
    (buffer : List ℕ) (i v : ℕ)
    → ((i ≡ length buffer) × (length (write buffer i v) ≡ suc i))
      ⊎ ((i ≢ length buffer) × (length (write buffer i v) ≡ length buffer))
unfolding write
length-write buffer i v = ground (arith, length-set buffer i v, length-append buffer (v ∷ []))

-- Where `add` writes: at most just behind the end of the buffer.
pub add_slot :
    {s : Inflights}
    → IsValid s
    → s.count < s.capacity
    → (rotate s.capacity (add64 s.start s.count) ≤ length s.buffer)
      × (rotate s.capacity (add64 s.start s.count) < s.capacity)
add_slot {s} v h =
    omega (arith, rotate_lem s.capacity (add64 s.start s.count), v.started, v.written)

module _ (s : Inflights) (x : ℕ) (v : IsValid s) where
  unfoldable pub added : Inflights
  added = record s {
    buffer = write s.buffer (rotate s.capacity (add64 s.start s.count)) x;
    count = add64 s.count 1;
  }

  pub added-IsValid : s.count < s.capacity → IsValid added
  unfolding added
  added-IsValid h =
      let slot = rotate_lem s.capacity (add64 s.start s.count) in
      let length' = length-write s.buffer (rotate s.capacity (add64 s.start s.count)) x in
      record {
        small = v.small;
        buffered = omega (arith, add_slot v h, length');
        counted = omega arith;
        started = v.started;
        written = omega (arith, add_slot v h, slot, length', v.written);
      }

  pub add-eq-added : s.count < s.capacity → add s x ≡ ok added
  unfolding add full added
  add-eq-added h = ground (arith, add_slot v h)

pub add-full : (s : Inflights) (x : ℕ) → s.count ≡ s.capacity → add s x ≡ panic
unfolding add full
add-full s x e = ground arith
