-- ===== src/Inflights.antt =====
-- src/inflights.h: a ring of the indexes of the messages in flight.
pub mod Inv
pub mod Refine
mod Tests
use yaraft.Prelude.{
  ℕ, zero, suc, ◌+◌, ◌-◌, ◌^◌, Bool, true, false, ◌||◌, List, [], ◌∷◌, ◌++◌, Option, none, some,
  ltb, leb, ◌==◌, if◌then◌else◌, length, get_elem?, set, add64, sub64,
}
use yaraft.Outcome.{Outcome, ok, panic, ◌>>=◌, ◌>>◌, panic_if, or_fault}

-- `capacity` is that of the vector `buffer_`, which no operation outgrows.
pub record Inflights : Type 0 where
  pub start : ℕ
  pub count : ℕ
  pub capacity : ℕ
  pub buffer : List ℕ

-- The constructor, given the capacity that `buffer_.reserve(c)` leaves.
unfoldable pub init : ℕ → Inflights
init capacity = record { start = 0; count = 0; capacity = capacity; buffer = [] }

unfoldable pub full : Inflights → Bool
full s = s.count == s.capacity

-- `if (i >= cap()) i -= cap();`
unfoldable pub rotate : ℕ → ℕ → ℕ
rotate cap i = if leb cap i then sub64 i cap else i

-- `push_back` at the end of the buffer, an assignment before it.
unfoldable pub write : List ℕ → ℕ → ℕ → List ℕ
write buffer next v = if next == length buffer then buffer ++ (v ∷ []) else set buffer next v

unfoldable pub add : Inflights → ℕ → Outcome Inflights
unfolding full
add s inflight = do
  panic_if (full s)
  let next = rotate s.capacity (add64 s.start s.count)
  panic_if (ltb (length s.buffer) next)
  ok (record s { buffer = write s.buffer next inflight; count = add64 s.count 1 })

-- The loop of `freeTo` with `left` rounds to go, at `idx`, with `i` inflights freed.
unfoldable pub free_loop : ℕ → List ℕ → ℕ → ℕ → ℕ → ℕ → Outcome (ℕ × ℕ)
free_loop to buffer cap zero idx i = ok (i, idx)
free_loop to buffer cap (suc left) idx i = or_fault (get_elem? buffer idx) >>= λ x.
    elim (ltb to x) [
      | true ↦ ok (i, idx)
      | false ↦ free_loop to buffer cap left (rotate cap (add64 idx 1)) (i + 1)
    ]

unfoldable pub free_to : Inflights → ℕ → Outcome Inflights
unfolding free_loop
free_to s to =
    if s.count == 0
    then ok s
    else (or_fault (get_elem? s.buffer s.start) >>= λ first.
        if ltb to first
        then ok s
        else (free_loop to s.buffer s.capacity s.count s.start 0 >>= λ freed.
            let left = sub64 s.count freed.0 in
            ok (record s { count = left; start = if left == 0 then 0 else freed.1 })))

unfoldable pub free_first_one : Inflights → Outcome Inflights
free_first_one s = or_fault (get_elem? s.buffer s.start) >>= free_to s

unfoldable pub reset : Inflights → Inflights
reset s = record s { count = 0; start = 0 }
