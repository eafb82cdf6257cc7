-- ===== src/Inflights/Refine.antt =====
-- A valid ring behaves as the queue of the inflights that it holds, oldest first.
use yaraft.Prelude.{
  ℕ, zero, suc, ◌+◌, ◌-◌, ◌≤◌, ◌<◌, ◌≡◌, refl, sym, ◌∙◌, ap, ap₂, ◌⊎◌, inl, inr, ◌≢◌, List, [], ◌∷◌,
  ◌++◌, some, ltb, if◌then◌else◌, length, get_elem?, get_or, Bool-cases, arith, u64_mod, add64,
  sub64, ◌==◌, dec_lt,
}
use native.Mathlib.Nat.{add-zero}
use yaraft.Outcome.{ok, panic}
use yaraft.Inflights.{Inflights, rotate, write, add, free_loop, free_to}
use yaraft.Inflights.Inv.{IsValid, rotate_lem, added, added-IsValid, add-eq-added, add-full}

-- The queue without its inflights up to the first that is larger than `to`.
abbrev pub drop_up_to : ℕ → List ℕ → List ℕ
drop_up_to to [] = []
drop_up_to to (x ∷ xs) = if ltb to x then x ∷ xs else drop_up_to to xs

module _ (buffer : List ℕ) (cap : ℕ) where
  -- the `n` slots from `h` on, going round at `cap`
  abbrev pub slots : ℕ → ℕ → List ℕ
  slots h zero = []
  slots h (suc n) = get_or buffer h 0 ∷ slots (rotate cap (add64 h 1)) n

  length-slots : (h n : ℕ) → length (slots h n) ≡ n
  length-slots h zero = refl
  length-slots h (suc n) = ap suc (length-slots (rotate cap (add64 h 1)) n)

-- The inflights of a ring.
abbrev pub contents : Inflights → List ℕ
contents s = slots s.buffer s.capacity s.start s.count

get_or-write_self :
    (buffer : List ℕ) (i v : ℕ) → i ≤ length buffer → get_or (write buffer i v) i 0 ≡ v
unfolding write
get_or-write_self [] zero v h = refl
get_or-write_self [] (suc i) v h = absurd (omega arith)
get_or-write_self (x ∷ xs) zero v h = ground arith
get_or-write_self (x ∷ xs) (suc i) v h = ground (arith, get_or-write_self xs i v)

get_or-write_ne :
    (buffer : List ℕ) (i j v : ℕ)
    → i ≢ j
    → j < length buffer
    → get_or (write buffer i v) j 0 ≡ get_or buffer j 0
unfolding write
get_or-write_ne [] i j v h k = absurd (omega arith)
get_or-write_ne (x ∷ xs) zero zero v h k = absurd (h refl)
get_or-write_ne (x ∷ xs) zero (suc j) v h k = ground arith
get_or-write_ne (x ∷ xs) (suc i) zero v h k = ground arith
get_or-write_ne (x ∷ xs) (suc i) (suc j) v h k = ground (arith, get_or-write_ne xs i j v)

-- The slots from `h` on have been written.
abbrev Reads : ℕ → List ℕ → ℕ → ℕ → Type 0
Reads cap buffer h n = (h < cap) × ((length buffer ≡ cap) ⊎ (h + n ≤ length buffer))

Reads-rotate :
    (cap : ℕ) (buffer : List ℕ) (h n : ℕ)
    → cap + cap < u64_mod
    → length buffer ≤ cap
    → Reads cap buffer h (suc n)
    → Reads cap buffer (rotate cap (add64 h 1)) n
Reads-rotate cap buffer h n small len (lt, r) =
    (omega (arith, rotate_lem cap (add64 h 1)), omega (arith, rotate_lem cap (add64 h 1), r))

-- Writing just behind the slots extends them by what is written.
slots-write :
    (cap : ℕ) (buffer : List ℕ) (x i n h : ℕ)
    → cap + cap < u64_mod
    → length buffer ≤ cap
    → n < cap
    → Reads cap buffer h n
    → i ≡ rotate cap (add64 h n)
    → slots (write buffer i x) cap h (suc n) ≡ slots buffer cap h n ++ (x ∷ [])
slots-write cap buffer x i zero h small len lt r e =
    let here : h ≡ i = omega (arith, rotate_lem cap (add64 h 0)) in
    ap (λ a. a ∷ []) (rw here (get_or-write_self buffer i x (omega arith)))
slots-write cap buffer x i (suc n) h small len lt r e =
    ap₂ (λ a q. a ∷ q)
      (get_or-write_ne buffer i h x (λ same. omega (arith, rotate_lem cap (add64 h (suc n))))
        (omega (arith, r.1)))
      (slots-write cap buffer x i n (rotate cap (add64 h 1)) small len (omega arith)
        (Reads-rotate cap buffer h n small len r)
        (omega (
          arith,
          rotate_lem cap (add64 h 1),
          rotate_lem cap (add64 h (suc n)),
          rotate_lem cap (add64 (rotate cap (add64 h 1)) n),
        )))

contents-added :
    (s : Inflights) (x : ℕ) (v : IsValid s)
    → s.count < s.capacity
    → contents (added s x v) ≡ contents s ++ (x ∷ [])
unfolding added
contents-added s x v h =
    let one_more : add64 s.count 1 ≡ suc s.count = omega arith in
    rw one_more (
      slots-write s.capacity s.buffer x (rotate s.capacity (add64 s.start s.count)) s.count s.start
        v.small v.buffered h (omega (arith, v.started), v.written) refl)

-- `add` on a full ring panics; otherwise it appends to the queue, in a ring that is valid again.
pub add_refines :
    (s : Inflights) (x : ℕ)
    → IsValid s
    → ((length (contents s) ≡ s.capacity) × (add s x ≡ panic))
      ⊎ ((s' : Inflights) × (add s x ≡ ok s')
          × IsValid s'
          × (s'.capacity ≡ s.capacity)
          × (contents s' ≡ contents s ++ (x ∷ [])))
unfolding added
add_refines s x v = elim (dec_lt s.count s.capacity) [
  | yes h ↦
      inr (added s x v, add-eq-added s x v h, added-IsValid s x v h, refl, contents-added s x v h)
  | no h ↦
      let filled : s.count ≡ s.capacity = omega (arith, v.counted) in
      inl (length-slots s.buffer s.capacity s.start s.count ∙ filled, add-full s x filled)
]

-- What the loop of `freeTo` has done when it stops, started at slot `h` with `n` to go.
record Freed (to cap : ℕ) (buffer : List ℕ) (n h i : ℕ) : Type 0 where
  freed : ℕ
  stop : ℕ
  bound : freed ≤ n
  run : free_loop to buffer cap n h i ≡ ok (i + freed, stop)
  rest : slots buffer cap stop (n - freed) ≡ drop_up_to to (slots buffer cap h n)
  reads : Reads cap buffer stop (n - freed)

get_elem?-eq-get_or : (xs : List ℕ) (i : ℕ) → i < length xs → get_elem? xs i ≡ some (get_or xs i 0)
get_elem?-eq-get_or [] i h = absurd (omega arith)
get_elem?-eq-get_or (x ∷ xs) zero h = refl
get_elem?-eq-get_or (x ∷ xs) (suc i) h = get_elem?-eq-get_or xs i (omega arith)

free_loop-Freed :
    (to c : ℕ) (buffer : List ℕ) (n h i : ℕ)
    → c + c < u64_mod
    → length buffer ≤ c
    → n ≤ c
    → Reads c buffer h n
    → Freed to c buffer n h i
unfolding free_loop
free_loop-Freed to c buffer zero h i small len le r = record {
  freed = 0;
  stop = h;
  bound = omega arith;
  run = rw add-zero;
  rest = refl;
  reads = r;
}
free_loop-Freed to c buffer (suc n) h i small len le r =
    let here = get_elem?-eq-get_or buffer h (omega (arith, r.1)) in
    let whole : suc n - 0 ≡ suc n = omega arith in
    elim (Bool-cases (ltb to (get_or buffer h 0))) [
      | inl large ↦ record {
        freed = 0;
        stop = h;
        bound = omega arith;
        run = ground (arith, here);
        rest = rw (whole, large);
        reads = rw whole r;
      }
      | inr met ↦
          let next =
            free_loop-Freed to c buffer n (rotate c (add64 h 1)) (i + 1) small len (omega arith)
              (Reads-rotate c buffer h n small len r) in
          let shift : i + 1 + next.freed ≡ i + suc next.freed = omega arith in
          let left : suc n - suc next.freed ≡ n - next.freed = omega arith in
          record {
            freed = suc next.freed;
            stop = next.stop;
            bound = omega (arith, next.bound);
            run = ground (arith, here, next.run, shift);
            rest = rw (left, met) next.rest;
            reads = rw left next.reads;
          }
    ]

-- Where no slot is left, it does not matter where the next would be.
slots_from :
    (buffer : List ℕ) (c h h' n : ℕ) → (n ≢ 0 → h ≡ h') → slots buffer c h' n ≡ slots buffer c h n
slots_from buffer c h h' zero e = refl
slots_from buffer c h h' (suc n) e = ap (λ k. slots buffer c k (suc n)) (sym (e (λ z. cc)))

drop_up_to-none :
    (to : ℕ) (buffer : List ℕ) (c h n : ℕ)
    → n ≡ 0
    → slots buffer c h n ≡ drop_up_to to (slots buffer c h n)
drop_up_to-none to buffer c h zero e = refl
drop_up_to-none to buffer c h (suc n) e = absurd (omega arith)

drop_up_to-slots :
    (to : ℕ) (buffer : List ℕ) (c h n : ℕ)
    → to < get_or buffer h 0
    → drop_up_to to (slots buffer c h n) ≡ slots buffer c h n
drop_up_to-slots to buffer c h zero lt = refl
drop_up_to-slots to buffer c h (suc n) lt = ground arith

-- The ring after the loop of `freeTo`.
remaining : (s : Inflights) (to : ℕ) → Freed to s.capacity s.buffer s.count s.start 0 → Inflights
remaining s to f = record s {
  count = sub64 s.count f.freed;
  start = if sub64 s.count f.freed == 0 then 0 else f.stop;
}

module _ (s : Inflights) (to : ℕ) (v : IsValid s)
    (f : Freed to s.capacity s.buffer s.count s.start 0) where
  remaining-IsValid : IsValid (remaining s to f)
  unfolding remaining
  remaining-IsValid = ground (arith, f.reads, f.bound)

  contents-remaining : contents (remaining s to f) ≡ drop_up_to to (contents s)
  unfolding remaining
  contents-remaining =
      let left : sub64 s.count f.freed ≡ s.count - f.freed =
        omega (arith, f.bound, v.counted, v.small) in
      rw left (
        slots_from s.buffer s.capacity f.stop (if s.count - f.freed == 0 then 0 else f.stop)
          (s.count - f.freed) (ground arith)
        ∙ f.rest)

  free_to-eq-remaining :
      s.count ≢ 0 → (get_or s.buffer s.start 0 ≤ to) → free_to s to ≡ ok (remaining s to f)
  unfolding free_to remaining
  free_to-eq-remaining h le = ground (
    arith,
    get_elem?-eq-get_or s.buffer s.start (omega (arith, v.started, v.written, v.counted)),
    f.run,
  )

-- `freeTo` frees the inflights up to the first that is larger than `to`, and nothing else: it
-- never panics or reads out of range, and leaves a valid ring.
pub free_to_refines :
    (s : Inflights) (to : ℕ)
    → IsValid s
    → (s' : Inflights) × (free_to s to ≡ ok s')
      × IsValid s'
      × (s'.capacity ≡ s.capacity)
      × (contents s' ≡ drop_up_to to (contents s))
unfolding free_to remaining
free_to_refines s to v = elim (dec_lt 0 s.count) [
  | no h ↦ (
    s,
    ground arith,
    v,
    refl,
    drop_up_to-none to s.buffer s.capacity s.start s.count (omega arith),
  )
  | yes h ↦
      let here =
        get_elem?-eq-get_or s.buffer s.start (omega (arith, v.started, v.written, v.counted)) in
      elim (dec_lt to (get_or s.buffer s.start 0)) [
        | yes large ↦ (
          s,
          ground (arith, here),
          v,
          refl,
          sym (drop_up_to-slots to s.buffer s.capacity s.start s.count large),
        )
        | no met ↦
            let f =
              free_loop-Freed to s.capacity s.buffer s.count s.start 0 v.small v.buffered v.counted
                (omega (arith, v.started, v.counted), v.written) in
            (
              remaining s to f,
              free_to-eq-remaining s to v f (omega arith) (omega arith),
              remaining-IsValid s to v f,
              refl,
              contents-remaining s to v f,
            )
      ]
]
