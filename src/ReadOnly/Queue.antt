-- ===== src/ReadOnly/Queue.antt =====
-- The queue of contexts and the map of requests belong together.
use yaraft.Prelude.{
  ◌≡◌, ◌≢◌, refl, sym, ◌∙◌, ap, ◌⊎◌, inl, inr, true, false, List, [], ◌∷◌, ◌++◌, none, some, Bytes,
  bytes_eq, bytes_eq_self, eq_of_bytes_eq, Bool-cases, arith,
}
use mathlib.Core.List.{append_assoc}
use yaraft.Outcome.{ok}
use yaraft.ReadOnly.{
  ReadOnly, ReadIndexStatus, Pending, find, put, erase, status_ctx, moved, advance_loop,
}

-- A context of the queue has its request in the map.
abbrev pub IsPending : Pending → Bytes → Type 0
IsPending pending c = (s : ReadIndexStatus) × (find c pending ≡ some s) × (status_ctx s ≡ ok c)

abbrev pub AllPending : Pending → List Bytes → Type 0
AllPending pending [] = Unit {0}
AllPending pending (c ∷ cs) = IsPending pending c × AllPending pending cs

-- A context is not in a queue.
abbrev pub IsNew : Bytes → List Bytes → Type 0
IsNew c [] = Unit {0}
IsNew c (d ∷ cs) = (c ≢ d) × IsNew c cs

abbrev pub AllNew : List Bytes → Type 0
AllNew [] = Unit {0}
AllNew (c ∷ cs) = IsNew c cs × AllNew cs

-- Every context of the queue is there once and has its request.
pub record IsValid (r : ReadOnly) : Type 0 where
  pub pending : AllPending r.pending_read_index r.read_index_queue
  pub new : AllNew r.read_index_queue

bytes_eq_ne : (a b : Bytes) → a ≢ b → bytes_eq a b ≡ false
bytes_eq_ne a b h = elim (Bool-cases (bytes_eq a b)) [
  | inl e ↦ absurd (h (eq_of_bytes_eq a b e))
  | inr e ↦ e
]

pub find-put_self : (k : Bytes) (v : ReadIndexStatus) (m : Pending) → find k (put k v m) ≡ some v
unfolding find put
find-put_self k v [] = ground (arith, bytes_eq_self k)
find-put_self k v ((j, w) ∷ m) = ground (arith, bytes_eq_self k, find-put_self k v m)

pub find-put_ne :
    (k l : Bytes) (v : ReadIndexStatus) (m : Pending) → k ≢ l → find l (put k v m) ≡ find l m
unfolding find put
find-put_ne k l v [] h = ground (arith, bytes_eq_ne k l h)
find-put_ne k l v ((j, w) ∷ m) h = elim (Bool-cases (bytes_eq j k)) [
  | inl e ↦
      ground
        (arith, bytes_eq_ne j l (λ same. h (sym (eq_of_bytes_eq j k e) ∙ same)), bytes_eq_ne k l h)
  | inr e ↦ ground (arith, find-put_ne k l v m h)
]

pub find-erase_ne : (k l : Bytes) (m : Pending) → k ≢ l → find l (erase k m) ≡ find l m
unfolding find erase
find-erase_ne k l [] h = refl
find-erase_ne k l ((j, w) ∷ m) h = elim (Bool-cases (bytes_eq j k)) [
  | inl e ↦ ground (arith, bytes_eq_ne j l (λ same. h (sym (eq_of_bytes_eq j k e) ∙ same)))
  | inr e ↦ ground (arith, find-erase_ne k l m h)
]

-- The statuses are those of the contexts, in order.
abbrev pub Answers : Pending → List Bytes → List ReadIndexStatus → Type 0
Answers pending [] [] = Unit {0}
Answers pending (c ∷ cs) (s ∷ ss) =
    (find c pending ≡ some s) × (status_ctx s ≡ ok c) × Answers pending cs ss
Answers pending _ _ = ⊥

-- The requests of these contexts are gone, though the map still has their keys.
abbrev pub AllLost : Pending → List Bytes → Type 0
AllLost pending [] = Unit {0}
AllLost pending (c ∷ cs) =
    ((s : ReadIndexStatus) × (find c pending ≡ some s) × (s.req ≡ none)) × AllLost pending cs

-- How the loop ends, from the queue and the statuses that it has collected: `front` are the contexts up
-- to `ctx`, which are taken with their statuses.
abbrev LoopEnds : Bytes → Pending → List Bytes → List ReadIndexStatus → Type 0
LoopEnds ctx pending queue rss =
    ((left : Pending) × (advance_loop ctx pending queue rss ≡ ok (left, none))
      × IsNew ctx queue
      × AllLost left queue
      × ((c : Bytes) → IsNew c queue → find c left ≡ find c pending))
    ⊎ ((left : Pending) × (front : List Bytes) × (ss : List ReadIndexStatus) × (rest : List Bytes)
        × (advance_loop ctx pending queue rss ≡ ok (left, some (rss ++ ss, rest)))
        × (queue ≡ front ++ (ctx ∷ rest))
        × Answers pending (front ++ (ctx ∷ [])) ss
        × ((c : Bytes) → IsNew c (front ++ (ctx ∷ [])) → find c left ≡ find c pending))

-- One round of the loop.
module _ (ctx c : Bytes) (pending : Pending) (cs : List Bytes) (rss : List ReadIndexStatus)
    (s : ReadIndexStatus) where
  loop_taken :
      find c pending ≡ some s
      → bytes_eq ctx c ≡ true
      → advance_loop ctx pending (c ∷ cs) rss
        ≡ ok (put c (moved s) pending, some (rss ++ (s ∷ []), cs))
  unfolding advance_loop
  loop_taken f e = ground arith

  loop_next :
      find c pending ≡ some s
      → bytes_eq ctx c ≡ false
      → advance_loop ctx pending (c ∷ cs) rss
        ≡ advance_loop ctx (put c (moved s) pending) cs (rss ++ (s ∷ []))
  unfolding advance_loop
  loop_next f e = ground arith

pub ne_of_bytes_eq : (a b : Bytes) → bytes_eq a b ≡ false → a ≢ b
ne_of_bytes_eq a b e same = absurd (ground (arith, rw (sym same) at e, bytes_eq_self a))

-- What is in the map for other contexts does not matter.
AllPending-put_new :
    (k : Bytes) (s : ReadIndexStatus) (p : Pending) (cs : List Bytes)
    → IsNew k cs
    → AllPending p cs
    → AllPending (put k s p) cs
AllPending-put_new k s p [] n h = tt
AllPending-put_new k s p (c ∷ cs) (d, n) ((t, found, own), h) =
    ((t, find-put_ne k c s p d ∙ found, own), AllPending-put_new k s p cs n h)

pub IsNew-back : (c : Bytes) (front cs : List Bytes) → IsNew c (front ++ cs) → IsNew c cs
IsNew-back c [] cs h = h
IsNew-back c (f ∷ front) cs (d, h) = IsNew-back c front cs h

Answers-put :
    (k : Bytes) (v : ReadIndexStatus) (p : Pending) (cs : List Bytes) (ss : List ReadIndexStatus)
    → IsNew k cs
    → Answers (put k v p) cs ss
    → Answers p cs ss
Answers-put k v p [] [] n a = tt
Answers-put k v p (c ∷ cs) (s ∷ ss) (d, n) (found, own, a) =
    (sym (find-put_ne k c v p d) ∙ found, own, Answers-put k v p cs ss n a)
Answers-put k v p [] (s ∷ ss) n a = absurd a
Answers-put k v p (c ∷ cs) [] n a = absurd a

IsNew-taken :
    (c ctx : Bytes) (front rest : List Bytes)
    → IsNew c (front ++ (ctx ∷ rest))
    → IsNew c (front ++ (ctx ∷ []))
IsNew-taken c ctx [] rest (d, h) = (d, tt)
IsNew-taken c ctx (f ∷ front) rest (d, h) = (d, IsNew-taken c ctx front rest h)

pub advance_loop-LoopEnds :
    (ctx : Bytes) (pending : Pending) (queue : List Bytes) (rss : List ReadIndexStatus)
    → AllPending pending queue
    → AllNew queue
    → LoopEnds ctx pending queue rss
unfolding advance_loop
advance_loop-LoopEnds ctx pending [] rss h v = inl (pending, refl, tt, tt, λ c n. refl)
advance_loop-LoopEnds ctx pending (c ∷ cs) rss ((s, found, own), h) (new, v) =
    let next = put c (moved s) pending in
    elim (Bool-cases (bytes_eq ctx c)) [
      | inl e ↦
          let same = eq_of_bytes_eq ctx c e in
          inr (
            next,
            [],
            s ∷ [],
            cs,
            loop_taken ctx c pending cs rss s found e,
            ap (λ d. d ∷ cs) (sym same),
            (rw same found, rw same own, tt),
            λ d n. find-put_ne c d (moved s) pending (λ q. n.0 (sym q ∙ sym same)),
          )
      | inr e ↦
          elim (advance_loop-LoopEnds ctx next cs (rss ++ (s ∷ []))
            (AllPending-put_new c (moved s) pending cs new h) v) [
              | inl (left, run, out, lost, keeps) ↦ inl (
                left,
                loop_next ctx c pending cs rss s found e ∙ run,
                (ne_of_bytes_eq ctx c e, out),
                ((moved s, keeps c new ∙ find-put_self c (moved s) pending, refl), lost),
                λ d n. keeps d n.1 ∙ find-put_ne c d (moved s) pending (λ q. n.0 (sym q)),
              )
              | inr (left, front, ss, rest, run, split, answers, keeps) ↦
                  let apart : IsNew c (front ++ (ctx ∷ [])) =
                    IsNew-taken c ctx front rest (rw split at new) in
                  inr (
                    left,
                    c ∷ front,
                    s ∷ ss,
                    rest,
                    loop_next ctx c pending cs rss s found e
                        ∙ run
                        ∙ ap (λ q. ok (left, some (q, rest))) (append_assoc rss (s ∷ []) ss),
                    ap (λ q. c ∷ q) split,
                    (
                      found,
                      own,
                      Answers-put c (moved s) pending (front ++ (ctx ∷ [])) ss apart answers,
                    ),
                    λ d n. keeps d n.1 ∙ find-put_ne c d (moved s) pending (λ q. n.0 (sym q)),
                  )
            ]
    ]
