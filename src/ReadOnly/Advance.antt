-- ===== src/ReadOnly/Advance.antt =====
-- A round of heartbeats answers the requests up to its own.
use yaraft.Prelude.{◌≡◌, refl, sym, ◌∙◌, ◌⊎◌, inl, inr, List, [], ◌∷◌, ◌++◌, Bytes}
use mathlib.Core.List.{append_assoc}
use yaraft.Outcome.{ok}
use yaraft.Idl.{Message}
use yaraft.ReadOnly.{ReadOnly, ReadIndexStatus, Pending, find, erase, advance, erase_all}
use yaraft.ReadOnly.Queue.{
  AllPending, AllLost, IsNew, IsNew-back, AllNew, IsValid, Answers, find-erase_ne,
  advance_loop-LoopEnds,
}

AllNew-back : (front cs : List Bytes) → AllNew (front ++ cs) → AllNew cs
AllNew-back [] cs h = h
AllNew-back (f ∷ front) cs (d, h) = AllNew-back front cs h

AllPending-back :
    (p : Pending) (front cs : List Bytes) → AllPending p (front ++ cs) → AllPending p cs
AllPending-back p [] cs h = h
AllPending-back p (f ∷ front) cs (d, h) = AllPending-back p front cs h

-- None of the contexts is in the front.
abbrev Apart : List Bytes → List Bytes → Type 0
Apart front [] = Unit {0}
Apart front (c ∷ cs) = IsNew c front × Apart front cs

Apart-nil : (cs : List Bytes) → Apart [] cs
Apart-nil [] = tt
Apart-nil (c ∷ cs) = (tt, Apart-nil cs)

Apart-cons :
    (f : Bytes) (front cs : List Bytes) → IsNew f cs → Apart front cs → Apart (f ∷ front) cs
Apart-cons f front [] h a = tt
Apart-cons f front (c ∷ cs) (d, h) (n, a) = (((λ same. d (sym same)), n), Apart-cons f front cs h a)

AllNew-Apart : (front cs : List Bytes) → AllNew (front ++ cs) → Apart front cs
AllNew-Apart [] cs h = Apart-nil cs
AllNew-Apart (f ∷ front) cs (d, h) =
    Apart-cons f front cs (IsNew-back f front cs d) (AllNew-Apart front cs h)

-- Erasing answered requests leaves the others.
erase_all-keeps :
    (p₀ : Pending) (front : List Bytes) (ss : List ReadIndexStatus) (p : Pending)
    → Answers p₀ front ss
    → (p' : Pending) × (erase_all ss p ≡ ok p')
      × ((c : Bytes) → IsNew c front → find c p' ≡ find c p)
unfolding erase_all
erase_all-keeps p₀ [] [] p a = (p, refl, λ c h. refl)
erase_all-keeps p₀ (f ∷ front) (s ∷ ss) p (found, own, a) =
    let (p', run, keeps) = erase_all-keeps p₀ front ss (erase f p) a in
    (p', rw own run, λ c h. keeps c h.1 ∙ find-erase_ne f c p (λ same. h.0 (sym same)))
erase_all-keeps p₀ [] (s ∷ ss) p a = absurd a
erase_all-keeps p₀ (f ∷ front) [] p a = absurd a

AllPending-kept :
    (p p' : Pending) (front cs : List Bytes)
    → ((c : Bytes) → IsNew c front → find c p' ≡ find c p)
    → Apart front cs
    → AllPending p cs
    → AllPending p' cs
AllPending-kept p p' front [] keeps a h = tt
AllPending-kept p p' front (c ∷ cs) keeps (n, a) ((s, found, own), h) =
    ((s, keeps c n ∙ found, own), AllPending-kept p p' front cs keeps a h)

-- How `advance` ends. Where the context does not wait, nothing is answered, the queue stays, and the requests that wait
-- are lost. Otherwise it answers the requests of the queue up to that of the context, in their order.
abbrev pub Advanced : ReadOnly → Bytes → ReadOnly → List ReadIndexStatus → Type 0
Advanced r ctx r' rss =
    (IsNew ctx r.read_index_queue
      × (rss ≡ [])
      × (r'.read_index_queue ≡ r.read_index_queue)
      × AllLost r'.pending_read_index r.read_index_queue)
    ⊎ (IsValid r'
        × (front : List Bytes) × (r.read_index_queue ≡ front ++ (ctx ∷ r'.read_index_queue))
        × Answers r.pending_read_index (front ++ (ctx ∷ [])) rss)

-- On a valid `ReadOnly`, `advance` never panics or reads out of range, and leaves a valid one where the context waits.
pub advance_lem :
    (r : ReadOnly) (m : Message)
    → IsValid r
    → (r' : ReadOnly) × (rss : List ReadIndexStatus) × (advance r m ≡ ok (r', rss))
      × Advanced r m.context r' rss
unfolding advance
advance_lem r m v =
    elim (advance_loop-LoopEnds m.context r.pending_read_index r.read_index_queue [] v.pending
      v.new) [
        | inl (left, run, out, lost, keeps) ↦
            (record r { pending_read_index = left }, [], rw run refl, inl (out, refl, refl, lost))
        | inr (left, front, ss, rest, run, split, answers, keeps) ↦
            let taken = front ++ (m.context ∷ []) in
            let parts : r.read_index_queue ≡ taken ++ rest =
              split ∙ sym (append_assoc front (m.context ∷ []) rest) in
            let (p', erased, others) = erase_all-keeps r.pending_read_index taken ss left answers in
            let all : AllNew (taken ++ rest) = rw parts at v.new in
            (
              record r { pending_read_index = p'; read_index_queue = rest },
              ss,
              rw (run, erased) refl,
              inr (
                record {
                  pending =
                      AllPending-kept r.pending_read_index p' taken rest
                        (λ c n. others c n ∙ keeps c n) (AllNew-Apart taken rest all)
                        (AllPending-back r.pending_read_index taken rest (rw parts at v.pending));
                  new = AllNew-back taken rest all;
                },
                front,
                split,
                answers,
              ),
            )
      ]
