-- ===== src/ReadOnly/Reach.antt =====
-- What a `ReadOnly` can be, from `newReadOnly` on.
use yaraft.Prelude.{ℕ, ◌≡◌, refl, subst, inl, inr, List, [], ◌∷◌, ◌++◌, Bytes}
use yaraft.Outcome.{ok}
use yaraft.Idl.{Message}
use yaraft.ReadOnly.{
  ReadOnly, ReadOnlyOption, ReadIndexStatus, init, add_request, recv_ack, advance,
}
use yaraft.ReadOnly.Queue.{IsNew, IsValid}
use yaraft.ReadOnly.Inv.{init-IsValid, add_request-IsValid, recv_ack-IsValid}
use yaraft.ReadOnly.Advance.{Advanced, advance_lem}

-- The context waits in the queue, as it does where `recvAck` has found it in the map.
abbrev pub Waits : ReadOnly → Bytes → Type 0
Waits r ctx =
    (front : List Bytes) × (rest : List Bytes) × (r.read_index_queue ≡ front ++ (ctx ∷ rest))

-- The states that the operations reach, where `advance` is called for contexts that wait.
pub data Reached (o : ReadOnlyOption) : ReadOnly → Type 0 where
  start : Reached o (init o)
  added :
      {r r' : ReadOnly} (idx : ℕ) (m : Message)
      → Reached o r
      → add_request r idx m ≡ ok r'
      → Reached o r'
  acked : {r : ReadOnly} (m : Message) → Reached o r → Reached o (recv_ack r m).0
  advanced :
      {r r' : ReadOnly} {rss : List ReadIndexStatus} (m : Message)
      → Reached o r
      → Waits r m.context
      → advance r m ≡ ok (r', rss)
      → Reached o r'

queued_not_new : (c : Bytes) (front rest : List Bytes) → IsNew c (front ++ (c ∷ rest)) → ⊥
queued_not_new c [] rest (d, h) = d refl
queued_not_new c (f ∷ front) rest (d, h) = queued_not_new c front rest h

advanced-IsValid :
    (r r' : ReadOnly) (ctx : Bytes) (rss : List ReadIndexStatus)
    → Waits r ctx
    → Advanced r ctx r' rss
    → IsValid r'
advanced-IsValid r r' ctx rss (front, rest, split) (inl (new, none_left, same, lost)) =
    absurd (queued_not_new ctx front rest (rw split at new))
advanced-IsValid r r' ctx rss w (inr (v, front, split, answers)) = v

Reached-IsValid : {o : ReadOnlyOption} {r : ReadOnly} → Reached o r → IsValid r
Reached-IsValid {o = o} start = init-IsValid o
Reached-IsValid (added idx m h e) = add_request-IsValid _ idx m (Reached-IsValid h) e
Reached-IsValid (acked m h) = (recv_ack-IsValid _ m (Reached-IsValid h)).0
Reached-IsValid (advanced {r = r} {r' = r'} m h w e) =
    let (s, rss, run, end) = advance_lem r m (Reached-IsValid h) in
    let same : s ≡ r' = cc in subst IsValid same (advanced-IsValid r s m.context rss w end)

-- In every state that the operations reach from newReadOnly, where advance was called only for contexts that wait in
-- the queue, advance never panics for a request that it does not find and never reads out of range or through a
-- request that is gone. Where the context waits, it answers the requests of the queue up to that of the context, in
-- their order, takes just these off the queue, and every context that is left still has its own request and is there
-- once. Where the context does not wait, it answers nothing and keeps the queue, but the requests of all the contexts
-- of the queue are moved out of the map, which keeps the contexts.
pub advance-Reached :
    {o : ReadOnlyOption} (r : ReadOnly) (m : Message)
    → Reached o r
    → (r' : ReadOnly) × (rss : List ReadIndexStatus) × (advance r m ≡ ok (r', rss))
      × Advanced r m.context r' rss
advance-Reached r m h = advance_lem r m (Reached-IsValid h)
