-- ===== src/ReadOnly/Inv.antt =====
-- Every operation keeps the queue and the map together.
use yaraft.Prelude.{
  ℕ, subst, ◌≡◌, ◌≢◌, refl, sym, ◌∙◌, inl, inr, List, [], ◌∷◌, ◌++◌, none, some, Bytes, bytes_eq,
  eq_of_bytes_eq, Bool-cases, Option-cases, arith,
}
use yaraft.Outcome.{ok, bind-ok}
use yaraft.Idl.{Message}
use yaraft.ReadOnly.{
  ReadOnly, ReadOnlyOption, ReadIndexStatus, Pending, init, find, put, request_ctx, status_ctx,
  add_request, add_new, recv_ack, ack_found,
}
use yaraft.ReadOnly.Queue.{
  IsPending, AllPending, IsNew, AllNew, IsValid, find-put_self, find-put_ne, ne_of_bytes_eq,
}

pub init-IsValid : (o : ReadOnlyOption) → IsValid (init o)
unfolding init
init-IsValid o = record { pending = tt; new = tt }

-- A request with its own context may be put in place of another.
AllPending-put :
    (k : Bytes) (s : ReadIndexStatus) (p : Pending) (cs : List Bytes)
    → status_ctx s ≡ ok k
    → AllPending p cs
    → AllPending (put k s p) cs
AllPending-put k s p [] own h = tt
AllPending-put k s p (c ∷ cs) own ((s', found, own'), h) = elim (Bool-cases (bytes_eq k c)) [
  | inl e ↦
      let same = eq_of_bytes_eq k c e in
      (
        (
          s,
          subst (λ d. find d (put k s p) ≡ some s) same (find-put_self k s p),
          subst (λ d. status_ctx s ≡ ok d) same own,
        ),
        AllPending-put k s p cs own h,
      )
  | inr e ↦ (
    (s', find-put_ne k c s p (ne_of_bytes_eq k c e) ∙ found, own'),
    AllPending-put k s p cs own h,
  )
]

-- What is not in the map does not wait.
find-IsNew :
    (c : Bytes) (p : Pending) (cs : List Bytes) → find c p ≡ none → AllPending p cs → IsNew c cs
find-IsNew c p [] missing h = tt
find-IsNew c p (d ∷ cs) missing ((s, found, own), h) = (
  (λ same. absurd (ground (arith, subst (λ x. find x p ≡ none) same missing, found))),
  find-IsNew c p cs missing h,
)

IsNew-append : (d c : Bytes) (cs : List Bytes) → d ≢ c → IsNew d cs → IsNew d (cs ++ (c ∷ []))
IsNew-append d c [] n h = (n, tt)
IsNew-append d c (x ∷ cs) n (m, h) = (m, IsNew-append d c cs n h)

AllNew-append : (c : Bytes) (cs : List Bytes) → IsNew c cs → AllNew cs → AllNew (cs ++ (c ∷ []))
AllNew-append c [] n h = (tt, tt)
AllNew-append c (d ∷ cs) (n, ns) (m, h) =
    (IsNew-append d c cs (λ same. n (sym same)) m, AllNew-append c cs ns h)

AllPending-append :
    (p : Pending) (c : Bytes) (cs : List Bytes)
    → IsPending p c
    → AllPending p cs
    → AllPending p (cs ++ (c ∷ []))
AllPending-append p c [] q h = (q, tt)
AllPending-append p c (d ∷ cs) q (x, h) = (x, AllPending-append p c cs q h)

add_new-IsValid :
    (r : ReadOnly) (idx : ℕ) (m : Message) (ctx : Bytes)
    → request_ctx m ≡ ok ctx
    → IsValid r
    → IsValid (add_new r idx m ctx (find ctx r.pending_read_index))
unfolding add_new status_ctx
add_new-IsValid r idx m ctx own v = elim (Option-cases (find ctx r.pending_read_index)) [
  | inr (s, found) ↦ rw found v
  | inl missing ↦
      let s : ReadIndexStatus = record { req = some m; index = idx; acks = [] } in
      rw missing (record {
        pending =
            AllPending-append (put ctx s r.pending_read_index) ctx r.read_index_queue
              (s, find-put_self ctx s r.pending_read_index, own)
              (AllPending-put ctx s r.pending_read_index r.read_index_queue own v.pending);
        new =
            AllNew-append ctx r.read_index_queue
              (find-IsNew ctx r.pending_read_index r.read_index_queue missing v.pending) v.new;
      })
]

-- `addRequest` keeps queue and map together, for a request that is new or that waits already.
pub add_request-IsValid :
    (r : ReadOnly) (idx : ℕ) (m : Message) {r' : ReadOnly}
    → IsValid r
    → add_request r idx m ≡ ok r'
    → IsValid r'
unfolding add_request
add_request-IsValid r idx m {r' = r'} v e =
    let (ctx, own, done) =
      bind-ok (request_ctx m) (λ ctx. ok (add_new r idx m ctx (find ctx r.pending_read_index))) e in
    let same : add_new r idx m ctx (find ctx r.pending_read_index) ≡ r' = cc in
    subst IsValid same (add_new-IsValid r idx m ctx own v)

-- An acknowledgement changes the acknowledging nodes alone.
AllPending-ack :
    (k : Bytes) (s : ReadIndexStatus) (acks : List ℕ) (p : Pending) (cs : List Bytes)
    → find k p ≡ some s
    → AllPending p cs
    → AllPending (put k (record s { acks = acks }) p) cs
unfolding status_ctx
AllPending-ack k s acks p [] hit h = tt
AllPending-ack k s acks p (c ∷ cs) hit ((s', found, own), h) = elim (Bool-cases (bytes_eq k c)) [
  | inl e ↦
      let same = eq_of_bytes_eq k c e in
      let hit' : find c p ≡ some s = subst (λ d. find d p ≡ some s) same hit in
      let one : s' ≡ s = cc in
      let s'' : ReadIndexStatus = record s { acks = acks } in
      (
        (
          s'',
          subst (λ d. find d (put k s'' p) ≡ some s'') same (find-put_self k s'' p),
          subst (λ x. status_ctx x ≡ ok c) one own,
        ),
        AllPending-ack k s acks p cs hit h,
      )
  | inr e ↦ (
    (s', find-put_ne k c _ p (ne_of_bytes_eq k c e) ∙ found, own),
    AllPending-ack k s acks p cs hit h,
  )
]

-- `recvAck` keeps queue and map together, and the queue as it is.
pub recv_ack-IsValid :
    (r : ReadOnly) (m : Message)
    → IsValid r
    → IsValid (recv_ack r m).0 × ((recv_ack r m).0.read_index_queue ≡ r.read_index_queue)
unfolding recv_ack ack_found
recv_ack-IsValid r m v = elim (Option-cases (find m.context r.pending_read_index)) [
  | inl missing ↦ rw missing (v, refl)
  | inr (s, found) ↦ rw found (
    record {
      pending =
          AllPending-ack m.context s _ r.pending_read_index r.read_index_queue found v.pending;
      new = v.new;
    },
    refl,
  )
]
