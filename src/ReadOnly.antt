-- ===== src/ReadOnly.antt =====
-- include/yaraft/read_only.h and src/read_only.cc: the read requests that wait for a quorum.
pub mod Queue
pub mod Advance
pub mod Reach
pub mod Inv
mod Tests
use yaraft.Prelude.{
  ℕ, true, false, List, [], ◌∷◌, ◌++◌, Option, none, some, if◌then◌else◌, length, get_elem?, ◌==◌,
  Bytes, bytes_eq, add64,
}
use yaraft.Outcome.{Outcome, ok, panic, ◌>>=◌, or_fault}
use yaraft.Idl.{Message}

pub data ReadOnlyOption : Type 0 where
  read_only_safe read_only_lease_based : ReadOnlyOption

pub record ReadState : Type 0 where
  pub index : ℕ
  pub request_ctx : Bytes

-- `acks` is a set: no node is in the list twice. The request is `none` in a status that was moved from, since a
-- message is held through a pointer.
pub record ReadIndexStatus : Type 0 where
  pub req : Option Message
  pub index : ℕ
  pub acks : List ℕ

abbrev pub Pending : Type 0
Pending = List (Bytes × ReadIndexStatus)

pub record ReadOnly : Type 0 where
  pub option : ReadOnlyOption
  pub pending_read_index : Pending
  pub read_index_queue : List Bytes

-- `newReadOnly`
unfoldable pub init : ReadOnlyOption → ReadOnly
init option = record { option = option; pending_read_index = []; read_index_queue = [] }

-- The map `pendingReadIndex`, as an association list.
unfoldable pub find : Bytes → Pending → Option ReadIndexStatus
find k [] = none
find k ((j, v) ∷ m) = if bytes_eq j k then some v else find k m

unfoldable pub put : Bytes → ReadIndexStatus → Pending → Pending
put k v [] = (k, v) ∷ []
put k v ((j, w) ∷ m) = if bytes_eq j k then (k, v) ∷ m else (j, w) ∷ put k v m

unfoldable pub erase : Bytes → Pending → Pending
erase k [] = []
erase k ((j, w) ∷ m) = if bytes_eq j k then m else (j, w) ∷ erase k m

-- `m.entries()[0].data()`
unfoldable pub request_ctx : Message → Outcome Bytes
request_ctx m = or_fault (get_elem? m.entries 0) >>= λ e. ok e.payload

-- `rs.req.entries()[0].data()`
unfoldable pub status_ctx : ReadIndexStatus → Outcome Bytes
status_ctx s = or_fault s.req >>= request_ctx

-- What a move leaves; the set is taken to be left empty.
abbrev pub moved : ReadIndexStatus → ReadIndexStatus
moved s = record s { req = none; acks = [] }

add_new : ReadOnly → ℕ → Message → Bytes → Option ReadIndexStatus → ReadOnly
add_new r idx m ctx (some _) = r
add_new r idx m ctx none = record r {
  pending_read_index =
      put ctx (record { req = some m; index = idx; acks = [] }) r.pending_read_index;
  read_index_queue = r.read_index_queue ++ (ctx ∷ []);
}

unfoldable pub add_request : ReadOnly → ℕ → Message → Outcome ReadOnly
unfolding add_new
add_request r idx m =
    request_ctx m >>= λ ctx. ok (add_new r idx m ctx (find ctx r.pending_read_index))

-- `acks.insert(id)`
unfoldable pub insert_ack : ℕ → List ℕ → List ℕ
insert_ack id [] = id ∷ []
insert_ack id (a ∷ acks) = if a == id then a ∷ acks else a ∷ insert_ack id acks

ack_found : ReadOnly → Message → Option ReadIndexStatus → ReadOnly × ℕ
ack_found r m none = (r, 0)
ack_found r m (some s) =
    let acks' = insert_ack m.from s.acks in
    (
      record r {
        pending_read_index = put m.context (record s { acks = acks' }) r.pending_read_index;
      },
      add64 (length acks') 1,
    )

unfoldable pub recv_ack : ReadOnly → Message → ReadOnly × ℕ
unfolding ack_found
recv_ack r m = ack_found r m (find m.context r.pending_read_index)

-- The loop of `advance`: it moves the statuses out of the map, up to that of the context it looks for. What it has
-- collected comes with the rest of the queue; `none` where the context is not in the queue.
pub advance_loop :
    Bytes
    → Pending
    → List Bytes
    → List ReadIndexStatus
    → Outcome (Pending × Option (List ReadIndexStatus × List Bytes))
advance_loop ctx pending [] rss = ok (pending, none)
advance_loop ctx pending (okctx ∷ queue) rss = elim (find okctx pending) [
  | none ↦ panic
  | some s ↦ elim (bytes_eq ctx okctx) [
    | true ↦ ok (put okctx (moved s) pending, some (rss ++ (s ∷ []), queue))
    | false ↦ advance_loop ctx (put okctx (moved s) pending) queue (rss ++ (s ∷ []))
  ]
]

erase_all : List ReadIndexStatus → Pending → Outcome Pending
erase_all [] pending = ok pending
erase_all (s ∷ rss) pending = status_ctx s >>= λ ctx. erase_all rss (erase ctx pending)

unfoldable pub advance : ReadOnly → Message → Outcome (ReadOnly × List ReadIndexStatus)
unfolding advance_loop erase_all
advance r m = advance_loop m.context r.pending_read_index r.read_index_queue [] >>= λ found.
    elim found.1 [
      | none ↦ ok (record r { pending_read_index = found.0 }, [])
      | some (rss, queue) ↦ erase_all rss found.0 >>= λ pending.
          ok (record r { pending_read_index = pending; read_index_queue = queue }, rss)
    ]

last_of : List Bytes → Bytes
last_of [] = []
last_of (c ∷ []) = c
last_of (c ∷ d ∷ cs) = last_of (d ∷ cs)

unfoldable pub last_pending_request_ctx : ReadOnly → Bytes
unfolding last_of
last_pending_request_ctx r = last_of r.read_index_queue
