-- ===== src/ReadOnly/Tests.antt =====
-- Pending reads at a concrete queue.
use yaraft.Prelude.{some, ◌≡◌, refl, List, [], ◌∷◌, Bytes, bytes_eq}
use yaraft.Outcome.{ok}
use yaraft.Idl.{Message, empty_message, empty_entry, msg_read_index, msg_heartbeat_resp}
use yaraft.ReadOnly.{
  ReadOnly, ReadIndexStatus, read_only_safe, init, find, put, request_ctx, add_request, add_new,
  advance,
}
use yaraft.ReadOnly.Advance.{Advanced}
use yaraft.ReadOnly.Reach.{start, added, advance-Reached}

abbrev ctx_a : Bytes
ctx_a = b'a' ∷ []

abbrev ctx_b : Bytes
ctx_b = b'b' ∷ []

-- The requests "a" and "b", in this order.
abbrev request_of : Bytes → Message
request_of ctx = record empty_message {
  msg_type = msg_read_index;
  entries = record empty_entry { payload = ctx } ∷ [];
}

abbrev status_of : Bytes → ReadIndexStatus
status_of ctx = record { req = some (request_of ctx); index = 3; acks = [] }

abbrev waiting : ReadOnly
waiting = record {
  option = read_only_safe;
  pending_read_index = (ctx_a, status_of ctx_a) ∷ (ctx_b, status_of ctx_b) ∷ [];
  read_index_queue = ctx_a ∷ ctx_b ∷ [];
}

-- `waiting` comes from two requests.
abbrev first : ReadOnly
first = record {
  option = read_only_safe;
  pending_read_index = (ctx_a, status_of ctx_a) ∷ [];
  read_index_queue = ctx_a ∷ [];
}

add-first : add_request (init read_only_safe) 3 (request_of ctx_a) ≡ ok first
unfolding add_request add_new init find put request_ctx bytes_eq
add-first = refl

add-waiting : add_request first 3 (request_of ctx_b) ≡ ok waiting
unfolding add_request add_new find put request_ctx bytes_eq
add-waiting = refl

-- A heartbeat's answer that carries "a".
abbrev ack : Message
ack = record empty_message { msg_type = msg_heartbeat_resp; from = 2; context = ctx_a }

advance-Reached_example :
    (r : ReadOnly) × (rss : List ReadIndexStatus) × (advance waiting ack ≡ ok (r, rss))
    × Advanced waiting ctx_a r rss
advance-Reached_example =
    advance-Reached waiting ack
      (added 3 (request_of ctx_b) (added 3 (request_of ctx_a) start add-first) add-waiting)
