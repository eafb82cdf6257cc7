-- ===== src/Util.antt =====
-- src/util.cc, src/util.h and the slicing of include/yaraft/span.h.
pub mod Limit
mod Tests
use yaraft.Prelude.{
  ℕ, ◌+◌, ◌-◌, ◌^◌, Bool, true, false, ◌||◌, List, [], ◌∷◌, ltb, if◌then◌else◌, length, take, drop,
  add64, u64_mod,
}
use yaraft.Outcome.{Outcome, ok, panic}
use yaraft.Idl.{
  Entry, byte_size, MessageType, msg_vote, msg_pre_vote, msg_vote_resp, msg_pre_vote_resp,
}

-- `const_span::SliceFrom`: `subspan(begin)` throws beyond the end.
module _ {ℓ} {A : Type ℓ} where
  unfoldable pub slice_from : ℕ → List A → Outcome (List A)
  slice_from begin xs = if ltb (length xs) begin then panic else ok (drop begin xs)

  -- `const_span::Slice`: the end is clipped to the length.
  unfoldable pub slice : ℕ → ℕ → List A → Outcome (List A)
  slice begin end xs =
      if ltb end begin || ltb (length xs) begin
      then panic
      else ok (take (end - begin) (drop begin xs))

-- The loop of `limitSize` over the entries from `limit` on; `size` is that of those before.
limit_loop : ℕ → ℕ → List Entry → ℕ → ℕ
limit_loop max_size size [] limit = limit
limit_loop max_size size (e ∷ es) limit =
    let size' = add64 size (byte_size e) in
    let rest = limit_loop max_size size' es (limit + 1) in
    if ltb max_size size' then limit else rest

unfoldable pub limit_size : ℕ → List Entry → List Entry
unfolding limit_loop
limit_size max_size [] = []
limit_size max_size (e ∷ es) = take (limit_loop max_size (byte_size e) es 1) (e ∷ es)

-- `std::numeric_limits<uint64_t>::max()`
abbrev pub no_limit : ℕ
no_limit = u64_mod - 1

unfoldable pub vote_resp_msg_type : MessageType → Outcome MessageType
vote_resp_msg_type msg_vote = ok msg_vote_resp
vote_resp_msg_type msg_pre_vote = ok msg_pre_vote_resp
vote_resp_msg_type _ = panic
