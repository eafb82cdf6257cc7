-- ===== src/Raft/Quorum.antt =====
-- What a quorum of voters holds when the commit index moves.
use yaraft.Prelude.{
  ℕ, zero, suc, ◌+◌, ◌-◌, ◌/◌, ◌≤◌, ◌<◌, ◌≡◌, refl, sym, ◌∙◌, inl, inr, Option-cases, ◌≢◌, ◌⊎◌,
  Bool, true, false, List, [], ◌∷◌, some, leb, if◌then◌else◌, length, get_elem?, max, arith,
}
use yaraft.Outcome.{ok}
use yaraft.Progress.{Progress}
use yaraft.RaftLog
use yaraft.RaftLog.{RaftLog}
use yaraft.Raft.State.{Raft, quorum}
use yaraft.Raft.Replicate.{insert_desc, sort_desc, match_indexes, maybe_commit}

-- How many numbers are at least `n`.
abbrev pub count_from : ℕ → List ℕ → ℕ
count_from n [] = 0
count_from n (a ∷ rest) = (if leb n a then 1 else 0) + count_from n rest

-- No number is above `b`, and they fall.
abbrev Falls : ℕ → List ℕ → Type 0
Falls b [] = Unit {0}
Falls b (a ∷ rest) = (a ≤ b) × Falls a rest

insert_desc-Falls : (b a : ℕ) (xs : List ℕ) → a ≤ b → Falls b xs → Falls b (insert_desc a xs)
unfolding insert_desc
insert_desc-Falls b a [] h f = (h, tt)
insert_desc-Falls b a (x ∷ xs) h f = ground (arith, insert_desc-Falls x a xs)

-- A bound of the numbers.
abbrev bound : List ℕ → ℕ
bound [] = 0
bound (a ∷ rest) = max a (bound rest)

Falls-le : (b c : ℕ) (xs : List ℕ) → b ≤ c → Falls b xs → Falls c xs
Falls-le b c [] h f = tt
Falls-le b c (x ∷ xs) h f = ground arith

sort_desc-Falls : (xs : List ℕ) → Falls (bound xs) (sort_desc xs)
unfolding sort_desc
sort_desc-Falls [] = tt
sort_desc-Falls (x ∷ xs) =
    insert_desc-Falls _ x (sort_desc xs) (omega arith)
      (Falls-le (bound xs) _ (sort_desc xs) (omega arith) (sort_desc-Falls xs))

count_from-insert_desc :
    (n a : ℕ) (xs : List ℕ) → count_from n (insert_desc a xs) ≡ count_from n (a ∷ xs)
unfolding insert_desc
count_from-insert_desc n a [] = refl
count_from-insert_desc n a (x ∷ xs) = ground (arith, count_from-insert_desc n a xs)

count_from-sort_desc : (n : ℕ) (xs : List ℕ) → count_from n (sort_desc xs) ≡ count_from n xs
unfolding sort_desc
count_from-sort_desc n [] = refl
count_from-sort_desc n (x ∷ xs) =
    ground (arith, count_from-insert_desc n x (sort_desc xs), count_from-sort_desc n xs)

-- In falling numbers, the number at place `k` is reached by `k + 1` of them at least.
place-reached :
    (b k : ℕ) (xs : List ℕ) {v : ℕ}
    → Falls b xs
    → get_elem? xs k ≡ some v
    → (v ≤ b) × (k < count_from v xs)
place-reached b k [] f e = ground arith
place-reached b zero (x ∷ xs) f e = ground arith
place-reached b (suc k) (x ∷ xs) f e = ground (arith, place-reached x k xs f.1 e)

count_from-none : (b n : ℕ) (xs : List ℕ) → Falls b xs → b < n → count_from n xs ≡ 0
count_from-none b n [] f h = refl
count_from-none b n (x ∷ xs) f h = ground (arith, count_from-none x n xs f.1)

-- A larger number is reached by `k` of them at most.
place-largest :
    (b k n : ℕ) (xs : List ℕ) {v : ℕ}
    → Falls b xs
    → get_elem? xs k ≡ some v
    → v < n
    → count_from n xs ≤ k
place-largest b k n [] f e h = ground arith
place-largest b zero n (x ∷ xs) f e h = ground (arith, count_from-none x n xs f.1)
place-largest b (suc k) n (x ∷ xs) f e h = ground (arith, place-largest x k n xs f.1 e h)

-- How many of the voters have stored the log up to index `n`, as far as the leader knows.
abbrev pub reached : ℕ → List (ℕ × Progress) → ℕ
reached n [] = 0
reached n ((id, p) ∷ prs) = (if leb n p.matched then 1 else 0) + reached n prs

count_from-match_indexes :
    (n : ℕ) (prs : List (ℕ × Progress)) → count_from n (match_indexes prs) ≡ reached n prs
unfolding match_indexes
count_from-match_indexes n [] = refl
count_from-match_indexes n ((id, p) ∷ prs) = ground (arith, count_from-match_indexes n prs)

-- What the sorted matches hold at a place.
module _ (prs : List (ℕ × Progress)) (k c : ℕ)
    (e : get_elem? (sort_desc (match_indexes prs)) k ≡ some c) where
  same_count : (n : ℕ) → count_from n (sort_desc (match_indexes prs)) ≡ reached n prs
  same_count n = count_from-sort_desc n (match_indexes prs) ∙ count_from-match_indexes n prs

  reached-place : k < reached c prs
  reached-place =
      let (_, more) = place-reached _ k _ (sort_desc-Falls (match_indexes prs)) e in
      rw (sym (same_count c)) more

  reached-above : (n : ℕ) → c < n → reached n prs ≤ k
  reached-above n h =
      rw (sym (same_count n)) (place-largest _ k n _ (sort_desc-Falls (match_indexes prs)) e h)

-- The log commits at an index that it has not committed and that holds an entry of the term.
log_commits :
    (l : RaftLog) (c t : ℕ) {p : RaftLog × Bool}
    → RaftLog.maybe_commit l c t ≡ ok p
    → ((p ≡ (l, false))
        × ((c ≤ l.committed) ⊎ (RaftLog.zero_term_on_err_compacted (RaftLog.term l c) ≢ ok t)))
      ⊎ ((p ≡ (record l { committed = c }, true))
          × (l.committed < c)
          × (RaftLog.zero_term_on_err_compacted (RaftLog.term l c) ≡ ok t))
unfolding RaftLog.maybe_commit RaftLog.commit_to
log_commits l c t e = ground arith

-- The index `c` is the largest that a quorum of the voters has stored.
abbrev pub IsQuorumIndex : ℕ → Raft → Type 0
IsQuorumIndex c r = (quorum r ≤ reached c r.prs) × ((n : ℕ) → c < n → reached n r.prs < quorum r)

-- How `maybeCommit` ends, for the index `c` that a quorum has stored.
abbrev pub CommitOf : Raft → ℕ → Raft × Bool → Type 0
CommitOf r c p =
    ((p ≡ (record r { raft_log = record r.raft_log { committed = c } }, true))
      × (r.raft_log.committed < c)
      × (RaftLog.zero_term_on_err_compacted (RaftLog.term r.raft_log c) ≡ ok r.term))
    ⊎ ((p ≡ (r, false))
        × ((c ≤ r.raft_log.committed)
            ⊎ (RaftLog.zero_term_on_err_compacted (RaftLog.term r.raft_log c) ≢ ok r.term)))

-- `maybeCommit` either moves the commit index up to the largest index that a quorum of the voters has
-- stored, which then holds an entry of the leader's term; or it changes nothing, because no quorum has
-- stored more than is committed, or because the index that a quorum has stored holds another term.
pub maybe_commit-IsQuorum :
    (r : Raft) {p : Raft × Bool}
    → maybe_commit r ≡ ok p
    → (c : ℕ) × IsQuorumIndex c r × CommitOf r c p
unfolding maybe_commit quorum
maybe_commit-IsQuorum r e =
    elim (Option-cases (get_elem? (sort_desc (match_indexes r.prs)) (length r.prs / 2 + 1 - 1))) [
      | inl h ↦ ground arith
      | inr (c, h) ↦ (
        c,
        (
          omega (arith, reached-place r.prs _ c h),
          λ n k. omega (arith, reached-above r.prs _ c h n k),
        ),
        grind (arith, log_commits),
      )
    ]
