-- ===== src/Raft/Log/Growing.antt =====
-- A leader's own entries, and the snapshots and entries that a follower takes.
use yaraft.Prelude.{
  ℕ, suc, ◌+◌, ◌-◌, ◌<◌, ◌≡◌, refl, sym, subst, ap, inl, inr, Bool, List, [], ◌∷◌, length, arith,
  u64_mod, add64, get_elem?,
}
use yaraft.Outcome.{ok, bind-ok, or_fault}
use yaraft.Idl.{Entry}
use yaraft.Progress
use yaraft.RaftLog
use yaraft.RaftLog.{RaftLog, last_index}
use yaraft.RaftLog.Append.{IsJoined, append_lem}
use yaraft.Raft.State.{Raft, with_progress, quorum}
use yaraft.Raft.Replicate.{number_entries, maybe_commit, append_entry, sort_desc, match_indexes}
use yaraft.Raft.Same.{Same}
use yaraft.Raft.Later.Elections.{with_progress-Same}
use yaraft.Raft.Log.{
  IsKept, IsKept-refl, IsKept-trans, IsExtended-IsKept, maybe_commit-IsKept, HasRoom,
}

length-number_entries : (t i : ℕ) (es : List Entry) → length (number_entries t i es) ≡ length es
unfolding number_entries
length-number_entries t i [] = refl
length-number_entries t i (e ∷ es) = ap suc (length-number_entries t (add64 i 1) es)

append-IsKept :
    (l : RaftLog) (e : Entry) (es : List Entry) {p : RaftLog × ℕ}
    → IsJoined l
    → 0 < e.index
    → e.index + length (e ∷ es) < u64_mod
    → RaftLog.append l (e ∷ es) ≡ ok p
    → IsKept l p.0
append-IsKept l e es {p = p} v z h run = elim (append_lem l e es v z h) [
  | inl (bad, stop) ↦ cc
  | inr (inl (high, behind, inside, lost)) ↦ cc
  | inr (inr (l', ran, high, ext)) ↦
      let same : l' ≡ p.0 = cc in
      subst (λ x. IsKept l x) same (IsExtended-IsKept l e.index (e ∷ es) l' high ext)
]

append_none : (l : RaftLog) {p : RaftLog × ℕ} → RaftLog.append l [] ≡ ok p → l ≡ p.0
unfolding RaftLog.append
append_none l run = ground arith

append_numbered-IsKept :
    (l : RaftLog) (t li : ℕ) (es : List Entry) {p : RaftLog × ℕ}
    → IsJoined l
    → HasRoom l (length es)
    → last_index l ≡ ok li
    → RaftLog.append l (number_entries t (add64 li 1) es) ≡ ok p
    → IsKept l p.0
unfolding number_entries
append_numbered-IsKept l t li [] {p = p} v h e run =
    subst (λ x. IsKept l x) (append_none l run) (IsKept-refl l v)
append_numbered-IsKept l t li (x ∷ es) {p = p} v h e run =
    let same = v.joined in
    let at : li ≡ l.unstable.offset + length l.unstable.entries - 1 = cc in
    append-IsKept l _ _ v (omega (arith, v.behind))
      (omega (arith, length-number_entries t (add64 (add64 li 1) 1) es)) run

-- A node's log before and after, where only the rest of the node changes.
pub Same-IsKept : {r s : Raft} → IsJoined r.raft_log → Same r s → IsKept r.raft_log s.raft_log
Same-IsKept {r = r} v h =
    subst (λ x. IsKept r.raft_log x) (sym h.same_log) (IsKept-refl r.raft_log v)

pub maybe_commit_log :
    (r : Raft) {p : Raft × Bool}
    → IsJoined r.raft_log
    → maybe_commit r ≡ ok p
    → IsKept r.raft_log p.0.raft_log
unfolding maybe_commit
maybe_commit_log r {p = p} v run =
    let (mci, got, rest) =
      bind-ok (or_fault (get_elem? (sort_desc (match_indexes r.prs)) (quorum r - 1))) _ run in
    let (done, did, last) = bind-ok (RaftLog.maybe_commit r.raft_log mci r.term) _ rest in
    let same : done.0 ≡ p.0.raft_log = ground (arith, last) in
    subst (λ x. IsKept r.raft_log x) same (maybe_commit-IsKept r.raft_log mci r.term v did)

pub append_entry-IsKept :
    (es : List Entry) (r : Raft) {r' : Raft}
    → IsJoined r.raft_log
    → HasRoom r.raft_log (length es)
    → append_entry es r ≡ ok r'
    → IsKept r.raft_log r'.raft_log
unfolding append_entry
append_entry-IsKept es r {r' = r'} v h run =
    let (li, one, rest) = bind-ok (last_index r.raft_log) _ run in
    let (p, two, rest₁) =
      bind-ok (RaftLog.append r.raft_log (number_entries r.term (add64 li 1) es)) _ rest in
    let (s, three, rest₂) =
      bind-ok
        (with_progress r.id (λ q. (Progress.maybe_update p.1 q).0) (record r { raft_log = p.0 })) _
        rest₁ in
    let (d, four, last) = bind-ok (maybe_commit s) _ rest₂ in
    let kept = append_numbered-IsKept r.raft_log r.term li es v h one two in
    let moved =
      Same-IsKept {r = record r { raft_log = p.0 }} kept.joins
        (with_progress-Same r.id _ _ three) in
    let raised = maybe_commit_log s moved.joins four in
    let same : d.0 ≡ r' = ground (arith, last) in
    subst (λ x. IsKept r.raft_log x.raft_log) same (IsKept-trans kept (IsKept-trans moved raised))
