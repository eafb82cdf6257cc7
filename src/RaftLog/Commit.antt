-- ===== src/RaftLog/Commit.antt =====
-- The commit index of a log never falls.
use yaraft.Prelude.{ℕ, ◌≤◌, ◌≡◌, List, [], ◌∷◌, Option, Bool, arith}
use yaraft.Outcome.{ok}
use yaraft.Idl.{Entry}
use yaraft.RaftLog.{RaftLog, append, commit_to, append_from, maybe_append, maybe_commit}

pub commit_to-le :
    (l : RaftLog) (i : ℕ) {l' : RaftLog} → commit_to l i ≡ ok l' → l.committed ≤ l'.committed
unfolding commit_to
commit_to-le l i e = ground arith

pub committed-append :
    (l : RaftLog) (es : List Entry) {p : RaftLog × ℕ}
    → append l es ≡ ok p
    → p.0.committed ≡ l.committed
unfolding append
committed-append l [] e = ground arith
committed-append l (x ∷ es) e = ground arith

append_from-le :
    (l : RaftLog) (index : ℕ) (ents : List Entry) (ci : ℕ) {l' : RaftLog}
    → append_from l index ents ci ≡ ok l'
    → l'.committed ≡ l.committed
unfolding append_from
append_from-le l index ents ci e = grind (arith, committed-append)

pub maybe_append-le :
    (l : RaftLog) (index log_term committed : ℕ) (ents : List Entry) {p : RaftLog × Option ℕ}
    → maybe_append l index log_term committed ents ≡ ok p
    → l.committed ≤ p.0.committed
unfolding maybe_append
maybe_append-le l index log_term committed ents e = grind (arith, append_from-le, commit_to-le)

pub maybe_commit-le :
    (l : RaftLog) (i t : ℕ) {p : RaftLog × Bool}
    → maybe_commit l i t ≡ ok p
    → l.committed ≤ p.0.committed
unfolding maybe_commit
maybe_commit-le l i t e = grind (arith, commit_to-le)
