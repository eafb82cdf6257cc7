-- ===== src/Raft/Log.antt =====
-- What becomes of a node's log: committed entries stay as they are until a snapshot takes their place.
pub mod Growing
pub mod Following
pub mod Campaigns
pub mod Leading
pub mod Stepping
pub mod Runs
mod Tests
use yaraft.Prelude.{
  ℕ, suc, ◌+◌, ◌-◌, ◌≤◌, ◌<◌, ◌≡◌, refl, sym, ◌∙◌, subst, ap, ◌⊎◌, inl, inr, max, min, Bool, List,
  [], ◌∷◌, Option, none, some, length, arith, u64_mod, add64, sub64, dec_lt,
}
use yaraft.Outcome.{ok, bind-ok}
use yaraft.Idl.{Entry, Snapshot}
use yaraft.Unstable
use yaraft.RaftLog
use yaraft.RaftLog.{RaftLog, first_index, last_index, term, commit_to, maybe_commit}
use yaraft.RaftLog.Append.{IsJoined, IsExtended}
use yaraft.RaftLog.Match.{
  IsAppended, term-commit, first_index-commit, IsJoined-commit, commit_to_lem,
}

-- `l'` comes after `l`: what `l` had committed and `l'` still has is the same in both.
pub record IsKept (l l' : RaftLog) : Type 0 where
  pub joins : IsJoined l'
  pub rises : l.committed ≤ l'.committed
  pub climbs : (f : ℕ) → first_index l ≡ ok f → f ≤ joins.first
  pub stays : (i : ℕ) → i ≤ l.committed → joins.first ≤ i + 1 → term l' i ≡ term l i

first_is : (l : RaftLog) (v : IsJoined l) (f : ℕ) → first_index l ≡ ok f → f ≡ v.first
first_is l v f e = let same = v.starts in cc

pub IsKept-refl : (l : RaftLog) → IsJoined l → IsKept l l
IsKept-refl l v = record {
  joins = v;
  rises = omega arith;
  climbs = λ f e. omega (arith, first_is l v f e);
  stays = λ i h k. refl;
}

pub IsKept-trans : {l m n : RaftLog} → IsKept l m → IsKept m n → IsKept l n
IsKept-trans h k = record {
  joins = k.joins;
  rises = omega (arith, h.rises, k.rises);
  climbs = λ f e. omega (arith, h.climbs f e, k.climbs h.joins.first h.joins.starts);
  stays = λ i a b.
      k.stays i (omega (arith, h.rises)) b
      ∙ h.stays i a (omega (arith, k.climbs h.joins.first h.joins.starts));
}

-- Raising the commit index.
IsKept-commit :
    (l : RaftLog) (c : ℕ) → IsJoined l → l.committed ≤ c → IsKept l (record l { committed = c })
IsKept-commit l c v h = record {
  joins = IsJoined-commit l c h v;
  rises = h;
  climbs =
      λ f e. omega (arith, first_is _ (IsJoined-commit l c h v) f (first_index-commit l c ∙ e));
  stays = λ i a b. term-commit l c i;
}

pub commit_to-IsKept :
    (l : RaftLog) (c : ℕ) {l' : RaftLog} → IsJoined l → commit_to l c ≡ ok l' → IsKept l l'
commit_to-IsKept l c v run =
    subst (λ x. IsKept l x) (sym (commit_to_lem l c run))
      (IsKept-commit l (max l.committed c) v (omega arith))

-- Appending behind the committed entries.
pub IsExtended-IsKept :
    (l : RaftLog) (a : ℕ) (ents : List Entry) (l' : RaftLog)
    → l.committed < a
    → IsExtended l a ents l'
    → IsKept l l'
IsExtended-IsKept l a ents l' h v = record {
  joins = v.joins;
  rises = omega (arith, v.commits);
  climbs = λ f e. omega (arith, first_is l' v.joins f (v.begins ∙ e));
  stays = λ i b c. v.front i (omega arith);
}

pub IsAppended-IsKept :
    (l : RaftLog) (index log_term committed : ℕ) (ents : List Entry) (l' : RaftLog)
    → IsAppended l index log_term committed ents l'
    → IsKept l l'
IsAppended-IsKept l index log_term committed ents l' v = record {
  joins = v.joins;
  rises = omega (arith, v.commits);
  climbs = λ f e. omega (arith, first_is l' v.joins f (v.begins ∙ e));
  stays = λ i b c. v.kept i b;
}

maybe_commit_calls :
    (l : RaftLog) (i t : ℕ) {p : RaftLog × Bool}
    → maybe_commit l i t ≡ ok p
    → (p.0 ≡ l) ⊎ (commit_to l i ≡ ok p.0)
unfolding maybe_commit
maybe_commit_calls l i t run = ground arith

pub maybe_commit-IsKept :
    (l : RaftLog) (i t : ℕ) {p : RaftLog × Bool}
    → IsJoined l
    → maybe_commit l i t ≡ ok p
    → IsKept l p.0
maybe_commit-IsKept l i t v run = elim (maybe_commit_calls l i t run) [
  | inl same ↦ subst (λ x. IsKept l x) (sym same) (IsKept-refl l v)
  | inr call ↦ commit_to-IsKept l i v call
]

-- A snapshot in place of a log that has committed less.
restored :
    (l : RaftLog) (s : Snapshot) → s.metadata_index + 1 < u64_mod → IsJoined (RaftLog.restore l s)
unfolding RaftLog.restore Unstable.restore first_index last_index Unstable.maybe_first_index
    Unstable.maybe_last_index
restored l s h =
    let next : add64 s.metadata_index 1 ≡ s.metadata_index + 1 = omega arith in
    record {
      small = omega arith;
      behind = omega arith;
      first = s.metadata_index + 1;
      starts = ap ok next;
      positive = omega arith;
      fits = h;
      reaches = omega arith;
      joined = ap ok (omega arith);
    }

first_index-restore :
    (l : RaftLog) (s : Snapshot)
    → s.metadata_index + 1 < u64_mod
    → first_index (RaftLog.restore l s) ≡ ok (s.metadata_index + 1)
unfolding RaftLog.restore Unstable.restore first_index Unstable.maybe_first_index
first_index-restore l s h = ap ok (omega arith)

committed-restore :
    (l : RaftLog) (s : Snapshot) → (RaftLog.restore l s).committed ≡ s.metadata_index
unfolding RaftLog.restore
committed-restore l s = refl

pub restore-IsKept :
    (l : RaftLog) (s : Snapshot)
    → IsJoined l
    → l.committed < s.metadata_index
    → s.metadata_index + 1 < u64_mod
    → IsKept l (RaftLog.restore l s)
restore-IsKept l s v h k =
    let at =
      first_is (RaftLog.restore l s) (restored l s k) (s.metadata_index + 1)
        (first_index-restore l s k) in
    record {
      joins = restored l s k;
      rises = omega (arith, committed-restore l s);
      climbs = λ f e. omega (arith, first_is l v f e, at, v.reaches);
      stays = λ i b c. absurd (omega (arith, at));
    }

-- The log has room for `n` entries more.
abbrev pub HasRoom : RaftLog → ℕ → Type 0
HasRoom l n = l.unstable.offset + length l.unstable.entries + n < u64_mod
