-- ===== src/Raft/Restart.antt =====
-- A node made over a storage that has been used before.
mod Tests
use yaraft.Prelude.{
  ℕ, ◌+◌, ◌-◌, ◌≤◌, ◌<◌, ◌≡◌, refl, sym, ◌∙◌, subst, ap, ◌⊎◌, inl, inr, Bool, true, false, ◌||◌,
  not, List, [], ◌∷◌, Option, none, some, length, ltb, ◌==◌, if◌then◌else◌, Bool-cases, arith,
  u64_mod, add64, sub64,
}
use yaraft.Outcome.{Outcome, ok, bind-ok, ◌>>=◌, ◌>>◌, panic_if, get_value}
use yaraft.Idl.{HardState, ConfState, is_empty_hard_state, is_hard_state_equal, empty_hard_state}
use yaraft.Assoc
use yaraft.Storage.{Storage}
use yaraft.MemoryStorage
use yaraft.MemoryStorage.{MemoryStorage}
use yaraft.MemoryStorage.Inv.{dummy, term_lem, first_index_lem, last_index_lem}
use yaraft.Unstable
use yaraft.RaftLog
use yaraft.RaftLog.{RaftLog, first_index, last_index, applied_to}
use yaraft.RaftLog.Append.{IsJoined}
use yaraft.Config
use yaraft.Config.{Config}
use yaraft.Raft.State.{Raft, follower, no_node}
use yaraft.Raft.Roles.{become_follower, reset, reset_with}
use yaraft.Raft.Log.{IsKept}
use yaraft.Raft.Log.Runs.{Runs, Runs-IsKept}
use yaraft.Raft.New.{add_peers, add_learners, load_state, blank, finish, start_from, make, members}

-- The parts of a node that the members do not touch.
record IsAlike (r r' : Raft) : Type 0 where
  term : r'.term ≡ r.term
  vote : r'.vote ≡ r.vote
  log : r'.raft_log ≡ r.raft_log

add_peers-IsAlike : (ps : List ℕ) (r : Raft) → IsAlike r (add_peers ps r)
unfolding add_peers
add_peers-IsAlike [] r = ground arith
add_peers-IsAlike (p ∷ ps) r = grind (arith, add_peers-IsAlike ps)

add_learners-IsAlike :
    (ps : List ℕ) (r : Raft) {r' : Raft} → add_learners ps r ≡ ok r' → IsAlike r r'
unfolding add_learners
add_learners-IsAlike [] r e = ground arith
add_learners-IsAlike (p ∷ ps) r e = grind (arith, add_learners-IsAlike ps)

-- The log of a storage, with what is committed and what is applied.
abbrev log_of : MemoryStorage → ℕ → ℕ → ℕ → RaftLog
log_of ms size c a = record {
  storage = MemoryStorage.to_storage ms;
  unstable = record { snapshot = none; entries = []; offset = dummy ms.ents + length ms.ents };
  committed = c;
  applied = a;
  max_msg_size = size;
}

module _ (ms : MemoryStorage) (size : ℕ) (v : MemoryStorage.Inv.IsValid ms) where
  init-log_of :
      RaftLog.init (MemoryStorage.to_storage ms) size
      ≡ ok (log_of ms size (dummy ms.ents) (dummy ms.ents))
  unfolding RaftLog.init MemoryStorage.to_storage
  init-log_of =
      let off : add64 (dummy ms.ents + length ms.ents - 1) 1 ≡ dummy ms.ents + length ms.ents =
        omega (arith, v.small, v.filled) in
      let upto : sub64 (dummy ms.ents + 1) 1 ≡ dummy ms.ents = omega (arith, v.small, v.filled) in
      rw (first_index_lem ms v, last_index_lem ms v, off, upto) refl

  log_of-first_index : (c a : ℕ) → first_index (log_of ms size c a) ≡ ok (dummy ms.ents + 1)
  unfolding first_index MemoryStorage.to_storage Unstable.maybe_first_index
  log_of-first_index c a = rw (first_index_lem ms v) refl

  log_of-last_index :
      (c a : ℕ) → last_index (log_of ms size c a) ≡ ok (dummy ms.ents + length ms.ents - 1)
  unfolding last_index MemoryStorage.to_storage Unstable.maybe_last_index
  log_of-last_index c a = rw (last_index_lem ms v) refl

  log_of-IsJoined : (c a : ℕ) → dummy ms.ents ≤ c → IsJoined (log_of ms size c a)
  log_of-IsJoined c a h = record {
    small = omega (arith, v.small);
    behind = omega (arith, v.filled);
    first = dummy ms.ents + 1;
    starts = log_of-first_index c a;
    positive = omega arith;
    fits = omega (arith, v.small, v.filled);
    reaches = omega arith;
    joined = log_of-last_index c a ∙ ap ok (omega arith);
  }

  log_of-term :
      (c a i : ℕ)
      → dummy ms.ents ≤ i
      → i < dummy ms.ents + length ms.ents
      → RaftLog.term (log_of ms size c a) i ≡ MemoryStorage.term ms i
  unfolding RaftLog.term Unstable.maybe_term MemoryStorage.to_storage
  log_of-term c a i h k = elim (term_lem ms i v (omega (arith, v.small))) [
    | inl (low, e) ↦ absurd (omega arith)
    | inr (inl (high, e)) ↦ absurd (omega arith)
    | inr (inr (x, at, same, e)) ↦
        rw (log_of-first_index c a, log_of-last_index c a, e) (ground arith)
  ]

become_follower-IsAlike :
    (lead : ℕ) (r : Raft) {r' : Raft}
    → become_follower r.term lead r ≡ ok r'
    → IsAlike r r' × (r'.state ≡ follower)
unfolding become_follower reset reset_with
become_follower-IsAlike lead r e = ground arith

-- What a node has from a storage: the saved term, vote and commit index, and the stored entries.
pub record IsRestored (ms : MemoryStorage) (r : Raft) : Type 0 where
  pub joins : IsJoined r.raft_log
  pub follows : r.state ≡ follower
  pub same_term : r.term ≡ ms.hard_state.term
  pub same_vote : r.vote ≡ ms.hard_state.vote
  pub commits :
      ((is_empty_hard_state ms.hard_state ≡ true) × (r.raft_log.committed ≡ dummy ms.ents))
      ⊎ ((is_empty_hard_state ms.hard_state ≡ false)
          × (r.raft_log.committed ≡ ms.hard_state.commit))
  pub within :
      (dummy ms.ents ≤ r.raft_log.committed)
      × (r.raft_log.committed < dummy ms.ents + length ms.ents)
  pub shows :
      (i : ℕ)
      → dummy ms.ents ≤ i
      → i < dummy ms.ents + length ms.ents
      → RaftLog.term r.raft_log i ≡ MemoryStorage.term ms i

abbrev CommitOf : MemoryStorage → ℕ → Type 0
CommitOf ms c =
    ((is_empty_hard_state ms.hard_state ≡ true) × (c ≡ dummy ms.ents))
    ⊎ ((is_empty_hard_state ms.hard_state ≡ false) × (c ≡ ms.hard_state.commit))

storage_is :
    (c : Config) (s st : Storage)
    → c.storage ≡ some s
    → get_value (Config.validate c) ≡ ok st
    → st ≡ s
unfolding Config.validate
storage_is c s st has run = ground (arith, has, run)

record IsLoaded (ms : MemoryStorage) (size : ℕ) (r : Raft) : Type 0 where
  c : ℕ
  log : r.raft_log ≡ log_of ms size c (dummy ms.ents)
  low : dummy ms.ents ≤ c
  high : c < dummy ms.ents + length ms.ents
  from : CommitOf ms c
  term : r.term ≡ ms.hard_state.term
  vote : r.vote ≡ ms.hard_state.vote

saved_commit :
    (ms : MemoryStorage) (size : ℕ) (v : MemoryStorage.Inv.IsValid ms) (r : Raft) {r' : Raft}
    → r.raft_log ≡ log_of ms size (dummy ms.ents) (dummy ms.ents)
    → load_state ms.hard_state r ≡ ok r'
    → (dummy ms.ents ≤ ms.hard_state.commit)
      × (ms.hard_state.commit < dummy ms.ents + length ms.ents)
unfolding load_state
saved_commit ms size v r e run =
    let last : last_index r.raft_log ≡ ok (dummy ms.ents + length ms.ents - 1) =
      subst (λ x. last_index x ≡ ok (dummy ms.ents + length ms.ents - 1)) (sym e)
        (log_of-last_index ms size v _ _) in
    let start : r.raft_log.committed ≡ dummy ms.ents = ap (λ x. x.committed) e in
    ground (arith, rw last at run, v.filled)

empty_state-IsLoaded :
    (ms : MemoryStorage) (size : ℕ) (v : MemoryStorage.Inv.IsValid ms) (r : Raft) {r' : Raft}
    → r.raft_log ≡ log_of ms size (dummy ms.ents) (dummy ms.ents)
    → r.term ≡ 0
    → r.vote ≡ 0
    → is_empty_hard_state ms.hard_state ≡ true
    → ok r ≡ ok r'
    → IsLoaded ms size r'
unfolding is_empty_hard_state is_hard_state_equal
empty_state-IsLoaded ms size v r {r' = r'} e t w nothing run =
    let same : r ≡ r' = ground (arith, run) in
    subst (λ x. IsLoaded ms size x) same
      (record {
        c = dummy ms.ents;
        log = e;
        low = omega arith;
        high = omega (arith, v.filled);
        from = inl (nothing, refl);
        term = ground (arith, nothing, t);
        vote = ground (arith, nothing, w);
      })

loaded_as :
    (st : HardState) (r : Raft) {r' : Raft}
    → load_state st r ≡ ok r'
    → r' ≡ record r {
      raft_log = record r.raft_log { committed = st.commit };
      term = st.term;
      vote = st.vote;
    }
unfolding load_state
loaded_as st r run = ground arith

load_state-IsLoaded :
    (ms : MemoryStorage) (size : ℕ) (v : MemoryStorage.Inv.IsValid ms) (r : Raft) {r' : Raft}
    → r.raft_log ≡ log_of ms size (dummy ms.ents) (dummy ms.ents)
    → is_empty_hard_state ms.hard_state ≡ false
    → load_state ms.hard_state r ≡ ok r'
    → IsLoaded ms size r'
load_state-IsLoaded ms size v r e saved run =
    let (low, high) = saved_commit ms size v r e run in
    subst (λ x. IsLoaded ms size x) (sym (loaded_as ms.hard_state r run))
      (record {
        c = ms.hard_state.commit;
        log = ap {A = RaftLog} (λ x. record x { committed = ms.hard_state.commit }) e;
        low = low;
        high = high;
        from = inr (saved, refl);
        term = refl;
        vote = refl;
      })

module _ (ms : MemoryStorage) (size : ℕ) (v : MemoryStorage.Inv.IsValid ms) where
  loaded :
      (r : Raft) {r' : Raft}
      → r.raft_log ≡ log_of ms size (dummy ms.ents) (dummy ms.ents)
      → r.term ≡ 0
      → r.vote ≡ 0
      → (if is_empty_hard_state ms.hard_state then ok r else load_state ms.hard_state r) ≡ ok r'
      → IsLoaded ms size r'
  loaded r e t w run = elim (Bool-cases (is_empty_hard_state ms.hard_state)) [
    | inl nothing ↦ empty_state-IsLoaded ms size v r e t w nothing (rw nothing at run)
    | inr saved ↦ load_state-IsLoaded ms size v r e saved (rw saved at run)
  ]

applied_is :
    (ms : MemoryStorage) (size c d n : ℕ) (k : RaftLog) {l : RaftLog}
    → k ≡ log_of ms size c d
    → (if ltb 0 n then applied_to k n else ok k) ≡ ok l
    → (a : ℕ) × (l ≡ log_of ms size c a)
unfolding applied_to
applied_is ms size c d n k {l = l} e run = elim (Bool-cases (ltb 0 n)) [
  | inl some_applied ↦ (n, ground (arith, rw some_applied at run, e))
  | inr none_applied ↦ (d, ground (arith, rw none_applied at run, e))
]

restored :
    (ms : MemoryStorage) (size a : ℕ) (r s : Raft)
    → MemoryStorage.Inv.IsValid ms
    → (h : IsLoaded ms size r) → s.raft_log ≡ log_of ms size h.c a
    → s.state ≡ follower
    → s.term ≡ r.term
    → s.vote ≡ r.vote
    → IsRestored ms s
restored ms size a r s v h e f t w = record {
  joins = subst (λ x. IsJoined x) (sym e) (log_of-IsJoined ms size v h.c a h.low);
  follows = f;
  same_term = t ∙ h.term;
  same_vote = w ∙ h.vote;
  commits = subst (λ n. CommitOf ms n) (sym (ap (λ x. x.committed) e)) h.from;
  within = (
    omega (arith, h.low, ap (λ x. x.committed) e),
    omega (arith, h.high, ap (λ x. x.committed) e),
  );
  shows = λ i low high. ap (λ x. RaftLog.term x i) e ∙ log_of-term ms size v h.c a i low high;
}

finish-IsRestored :
    (c : Config) (ms : MemoryStorage) (size : ℕ) (r : Raft) {r' : Raft}
    → MemoryStorage.Inv.IsValid ms
    → IsLoaded ms size r
    → finish c r ≡ ok r'
    → IsRestored ms r'
unfolding finish
finish-IsRestored c ms size r {r' = r'} v h run =
    let (l, one, rest) =
      bind-ok (if ltb 0 c.applied then applied_to r.raft_log c.applied else ok r.raft_log) _ run in
    let (s, two, rest₁) =
      bind-ok (become_follower r.term no_node (record r { raft_log = l })) _ rest in
    let (u, three, last) = bind-ok (RaftLog.last_term s.raft_log >>= λ _. ok tt) _ rest₁ in
    let (a, log) = applied_is ms size h.c (dummy ms.ents) c.applied r.raft_log h.log one in
    let (alike, follows) = become_follower-IsAlike no_node (record r { raft_log = l }) two in
    let same : s ≡ r' = ground (arith, last) in
    subst (λ x. IsRestored ms x) same
      (restored ms size a r s v h (alike.log ∙ log) follows alike.term alike.vote)

log_is : {o : Outcome RaftLog} {k l : RaftLog} → o ≡ ok k → o ≡ ok l → k ≡ l
log_is e f = ground arith

start-IsRestored :
    (c : Config) (ms : MemoryStorage) (size : ℕ) (r : Raft) {r' : Raft}
    → MemoryStorage.Inv.IsValid ms
    → r.raft_log ≡ log_of ms size (dummy ms.ents) (dummy ms.ents)
    → r.term ≡ 0
    → r.vote ≡ 0
    → start_from c (ms.hard_state, ms.snapshot.metadata_conf_state) r ≡ ok r'
    → IsRestored ms r'
unfolding start_from
start-IsRestored c ms size r v e t w run =
    let (chosen, one, rest) = bind-ok (members c ms.snapshot.metadata_conf_state) _ run in
    let (r₁, two, rest₁) = bind-ok (add_learners chosen.1 (add_peers chosen.0 r)) _ rest in
    let (r₂, three, last) =
      bind-ok (if is_empty_hard_state ms.hard_state then ok r₁ else load_state ms.hard_state r₁) _
        rest₁ in
    let peers = add_peers-IsAlike chosen.0 r in
    let learners = add_learners-IsAlike chosen.1 (add_peers chosen.0 r) two in
    let held =
      loaded ms size v r₁ (learners.log ∙ peers.log ∙ e) (learners.term ∙ peers.term ∙ t)
        (learners.vote ∙ peers.vote ∙ w) three in
    finish-IsRestored c ms size r₂ v held last

-- A node made over a valid memory storage is a follower with the saved term and vote, has committed
-- what was saved as committed, or up to the dummy entry where nothing was saved, and its log is joined and
-- has the term of every stored entry.
pub make-IsRestored :
    (c : Config) (ms : MemoryStorage) (random : ℕ → ℕ → ℕ) (reserve : ℕ → ℕ) {r : Raft}
    → MemoryStorage.Inv.IsValid ms
    → c.storage ≡ some (MemoryStorage.to_storage ms)
    → make c random reserve ≡ ok r
    → IsRestored ms r
unfolding make MemoryStorage.to_storage MemoryStorage.initial_state blank
make-IsRestored c ms random reserve {r = r} v has run =
    let (st, one, rest) = bind-ok (get_value (Config.validate c)) _ run in
    let same = storage_is c (MemoryStorage.to_storage ms) st has one in
    let (l, two, rest₁) =
      bind-ok (RaftLog.init (MemoryStorage.to_storage ms) c.max_size_per_msg) _ (rw same at rest) in
    let fresh = init-log_of ms c.max_size_per_msg v in
    start-IsRestored c ms c.max_size_per_msg (blank c l random reserve) v (log_is two fresh) refl
      refl rest₁

first_reach :
    (l : RaftLog) (v : IsJoined l) (f i : ℕ) → first_index l ≡ ok f → f ≤ i + 1 → v.first ≤ i + 1
first_reach l v f i e h = let same = v.starts in let at : f ≡ v.first = cc in omega (arith, at)

-- Whatever ticks and messages a node takes after it was made over a valid memory storage, as long as each call
-- returns, each message is sound, and the log has room for its entries and one more, or for one at a tick, an index
-- that the storage had, that was committed then and that the log still reaches has the term that is stored.
pub stored_stays :
    (c : Config) (ms : MemoryStorage) (random : ℕ → ℕ → ℕ) (reserve : ℕ → ℕ) {r s : Raft}
    → MemoryStorage.Inv.IsValid ms
    → c.storage ≡ some (MemoryStorage.to_storage ms)
    → make c random reserve ≡ ok r
    → Runs r s
    → (i f : ℕ) → dummy ms.ents ≤ i
    → i ≤ r.raft_log.committed
    → first_index s.raft_log ≡ ok f
    → f ≤ i + 1
    → RaftLog.term s.raft_log i ≡ MemoryStorage.term ms i
stored_stays c ms random reserve {r = r} {s = s} v has run after i f low done start reach =
    let back = make-IsRestored c ms random reserve v has run in
    let kept = Runs-IsKept r s back.joins after in
    let first : kept.joins.first ≤ i + 1 = first_reach s.raft_log kept.joins f i start reach in
    kept.stays i done first ∙ back.shows i low (omega (arith, back.within.1))
