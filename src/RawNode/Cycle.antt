-- ===== src/RawNode/Cycle.antt =====
-- `GetReady`, the storing of its entries and `Advance`, over a memory storage.
use yaraft.Prelude.{
  ℕ, ◌-◌, ◌≤◌, ◌≡◌, refl, sym, ap, subst, ◌∙◌, ◌⊎◌, inl, inr, List, [], ◌∷◌, none, some, ◌==◌,
  if◌then◌else◌, length, get_elem?, arith,
}
use yaraft.Outcome.{ok, ◌>>=◌}
use yaraft.Idl.{Entry, is_empty_hard_state, is_empty_snap}
use yaraft.MemoryStorage
use yaraft.MemoryStorage.{MemoryStorage}
use yaraft.RaftLog
use yaraft.RaftLog.{RaftLog, applied_to, stable_to, stable_snap_to}
use yaraft.RaftLog.Persist.{over, IsCovered, IsPersisted, persist_lem}
use yaraft.RawNode.{
  RawNode, Ready, get_ready, new_ready, advance, last_entry, stable_ready, is_empty,
}

-- The node with its storage in another state.
abbrev pub on_storage : MemoryStorage → RawNode → RawNode
on_storage ms n = record n { raft = record n.raft { raft_log = over ms n.raft.raft_log } }

-- The index that `Advance` takes as applied; 0 for none.
abbrev pub to_apply : Ready → RawNode → ℕ
to_apply rd n = (if is_empty_hard_state rd.hard_state then n.prev_hard_st else rd.hard_state).commit

abbrev pub applied_log : ℕ → RaftLog → RaftLog
applied_log c l = record l { applied = if c == 0 then l.applied else c }

last_entry_lem :
    (es : List Entry)
    → ((last_entry es ≡ none) × (es ≡ []))
      ⊎ ((e : Entry) × (last_entry es ≡ some e) × (get_elem? es (length es - 1) ≡ some e))
unfolding last_entry
last_entry_lem [] = inl (refl, refl)
last_entry_lem (e ∷ []) = inr (e, refl, refl)
last_entry_lem (e ∷ e' ∷ es) = ground (arith, last_entry_lem (e' ∷ es))

apply_first :
    (c : ℕ) (l : RaftLog)
    → (c ≡ 0) ⊎ ((l.applied ≤ c) × (c ≤ l.committed))
    → (if c == 0 then ok l else applied_to l c) ≡ ok (applied_log c l)
unfolding applied_to
apply_first c l h = ground (arith, h)

ready_entries :
    (n n₁ : RawNode) (rd : Ready)
    → get_ready n ≡ ok (n₁, rd)
    → (rd.entries ≡ n.raft.raft_log.unstable.entries)
      × (n₁ ≡ record n { raft = record n.raft { msgs = [] } })
unfolding get_ready new_ready RaftLog.unstable_entries
ready_entries n n₁ rd e = ground arith

nothing_new :
    (ms : MemoryStorage) (l : RaftLog)
    → IsCovered ms l.unstable
    → l.unstable.entries ≡ []
    → IsPersisted ms l ms (over ms l)
nothing_new ms l c h = record {
  taken = h;
  covered = c;
  same_term = λ i q. refl;
  same_first = refl;
  same_last = refl;
  same_commit = refl;
  same_applied = refl;
  same_state = refl;
}

stable_none : (rd : Ready) (l : RaftLog) → last_entry rd.entries ≡ none → stable_ready rd l ≡ ok l
unfolding stable_ready
stable_none rd l h = ground (arith, h)

stable_some :
    (rd : Ready) (l : RaftLog) (e : Entry)
    → last_entry rd.entries ≡ some e
    → stable_ready rd l ≡ stable_to l e.index e.term
unfolding stable_ready
stable_some rd l e h = ground (arith, h)

-- The entries are stored, and the log takes them off.
stored :
    (ms : MemoryStorage) (l : RaftLog) (rd : Ready)
    → IsCovered ms l.unstable
    → rd.entries ≡ l.unstable.entries
    → (ms' : MemoryStorage) × (l' : RaftLog) × (MemoryStorage.append ms rd.entries ≡ ok ms')
      × (stable_ready rd (over ms' l) ≡ ok l')
      × IsPersisted ms l ms' l'
unfolding MemoryStorage.append
stored ms l rd c same = elim (last_entry_lem rd.entries) [
  | inl (lacks, empty) ↦ (
    ms,
    over ms l,
    ap (MemoryStorage.append ms) empty,
    stable_none rd (over ms l) lacks,
    nothing_new ms l c (sym same ∙ empty),
  )
  | inr (e, last, found) ↦
      let (ms', l', kept, cut, p) =
        persist_lem ms l e c (subst (λ es. get_elem? es (length es - 1) ≡ some e) same found) in
      (
        ms',
        l',
        ap (MemoryStorage.append ms) same ∙ kept,
        stable_some rd (over ms' l) e last ∙ cut,
        p,
      )
]

-- The node with the log that `Advance` leaves.
abbrev finish : Ready → RawNode → RaftLog → RawNode
finish rd n log = record n {
  prev_soft_st = elim rd.soft_state [ none ↦ n.prev_soft_st | some s ↦ s ];
  prev_hard_st = if is_empty_hard_state rd.hard_state then n.prev_hard_st else rd.hard_state;
  raft = record n.raft {
    raft_log =
        if is_empty_snap rd.snapshot then log else stable_snap_to log rd.snapshot.metadata_index;
    read_states = if is_empty rd.read_states then n.raft.read_states else [];
  };
}

kept_log : (rd : Ready) (n : RawNode) (l : RaftLog) → (finish rd n l).raft.raft_log ≡ l
unfolding stable_snap_to
kept_log rd n l = ground arith

advanced :
    (rd : Ready) (n : RawNode) (l' : RaftLog)
    → (to_apply rd n ≡ 0)
      ⊎ ((n.raft.raft_log.applied ≤ to_apply rd n) × (to_apply rd n ≤ n.raft.raft_log.committed))
    → stable_ready rd (applied_log (to_apply rd n) n.raft.raft_log) ≡ ok l'
    → advance rd n ≡ ok (finish rd n l')
unfolding advance
advanced rd n l' h cut =
    ap (λ o. o >>= λ l. stable_ready rd l >>= λ z. ok (finish rd n z))
      (apply_first (to_apply rd n) n.raft.raft_log h)
    ∙ ap (λ o. o >>= λ z. ok (finish rd n z)) cut

-- Where GetReady has returned a Ready, storing its entries and advancing never fails and leaves nothing to store: the
-- log shows what it showed, with every index below 2^64 of the term that it had and the same first, last and commit
-- index, and what is applied is the commit index of the Ready, or the one before where the Ready has no hard state,
-- if it is not 0. The unstable entries go on from a valid storage or replace its last entries, no unstable snapshot
-- waits, and the index to apply is 0 or from the applied index to the commit index.
pub advance_lem :
    (ms : MemoryStorage) (n n₁ : RawNode) (rd : Ready)
    → IsCovered ms n.raft.raft_log.unstable
    → get_ready (on_storage ms n) ≡ ok (n₁, rd)
    → (to_apply rd n ≡ 0)
      ⊎ ((n.raft.raft_log.applied ≤ to_apply rd n) × (to_apply rd n ≤ n.raft.raft_log.committed))
    → (ms' : MemoryStorage) × (n' : RawNode) × (MemoryStorage.append ms rd.entries ≡ ok ms')
      × (advance rd (on_storage ms' n₁) ≡ ok n')
      × IsPersisted ms (applied_log (to_apply rd n) n.raft.raft_log) ms' n'.raft.raft_log
advance_lem ms n n₁ rd c e h =
    let (same, taken) = ready_entries (on_storage ms n) n₁ rd e in
    let (ms', l', kept, cut, p) =
      stored ms (applied_log (to_apply rd n) n.raft.raft_log) rd c same in
    let n₂ = on_storage ms' (record n { raft = record n.raft { msgs = [] } }) in
    let same₂ : on_storage ms' n₁ ≡ n₂ = ap (λ z. on_storage ms' z) taken in
    (
      ms',
      finish rd n₂ l',
      kept,
      ap (advance rd) same₂ ∙ advanced rd n₂ l' h cut,
      subst (λ z. IsPersisted ms (applied_log (to_apply rd n) n.raft.raft_log) ms' z)
          (sym (kept_log rd n₂ l')) p,
    )
