-- ===== src/Cluster/Stepping.antt =====
-- What one event at a node makes of what holds of it.
use yaraft.Prelude.{
  ℕ, ◌+◌, ◌<◌, ◌≡◌, ◌⊎◌, inl, inr, sym, ap, ◌∙◌, subst, Bool, true, false, not, ◌||◌, ◌==◌, ==_iff,
  List, [], ◌∷◌, All-map, u64_mod, arith,
}
use yaraft.Outcome.{ok}
use yaraft.Idl.{Message}
use yaraft.Assoc
use yaraft.Raft.State.{Raft, candidate, leader, quorum}
use yaraft.Raft.Roles.{poll}
use yaraft.Raft.Replicate.{is_forwarded, is_vote_message}
use yaraft.Raft.Leader.{Stepped}
use yaraft.Raft.Step.{step, is_leader_call, is_snap}
use yaraft.Raft.Later.{Later}
use yaraft.Raft.Later.Stepping.{step-Later}
use yaraft.Raft.Sent.{Speech, IsTold, Spoke, tell, is_grant}
use yaraft.Raft.Sent.Stepping.{allow, step-Spoke}
use yaraft.Raft.Turn.{Turn, Counts}
use yaraft.Raft.Turn.Stepping.{step-Turn}
use yaraft.Cluster.{is_voter, is_local}
use yaraft.Cluster.Ledger.{
  Ledger, Extends, write, write-Extends, write_self, write_other_term, count_one,
}
use yaraft.Cluster.Tally.{
  IsTally, granted-count, extended-IsTally, own_vote-IsTally, poll-IsTally, poll_counts,
}
use yaraft.Cluster.Node.{IsElected, extended-IsElected, IsGood, extended-IsGood, Holds, quorum_lem}

-- A message that node `i` may take.
abbrev pub Arrives : List ℕ → Ledger → ℕ → Message → Type 0
Arrives voters b i m = (is_local m ≡ true) ⊎ (IsGood voters b m × (m.to ≡ i))

called :
    {voters : List ℕ} {b : Ledger} {i : ℕ} (m : Message)
    → Arrives voters b i m
    → ((is_leader_call m.msg_type || is_snap m.msg_type) ≡ false) ⊎ (0 < m.term)
unfolding is_local is_leader_call is_snap is_forwarded is_vote_message
called m (inl h) = ground (arith, h)
called m (inr (g, to)) = ground (arith, g.carries)

-- An answer that a candidate counts is of a voter, and a vote was given.
counted :
    {voters : List ℕ} {b : Ledger} {i : ℕ} (m : Message) (r : Raft)
    → 0 < i
    → Arrives voters b i m
    → Counts m r
    → (is_voter voters m.from ≡ true) × (not m.reject ≡ true → b m.from r.term ≡ i)
unfolding is_local is_forwarded is_vote_message is_grant
counted m r pos (inl h) (runs, kind, term) = ground (arith, h, kind)
counted {b} m r pos (inr (g, to)) (runs, kind, term) =
    let carried : 0 < m.term = ground (arith, g.carries, kind) in
    let same : m.term ≡ r.term = ground (arith, term, carried) in
    (
      g.voter,
      λ h.
          ap (b m.from) (sym same)
          ∙ g.given (ground (arith, kind, h)) (ground (arith, to, pos))
          ∙ to,
    )

module _ (voters : List ℕ) (b b' : Ledger) (i : ℕ) (x : Extends b b') (pos : 0 < i)
    (voter : is_voter voters i ≡ true) where
  -- The votes of a candidate are given.
  candidate-IsTally :
      (m : Message) (r r' : Raft)
      → Holds voters b i r
      → Arrives voters b i m
      → r'.id ≡ i
      → b' i r'.term ≡ r'.vote
      → Turn m r r'
      → r'.state ≡ candidate
      → IsTally voters b' i r'.term r'.votes
  candidate-IsTally m r r' k a id now (inl follows) q = ground (arith, follows, q)
  candidate-IsTally m r r' k a id now (inr (inl (inl pre))) q = ground (arith, pre, q)
  candidate-IsTally m r r' k a id now (inr (inl (inr (inl (state, votes, vote))))) q =
      subst (λ vs. IsTally voters b' i r'.term vs) (sym (votes ∙ ap (λ z. (z, true) ∷ []) id))
        (own_vote-IsTally voter (now ∙ vote ∙ id))
  candidate-IsTally m r r' k a id now (inr (inl (inr (inr (state, one, vote))))) q =
      ground (arith, state, q)
  candidate-IsTally m r r' k a id now (inr (inr (inl (state, term, votes)))) q =
      subst (λ vs. IsTally voters b' i r'.term vs) (sym votes)
        (subst (λ t. IsTally voters b' i t r.votes) (sym term)
          (extended-IsTally x pos (k.runs (sym state ∙ q))))
  candidate-IsTally m r r' k a id now (inr (inr (inr (inl (state, counts, term, votes))))) q =
      let (from, vote) = counted m r pos a counts in
      subst (λ vs. IsTally voters b' i r'.term vs) (sym votes)
        (subst (λ t. IsTally voters b' i t (poll m.from (not m.reject) r).0.votes) (sym term)
          (extended-IsTally x pos
            (poll-IsTally m.from (not m.reject) r from vote (k.runs counts.0))))
  candidate-IsTally m r r' k a id now (inr (inr (inr (inr (state, counts, term, all))))) q =
      ground (arith, state, q)

  -- The votes of a leader are a majority.
  leader-IsElected :
      (m : Message) (r r' : Raft)
      → Holds voters b i r
      → Arrives voters b i m
      → r'.id ≡ i
      → b' i r'.term ≡ r'.vote
      → Turn m r r'
      → r'.state ≡ leader
      → IsElected voters b' i r'.term
  leader-IsElected m r r' k a id now (inl follows) q = ground (arith, follows, q)
  leader-IsElected m r r' k a id now (inr (inl (inl pre))) q = ground (arith, pre, q)
  leader-IsElected m r r' k a id now (inr (inl (inr (inl (state, votes, vote))))) q =
      ground (arith, state, q)
  leader-IsElected m r r' k a id now (inr (inl (inr (inr (state, one, vote))))) q =
      alone (now ∙ vote ∙ id) one
    where
      alone : b' i r'.term ≡ i → quorum r ≡ 1 → IsElected voters b' i r'.term
      alone own single = omega (
        arith,
        quorum_lem r k.voter_ids,
        single,
        count_one i (λ v. b' v r'.term == i) voters voter ((==_iff _ _).1 own),
      )
  leader-IsElected m r r' k a id now (inr (inr (inl (state, term, votes)))) q =
      subst (λ t. IsElected voters b' i t) (sym term)
        (extended-IsElected voters r.term x pos (k.leads (sym state ∙ q)))
  leader-IsElected m r r' k a id now (inr (inr (inr (inl (state, counts, term, votes))))) q =
      ground (arith, state, q)
  leader-IsElected m r r' k a id now (inr (inr (inr (inr (state, counts, term, all))))) q =
      let (from, vote) = counted m r pos a counts in
      let tally = poll-IsTally m.from (not m.reject) r from vote (k.runs counts.0) in
      subst (λ t. IsElected voters b' i t) (sym term)
        (extended-IsElected voters r.term x pos (
          omega (
            arith,
            granted-count tally,
            poll_counts m.from (not m.reject) r,
            all,
            quorum_lem r k.voter_ids,
          )))

no_grant : {b : Bool} {A : Type 0} → b ≡ false → b ≡ true → A
no_grant h k = cc

-- What node `i` says is good, if it gives no vote.
abbrev speech : (voters : List ℕ) (b : Ledger) (i : ℕ) → is_voter voters i ≡ true → Speech
speech voters b i h = record {
  id = i;
  Fine = IsGood voters b;
  silent = λ x from quiet carries. record {
    voter = ap (is_voter voters) from ∙ h;
    carries = carries;
    given = λ g p. no_grant quiet g;
  };
}

-- What a node has said stays good, and what it says now is good.
said :
    (voters : List ℕ) (b b' : Ledger) (i : ℕ) (h : is_voter voters i ≡ true) (r r' : Raft)
    → Extends b b'
    → Holds voters b i r
    → Spoke (speech voters b' i h) r r'
    → IsTold (speech voters b' i h) r'.id r'.term r'.msgs
said voters b b' i h r r' x k (tell f) = f (record {
  same = k.id;
  positive = k.positive;
  all = All-map (IsGood voters b) (IsGood voters b') (extended-IsGood x) r.msgs k.said;
})

-- The votes with that of the node after the step.
abbrev pub after : Ledger → ℕ → Raft → Ledger
after b i r = write i r.term r.vote b

after-Extends :
    {voters : List ℕ} {b : Ledger} {i : ℕ} {r : Raft} (r' : Raft)
    → Holds voters b i r
    → Later r r'
    → Extends b (after b i r')
after-Extends {b} {i} {r} r' k late =
    write-Extends b i r'.term r'.vote (ground (arith, late.term_vote, k.future r'.term, k.now))

after_future :
    {voters : List ℕ} {b : Ledger} {i : ℕ} {r : Raft} (r' : Raft)
    → Holds voters b i r
    → Later r r'
    → (t : ℕ) → r'.term < t
    → after b i r' i t ≡ 0
after_future {b} {i} {r} r' k late t h =
    write_other_term b i r'.term r'.vote i t h ∙ k.future t (ground (arith, late.term_vote, h))

given_now :
    (b : Ledger) (i t v : ℕ) (x : Message)
    → x.from ≡ i
    → x.term ≡ t
    → x.to ≡ v
    → b i t ≡ v
    → b x.from x.term ≡ x.to
given_now b i t v x from term to now = rw (from, term, to) now

-- A step keeps what holds of its node, and takes no vote back.
pub step-Holds :
    {voters : List ℕ} {b : Ledger} {i : ℕ} (m : Message) (r : Raft) {p : Stepped}
    → 0 < i
    → is_voter voters i ≡ true
    → Holds voters b i r
    → Arrives voters b i m
    → r.term + 1 < u64_mod
    → m.term + 1 < u64_mod
    → step m r ≡ ok p
    → Assoc.keys p.0.prs ≡ voters
    → Extends b (after b i p.0) × Holds voters (after b i p.0) i p.0
step-Holds {voters} {b} {i} m r {p} pos h k a low high e ids =
    let late = step-Later m r low high (called m a) e in
    let x = after-Extends p.0 k late in
    let now = write_self b i p.0.term p.0.vote in
    let spoke =
      step-Spoke (speech voters (after b i p.0) i h) m r low high (called m a)
        (allow (λ y grant from term to up. record {
          voter = ap (is_voter voters) from ∙ h;
          carries = inr up;
          given = λ g q. given_now (after b i p.0) i p.0.term p.0.vote y from term to now;
        }))
        e in
    let told = said voters b (after b i p.0) i h r p.0 x k spoke in
    let turn = step-Turn m r e in
    (
      x,
      record {
        id = told.same;
        positive = told.positive;
        voter_ids = ids;
        now = now;
        future = after_future p.0 k late;
        said = told.all;
        runs = candidate-IsTally voters b (after b i p.0) i x pos h m r p.0 k a told.same now turn;
        leads = leader-IsElected voters b (after b i p.0) i x pos h m r p.0 k a told.same now turn;
      },
    )
