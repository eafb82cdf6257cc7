-- ===== src/Cluster/Tally.antt =====
-- The answers that a candidate has counted, against the votes that were given to it.
use yaraft.Prelude.{
  ℕ, ◌+◌, ◌≤◌, ◌<◌, ◌≡◌, inl, inr, refl, sym, ◌∙◌, subst, Bool, true, false, ◌==◌, if◌then◌else◌,
  List, [], ◌∷◌, some, none, ==_iff, ℕ_discrete, Option-cases, arith,
}
use yaraft.Assoc
use yaraft.Assoc.Order.{find-insert}
use yaraft.Raft.State.{Raft}
use yaraft.Raft.Roles.{granted, poll}
use yaraft.Cluster.{is_voter}
use yaraft.Cluster.Ledger.{Ledger, Extends, extended, count, count-le, count-put, count_one}

-- Whether node `v` has answered with a vote.
unfoldable pub wins : List (ℕ × Bool) → ℕ → Bool
unfolding Assoc.find
wins votes v = elim (Assoc.find v votes) [ some b ↦ b | none ↦ false ]

granted-insert :
    (k : ℕ) (b : Bool) (votes : List (ℕ × Bool))
    → Assoc.find k votes ≡ none
    → granted (Assoc.insert k b votes) ≡ granted votes + (if b then 1 else 0)
unfolding granted Assoc.insert Assoc.find
granted-insert k b [] h = ground arith
granted-insert k b ((j, w) ∷ votes) h = ground (arith, granted-insert k b votes)

wins-insert :
    (k v : ℕ) (b : Bool) (votes : List (ℕ × Bool))
    → wins (Assoc.insert k b votes) v ≡ (if v == k then b else wins votes v)
unfolding wins
wins-insert k v b votes = ground (arith, find-insert k v b votes)

wins_new : (k : ℕ) (votes : List (ℕ × Bool)) → Assoc.find k votes ≡ none → wins votes k ≡ false
unfolding wins
wins_new k votes q = ground (arith, q)

-- The counted votes come from voters, and the voters gave them.
pub record IsTally (voters : List ℕ) (b : Ledger) (i term : ℕ) (votes : List (ℕ × Bool))
    : Type 0 where
  pub few : granted votes ≤ count (wins votes) voters
  pub given : (v : ℕ) → wins votes v ≡ true → b v term ≡ i

poll_new :
    (k : ℕ) (answer : Bool) (r : Raft)
    → Assoc.find k r.votes ≡ none
    → (poll k answer r).0.votes ≡ Assoc.insert k answer r.votes
unfolding poll Assoc.has_key
poll_new k answer r h = ground (arith, h)

poll_old :
    (k : ℕ) (answer : Bool) (r : Raft) {w : Bool}
    → Assoc.find k r.votes ≡ some w
    → (poll k answer r).0.votes ≡ r.votes
unfolding poll Assoc.has_key
poll_old k answer r h = ground (arith, h)

pub poll_counts :
    (k : ℕ) (answer : Bool) (r : Raft) → (poll k answer r).1 ≡ granted (poll k answer r).0.votes
unfolding poll
poll_counts k answer r = refl

module _ {voters : List ℕ} {b : Ledger} {i term : ℕ} where
  -- What is granted is given.
  pub granted-count :
      {votes : List (ℕ × Bool)}
      → IsTally voters b i term votes
      → granted votes ≤ count (λ v. b v term == i) voters
  granted-count {votes} t = omega (
    arith,
    t.few,
    count-le (wins votes) (λ v. b v term == i) voters (λ v h. (==_iff _ _).1 (t.given v h)),
  )

  pub extended-IsTally :
      {b' : Ledger} {votes : List (ℕ × Bool)}
      → Extends b b'
      → 0 < i
      → IsTally voters b i term votes
      → IsTally voters b' i term votes
  extended-IsTally x h t = record {
    few = t.few;
    given = λ v e. extended x v term i h (t.given v e);
  }

  pub own_vote-IsTally :
      is_voter voters i ≡ true → b i term ≡ i → IsTally voters b i term ((i, true) ∷ [])
  unfolding granted wins Assoc.find
  own_vote-IsTally h e = record {
    few = ground (arith, count_one i (wins ((i, true) ∷ [])) voters h);
    given = λ v q. ground (arith, e, q);
  }

  insert-IsTally :
      (k : ℕ) (answer : Bool) {votes : List (ℕ × Bool)}
      → is_voter voters k ≡ true
      → Assoc.find k votes ≡ none
      → (answer ≡ true → b k term ≡ i)
      → IsTally voters b i term votes
      → IsTally voters b i term (Assoc.insert k answer votes)
  insert-IsTally k answer {votes} h new e t = record {
    few = omega (
      arith,
      granted-insert k answer votes new,
      t.few,
      count-put (wins votes) k answer voters h (wins_new k votes new),
      count-le (λ v. if v == k then answer else wins votes v) (wins (Assoc.insert k answer votes))
          voters (λ v q. wins-insert k v answer votes ∙ q),
    );
    given = λ v q. elim (ℕ_discrete v k) [
      | yes same ↦
          subst (λ z. b z term ≡ i) (sym same)
            (e (ground (arith, wins-insert k v answer votes, q, same)))
      | no other ↦ t.given v (ground (arith, wins-insert k v answer votes, q, other))
    ];
  }

  pub poll-IsTally :
      (k : ℕ) (answer : Bool) (r : Raft)
      → is_voter voters k ≡ true
      → (answer ≡ true → b k term ≡ i)
      → IsTally voters b i term r.votes
      → IsTally voters b i term (poll k answer r).0.votes
  poll-IsTally k answer r h e t = elim (Option-cases (Assoc.find k r.votes)) [
    | inl new ↦
        subst (λ vs. IsTally voters b i term vs) (sym (poll_new k answer r new))
          (insert-IsTally k answer h new e t)
    | inr (w, old) ↦ subst (λ vs. IsTally voters b i term vs) (sym (poll_old k answer r old)) t
  ]
