-- ===== src/Cluster/Node.antt =====
-- What holds of one node of a cluster, given the votes so far.
use yaraft.Prelude.{
  ℕ, ◌+◌, ◌/◌, ◌≤◌, ◌<◌, ◌≡◌, ◌⊎◌, refl, ◌∙◌, true, ◌==◌, ==_iff, List, [], ◌∷◌, length, All,
  All-map, arith,
}
use yaraft.Idl.{Message}
use yaraft.Assoc
use yaraft.Raft.State.{Raft, candidate, leader, quorum}
use yaraft.Raft.Replicate.{is_forwarded}
use yaraft.Raft.Sent.{is_grant}
use yaraft.Cluster.{is_voter}
use yaraft.Cluster.Ledger.{Ledger, Extends, extended, count, count-le}
use yaraft.Cluster.Tally.{IsTally, extended-IsTally}

-- How many voters are a majority.
abbrev pub majority : List ℕ → ℕ
majority voters = length voters / 2 + 1

-- A majority has voted for node `i`.
abbrev pub IsElected : List ℕ → Ledger → ℕ → ℕ → Type 0
IsElected voters b i term = majority voters ≤ count (λ v. b v term == i) voters

pub extended-IsElected :
    (voters : List ℕ) (term : ℕ) {b b' : Ledger} {i : ℕ}
    → Extends b b'
    → 0 < i
    → IsElected voters b i term
    → IsElected voters b' i term
extended-IsElected voters term {b} {b'} {i} x h e = omega (
  arith,
  e,
  count-le (λ v. b v term == i) (λ v. b' v term == i) voters
      (λ v q. (==_iff _ _).1 (extended x v term i h ((==_iff _ _).0 q))),
)

-- A message of a voter, whose vote, if it gives one, is given.
pub record IsGood (voters : List ℕ) (b : Ledger) (m : Message) : Type 0 where
  pub voter : is_voter voters m.from ≡ true
  pub carries : (is_forwarded m.msg_type ≡ true) ⊎ (0 < m.term)
  pub given : is_grant m.msg_type m.reject ≡ true → 0 < m.to → b m.from m.term ≡ m.to

pub extended-IsGood :
    {voters : List ℕ} {b b' : Ledger}
    → Extends b b'
    → (m : Message) → IsGood voters b m
    → IsGood voters b' m
extended-IsGood x m g = record {
  voter = g.voter;
  carries = g.carries;
  given = λ h p. extended x m.from m.term m.to p (g.given h p);
}

pub record Holds (voters : List ℕ) (b : Ledger) (i : ℕ) (r : Raft) : Type 0 where
  pub id : r.id ≡ i
  pub positive : 0 < r.term
  pub voter_ids : Assoc.keys r.prs ≡ voters
  pub now : b i r.term ≡ r.vote
  pub future : (t : ℕ) → r.term < t → b i t ≡ 0
  pub said : All (IsGood voters b) r.msgs
  pub runs : r.state ≡ candidate → IsTally voters b i r.term r.votes
  pub leads : r.state ≡ leader → IsElected voters b i r.term

-- A node keeps what holds while another one votes.
pub extended-Holds :
    {voters : List ℕ} {b b' : Ledger} {i : ℕ} {r : Raft}
    → Extends b b'
    → 0 < i
    → ((t : ℕ) → b' i t ≡ b i t)
    → Holds voters b i r
    → Holds voters b' i r
extended-Holds {voters} {b} {b'} {r = r} x h same k = record {
  id = k.id;
  positive = k.positive;
  voter_ids = k.voter_ids;
  now = same r.term ∙ k.now;
  future = λ t q. same t ∙ k.future t q;
  said = All-map (IsGood voters b) (IsGood voters b') (extended-IsGood x) r.msgs k.said;
  runs = λ q. extended-IsTally x h (k.runs q);
  leads = λ q. extended-IsElected voters r.term x h (k.leads q);
}

length-keys {ℓ} : {A : Type ℓ} (m : List (ℕ × A)) → length (Assoc.keys m) ≡ length m
unfolding Assoc.keys
length-keys [] = refl
length-keys ((j, w) ∷ m) = ground (arith, length-keys m)

-- The quorum of a node is a majority.
pub quorum_lem :
    {voters : List ℕ} (r : Raft) → Assoc.keys r.prs ≡ voters → quorum r ≡ majority voters
unfolding quorum
quorum_lem r h = ground (arith, length-keys r.prs, h)
