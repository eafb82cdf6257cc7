-- ===== src/Cluster/Safety.antt =====
-- What holds in every state that a cluster comes to, and that no two nodes lead in one term.
use yaraft.Prelude.{
  ℕ, ◌<◌, ◌≡◌, inl, inr, refl, sym, ◌∙◌, subst, true, false, ◌==◌, ==_iff, if◌then◌else◌,
  Bool-cases, List, [], ◌∷◌, get_elem?, some, zero, suc, All, All-map, All-append, arith,
}
use yaraft.Idl.{Message}
use yaraft.Raft.State.{Raft, leader}
use yaraft.Cluster.{
  Cluster, is_voter, Receives, from_net, from_host, Moves, takes, waits, collects, IsStart, Reach,
  here, later,
}
use yaraft.Cluster.Ledger.{
  Ledger, Extends, Extends-refl, Extends-trans, write_other_node, counts_meet,
}
use yaraft.Cluster.Node.{
  IsElected, extended-IsElected, IsGood, extended-IsGood, Holds, extended-Holds,
}
use yaraft.Cluster.Ticking.{tick-Gains}
use yaraft.Cluster.Stepping.{Arrives, after, step-Holds}

record Inv (voters : List ℕ) (b : Ledger) (c : Cluster) : Type 0 where
  nodes : (i : ℕ) → is_voter voters i ≡ true → Holds voters b i (c.node i)
  net : All (IsGood voters b) c.net

-- The votes of the nodes that start.
abbrev votes_of : Cluster → Ledger
votes_of c j u = if u == (c.node j).term then (c.node j).vote else 0

start-Holds :
    {voters : List ℕ} {c : Cluster}
    → IsStart voters c
    → (i : ℕ) → is_voter voters i ≡ true
    → Holds voters (votes_of c) i (c.node i)
start-Holds {voters} {c} s i h = record {
  id = s.ids i h;
  positive = s.terms i h;
  voter_ids = s.voter_ids i h;
  now = ground arith;
  future = λ t q. ground (arith, q);
  said = subst (λ ms. All (IsGood voters (votes_of c)) ms) (sym (s.messages i h)) tt;
  runs = λ q. ground (arith, s.states i h, q);
  leads = λ q. ground (arith, s.states i h, q);
}

start-Inv : {voters : List ℕ} {c : Cluster} → IsStart voters c → Inv voters (votes_of c) c
start-Inv {voters} {c} s = record {
  nodes = λ i h. start-Holds s i h;
  net = subst (λ ms. All (IsGood voters (votes_of c)) ms) (sym s.quiet) tt;
}

some_is {ℓ} : {A : Type ℓ} {x y : A} → some x ≡ some y → x ≡ y
some_is q = cc

All-get {ℓ κ} :
    {A : Type ℓ} (P : A → Type κ) (xs : List A) (n : ℕ) {a : A}
    → All P xs
    → get_elem? xs n ≡ some a
    → P a
All-get P [] n h e = cc
All-get P (x ∷ xs) zero (p, h) e = subst P (some_is e) p
All-get P (x ∷ xs) (suc n) (p, h) e = All-get P xs n h e

arrives :
    {voters : List ℕ} {b : Ledger} (c : Cluster) (i : ℕ) (m : Message)
    → Inv voters b c
    → Receives c i m
    → Arrives voters b i m
arrives {voters} {b} c i m inv (from_net n e to) =
    inr (All-get (IsGood voters b) c.net n inv.net e, to)
arrives c i m inv (from_host h) = inl h

-- Another state of one node.
put-Holds :
    {voters : List ℕ} {b b' : Ledger} {c : Cluster} (i : ℕ) (r : Raft)
    → ((j : ℕ) → is_voter voters j ≡ true → 0 < j)
    → Extends b b'
    → ((j t : ℕ) → (j == i) ≡ false → b' j t ≡ b j t)
    → Inv voters b c
    → Holds voters b' i r
    → (j : ℕ) → is_voter voters j ≡ true
    → Holds voters b' j (if j == i then r else c.node j)
put-Holds {voters} {b} {b'} {c} i r pos x same inv k j h = elim (Bool-cases (j == i)) [
  | inl at ↦
      let here : r ≡ (if j == i then r else c.node j) = rw at refl in
      subst (λ z. Holds voters b' j z) here
        (subst (λ z. Holds voters b' z r) (sym ((==_iff j i).0 at)) k)
  | inr off ↦
      let there : c.node j ≡ (if j == i then r else c.node j) = rw off refl in
      subst (λ z. Holds voters b' j z) there
        (extended-Holds x (pos j h) (λ t. same j t off) (inv.nodes j h))
]

-- The state with some of its votes.
abbrev Known : List ℕ → Ledger → Cluster → Type 0
Known voters b c = (b' : Ledger) × Extends b b' × Inv voters b' c

emptied :
    {voters : List ℕ} {b : Ledger} {i : ℕ} (r : Raft)
    → Holds voters b i r
    → Holds voters b i (record r { msgs = [] })
emptied r k = record {
  id = k.id;
  positive = k.positive;
  voter_ids = k.voter_ids;
  now = k.now;
  future = k.future;
  said = tt;
  runs = k.runs;
  leads = k.leads;
}

Moves-Inv :
    {voters : List ℕ} {b : Ledger} {c d : Cluster}
    → ((j : ℕ) → is_voter voters j ≡ true → 0 < j)
    → Moves voters c d
    → Inv voters b c
    → Known voters b d
Moves-Inv {voters} {b} {c} pos (takes i m {p} h a low high e ids) inv =
    let (x, k) =
      step-Holds m (c.node i) (pos i h) h (inv.nodes i h) (arrives c i m inv a) low high e ids in
    (
      after b i p.0,
      x,
      record {
        nodes = put-Holds i p.0 pos x (λ j t q. write_other_node b i p.0.term p.0.vote j t q) inv k;
        net =
            All-map (IsGood voters b) (IsGood voters (after b i p.0)) (extended-IsGood x) c.net
              inv.net;
      },
    )
Moves-Inv {voters} {b} {c} pos (waits i {r} h low e ids) inv =
    let (b', x, same, k) = tick-Gains (pos i h) h (c.node i) (inv.nodes i h) low e ids in
    (
      b',
      x,
      record {
        nodes = put-Holds i r pos x same inv k;
        net = All-map (IsGood voters b) (IsGood voters b') (extended-IsGood x) c.net inv.net;
      },
    )
Moves-Inv {voters} {b} {c} pos (collects i h) inv = (
  b,
  Extends-refl b,
  record {
    nodes =
        put-Holds i (record (c.node i) { msgs = [] }) pos (Extends-refl b) (λ j t q. refl) inv
          (emptied (c.node i) (inv.nodes i h));
    net = All-append (IsGood voters b) c.net (c.node i).msgs inv.net (inv.nodes i h).said;
  },
)

Reach-Inv :
    {voters : List ℕ} {b : Ledger} {c d : Cluster}
    → ((j : ℕ) → is_voter voters j ≡ true → 0 < j)
    → Reach voters c d
    → Inv voters b c
    → Known voters b d
Reach-Inv {b} pos here inv = (b, Extends-refl b, inv)
Reach-Inv pos (later run last) inv =
    let (b₁, x, inv₁) = Reach-Inv pos run inv in
    let (b₂, y, inv₂) = Moves-Inv pos last inv₁ in (b₂, Extends-trans x y, inv₂)

-- Two majorities meet.
elected_once :
    (voters : List ℕ) (b : Ledger) (i j t : ℕ)
    → IsElected voters b i t
    → IsElected voters b j t
    → i ≡ j
elected_once voters b i j t e f =
    let (v, one, two) =
      counts_meet (λ v. b v t == i) (λ v. b v t == j) voters (omega (arith, e, f)) in
    sym ((==_iff _ _).0 one) ∙ (==_iff _ _).0 two

-- In a cluster of voters, whatever ticks and messages they take, in whatever order, late, more than once or never,
-- one voter at most leads in a term: a voter that leads in a state of the cluster and a voter that leads in the same
-- term then or later are the same. Only voters take part, no learner. They start as followers that have put out
-- nothing, with terms that are not 0, know the same voters, which stay as they are, and the ids of the voters are not
-- 0; no term wraps, and what a voter takes from its own program carries no term and is of no kind that only other
-- nodes send.
pub leaders-IsOne :
    {voters : List ℕ} {c d e : Cluster}
    → ((j : ℕ) → is_voter voters j ≡ true → 0 < j)
    → IsStart voters c
    → Reach voters c d
    → Reach voters d e
    → (i j : ℕ) → is_voter voters i ≡ true
    → is_voter voters j ≡ true
    → (d.node i).state ≡ leader
    → (e.node j).state ≡ leader
    → (d.node i).term ≡ (e.node j).term
    → i ≡ j
leaders-IsOne {voters} {d = d} {e = e} pos start run rest i j h k leads leads' same =
    let (b, x, inv) = Reach-Inv pos run (start-Inv start) in
    let (b', y, inv') = Reach-Inv pos rest inv in
    let first = extended-IsElected voters _ y (pos i h) ((inv.nodes i h).leads leads) in
    let second = (inv'.nodes j k).leads leads' in
    elected_once voters b' i j (e.node j).term (subst (λ t. IsElected voters b' i t) same first)
      second
