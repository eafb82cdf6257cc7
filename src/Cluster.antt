-- ===== src/Cluster.antt =====
-- Voters of a cluster, as src/raft.cc runs them, and the messages between them, as `Network` of src/test_utils.h runs them:
-- the messages that the nodes put out are collected, and one of them at a time is stepped at the node that it is for.
pub mod Ledger
pub mod Tally
pub mod Node
pub mod Stepping
pub mod Ticking
pub mod Safety
mod Tests
use yaraft.Prelude.{
  ℕ, ◌+◌, ◌<◌, ◌≡◌, ◌⊎◌, Bool, true, false, ◌||◌, ◌&&◌, ◌==◌, if◌then◌else◌, List, [], ◌∷◌, ◌++◌,
  some, none, length, get_elem?, u64_mod, All,
}
use yaraft.Outcome.{ok}
use yaraft.Idl.{Message}
use yaraft.Assoc
use yaraft.Raft.State.{Raft, follower}
use yaraft.Raft.Replicate.{is_vote_message}
use yaraft.Raft.Leader.{Stepped}
use yaraft.Raft.Step.{step, tick, is_leader_call, is_snap}

pub record Cluster : Type 0 where
  pub node : ℕ → Raft
  pub net : List Message

abbrev pub put_node : ℕ → Raft → Cluster → Cluster
put_node i r c = record c { node = λ j. if j == i then r else c.node j }

unfoldable pub is_voter : List ℕ → ℕ → Bool
is_voter [] i = false
is_voter (v ∷ voters) i = (v == i) || is_voter voters i

-- A message of the program that runs node `i`, which carries no term; none that only other nodes send.
unfoldable pub is_local : Message → Bool
is_local m =
    (m.term == 0)
    && (if is_vote_message m.msg_type
        then false
        else if is_leader_call m.msg_type
        then false
        else if is_snap m.msg_type
        then false
        else true)

-- What node `i` may take. The net keeps what it has: a message may come late, more than once, or never.
pub data Receives (c : Cluster) (i : ℕ) (m : Message) : Type 0 where
  from_net : (n : ℕ) → get_elem? c.net n ≡ some m → m.to ≡ i → Receives c i m
  from_host : is_local m ≡ true → Receives c i m

-- One event at one node. The terms do not wrap, and the voters stay.
pub data Moves (voters : List ℕ) : Cluster → Cluster → Type 0 where
  takes :
      {c : Cluster} (i : ℕ) (m : Message) {p : Stepped}
      → is_voter voters i ≡ true
      → Receives c i m
      → (c.node i).term + 1 < u64_mod
      → m.term + 1 < u64_mod
      → step m (c.node i) ≡ ok p
      → Assoc.keys p.0.prs ≡ voters
      → Moves voters c (put_node i p.0 c)
  waits :
      {c : Cluster} (i : ℕ) {r : Raft}
      → is_voter voters i ≡ true
      → (c.node i).term + 1 < u64_mod
      → tick (c.node i) ≡ ok r
      → Assoc.keys r.prs ≡ voters
      → Moves voters c (put_node i r c)
  collects :
      {c : Cluster} (i : ℕ)
      → is_voter voters i ≡ true
      → Moves voters c (record (put_node i (record (c.node i) { msgs = [] }) c) {
        net = c.net ++ (c.node i).msgs;
      })

-- A node that starts anew, at a term that `loadState` or the bootstrap gives it.
pub record IsStart (voters : List ℕ) (c : Cluster) : Type 0 where
  pub quiet : c.net ≡ []
  pub ids : (i : ℕ) → is_voter voters i ≡ true → (c.node i).id ≡ i
  pub terms : (i : ℕ) → is_voter voters i ≡ true → 0 < (c.node i).term
  pub states : (i : ℕ) → is_voter voters i ≡ true → (c.node i).state ≡ follower
  pub messages : (i : ℕ) → is_voter voters i ≡ true → (c.node i).msgs ≡ []
  pub voter_ids : (i : ℕ) → is_voter voters i ≡ true → Assoc.keys (c.node i).prs ≡ voters

pub data Reach (voters : List ℕ) (c : Cluster) : Cluster → Type 0 where
  here : Reach voters c c
  later : {d e : Cluster} → Reach voters c d → Moves voters d e → Reach voters c e
