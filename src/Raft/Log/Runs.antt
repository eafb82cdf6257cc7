-- ===== src/Raft/Log/Runs.antt =====
-- Every sequence of messages and ticks.
use yaraft.Prelude.{◌+◌, ◌≡◌, refl, subst, length, arith}
use yaraft.Outcome.{ok, bind-ok}
use yaraft.Idl.{Message, empty_message, msg_hup, msg_beat, msg_check_quorum}
use yaraft.RaftLog.{RaftLog}
use yaraft.RaftLog.Append.{IsJoined}
use yaraft.Raft.State.{Raft, leader}
use yaraft.Raft.Roles.{abort_leader_transfer}
use yaraft.Raft.Leader.{Stepped, step_leader, step_check_quorum}
use yaraft.Raft.Step.{
  step, step_own, dispatch, step_role, tick, tick_election, tick_heartbeat, end_of_lease, is_leader,
}
use yaraft.Raft.Same.{bcast_heartbeat-Same}
use yaraft.Raft.Later.Leading.{check_quorum_active-Same}
use yaraft.Raft.Log.{IsKept, IsKept-refl, IsKept-trans, HasRoom}
use yaraft.Raft.Log.Campaigns.{Keeps, same-Keeps, become_follower_log}
use yaraft.Raft.Log.Stepping.{IsSound, step-IsKept, step-Keeps}

step_check_quorum_log :
    (r : Raft) {r' : Raft} → step_check_quorum r ≡ ok r' → r'.raft_log ≡ r.raft_log
unfolding step_check_quorum
step_check_quorum_log r run = grind (arith, check_quorum_active-Same, become_follower_log)

check_quorum_log :
    (r : Raft) {r' : Raft}
    → r.state ≡ leader
    → step_own msg_check_quorum r ≡ ok r'
    → r'.raft_log ≡ r.raft_log
unfolding step_own step dispatch step_role step_leader
check_quorum_log r leads run = grind (arith, step_check_quorum_log)

beat_log :
    (r : Raft) {r' : Raft}
    → r.state ≡ leader
    → step_own msg_beat r ≡ ok r'
    → r'.raft_log ≡ r.raft_log
unfolding step_own step dispatch step_role step_leader
beat_log r leads run = grind (arith, bcast_heartbeat-Same)

end_of_lease_log :
    (r : Raft) {r' : Raft} → r.state ≡ leader → end_of_lease r ≡ ok r' → r'.raft_log ≡ r.raft_log
unfolding end_of_lease abort_leader_transfer
end_of_lease_log r leads run = grind (arith, check_quorum_log)

tick_heartbeat_log :
    (r : Raft) {r' : Raft} → r.state ≡ leader → tick_heartbeat r ≡ ok r' → r'.raft_log ≡ r.raft_log
unfolding tick_heartbeat is_leader
tick_heartbeat_log r leads run = grind (arith, end_of_lease_log, beat_log)

hup-Keeps :
    (l : RaftLog) (r : Raft) {r' : Raft}
    → IsJoined l
    → r.raft_log ≡ l
    → HasRoom l 1
    → step_own msg_hup r ≡ ok r'
    → Keeps l r'
unfolding step_own
hup-Keeps l r {r' = r'} v e h run =
    let own = record empty_message { from = r.id; msg_type = msg_hup } in
    let (p, one, last) = bind-ok (step own r) _ run in
    let sound : IsSound own = record {
      run = λ t. ground arith;
      fits = λ t. ground arith;
      below = λ t. ground arith;
    } in
    let same : p.0 ≡ r' = ground (arith, last) in
    subst (λ x. Keeps l x) same (step-Keeps l v own r e (omega arith) sound one)

tick_election-Keeps :
    (l : RaftLog) (r : Raft) {r' : Raft}
    → IsJoined l
    → r.raft_log ≡ l
    → HasRoom l 1
    → tick_election r ≡ ok r'
    → Keeps l r'
unfolding tick_election
tick_election-Keeps l r v e h run = grind (arith, hup-Keeps l, same-Keeps l v)

tick-Keeps :
    (l : RaftLog) (r : Raft) {r' : Raft}
    → IsJoined l
    → r.raft_log ≡ l
    → HasRoom l 1
    → tick r ≡ ok r'
    → Keeps l r'
unfolding tick
tick-Keeps l r v e h run = grind (arith, tick_heartbeat_log, tick_election-Keeps l, same-Keeps l v)

tick-IsKept :
    (r : Raft) {r' : Raft}
    → IsJoined r.raft_log
    → HasRoom r.raft_log 1
    → tick r ≡ ok r'
    → IsKept r.raft_log r'.raft_log
unfolding Keeps
tick-IsKept r v h run = tick-Keeps r.raft_log r v refl h run

-- The states that a node comes to from `r` by ticks and by sound messages that it has room for.
pub data Runs (r : Raft) : Raft → Type 0 where
  start : Runs r r
  ticked : {s s' : Raft} → Runs r s → HasRoom s.raft_log 1 → tick s ≡ ok s' → Runs r s'
  stepped :
      {s : Raft} {p : Stepped} (m : Message)
      → Runs r s
      → HasRoom s.raft_log (length m.entries + 1)
      → IsSound m
      → step m s ≡ ok p
      → Runs r p.0

-- Whatever ticks and messages a node takes, as long as each call returns, what it had committed stays: from a state
-- whose log is joined, the commit index and the first index do not fall, every index up to the old commit index that
-- the log still reaches has the term that it had, and the log is joined again; each message is sound, and the log has
-- room for its entries and one more, or for one at a tick.
pub Runs-IsKept : (r s : Raft) → IsJoined r.raft_log → Runs r s → IsKept r.raft_log s.raft_log
Runs-IsKept r s v start = IsKept-refl r.raft_log v
Runs-IsKept r s v (ticked {s = t} before h run) =
    let kept = Runs-IsKept r t v before in IsKept-trans kept (tick-IsKept t kept.joins h run)
Runs-IsKept r s v (stepped {s = t} m before h sound run) =
    let kept = Runs-IsKept r t v before in
    IsKept-trans kept (step-IsKept m t kept.joins h sound run)
