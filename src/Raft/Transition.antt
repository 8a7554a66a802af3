-- ===== src/Raft/Transition.antt =====
-- internal/raft/raft.go: the changes between follower, candidate, leader and observer.
pub mod Rounds
use dragonboat.Prelude.{
  ℕ, zero, suc, ◌+◌, Bool, true, false, not, none, some, List, [], ◌∷◌, ltb, ◌==◌, ◌!=◌,
  if◌then◌else◌, add64, last?, Map, has_key, put, keys, Outcome, ok, panic, ◌>>=◌, ◌>>◌, panic_if,
}
use dragonboat.Pb.{empty_entry, MessageType, message}
use dragonboat.Raft.EntryUtils.{count_config_change}
use dragonboat.Raft.Remote.{Remote, fresh}
use dragonboat.Raft.EntryLog
use dragonboat.Raft.EntryLog.{EntryLog, fetched, failed, max_entries_to_apply_size}
use dragonboat.Raft.ReadIndex.{new_read_index}
use dragonboat.Raft.Node.{
  Raft, State, no_leader, set_leader_id, set_randomized_election_timeout, abort_leader_transfer,
  reset_match_value_array, is_single_node_quorum,
}
use dragonboat.Raft.Send.{send}
use dragonboat.Raft.Replication.{append_entries}

-- `resetRemotes` and `resetObservers`: only the local node is known to have the local log.
unfoldable pub reset_progress : ℕ → ℕ → Map Remote → Map Remote
reset_progress node_id last [] = []
reset_progress node_id last ((id, rp) ∷ m) =
    (id, fresh (if id == node_id then last else 0) (add64 last 1)) ∷ reset_progress node_id last m

-- The start of `reset`: a new term forgets the vote.
abbrev pub enter_term : Raft → ℕ → Raft
enter_term r term = if r.term != term then record r { term = term; vote = no_leader } else r

-- The end of `reset`, behind the random election timeout.
unfoldable pub reset_rest : Raft → Raft
reset_rest r =
    let last = EntryLog.last_index r.log in
    reset_match_value_array (record (abort_leader_transfer r) {
      read_index = new_read_index;
      pending_config_change = false;
      remotes = reset_progress r.node_id last r.remotes;
      observers = reset_progress r.node_id last r.observers;
    })

unfoldable pub reset : Raft → ℕ → Outcome Raft
reset r term = do
  let r1 : Raft = set_leader_id (enter_term r term) no_leader
  r2 ←
      set_randomized_election_timeout
        (record r1 { votes = []; election_tick = 0; heartbeat_tick = 0 })
  ok (reset_rest r2)

unfoldable pub become_observer : Raft → ℕ → ℕ → Outcome Raft
become_observer r term leader_id = elim r.state [
  | State.observer ↦ do r' ← reset r term; ok (set_leader_id r' leader_id)
  | _ ↦ panic
]

unfoldable pub become_follower : Raft → ℕ → ℕ → Outcome Raft
become_follower r term leader_id = do
  r' ← reset (record r { state = State.follower }) term
  ok (set_leader_id r' leader_id)

unfoldable pub become_candidate : Raft → Outcome Raft
become_candidate r =
    let go : Outcome Raft = (do
      r' ← reset (record r { state = State.candidate }) (add64 r.term 1)
      ok (record r' { vote = r'.node_id })) in
    elim r.state [ State.leader ↦ panic | State.observer ↦ panic | _ ↦ go ]

-- The loop of `getPendingConfigChangeCount`: `index` is the first entry not counted yet.
unfoldable pub count_pending : ℕ → EntryLog → ℕ → ℕ → Outcome ℕ
count_pending zero log index count = panic
count_pending (suc fuel) log index count = do
  found ← EntryLog.entries log index max_entries_to_apply_size
  elim found [
    | failed _ ↦ panic
    | fetched ents ↦ elim (last? ents) [
      | none ↦ ok count
      | some e ↦ count_pending fuel log (add64 e.index 1) (count + count_config_change ents)
    ]
  ]

-- The fuel is the length of the log, and one more for the round that finds its end.
unfoldable pub get_pending_config_change_count : Raft → Outcome ℕ
get_pending_config_change_count r =
    count_pending (EntryLog.last_index r.log + 1) r.log (add64 r.log.committed 1) 0

unfoldable pub pre_leader_promotion_handle_config_change : Raft → Outcome Raft
pre_leader_promotion_handle_config_change r = do
  n ← get_pending_config_change_count r
  panic_if (ltb 1 n)
  ok (if n == 1 then record r { pending_config_change = true } else r)

unfoldable pub become_leader : Raft → Outcome Raft
become_leader r =
    let go : Outcome Raft = (do
      r1 ← reset (record r { state = State.leader }) r.term
      r2 ← pre_leader_promotion_handle_config_change (set_leader_id r1 r1.node_id)
      append_entries r2 (empty_entry ∷ [])) in
    elim r.state [ State.follower ↦ panic | State.observer ↦ panic | _ ↦ go ]

abbrev pub count_votes : Map Bool → ℕ
count_votes [] = 0
count_votes ((id, granted) ∷ m) = (if granted then 1 else 0) + count_votes m

-- The first answer of a node counts; the result is how many granted their vote.
unfoldable pub handle_vote_resp : Raft → ℕ → Bool → Raft × ℕ
handle_vote_resp r from rejected =
    let votes = if has_key r.votes from then r.votes else put r.votes from (not rejected) in
    (record r { votes = votes }, count_votes votes)

unfoldable pub request_votes : List ℕ → ℕ → ℕ → Raft → Outcome Raft
request_votes [] term hint r = ok r
request_votes (k ∷ ks) term hint r = if k == r.node_id then request_votes ks term hint r else (do
  last_term ← EntryLog.last_term r.log
  r' ← send r (record (message MessageType.request_vote) {
    term = term;
    to = k;
    log_index = EntryLog.last_index r.log;
    log_term = last_term;
    hint = hint;
  })
  request_votes ks term hint r')

unfoldable pub campaign : Raft → Outcome Raft
campaign r = do
  r1 ← become_candidate r
  let term = r1.term
  let (r2, _) = handle_vote_resp r1 r1.node_id false
  if is_single_node_quorum r2
      then become_leader r2
      else (if r2.is_leader_transfer_target
          then request_votes (keys r2.remotes) term r2.node_id
              (record r2 { is_leader_transfer_target = false })
          else request_votes (keys r2.remotes) term 0 r2)
