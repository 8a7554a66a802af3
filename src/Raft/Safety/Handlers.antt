-- ===== src/Raft/Safety/Handlers.antt =====
-- The message handlers of internal/raft/raft.go only advance a node.
use dragonboat.Prelude.{
  ◌+◌, ◌-◌, ◌^◌, ◌≤◌, ◌<◌, ◌≡◌, refl, Bool, true, not, ◌&&◌, arith, ltb, leb, ◌==◌, length, has_key,
  Outcome, ◌>>=◌, Ensures, Ensures-ok, Ensures-if, Ensures-panic_if, Ensures-bind, Ensures-then,
}
use dragonboat.Pb.{Message, Snapshot}
use dragonboat.Raft.EntryLog
use dragonboat.Raft.EntryLog.{EntryLog}
use dragonboat.Raft.Node.{
  Raft, set_leader_id, is_observer, is_leader, quorum, has_config_change_to_apply, no_leader,
}
use dragonboat.Raft.Send.{send}
use dragonboat.Raft.Transition.{become_follower, handle_vote_resp}
use dragonboat.Raft.Members.{restore}
use dragonboat.Raft.Follower.{
  handle_heartbeat_message, handle_install_snapshot_message, accept_entries,
  handle_replicate_message, handle_node_election, handle_node_request_vote, hear_leader,
  can_grant_vote, handle_candidate_request_vote_resp,
}
use dragonboat.Raft.Safety.{same, Advances, Advances-refl, Advances-trans}
use dragonboat.Raft.Safety.Sends.{send-Alike, broadcast_replicate_message-Alike}
use dragonboat.Raft.Safety.Transitions.{
  Ensures-later, Ensures-Advances, become_follower-Advances, log_commit_to, log_try_append,
}
use dragonboat.Raft.Safety.Campaigns.{become_leader-Advances, campaign-Advances}

-- A send from a state that has advanced.
pub send-Advances : (r s : Raft) (m : Message) → Advances r s → Ensures (Advances r) (send s m)
send-Advances r s m a = Ensures-later _ a (Ensures-Advances _ (send-Alike s m))

module _ (r : Raft) (m : Message) where
  pub handle_heartbeat_message-Advances : Ensures (Advances r) (handle_heartbeat_message r m)
  unfolding handle_heartbeat_message
  handle_heartbeat_message-Advances =
      Ensures-then _ _ (log_commit_to r.log m.commit)
        λ log le. send-Advances r _ _ (same _ _ refl refl refl refl le)

  restore-Advances : (ss : Snapshot) → Ensures (λ (p : Raft × Bool). Advances r p.0) (restore r ss)
  unfolding restore EntryLog.restore
  restore-Advances ss =
      Ensures-if (leb ss.index r.log.committed) _ _ (λ _. Ensures-ok _ (Advances-refl r))
        λ above.
          Ensures-panic_if (not (is_observer r) && has_key ss.membership.observers r.node_id) _ λ _.
            Ensures-bind (EntryLog.match_term r.log ss.index ss.term) _ λ matched _.
              Ensures-if matched _ _
                (λ _.
                  Ensures-then _ _ (log_commit_to r.log ss.index)
                    λ log le. Ensures-ok _ (same _ _ refl refl refl refl le))
                (λ _. Ensures-ok _ (same _ _ refl refl refl refl (ground arith)))

  pub handle_install_snapshot_message-Advances :
      Ensures (Advances r) (handle_install_snapshot_message r m)
  unfolding handle_install_snapshot_message
  handle_install_snapshot_message-Advances =
      Ensures-then _ _ (restore-Advances m.snapshot) λ p a. send-Advances r p.0 _ a

  accept_entries-Advances : Ensures (Advances r) (accept_entries r m)
  unfolding accept_entries
  accept_entries-Advances =
      Ensures-then (EntryLog.try_append r.log m.log_index m.entries) _
        (log_try_append r.log m.log_index m.entries)
        λ p e.
          Ensures-then (EntryLog.commit_to p.0 _) _ (log_commit_to p.0 _)
            λ log le. send-Advances r _ _ (same _ _ refl refl refl refl (omega arith))

  pub handle_replicate_message-Advances : Ensures (Advances r) (handle_replicate_message r m)
  unfolding handle_replicate_message
  handle_replicate_message-Advances =
      Ensures-if (ltb m.log_index r.log.committed) _ _ (λ _. send-Advances r r _ (Advances-refl r))
        λ _. Ensures-bind (EntryLog.match_term r.log m.log_index m.log_term) _ λ matched _.
          Ensures-if matched _ _ (λ _. accept_entries-Advances)
            (λ _. send-Advances r r _ (Advances-refl r))

  pub handle_node_election-Advances :
      r.term + 1 < 2 ^ 64 → Ensures (Advances r) (handle_node_election r)
  unfolding handle_node_election
  handle_node_election-Advances h =
      Ensures-if (not (is_leader r)) _ _
        (λ _.
          Ensures-if (has_config_change_to_apply r) _ _ (λ _. Ensures-ok _ (Advances-refl r))
            (λ _. campaign-Advances r h))
        (λ _. Ensures-ok _ (Advances-refl r))

  -- A vote is given only where none was given in this term, or to the same candidate again.
  granted-Advances :
      m.term ≤ r.term
      → can_grant_vote r m ≡ true
      → Advances r (record r { election_tick = 0; vote = m.from })
  unfolding can_grant_vote
  granted-Advances h g = record {
    same_node = refl;
    same_cluster = refl;
    term_le = omega arith;
    vote_kept = λ _ voted. ground arith;
    commit_le = omega arith;
  }

  pub handle_node_request_vote-Advances :
      m.term ≤ r.term → Ensures (Advances r) (handle_node_request_vote r m)
  unfolding handle_node_request_vote
  handle_node_request_vote-Advances h =
      Ensures-bind (EntryLog.up_to_date r.log m.log_index m.log_term) _ λ is_up_to_date _.
        Ensures-if (can_grant_vote r m && is_up_to_date) _ _
          (λ g. send-Advances r _ _ (granted-Advances h (ground arith)))
          (λ _. send-Advances r r _ (Advances-refl r))

  pub hear_leader-Advances : Advances r (hear_leader r m)
  unfolding set_leader_id
  hear_leader-Advances = same _ _ refl refl refl refl (omega arith)

  -- The handlers that first turn a candidate into a follower.
  pub as_follower :
      (f : Raft → Outcome Raft)
      → ((s : Raft) → Ensures (Advances s) (f s))
      → Ensures (Advances r) (become_follower r r.term m.from >>= f)
  as_follower f h =
      Ensures-then _ _ (become_follower-Advances r r.term m.from (omega arith))
        λ s a. Ensures-later _ a (h s)

  pub handle_candidate_request_vote_resp-Advances :
      Ensures (Advances r) (handle_candidate_request_vote_resp r m)
  unfolding handle_candidate_request_vote_resp handle_vote_resp
  handle_candidate_request_vote_resp-Advances =
      let s : Raft = (handle_vote_resp r m.from m.reject).0 in
      let a : Advances r s = same r s refl refl refl refl (omega arith) in
      Ensures-if (has_key r.observers m.from) _ _ (λ _. Ensures-ok _ (Advances-refl r))
        λ _.
          Ensures-if ((handle_vote_resp r m.from m.reject).1 == quorum s) _ _
            (λ _. Ensures-then _ _ (become_leader-Advances s) λ t b.
              Ensures-later _ (Advances-trans a b)
                (Ensures-Advances _ (broadcast_replicate_message-Alike t)))
            (λ _.
              Ensures-if (length s.votes - (handle_vote_resp r m.from m.reject).1 == quorum s) _ _
                (λ _. Ensures-later _ a (become_follower-Advances s s.term no_leader (omega arith)))
                (λ _. Ensures-ok _ a))
