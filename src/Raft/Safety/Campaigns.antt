-- ===== src/Raft/Safety/Campaigns.antt =====
-- Appends, commits, elections and memberships of internal/raft/raft.go only advance a node.
use dragonboat.Prelude.{
  ℕ, ◌+◌, ◌^◌, ◌<◌, refl, inl, inr, Bool, false, List, [], ◌∷◌, arith, ltb, ◌==◌, Bool-cases, add64,
  get, put, Ensures, Ensures-ok, Ensures-panic, Ensures-if, Ensures-panic_if, Ensures-option,
  Ensures-bind, Ensures-then,
}
use dragonboat.Pb.{Entry}
use dragonboat.Raft.Remote
use dragonboat.Raft.EntryLog
use dragonboat.Raft.EntryLog.{EntryLog, Fetched, commit_term}
use dragonboat.Raft.Node.{Raft, State, set_leader_id, is_single_node_quorum}
use dragonboat.Raft.Replication.{try_commit, append_entries, commit_candidate, stamp}
use dragonboat.Raft.Transition.{
  reset, become_leader, pre_leader_promotion_handle_config_change, get_pending_config_change_count,
  handle_vote_resp, request_votes, campaign,
}
use dragonboat.Raft.Safety.{Advances, Advances-refl, Advances-trans, same, Alike, Alike-refl}
use dragonboat.Raft.Safety.Sends.{send-Alike, Ensures-next}
use dragonboat.Raft.Safety.Transitions.{
  Ensures-later, Ensures-Advances, reset-Advances, set_leader_id-Advances,
  become_candidate-Advances, log_try_commit, log_append, Ensures-leader,
}

pub try_commit-Advances : (r : Raft) → Ensures (λ (p : Raft × Bool). Advances r p.0) (try_commit r)
unfolding try_commit
try_commit-Advances r = Ensures-bind (commit_candidate r) _ λ q _.
    Ensures-then (EntryLog.try_commit r.log q r.term) _ (log_try_commit r.log q r.term)
      λ p le. Ensures-ok _ (same _ _ refl refl refl refl le)

pub append_entries-Advances :
    (r : Raft) (es : List Entry) → Ensures (Advances r) (append_entries r es)
unfolding append_entries
append_entries-Advances r es =
    Ensures-then (EntryLog.append r.log (stamp r.term (add64 (EntryLog.last_index r.log) 1) es)) _
      (log_append r.log _)
      λ log e.
        Ensures-option (get r.remotes r.node_id) _ _ (λ _. Ensures-panic)
          λ rp _.
            let r' : Raft = record r {
              log = log;
              remotes = put r.remotes r.node_id (Remote.try_update rp (EntryLog.last_index log)).0;
            } in
            let a : Advances r r' = same _ _ refl refl refl refl (omega arith) in
            Ensures-if (is_single_node_quorum r') _ _
              (λ _.
                Ensures-then (try_commit r') _ (try_commit-Advances r')
                  λ p b. Ensures-ok _ (Advances-trans a b))
              (λ _. Ensures-ok _ a)

pre_leader-Advances :
    (r : Raft) → Ensures (Advances r) (pre_leader_promotion_handle_config_change r)
unfolding pre_leader_promotion_handle_config_change
pre_leader-Advances r = Ensures-bind (get_pending_config_change_count r) _ λ n _.
    Ensures-panic_if (ltb 1 n) _ λ _. Ensures-ok _ (elim (Bool-cases (n == 1)) [
      | inl e ↦ rw e (same r _ refl refl refl refl (omega arith))
      | inr e ↦ rw e (Advances-refl r)
    ])

pub become_leader-Advances : (r : Raft) → Ensures (Advances r) (become_leader r)
unfolding become_leader
become_leader-Advances r =
    Ensures-leader _ _
      (Ensures-then (reset (record r { state = State.leader }) r.term) _
        (reset-Advances (record r { state = State.leader }) r.term (omega arith))
        λ s a.
          Ensures-later _
            (Advances-trans (same r _ refl refl refl refl (omega arith))
              (Advances-trans a (set_leader_id-Advances s s.node_id)))
            (Ensures-then _ _ (pre_leader-Advances (set_leader_id s s.node_id))
              λ u b. Ensures-later _ b (append_entries-Advances u _)))
      r.state

request_votes-Alike :
    (ks : List ℕ) (term hint : ℕ) (r : Raft) → Ensures (Alike r) (request_votes ks term hint r)
unfolding request_votes
request_votes-Alike [] term hint r = Ensures-ok r (Alike-refl r)
request_votes-Alike (k ∷ ks) term hint r =
    Ensures-if (k == r.node_id) _ _ (λ _. request_votes-Alike ks term hint r)
      λ _.
        Ensures-bind _ _
          λ last_term _. Ensures-next r _ _ (send-Alike r _) (request_votes-Alike ks term hint)

pub campaign-Advances : (r : Raft) → r.term + 1 < 2 ^ 64 → Ensures (Advances r) (campaign r)
unfolding campaign handle_vote_resp
campaign-Advances r h = Ensures-then _ _ (become_candidate-Advances r h) λ s a.
    let s' : Raft = (handle_vote_resp s s.node_id false).0 in
    let a' : Advances r s' = Advances-trans a (same s s' refl refl refl refl (omega arith)) in
    Ensures-if (is_single_node_quorum s') _ _ (λ _. Ensures-later _ a' (become_leader-Advances s'))
      (λ _.
        Ensures-if s'.is_leader_transfer_target _ _
          (λ _.
            Ensures-later _
              (Advances-trans a' (
                same s' (record s' { is_leader_transfer_target = false }) refl refl refl refl
                  (omega arith)))
              (Ensures-Advances _ (request_votes-Alike _ _ _ _)))
          (λ _. Ensures-later _ a' (Ensures-Advances _ (request_votes-Alike _ _ _ _))))
