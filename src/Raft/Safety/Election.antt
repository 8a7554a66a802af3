-- ===== src/Raft/Safety/Election.antt =====
-- Who becomes a leader: the answers to a candidate's requests for votes in internal/raft/raft.go.
use dragonboat.Prelude.{
  ℕ, ◌+◌, ◌-◌, ◌≡◌, refl, ◌∙◌, ◌≢◌, ◌⊎◌, inl, inr, Bool, true, false, not, none, some, List, [],
  ◌∷◌, arith, ltb, ◌==◌, if◌then◌else◌, Bool-cases, add64, length, Map, get, has_key, put, get-put,
  ok, ◌>>=◌, Ensures, Ensures-ok, Ensures-panic, Ensures-if, Ensures-panic_if, Ensures-option,
  Ensures-bind, Ensures-then,
}
use dragonboat.Pb.{Message, Entry, empty_entry}
use dragonboat.Raft.Remote
use dragonboat.Raft.EntryLog
use dragonboat.Raft.Node.{
  Raft, State, no_leader, quorum, is_single_node_quorum, set_leader_id,
  set_randomized_election_timeout, abort_leader_transfer, reset_match_value_array,
}
use dragonboat.Raft.Send.{broadcast_replicate_message}
use dragonboat.Raft.Replication.{try_commit, append_entries, commit_candidate, stamp}
use dragonboat.Raft.Transition.{
  reset, reset_rest, become_follower, become_leader, count_votes, handle_vote_resp,
  pre_leader_promotion_handle_config_change, get_pending_config_change_count,
}
use dragonboat.Raft.Follower.{handle_candidate_request_vote_resp}
use dragonboat.Raft.Safety.{Alike}
use dragonboat.Raft.Safety.Sends.{broadcast_replicate_message-Alike}
use dragonboat.Raft.Safety.Transitions.{Ensures-leader}

-- A state in which the node has a role, under a leader, at a term.
abbrev Holds : State → ℕ → ℕ → Raft → Type 0
Holds role leader_id term r = (r.state ≡ role) × (r.leader_id ≡ leader_id) × (r.term ≡ term)

reset-Holds :
    (r : Raft) (term : ℕ)
    → Ensures
        (λ (t : Raft). Holds r.state no_leader term t × (t.node_id ≡ r.node_id))
        (reset r term)
unfolding reset set_randomized_election_timeout ◌>>=◌ set_leader_id reset_rest abort_leader_transfer
    reset_match_value_array
reset-Holds r term = record { at = λ t e. ground arith }

become_follower-Holds :
    (r : Raft) (term leader_id : ℕ)
    → Ensures (Holds State.follower leader_id term) (become_follower r term leader_id)
unfolding become_follower set_leader_id
become_follower-Holds r term leader_id =
    Ensures-then _ _ (reset-Holds (record r { state = State.follower }) term)
      λ t h. Ensures-ok _ (h.0.0, refl, h.0.2)

module _ (role : State) (leader_id term : ℕ) (r : Raft) (h : Holds role leader_id term r) where
  try_commit-Holds : Ensures (λ (p : Raft × Bool). Holds role leader_id term p.0) (try_commit r)
  unfolding try_commit
  try_commit-Holds =
      Ensures-bind (commit_candidate r) _
        λ q _. Ensures-bind (EntryLog.try_commit r.log q r.term) _ λ p _. Ensures-ok _ h

append_entries-Holds :
    (role : State) (leader_id term : ℕ) (r : Raft) (es : List Entry)
    → Holds role leader_id term r
    → Ensures (Holds role leader_id term) (append_entries r es)
unfolding append_entries
append_entries-Holds role leader_id term r es h =
    Ensures-bind (EntryLog.append r.log (stamp r.term (add64 (EntryLog.last_index r.log) 1) es)) _
      λ log _.
        Ensures-option (get r.remotes r.node_id) _ _ (λ _. Ensures-panic)
          λ rp _.
            let r' : Raft = record r {
              log = log;
              remotes = put r.remotes r.node_id (Remote.try_update rp (EntryLog.last_index log)).0;
            } in
            Ensures-if (is_single_node_quorum r') _ _
              (λ _.
                Ensures-then (try_commit r') _ (try_commit-Holds role leader_id term r' h)
                  λ p b. Ensures-ok _ b)
              (λ _. Ensures-ok _ h)

pre_leader-Holds :
    (role : State) (leader_id term : ℕ) (r : Raft)
    → Holds role leader_id term r
    → Ensures (Holds role leader_id term) (pre_leader_promotion_handle_config_change r)
unfolding pre_leader_promotion_handle_config_change
pre_leader-Holds role leader_id term r h = Ensures-bind (get_pending_config_change_count r) _ λ n _.
    Ensures-panic_if (ltb 1 n) _
      λ _. Ensures-ok _ (elim (Bool-cases (n == 1)) [ inl e ↦ rw e h | inr e ↦ rw e h ])

become_leader-Holds : (r : Raft) → Ensures (Holds State.leader r.node_id r.term) (become_leader r)
unfolding become_leader set_leader_id
become_leader-Holds r =
    Ensures-leader _ _
      (Ensures-then (reset (record r { state = State.leader }) r.term) _
        (reset-Holds (record r { state = State.leader }) r.term)
        λ s a.
          Ensures-then _ _
            (pre_leader-Holds State.leader r.node_id r.term (set_leader_id s s.node_id)
              (a.0.0, a.1, a.0.2))
            λ u b. append_entries-Holds State.leader r.node_id r.term u (empty_entry ∷ []) b)
      r.state

module _ (r : Raft) (m : Message) where
  -- The votes with the new answer, and how many of them are granted.
  abbrev pub recorded : Map Bool
  recorded = (handle_vote_resp r m.from m.reject).0.votes

  abbrev pub granted : ℕ
  granted = count_votes recorded

  abbrev pub Decided : Raft → Type 0
  Decided r' =
      ((granted ≡ quorum r) × Holds State.leader r.node_id r.term r')
      ⊎ ((granted ≢ quorum r)
          × (length recorded - granted ≡ quorum r)
          × Holds State.follower no_leader r.term r')
      ⊎ ((granted ≢ quorum r)
          × (length recorded - granted ≢ quorum r)
          × (r' ≡ record r { votes = recorded }))

  decided :
      has_key r.observers m.from ≡ false → Ensures Decided (handle_candidate_request_vote_resp r m)
  unfolding handle_candidate_request_vote_resp handle_vote_resp quorum
  decided voter =
      let r' : Raft = record r { votes = recorded } in
      rw (voter, handle_candidate_request_vote_resp)
        (Ensures-if (granted == quorum r) _ _
          (λ won. Ensures-then (become_leader r') _ (become_leader-Holds r') λ s h. record {
            at = λ t e. elected s t h (broadcast_replicate_message-Alike s) (ground arith) e;
          })
          (λ short.
            Ensures-if (length recorded - granted == quorum r) _ _
              (λ lost. record {
                at = λ t e. inr (
                    inl (
                      ground arith,
                      ground arith,
                      (become_follower-Holds r' r.term no_leader).at t e,
                    ));
              })
              (λ rest. Ensures-ok _ (inr (inr (ground arith, ground arith, refl))))))
    where
      elected :
          (s t : Raft)
          → Holds State.leader r.node_id r.term s
          → Ensures (Alike s) (broadcast_replicate_message s)
          → granted ≡ quorum r
          → broadcast_replicate_message s ≡ ok t
          → Decided t
      elected s t h alike won e =
          let a = alike.at t e in inl (won, (a.state ∙ h.0, a.leader_id ∙ h.1, a.term ∙ h.2))

  -- An answer to a candidate from a voting node has one of three ends: the node leads in its own term
  -- when the granted votes are a quorum, it is a follower of no leader when the rejections are one and
  -- the grants are not, and otherwise it has recorded the vote and changed nothing else.
  pub handle_candidate_request_vote_resp_lem :
      (r' : Raft)
      → has_key r.observers m.from ≡ false
      → handle_candidate_request_vote_resp r m ≡ ok r'
      → Decided r'
  handle_candidate_request_vote_resp_lem r' voter e = (decided voter).at r' e

count_votes-put :
    (votes : Map Bool) (from : ℕ) (vote : Bool)
    → get votes from ≡ none
    → count_votes (put votes from vote) ≡ count_votes votes + (if vote then 1 else 0)
count_votes-put [] from vote h = ground arith
count_votes-put ((id, v) ∷ votes) from vote h = ground (arith, count_votes-put votes from vote)

has_key_iff : (votes : Map Bool) (from : ℕ) → has_key votes from ≡ false → get votes from ≡ none
has_key_iff [] from h = refl
has_key_iff ((id, v) ∷ votes) from h = ground (arith, has_key_iff votes from)

module _ (r : Raft) (from : ℕ) (rejected : Bool) where
  -- Only the first answer of a node counts: a node that has answered changes nothing, and a new one
  -- adds its vote, one to the count if it is granted, and leaves the votes of the others.
  pub handle_vote_resp_lem :
      (has_key r.votes from ≡ true
        → ((handle_vote_resp r from rejected).0 ≡ r)
          × ((handle_vote_resp r from rejected).1 ≡ count_votes r.votes))
      × (has_key r.votes from ≡ false
          → ((handle_vote_resp r from rejected).1
              ≡ count_votes r.votes + (if rejected then 0 else 1))
            × ((k : ℕ)
                → get (handle_vote_resp r from rejected).0.votes k
                  ≡ (if from == k then some (not rejected) else get r.votes k)))
  unfolding handle_vote_resp
  handle_vote_resp_lem = (
    λ known. ground arith,
    λ fresh. (
      ground (arith, count_votes-put r.votes from (not rejected), has_key_iff r.votes from),
      λ k. ground (arith, get-put r.votes from k (not rejected)),
    ),
  )
