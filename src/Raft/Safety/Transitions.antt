-- ===== src/Raft/Safety/Transitions.antt =====
-- Changes of role, appends and commits of internal/raft/raft.go only advance a node.
use dragonboat.Prelude.{
  ℕ, ◌+◌, ◌^◌, ◌≤◌, ◌<◌, ◌≡◌, refl, Bool, List, [], ◌∷◌, arith, leb, ◌!=◌, add64, sub64, Outcome,
  panic, ◌>>=◌, Ensures, Ensures-ok, Ensures-panic, Ensures-if, Ensures-panic_if, Ensures-bind,
  Ensures-then,
}
use dragonboat.Pb.{Entry}
use dragonboat.Raft.EntryLog
use dragonboat.Raft.EntryLog.{EntryLog, Fetched, commit_term}
use dragonboat.Raft.Node.{
  Raft, State, set_leader_id, set_randomized_election_timeout, abort_leader_transfer,
  reset_match_value_array,
}
use dragonboat.Raft.Transition.{
  reset_rest, reset, become_observer, become_follower, become_candidate,
}
use dragonboat.Raft.Safety.{same, Advances, Advances-trans, Alike, Advances_of_Alike}

-- A run from a state that has advanced.
pub Ensures-later :
    {r s : Raft} (m : Outcome Raft) → Advances r s → Ensures (Advances s) m → Ensures (Advances r) m
Ensures-later m a h = record { at = λ t e. Advances-trans a (h.at t e) }

pub Ensures-Advances : {r : Raft} (m : Outcome Raft) → Ensures (Alike r) m → Ensures (Advances r) m
Ensures-Advances m h = record { at = λ t e. Advances_of_Alike (h.at t e) }

pub reset-Advances : (r : Raft) (term : ℕ) → r.term ≤ term → Ensures (Advances r) (reset r term)
unfolding reset set_randomized_election_timeout ◌>>=◌ set_leader_id reset_rest abort_leader_transfer
    reset_match_value_array
reset-Advances r term h = record {
  at = λ t e. record {
    same_node = ground arith;
    same_cluster = ground arith;
    term_le = ground arith;
    vote_kept = ground arith;
    commit_le = ground arith;
  };
}

pub reset-term : (r : Raft) (term : ℕ) → Ensures (λ (t : Raft). t.term ≡ term) (reset r term)
unfolding reset set_randomized_election_timeout ◌>>=◌ set_leader_id reset_rest abort_leader_transfer
    reset_match_value_array
reset-term r term = record { at = λ t e. ground arith }

pub set_leader_id-Advances : (r : Raft) (leader_id : ℕ) → Advances r (set_leader_id r leader_id)
unfolding set_leader_id
set_leader_id-Advances r leader_id =
    same r (set_leader_id r leader_id) refl refl refl refl (omega arith)

pub become_follower-Advances :
    (r : Raft) (term leader_id : ℕ)
    → r.term ≤ term
    → Ensures (Advances r) (become_follower r term leader_id)
unfolding become_follower
become_follower-Advances r term leader_id h =
    Ensures-then _ _ (reset-Advances (record r { state = State.follower }) term h) λ t a.
      Ensures-ok _ (
        Advances-trans (Advances-trans (same r _ refl refl refl refl (omega arith)) a)
          (set_leader_id-Advances t leader_id))

pub become_follower-term :
    (r : Raft) (term leader_id : ℕ)
    → Ensures (λ (t : Raft). t.term ≡ term) (become_follower r term leader_id)
unfolding become_follower set_leader_id
become_follower-term r term leader_id =
    Ensures-then _ _ (reset-term (record r { state = State.follower }) term) λ t e. Ensures-ok _ e

-- The tests of the node's state at the start of the three other changes.
module _ (P : Raft → Type 0) (m : Outcome Raft) (h : Ensures P m) where
  Ensures-observer : (s : State) → Ensures P (elim s [ State.observer ↦ m | _ ↦ panic ])
  Ensures-observer State.observer = h
  Ensures-observer _ = Ensures-panic

  Ensures-candidate :
      (s : State) → Ensures P (elim s [ State.leader ↦ panic | State.observer ↦ panic | _ ↦ m ])
  Ensures-candidate State.leader = Ensures-panic
  Ensures-candidate State.observer = Ensures-panic
  Ensures-candidate _ = h

  pub Ensures-leader :
      (s : State) → Ensures P (elim s [ State.follower ↦ panic | State.observer ↦ panic | _ ↦ m ])
  Ensures-leader State.follower = Ensures-panic
  Ensures-leader State.observer = Ensures-panic
  Ensures-leader _ = h

pub become_observer-Advances :
    (r : Raft) (term leader_id : ℕ)
    → r.term ≤ term
    → Ensures (Advances r) (become_observer r term leader_id)
unfolding become_observer
become_observer-Advances r term leader_id h =
    Ensures-observer _ _
      (Ensures-then _ _ (reset-Advances r term h)
        λ t a. Ensures-ok _ (Advances-trans a (set_leader_id-Advances t leader_id)))
      r.state

pub become_observer-term :
    (r : Raft) (term leader_id : ℕ)
    → Ensures (λ (t : Raft). t.term ≡ term) (become_observer r term leader_id)
unfolding become_observer set_leader_id
become_observer-term r term leader_id =
    Ensures-observer _ _ (Ensures-then _ _ (reset-term r term) λ t e. Ensures-ok _ e) r.state

pub become_candidate-Advances :
    (r : Raft) → r.term + 1 < 2 ^ 64 → Ensures (Advances r) (become_candidate r)
unfolding become_candidate
become_candidate-Advances r h =
    Ensures-candidate _ _
      (Ensures-bind _ _ λ t e.
        Ensures-ok _
          (voted t ((reset-Advances _ _ (omega arith)).at t e) ((reset-term _ _).at t e)))
      r.state
  where
    voted :
        (t : Raft)
        → Advances (record r { state = State.candidate }) t
        → t.term ≡ add64 r.term 1
        → Advances r (record t { vote = t.node_id })
    voted t a e = record {
      same_node = a.same_node;
      same_cluster = a.same_cluster;
      term_le = a.term_le;
      vote_kept = λ same _. absurd (omega arith);
      commit_le = a.commit_le;
    }

pub log_commit_to :
    (l : EntryLog) (index : ℕ)
    → Ensures (λ (l' : EntryLog). l.committed ≤ l'.committed) (EntryLog.commit_to l index)
unfolding EntryLog.commit_to
log_commit_to l index = record { at = λ t e. ground arith }

pub log_try_commit :
    (l : EntryLog) (index term : ℕ)
    → Ensures
        (λ (p : EntryLog × Bool). l.committed ≤ p.0.committed)
        (EntryLog.try_commit l index term)
unfolding EntryLog.try_commit
log_try_commit l index term = record { at = λ t e. ground arith }

pub log_append :
    (l : EntryLog) (es : List Entry)
    → Ensures (λ (l' : EntryLog). l'.committed ≡ l.committed) (EntryLog.append l es)
unfolding EntryLog.append
log_append l [] = record { at = λ t e. ground arith }
log_append l (x ∷ es) = record { at = λ t e. ground arith }

pub log_try_append :
    (l : EntryLog) (index : ℕ) (es : List Entry)
    → Ensures
        (λ (p : EntryLog × Bool). p.0.committed ≡ l.committed)
        (EntryLog.try_append l index es)
unfolding EntryLog.try_append
log_try_append l index es = Ensures-bind (EntryLog.get_conflict_index l es) _ λ c _.
    Ensures-if (c != 0) _ _
      (λ _. Ensures-panic_if (leb c l.committed) _ λ _.
        Ensures-bind (EntryLog.slice_from es (sub64 (sub64 c index) 1)) _
          λ new _. Ensures-then (EntryLog.append l new) _ (log_append l new) λ l' e. Ensures-ok _ e)
      (λ _. Ensures-ok _ refl)
