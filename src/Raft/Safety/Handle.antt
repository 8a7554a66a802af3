-- ===== src/Raft/Safety/Handle.antt =====
-- `Handle` and `tick` of internal/raft/raft.go as a whole: they only advance a node, and nested calls
-- of `Handle` are at most two deep.
use dragonboat.Prelude.{
  ℕ, zero, suc, ◌+◌, ◌^◌, ◌≤◌, ◌<◌, ◌≡◌, refl, ◌⊎◌, inl, inr, Bool, true, ◌&&◌, ◌||◌, some, arith,
  ltb, ◌==◌, ◌!=◌, Outcome, ok, Ensures, Ensures-ok, Ensures-panic, Ensures-if, Ensures-panic_if,
  Ensures-option, Ensures-then,
}
use dragonboat.Pb.{Message, MessageType}
use dragonboat.Raft.Node.{Raft, State, is_observer}
use dragonboat.Raft.Step.{
  Handler, handlers, default_handle, is_leader_message, drop_request_vote_from_high_term_node,
  on_message_term_not_matched, handle_with, handle, handle_message, tick,
}
use dragonboat.Raft.Safety.{Advances, Advances-refl, Advances_of_Alike}
use dragonboat.Raft.Safety.Sends.{send-Alike}
use dragonboat.Raft.Safety.Transitions.{
  Ensures-later, become_follower-Advances, become_follower-term, become_observer-Advances,
  become_observer-term,
}
use dragonboat.Raft.Safety.Steps.{
  Bounded, campaigns, HasRoom, InnerAdvances, run_handler-Advances, tick_with-Advances,
}

-- Only the messages that `campaigns` names are dispatched to the handlers that can start a campaign.
handlers-campaigns :
    (s : State) (t : MessageType) (h : Handler)
    → handlers s t ≡ some h
    → (h ≡ Handler.node_election) ⊎ (h ≡ Handler.follower_timeout_now)
    → campaigns t ≡ true
unfolding handlers
handlers-campaigns State.follower t h e c = ground arith
handlers-campaigns State.candidate t h e c = ground arith
handlers-campaigns State.leader t h e c = ground arith
handlers-campaigns State.observer t h e c = ground arith

-- A message of a higher term is taken in that term, any other in the node's own.
abbrev Taken : Raft → Message → Raft × Bool → Type 0
Taken r m p = Advances r p.0 × ((p.0.term ≡ r.term) ⊎ (p.0.term ≡ m.term))

module _ (inner : Raft → Message → Outcome Raft) (advances : InnerAdvances inner) where
  default_handle-Advances :
      (r : Raft) (m : Message)
      → m.term ≤ r.term
      → HasRoom r m
      → Ensures (Advances r) (default_handle inner r m)
  unfolding default_handle
  default_handle-Advances r m t room =
      Ensures-option (handlers r.state m.type) _ _ (λ _. Ensures-ok _ (Advances-refl r))
        λ h e.
          run_handler-Advances inner advances h r m t
            (λ c. room (handlers-campaigns r.state m.type h e (inl c)))
            (λ c. room (handlers-campaigns r.state m.type h e (inr c)))

  on_message_term_not_matched-Taken :
      (r : Raft) (m : Message) → Ensures (Taken r m) (on_message_term_not_matched r m)
  unfolding on_message_term_not_matched
  on_message_term_not_matched-Taken r m =
      Ensures-if ((m.term == 0) || (m.term == r.term)) _ _
        (λ _. Ensures-ok _ (Advances-refl r, inl refl))
        λ _.
          Ensures-if (drop_request_vote_from_high_term_node r m) _ _
            (λ _. Ensures-ok _ (Advances-refl r, inl refl))
            λ _.
              Ensures-if (ltb r.term m.term) _ _
                (λ higher.
                  Ensures-then {Q = λ (s : Raft). Advances r s × (s.term ≡ m.term)} _ _
                    (Ensures-if (is_observer r) _ _
                      (λ _. record {
                        at = λ s e. (
                          (become_observer-Advances r m.term _ (ground arith)).at s e,
                          (become_observer-term r m.term _).at s e,
                        );
                      })
                      (λ _. record {
                        at = λ s e. (
                          (become_follower-Advances r m.term _ (ground arith)).at s e,
                          (become_follower-term r m.term _).at s e,
                        );
                      }))
                    λ s a. Ensures-ok _ (a.0, inr a.1))
                (λ _.
                  Ensures-if (is_leader_message m.type && r.check_quorum) _ _
                    (λ _.
                      Ensures-then _ _ (send-Alike r _)
                        λ s a. Ensures-ok _ (Advances_of_Alike a, inl a.term))
                    (λ _. Ensures-ok _ (Advances-refl r, inl refl)))

  handle_with-Advances :
      (r : Raft) (m : Message)
      → HasRoom r m
      → (campaigns m.type ≡ true → m.term + 1 < 2 ^ 64)
      → Ensures (Advances r) (handle_with inner r m)
  unfolding handle_with
  handle_with-Advances r m room room' =
      Ensures-then (on_message_term_not_matched r m) _ (on_message_term_not_matched-Taken r m)
        λ p t. Ensures-later _ t.0 (
          Ensures-if p.1 _ _ (λ _. Ensures-ok _ (Advances-refl p.0))
            λ _. Ensures-panic_if ((m.term != 0) && (p.0.term != m.term)) _ λ matched.
              default_handle-Advances p.0 m (ground arith) (λ c. bounded p t (room c) (room' c)))
    where
      bounded : (p : Raft × Bool) → Taken r m p → Bounded r → m.term + 1 < 2 ^ 64 → Bounded p.0
      bounded p t a b = omega (arith, t.1)

handle-Advances :
    (n : ℕ) (r : Raft) (m : Message)
    → HasRoom r m
    → (campaigns m.type ≡ true → m.term + 1 < 2 ^ 64)
    → Ensures (Advances r) (handle n r m)
unfolding handle
handle-Advances zero r m room room' = Ensures-panic
handle-Advances (suc n) r m room room' =
    handle_with-Advances (handle n) (λ s k z room2. handle-Advances n s k room2 (λ _. omega arith))
      r m room room'

-- One call of `Handle` that returns, whatever the message: the node's term does not go back, it keeps the vote that
-- it has given in a term, and no commit is undone. The terms are taken to be below 2 ^ 64 - 1 where
-- the message can start a campaign.
pub handle_message-Advances :
    (r r' : Raft) (m : Message)
    → (campaigns m.type ≡ true → (r.term + 1 < 2 ^ 64) × (m.term + 1 < 2 ^ 64))
    → handle_message r m ≡ ok r'
    → Advances r r'
unfolding handle_message
handle_message-Advances r r' m room e =
    (handle-Advances 2 r m (λ c. (room c).0) (λ c. (room c).1)).at r' e

-- One tick of the clock, where it returns, from a term below 2 ^ 64 - 1, whatever messages it makes the
-- node handle: the node's term does not go back, it keeps the vote that it has given in a term, and no
-- commit is undone.
pub tick-Advances : (r r' : Raft) → r.term + 1 < 2 ^ 64 → tick r ≡ ok r' → Advances r r'
unfolding tick
tick-Advances r r' b e =
    (tick_with-Advances (handle 1) (λ s k z room. handle-Advances 1 s k room (λ _. omega arith)) r
        b).at
      r' e
