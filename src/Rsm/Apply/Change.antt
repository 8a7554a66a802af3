-- ===== src/Rsm/Apply/Change.antt =====
-- internal/rsm/statemachine.go: the entries that change the membership.
use dragonboat.Prelude.{
  ◌+◌, ◌^◌, ◌≤◌, ◌<◌, ◌≡◌, refl, sym, inl, inr, Bool, true, false, some, [], ◌∷◌, ◌++◌, arith,
  Bool-cases, ok, ◌>>=◌,
}
use dragonboat.Pb.{Entry, ConfigChange}
use dragonboat.Rsm.Members.{accepts}
use dragonboat.Rsm.Members.Changes.{IsValid, Applied, apply_config_change_lem}
use dragonboat.Rsm.StateMachine.{StateMachine, Env, NodeCall, call_node, update_last_applied}
use dragonboat.Rsm.Apply.{handle_config_change, has_empty_address}

-- The entry is the next one, of no lower term.
pub record IsNext {C D : Type 0} (s : StateMachine C D) (ent : Entry) : Type 0 where
  pub follows : ent.index ≡ s.last_applied + 1
  pub fits : ent.index < 2 ^ 64
  pub has_term : 0 < ent.term
  pub rises : s.last_applied_term ≤ ent.term

module _ {C D : Type 0} where
  pub update_last_applied-IsNext :
      (s : StateMachine C D) (ent : Entry)
      → IsNext s ent
      → update_last_applied s ent.index ent.term
        ≡ ok (record s { last_applied = ent.index; last_applied_term = ent.term })
  unfolding update_last_applied ◌>>=◌
  update_last_applied-IsNext s ent next = ground arith

module _ {C D : Type 0} (env : Env C D) (s : StateMachine C D) (ent : Entry)
    (cc : ConfigChange) where
  -- The next entry, when it holds a change with an address, is applied exactly if it is up to date, adds
  -- no removed node, no address that is there and no member as an observer. Then the valid
  -- membership stays valid: no node is both a member and an observer and a removed node is neither, the
  -- node of the change is where the change puts it, the others are where they were, no removed node
  -- comes back, and raft is told of the change. If not, nothing but the last applied index and its term
  -- changes.
  pub handle_config_change_lem :
      IsValid s.members
      → IsNext s ent
      → env.unmarshal ent.cmd ≡ some cc
      → has_empty_address cc ≡ false
      → (r : Bool × StateMachine C D) × (handle_config_change env s ent ≡ ok r)
        × (r.1.last_applied ≡ ent.index)
        × (r.0 ≡ accepts s.ordered s.members cc)
        × (r.0 ≡ false → r.1 ≡ record s { last_applied = ent.index; last_applied_term = ent.term })
        × (r.0 ≡ true
            → Applied s.members cc ent.index r.1.members
              × (r.1.calls ≡ s.calls ++ (NodeCall.apply_config_change cc ∷ [])))
  unfolding handle_config_change ◌>>=◌ call_node
  handle_config_change_lem v next decoded named =
      let moved = update_last_applied-IsNext s ent next in
      let s1 = record s { last_applied = ent.index; last_applied_term = ent.term } in
      elim (Bool-cases (accepts s.ordered s.members cc)) [
        | inl accepted ↦
            let (m, done, applied) =
              apply_config_change_lem s.members cc ent.index v s.ordered accepted in
            (
              (true, call_node (record s1 { members = m }) (NodeCall.apply_config_change cc)),
              ground arith,
              refl,
              sym accepted,
              λ h. ground arith,
              λ h. (applied, refl),
            )
        | inr rejected ↦
            ((false, s1), ground arith, refl, sym rejected, λ h. refl, λ h. ground arith)
      ]
