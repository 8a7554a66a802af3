-- ===== src/Rsm/Managed/Evolves.antt =====
-- internal/rsm/managedstatemachine.go: what an entry can do to the session of a client.
use dragonboat.Prelude.{
  ℕ, ◌≤◌, ◌≡◌, sym, ap, ◌∙◌, subst, inl, inr, Option, none, some, arith, ◌==◌, Bool-cases,
  Option-cases, ok, ◌>>=◌,
}
use dragonboat.Pb.{Entry}
use dragonboat.Rsm.Session.{Session, new_session, add_response, clear_to}
use dragonboat.Rsm.Session.Answers.{
  Answered, clear_to-client_id, clear_to-Answered, clear_to-responded, add_response_lem,
  add_response-Answered, add_response-responded,
}
use dragonboat.Rsm.Sessions.{CacheOps, IsCache, get_session, add_session, del_session}
use dragonboat.Rsm.Managed.{
  DataStore, NativeStateMachine, client_registered, register_client_id, unregister_client_id,
  assign_session, update_responded_to, update,
}
use dragonboat.Rsm.Managed.Knows.{session_of, update_lem, update_responded_to_lem}

-- From the first session of the client `c` to the second by one entry.
pub data Evolves (ent : Entry) (c : ℕ) (a b : Option Session) : Type 0 where
  kept : b ≡ a → Evolves ent c a b
  gone : b ≡ none → Evolves ent c a b
  registered : ent.client_id ≡ c → a ≡ none → b ≡ some (new_session c) → Evolves ent c a b
  cleared :
      (s : Session)
      → ent.client_id ≡ c
      → a ≡ some s
      → b ≡ some (clear_to s ent.responded_to)
      → Evolves ent c a b
  answered :
      (s s' : Session) (v : ℕ)
      → ent.client_id ≡ c
      → a ≡ some s
      → add_response (clear_to s ent.responded_to) ent.series_id v ≡ ok s'
      → b ≡ some s'
      → Evolves ent c a b

-- A client whose session is there before and after keeps its answers.
pub Evolves-Answered :
    (ent : Entry) (c id result : ℕ) (a b : Option Session) (s t : Session)
    → Evolves ent c a b
    → a ≡ some s
    → b ≡ some t
    → Answered s id result
    → Answered t id result
Evolves-Answered ent c id result a b s t (kept e) f g known =
    subst (λ u. Answered u id result) (cc) known
Evolves-Answered ent c id result a b s t (gone e) f g known = cc
Evolves-Answered ent c id result a b s t (registered same e e') f g known = cc
Evolves-Answered ent c id result a b s t (cleared u same e e') f g known =
    subst (λ w. Answered w id result) (cc)
      (clear_to-Answered u ent.responded_to id result
        (subst (λ w. Answered w id result) (cc) known))
Evolves-Answered ent c id result a b s t (answered u u' v same e added e') f g known =
    subst (λ w. Answered w id result) (cc)
      (add_response-Answered (clear_to u ent.responded_to) u' ent.series_id v id result added (
        clear_to-Answered u ent.responded_to id result
          (subst (λ w. Answered w id result) (cc) known)))

-- The session, if there is one, is the client's and takes nothing above `n` for acknowledged.
abbrev pub Behind : (c n : ℕ) → Option Session → Type 0
Behind c n o = (s : Session) → o ≡ some s → (s.client_id ≡ c) × (s.responded_up_to ≤ n)

pub Evolves-Behind :
    (ent : Entry) (c n : ℕ) (a b : Option Session)
    → Evolves ent c a b
    → (ent.client_id ≡ c → ent.responded_to ≤ n)
    → Behind c n a
    → Behind c n b
unfolding new_session
Evolves-Behind ent c n a b (kept e) bound behind s f = behind s (cc)
Evolves-Behind ent c n a b (gone e) bound behind s f = cc
Evolves-Behind ent c n a b (registered same e e') bound behind s f = (ground arith, ground arith)
Evolves-Behind ent c n a b (cleared u same e e') bound behind s f =
    let to = ent.responded_to in
    let (own, below) = behind u e in
    (
      ground (arith, own, clear_to-client_id u to),
      ground (arith, clear_to-responded u to n below (bound same)),
    )
Evolves-Behind ent c n a b (answered u u' v same e added e') bound behind s f =
    let u1 = clear_to u ent.responded_to in
    let (own, below) = behind u e in
    (
      ground (
        arith,
        own,
        clear_to-client_id u ent.responded_to,
        (add_response_lem u1 u' ent.series_id v added).0,
      ),
      ground (
        arith,
        clear_to-responded u ent.responded_to n below (bound same),
        add_response-responded u1 u' ent.series_id v added,
      ),
    )

module _ {C D : Type 0} (ops : CacheOps C) (store : DataStore D) (cache : IsCache ops) (ent : Entry)
    (c : ℕ) where
  open cache use {get-get, get-del, get-assign, get-add}

  abbrev pub EvolvesIn : NativeStateMachine C D → NativeStateMachine C D → Type 0
  EvolvesIn ds ds' = Evolves ent c (session_of ops ds c) (session_of ops ds' c)

  pub register-Evolves :
      (ds ds' : NativeStateMachine C D) (r : ℕ)
      → register_client_id ops store ds ent.client_id ≡ ok (r, ds')
      → EvolvesIn ds ds'
  unfolding register_client_id client_registered add_session get_session ◌>>=◌
  register-Evolves ds ds' r h =
      let was = ds.sessions.sessions in
      let k = ent.client_id in
      elim (Option-cases (session_of ops ds' c)) [
        | inl e ↦ gone e
        | inr (t, e) ↦ elim (Option-cases (ops.get was k).0) [
          | inl new ↦ elim (get-add (ops.get was k).1 k c (new_session k) t (ground arith)) [
            | inl (same, made) ↦ registered same (rw (sym same) new) (cc)
            | inr found ↦ kept (e ∙ sym found ∙ get-get was k c)
          ]
          | inr (u, old) ↦ kept (ground (arith, get-get was k c))
        ]
      ]

  pub unregister-Evolves :
      (ds ds' : NativeStateMachine C D) (r : ℕ)
      → unregister_client_id ops store ds ent.client_id ≡ ok (r, ds')
      → EvolvesIn ds ds'
  unfolding unregister_client_id client_registered del_session get_session ◌>>=◌
  unregister-Evolves ds ds' r h =
      let was = ds.sessions.sessions in
      let k = ent.client_id in
      elim (Option-cases (ops.get was k).0) [
        | inl none_there ↦ kept (ground (arith, get-get was k c))
        | inr (u, old) ↦ elim (Bool-cases (k == c)) [
          | inl same ↦ gone (ground (arith, get-get was k c, get-del (ops.get was k).1 k c))
          | inr other ↦ kept (ground (arith, get-get was k c, get-del (ops.get was k).1 k c))
        ]
      ]

  pub update_responded_to-Evolves :
      (ds : NativeStateMachine C D) (s : Session)
      → s.client_id ≡ ent.client_id
      → session_of ops ds s.client_id ≡ some s
      → EvolvesIn ds (update_responded_to ops store ds s ent.responded_to).1
  unfolding update_responded_to assign_session
  update_responded_to-Evolves ds s id there =
      let s' = clear_to s ent.responded_to in
      let own = clear_to-client_id s ent.responded_to in
      let sees = get-assign ds.sessions.sessions s'.client_id c s' s (rw own there) in
      elim (Bool-cases (s'.client_id == c)) [
        | inl same ↦ cleared s (ground (arith, own)) (ground (arith, own)) (ground (arith, sees))
        | inr other ↦ kept (ground (arith, sees))
      ]

  pub update-Evolves :
      (ds ds' : NativeStateMachine C D) (s : Session) (r : ℕ)
      → s.client_id ≡ ent.client_id
      → session_of ops ds s.client_id ≡ some s
      → update ops store
          (update_responded_to ops store ds s ent.responded_to).1
          (some (clear_to s ent.responded_to))
          ent.series_id
          ent.cmd
        ≡ ok (r, ds')
      → EvolvesIn ds ds'
  unfolding update_responded_to assign_session
  update-Evolves ds ds' s r id there h =
      let s1 = clear_to s ent.responded_to in
      let ds1 = (update_responded_to ops store ds s ent.responded_to).1 in
      let own = clear_to-client_id s ent.responded_to in
      let now = update_responded_to_lem ops store cache ds s ent.responded_to there in
      let (s', added, same) = update_lem ops store cache ds1 ds' s1 ent.series_id r ent.cmd h in
      let own' = (add_response_lem s1 s' ent.series_id r added).0 in
      let first = get-assign ds.sessions.sessions s1.client_id c s1 s (rw own there) in
      let sees = get-assign ds1.sessions.sessions s'.client_id c s' s1 (rw own' now) in
      elim (Bool-cases (s'.client_id == c)) [
        | inl here ↦
            answered s s' r (ground arith) (ground arith) added
              (ap (λ d. session_of ops d c) same ∙ ground arith)
        | inr other ↦ kept (ap (λ d. session_of ops d c) same ∙ ground arith)
      ]
