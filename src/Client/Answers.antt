-- ===== src/Client/Answers.antt =====
-- client/session.go with internal/rsm: the sessions of the nodes never overtake the session of the client.
use dragonboat.Prelude.{
  ℕ, zero, suc, ◌≤◌, ◌≡◌, sym, ◌∙◌, subst, Bool, true, false, none, some, List, [], ◌∷◌, ◌++◌,
  arith, get_elem?, All, ok,
}
use dragonboat.Pb.{Entry}
use dragonboat.Client.{ClientSession, valid_for_proposal}
use dragonboat.Client.Protocol.{Uses, InUse, Uses-InUse, valid-fresh}
use dragonboat.Requests.{proposal_entry}
use dragonboat.Rsm.Sessions.{IsCache}
use dragonboat.Rsm.Managed.Knows.{session_of, Registered}
use dragonboat.Rsm.Managed.Evolves.{Behind, Evolves-Behind}
use dragonboat.Rsm.StateMachine.{StateMachine, Env, NodeCall}
use dragonboat.Rsm.Apply.{handle_commit_rec}
use dragonboat.Rsm.Apply.Change.{IsNext}
use dragonboat.Rsm.Apply.Evolves.{handle_commit_rec-Evolves}
use dragonboat.Rsm.Apply.Fresh.{handle_commit_rec_fresh}

-- A proposal as raft has put it into its log.
abbrev pub logged : Entry → (index term : ℕ) → Entry
logged e index term = record e { index = index; term = term }

-- One of the proposals, as it stands in the log.
abbrev pub IsOneOf : List Entry → Entry → Type 0
IsOneOf es e = (i : ℕ) × (p : Entry) × (get_elem? es i ≡ some p) × (e ≡ logged p e.index e.term)

-- Entries applied one after another. Those of the client `c` are among `es`, in any order and as often as
-- they may come; other entries are any.
pub data Applies {C D : Type 0} (env : Env C D) (c : ℕ) (es : List Entry)
    : StateMachine C D → StateMachine C D → Type 0 where
  here : {s : StateMachine C D} → Applies env c es s s
  next :
      {s t u : StateMachine C D} (ent : Entry) (last : Bool)
      → (ent.client_id ≡ c → IsOneOf es ent)
      → handle_commit_rec env s ent last ≡ ok t
      → Applies env c es t u
      → Applies env c es s u

All-get_elem {ℓ κ} :
    {A : Type ℓ} (P : A → Type κ) (xs : List A) (i : ℕ) (a : A)
    → All P xs
    → get_elem? xs i ≡ some a
    → P a
All-get_elem P [] i a h e = cc
All-get_elem P (x ∷ xs) zero a h e = subst P (cc) h.0
All-get_elem P (x ∷ xs) (suc i) a h e = All-get_elem P xs i a h.1 e

module _ {C D : Type 0} (env : Env C D) (cache : IsCache env.ops) (c : ℕ) where
  Applies-Behind :
      (cs : ClientSession) (es : List Entry) {s u : StateMachine C D}
      → InUse c cs es
      → Applies env c es s u
      → Behind c cs.responded_to (session_of env.ops s.sm c)
      → Behind c cs.responded_to (session_of env.ops u.sm c)
  Applies-Behind cs es i here behind = behind
  Applies-Behind cs es i (next {s} {t} ent last one e more) behind =
      let bound : ent.client_id ≡ c → ent.responded_to ≤ cs.responded_to = λ own.
        let (j, p, found, same) = one own in
        ground (arith, (All-get_elem _ es j p i.earlier found).1) in
      Applies-Behind cs es i more (
        Evolves-Behind ent c cs.responded_to _ _
          ((handle_commit_rec-Evolves env cache c s ent last).at t e) bound behind)

  -- The current request of a client that is registered is answered when it is applied: it is neither
  -- rejected nor ignored.
  pub current_request_answered :
      (cs : ClientSession) (es : List Entry) (key index term : ℕ) (cmd : List ℕ) (last : Bool)
      (s0 s : StateMachine C D)
      → Uses c cs es
      → valid_for_proposal cs cs.cluster_id ≡ ok true
      → session_of env.ops s0.sm c ≡ none
      → Applies env c es s0 s
      → Registered env.ops s.sm c
      → IsNext s (logged (proposal_entry cs key cmd) index term)
      → (v : ℕ) × (s' : StateMachine C D) × (handle_commit_rec env s
            (logged (proposal_entry cs key cmd) index term)
            last
          ≡ ok s')
        × (s'.calls
            ≡ s.calls
              ++ (NodeCall.apply_update
                    (logged (proposal_entry cs key cmd) index term)
                    v
                    false
                    false
                    last
                  ∷ []))
  current_request_answered cs es key index term cmd last s0 s u valid unknown run (t, there) now =
      let i = Uses-InUse c cs es u in
      let (fresh, managed, not_first, not_last) = valid-fresh c cs es u valid in
      let (own, behind) = Applies-Behind cs es i run (λ w h. cc) t there in
      handle_commit_rec_fresh env s (logged (proposal_entry cs key cmd) index term) last t now
        (ground arith) (ground arith) (rw i.own there) (own ∙ sym i.own) (omega arith) fresh
