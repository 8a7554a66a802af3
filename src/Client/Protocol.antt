-- ===== src/Client/Protocol.antt =====
-- client/session.go: a client that registers its session and proposes as the documentation of Session
-- says, and the entries that it proposes.
use dragonboat.Prelude.{
  ℕ, ◌^◌, ◌≤◌, ◌<◌, ◌≡◌, ◌≢◌, true, some, List, [], ◌∷◌, arith, add64, All, ok, ◌>>=◌,
}
use dragonboat.Pb.{Entry, series_id_for_register, series_id_for_unregister}
use dragonboat.Client.{
  ClientSession, new_session, prepare_for_register, prepare_for_propose, proposal_completed,
  valid_for_proposal,
}
use dragonboat.Requests.{proposal_entry}

-- The session of the client `c`, as GetNewSession answers it and the client goes on using it, and what
-- has been proposed from it so far, the newest first.
pub data Uses (c : ℕ) : ClientSession → List Entry → Type 0 where
  register :
      (cluster_id key : ℕ) (rng rng' : List ℕ) (s s1 s2 : ClientSession)
      → new_session cluster_id rng ≡ some (s, rng')
      → s.client_id ≡ c
      → prepare_for_register s ≡ ok s1
      → prepare_for_propose s1 ≡ ok s2
      → Uses c s2 (proposal_entry s1 key [] ∷ [])
  propose :
      {s : ClientSession} {es : List Entry} (key : ℕ) (cmd : List ℕ)
      → valid_for_proposal s s.cluster_id ≡ ok true
      → Uses c s es
      → Uses c s (proposal_entry s key cmd ∷ es)
  complete :
      {s s' : ClientSession} {es : List Entry}
      → proposal_completed s ≡ ok s'
      → Uses c s es
      → Uses c s' es

-- What holds of them: the session asks for one request at a time, behind all that it has acknowledged.
pub record InUse (c : ℕ) (s : ClientSession) (es : List Entry) : Type 0 where
  pub own : s.client_id ≡ c
  pub next : s.series_id ≡ add64 s.responded_to 1
  pub fits : s.responded_to < 2 ^ 64
  pub earlier : All (λ (e : Entry). (e.client_id ≡ c) × (e.responded_to ≤ s.responded_to)) es

All-weaken {ℓ κ} :
    {A : Type ℓ} {P Q : A → Type κ} → ((a : A) → P a → Q a) → (xs : List A) → All P xs → All Q xs
All-weaken f [] h = h
All-weaken f (x ∷ xs) h = (f x h.0, All-weaken f xs h.1)

pub Uses-InUse : (c : ℕ) (s : ClientSession) (es : List Entry) → Uses c s es → InUse c s es
unfolding new_session prepare_for_register prepare_for_propose proposal_completed ◌>>=◌
Uses-InUse c t es (register cluster_id key rng rng' s s1 s2 drawn own e e') = record {
  own = ground arith;
  next = ground arith;
  fits = ground arith;
  earlier = ground arith;
}
Uses-InUse c s es (propose key cmd valid u) =
    let i = Uses-InUse c s _ u in
    record {
      own = i.own;
      next = i.next;
      fits = i.fits;
      earlier = ((i.own, omega arith), i.earlier);
    }
Uses-InUse c s' es (complete {s} e u) =
    let i = Uses-InUse c s es u in
    let grows : s.responded_to ≤ s'.responded_to = ground (arith, i.next, i.fits) in
    record {
      own = ground (arith, i.own);
      next = ground (arith, i.next);
      fits = ground (arith, i.next);
      earlier = All-weaken (λ p h. (h.0, omega arith)) es i.earlier;
    }

-- A proposal that is valid is for a request that the client has not acknowledged.
pub valid-fresh :
    (c : ℕ) (s : ClientSession) (es : List Entry)
    → Uses c s es
    → valid_for_proposal s s.cluster_id ≡ ok true
    → (s.responded_to < s.series_id)
      × (s.client_id ≢ 0)
      × (s.series_id ≢ series_id_for_register)
      × (s.series_id ≢ series_id_for_unregister)
unfolding valid_for_proposal
valid-fresh c s es u valid =
    let i = Uses-InUse c s es u in
    (
      ground (arith, i.next, i.fits),
      (λ (e : s.client_id ≡ 0). ground arith),
      (λ (e : s.series_id ≡ series_id_for_register). ground arith),
      (λ (e : s.series_id ≡ series_id_for_unregister). ground arith),
    )
