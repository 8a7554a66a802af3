-- ===== src/Client.antt =====
-- client/session.go: the session that a client keeps of its own, from which its proposals are made.
-- The random source is the list of numbers that it yields.
pub mod Protocol
pub mod Answers
pub mod Told
mod Tests
use dragonboat.Prelude.{
  ℕ, ◌+◌, Bool, true, false, not, ◌&&◌, ◌||◌, Option, none, some, List, [], ◌∷◌, ltb, ◌==◌,
  if◌then◌else◌, add64, Outcome, ok, panic, ◌>>=◌, ◌>>◌, panic_if,
}
use dragonboat.Pb.{series_id_for_register, series_id_for_unregister}

pub record ClientSession : Type 0 where
  pub cluster_id : ℕ
  pub client_id : ℕ
  pub series_id : ℕ
  pub responded_to : ℕ

abbrev pub not_session_managed_client_id : ℕ
not_session_managed_client_id = 0

abbrev pub no_op_series_id : ℕ
no_op_series_id = 0

abbrev pub series_id_first_proposal : ℕ
series_id_first_proposal = 1

-- The loop of `NewSession` and `NewNoOPSession`: the first usable client id, with what the source yields
-- after it; `none` while the source yields 0 only.
unfoldable pub draw_client_id : List ℕ → Option (ℕ × List ℕ)
draw_client_id [] = none
draw_client_id (cid ∷ rng) =
    let rest = draw_client_id rng in
    if not (cid == not_session_managed_client_id) then some (cid, rng) else rest

unfoldable pub new_session : ℕ → List ℕ → Option (ClientSession × List ℕ)
new_session cluster_id rng = elim (draw_client_id rng) [
  | none ↦ none
  | some (cid, rng') ↦ some (
    record {
      cluster_id = cluster_id;
      client_id = cid;
      series_id = no_op_series_id + 1;
      responded_to = 0;
    },
    rng',
  )
]

unfoldable pub new_no_op_session : ℕ → List ℕ → Option (ClientSession × List ℕ)
new_no_op_session cluster_id rng = elim (draw_client_id rng) [
  | none ↦ none
  | some (cid, rng') ↦ some (
    record {
      cluster_id = cluster_id;
      client_id = cid;
      series_id = no_op_series_id;
      responded_to = 0;
    },
    rng',
  )
]

unfoldable pub cluster_id_must_match : ClientSession → ℕ → Outcome ClientSession
cluster_id_must_match cs cluster_id = if not (cs.cluster_id == cluster_id) then panic else ok cs

-- `assertRegularSession` fails on these.
abbrev pub is_irregular : ClientSession → Bool
is_irregular cs =
    (cs.client_id == not_session_managed_client_id) || (cs.series_id == no_op_series_id)

unfoldable pub prepare_for_register : ClientSession → Outcome ClientSession
prepare_for_register cs = do
  panic_if (is_irregular cs)
  ok (record cs { series_id = series_id_for_register })

unfoldable pub prepare_for_unregister : ClientSession → Outcome ClientSession
prepare_for_unregister cs = do
  panic_if (is_irregular cs)
  ok (record cs { series_id = series_id_for_unregister })

unfoldable pub prepare_for_propose : ClientSession → Outcome ClientSession
prepare_for_propose cs = do
  panic_if (is_irregular cs)
  ok (record cs { series_id = series_id_first_proposal })

unfoldable pub proposal_completed : ClientSession → Outcome ClientSession
proposal_completed cs = do
  panic_if (is_irregular cs)
  if cs.series_id == add64 cs.responded_to 1
      then ok (record cs { responded_to = cs.series_id; series_id = add64 cs.series_id 1 })
      else panic

unfoldable pub valid_for_proposal : ClientSession → ℕ → Outcome Bool
valid_for_proposal cs cluster_id =
    if (cs.series_id == no_op_series_id) && (cs.client_id == not_session_managed_client_id)
    then ok false
    else if not (cs.cluster_id == cluster_id)
    then ok false
    else if cs.client_id == not_session_managed_client_id
    then ok false
    else if (cs.series_id == series_id_for_register) || (cs.series_id == series_id_for_unregister)
    then ok false
    else if ltb cs.series_id cs.responded_to
    then panic
    else ok true

unfoldable pub valid_for_session_op : ClientSession → ℕ → Bool
valid_for_session_op cs cluster_id =
    if not (cs.cluster_id == cluster_id)
    then false
    else if (cs.client_id == not_session_managed_client_id) || (cs.series_id == no_op_series_id)
    then false
    else if (cs.series_id == series_id_for_register) || (cs.series_id == series_id_for_unregister)
    then true
    else false
