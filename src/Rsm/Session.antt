-- ===== src/Rsm/Session.antt =====
-- internal/rsm/session.go: what a node remembers of one client, to answer a retried proposal without
-- applying it again.
pub mod Answers
use dragonboat.Prelude.{
  ℕ, Bool, Option, none, some, [], ◌∷◌, leb, ◌==◌, if◌then◌else◌, add64, Map, get, put, delete,
  Outcome, ok, panic,
}

pub record Session : Type 0 where
  pub client_id : ℕ
  pub responded_up_to : ℕ
  pub history : Map ℕ

unfoldable pub new_session : ℕ → Session
new_session id = record { client_id = id; responded_up_to = 0; history = [] }

unfoldable pub get_response : Session → ℕ → Option ℕ
get_response s id = get s.history id

unfoldable pub add_response : Session → ℕ → ℕ → Outcome Session
add_response s id resp = elim (get s.history id) [
  | none ↦ ok (record s { history = put s.history id resp })
  | some v ↦ panic
]

-- The loop of `clearTo`: the responses that stay.
unfoldable pub responses_above : Map ℕ → ℕ → Map ℕ
responses_above [] to = []
responses_above ((k, v) ∷ m) to =
    let rest = responses_above m to in if leb k to then rest else (k, v) ∷ rest

unfoldable pub clear_to : Session → ℕ → Session
clear_to s to =
    if leb to s.responded_up_to
    then s
    else if to == add64 s.responded_up_to 1
    then record s { history = delete s.history to; responded_up_to = to }
    else record s { responded_up_to = to; history = responses_above s.history to }

unfoldable pub has_responded : Session → ℕ → Bool
has_responded s id = leb id s.responded_up_to
