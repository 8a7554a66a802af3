-- ===== src/Rsm/Session/Answers.antt =====
-- internal/rsm/session.go: what a session goes on knowing of a request that has been answered.
use dragonboat.Prelude.{
  ℕ, ◌≤◌, ◌≡◌, ◌⊎◌, inl, inr, true, none, some, [], ◌∷◌, arith, leb, if◌then◌else◌, Map, get,
  get-put, get-delete, ok,
}
use dragonboat.Rsm.Session.{
  Session, get_response, add_response, responses_above, clear_to, has_responded,
}

-- The client has got the result of a request, or the session has it at hand.
abbrev pub Answered : Session → (id result : ℕ) → Type 0
Answered s id result = (has_responded s id ≡ true) ⊎ (get_response s id ≡ some result)

get-responses_above :
    (m : Map ℕ) (to k : ℕ) → get (responses_above m to) k ≡ (if leb k to then none else get m k)
unfolding responses_above
get-responses_above [] to k = ground arith
get-responses_above ((i, w) ∷ m) to k = ground (arith, get-responses_above m to k)

pub clear_to-client_id : (s : Session) (to : ℕ) → (clear_to s to).client_id ≡ s.client_id
unfolding clear_to
clear_to-client_id s to = ground arith

pub clear_to-Answered :
    (s : Session) (to id result : ℕ) → Answered s id result → Answered (clear_to s to) id result
unfolding clear_to has_responded get_response
clear_to-Answered s to id result (inl h) = ground arith
clear_to-Answered s to id result (inr h) =
    ground (arith, get-delete s.history to id, get-responses_above s.history to id)

-- A response that is added is known, and all others stay.
pub add_response_lem :
    (s s' : Session) (id result : ℕ)
    → add_response s id result ≡ ok s'
    → (s'.client_id ≡ s.client_id) × (get_response s' id ≡ some result)
unfolding add_response get_response
add_response_lem s s' id result h = ground (arith, get-put s.history id id result)

pub add_response-Answered :
    (s s' : Session) (id result k old : ℕ)
    → add_response s id result ≡ ok s'
    → Answered s k old
    → Answered s' k old
unfolding add_response get_response has_responded
add_response-Answered s s' id result k old h (inl a) = ground arith
add_response-Answered s s' id result k old h (inr a) = ground (arith, get-put s.history id k result)

pub clear_to-responded :
    (s : Session) (to n : ℕ) → s.responded_up_to ≤ n → to ≤ n → (clear_to s to).responded_up_to ≤ n
unfolding clear_to
clear_to-responded s to n h k = ground arith

pub add_response-responded :
    (s s' : Session) (id result : ℕ)
    → add_response s id result ≡ ok s'
    → s'.responded_up_to ≡ s.responded_up_to
unfolding add_response
add_response-responded s s' id result h = ground arith
