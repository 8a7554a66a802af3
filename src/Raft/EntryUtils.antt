-- ===== src/Raft/EntryUtils.antt =====
-- internal/raft/entryutils.go
use dragonboat.Prelude.{
  ℕ, ◌+◌, Bool, true, false, List, [], ◌∷◌, Option, none, some, Outcome, ok, panic_if, ◌>>◌, ◌>>=◌,
  ltb, ◌!=◌, if◌then◌else◌, last?, add64,
}
use dragonboat.Pb.{Entry, MessageType, is_config_change, size_upper_limit}

unfoldable pub min : ℕ → ℕ → ℕ
min x y = if ltb y x then y else x

unfoldable pub max : ℕ → ℕ → ℕ
max x y = if ltb y x then x else y

unfoldable pub count_config_change : List Entry → ℕ
count_config_change [] = 0
count_config_change (e ∷ es) = (if is_config_change e then 1 else 0) + count_config_change es

-- The two tests of `checkEntriesToAppend`, on the last entry and the first new one.
abbrev pub check_joint : Option Entry → List Entry → Outcome (Unit {0})
check_joint none _ = ok tt
check_joint (some l) [] = ok tt
check_joint (some l) (f ∷ _) = do
  panic_if (add64 l.index 1 != f.index)
  panic_if (ltb f.term l.term)

unfoldable pub check_entries_to_append : List Entry → List Entry → Outcome (Unit {0})
unfolding ◌>>=◌
check_entries_to_append ents to_append = check_joint (last? ents) to_append

-- The loop of `limitSize`: `total` is the size of the entries already kept.
unfoldable pub limit_rest : ℕ → List Entry → ℕ → List Entry
limit_rest total [] limit = []
limit_rest total (e ∷ es) limit =
    let total' = total + size_upper_limit e in
    let rest = limit_rest total' es limit in if ltb limit total' then [] else e ∷ rest

unfoldable pub limit_size : List Entry → ℕ → List Entry
unfolding limit_rest
limit_size [] limit = []
limit_size (e ∷ es) limit = e ∷ limit_rest (size_upper_limit e) es limit

unfoldable pub is_local_message_type : MessageType → Bool
is_local_message_type MessageType.election = true
is_local_message_type MessageType.leader_heartbeat = true
is_local_message_type MessageType.unreachable = true
is_local_message_type MessageType.snapshot_status = true
is_local_message_type MessageType.check_quorum = true
is_local_message_type MessageType.local_tick = true
is_local_message_type MessageType.batched_read_index = true
is_local_message_type _ = false

unfoldable pub is_response_message_type : MessageType → Bool
is_response_message_type MessageType.replicate_resp = true
is_response_message_type MessageType.request_vote_resp = true
is_response_message_type MessageType.heartbeat_resp = true
is_response_message_type MessageType.read_index_resp = true
is_response_message_type MessageType.unreachable = true
is_response_message_type MessageType.snapshot_status = true
is_response_message_type MessageType.leader_transfer = true
is_response_message_type _ = false
