-- ===== src/Raft/Replication.antt =====
-- internal/raft/raft.go: how a leader appends and commits.
-- `sort.Slice` on numbers is modelled as insertion sort.
pub mod Quorum
use dragonboat.Prelude.{
  ℕ, ◌-◌, Bool, none, some, List, [], ◌∷◌, ltb, leb, if◌then◌else◌, add64, length, get_elem?, Map,
  get, put, Outcome, ok, panic, ◌>>=◌, ◌>>◌,
}
use dragonboat.Pb.{Entry}
use dragonboat.Raft.Remote
use dragonboat.Raft.Remote.{Remote}
use dragonboat.Raft.EntryLog
use dragonboat.Raft.Node.{Raft, quorum, is_single_node_quorum}

unfoldable pub insert_sorted : ℕ → List ℕ → List ℕ
insert_sorted x [] = x ∷ []
insert_sorted x (y ∷ ys) = if leb x y then x ∷ y ∷ ys else y ∷ insert_sorted x ys

unfoldable pub sort_slice : List ℕ → List ℕ
sort_slice [] = []
sort_slice (x ∷ xs) = insert_sorted x (sort_slice xs)

-- One swap of the unrolled bubble sort, on the first two of three and on the last two.
abbrev pub swap_first : ℕ × ℕ × ℕ → ℕ × ℕ × ℕ
swap_first (a, b, c) = if ltb b a then (b, a, c) else (a, b, c)

abbrev pub swap_last : ℕ × ℕ × ℕ → ℕ × ℕ × ℕ
swap_last (a, b, c) = if ltb c b then (a, c, b) else (a, b, c)

unfoldable pub bubble_sort : ℕ → ℕ → ℕ → List ℕ
bubble_sort a b c = let (x, y, z) = swap_first (swap_last (swap_first (a, b, c))) in x ∷ y ∷ z ∷ []

unfoldable pub sort_match_values : List ℕ → List ℕ
sort_match_values (a ∷ b ∷ c ∷ []) = bubble_sort a b c
sort_match_values matched = sort_slice matched

abbrev pub match_values : Map Remote → List ℕ
match_values [] = []
match_values ((id, rp) ∷ m) = rp.match ∷ match_values m

-- The index that the remotes' `match` values let the leader commit.
unfoldable pub commit_candidate : Raft → Outcome ℕ
commit_candidate r =
    let sorted = sort_match_values (match_values r.remotes) in
    let n = length r.remotes in
    if ltb n (quorum r)
    then panic
    else elim (get_elem? sorted (n - quorum r)) [ some q ↦ ok q | none ↦ panic ]

unfoldable pub try_commit : Raft → Outcome (Raft × Bool)
try_commit r = do
  q ← commit_candidate r
  (log, done) ← EntryLog.try_commit r.log q r.term
  ok (record r { matched = sort_match_values (match_values r.remotes); log = log }, done)

-- The loop of `appendEntries`: new entries take the node's term and the indices from `index` on.
abbrev pub stamp : ℕ → ℕ → List Entry → List Entry
stamp term index [] = []
stamp term index (e ∷ es) = record e { term = term; index = index } ∷ stamp term (add64 index 1) es

unfoldable pub append_entries : Raft → List Entry → Outcome Raft
append_entries r entries = do
  let last = EntryLog.last_index r.log
  log ← EntryLog.append r.log (stamp r.term (add64 last 1) entries)
  let r' : Raft = record r { log = log }
  elim (get r'.remotes r'.node_id) [
    | none ↦ panic
    | some rp ↦ do
      let (rp', _) = Remote.try_update rp (EntryLog.last_index log)
      let r'' : Raft = record r' { remotes = put r'.remotes r'.node_id rp' }
      if is_single_node_quorum r'' then (do (r3, _) ← try_commit r''; ok r3) else ok r''
  ]
