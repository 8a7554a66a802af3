-- ===== src/Raft/EntryLog.antt =====
-- internal/raft/logentry.go: the raft log, in memory on top of the persistent log.
-- The persistent log is the interface `ILogDB`: a record of what it answers. Its implementation for
-- a raft node is internal/logdb/logreader.go.
-- `Commit` has what the operations do to the commit index, `Fetch` what they read.
pub mod Commit
pub mod Fetch
use dragonboat.Prelude.{
  ℕ, ◌*◌, Bool, true, false, ◌&&◌, ◌||◌, Option, none, some, List, [], ◌∷◌, ◌++◌, ltb, leb, ◌==◌,
  ◌!=◌, if◌then◌else◌, add64, sub64, length, drop, Outcome, ok, panic, ◌>>=◌, ◌>>◌, panic_if,
}
use dragonboat.Pb.{Entry, Snapshot, UpdateCommit, State, Membership}
use dragonboat.Raft.EntryUtils.{min, max, check_entries_to_append, limit_size}
use dragonboat.Raft.InMemory
use dragonboat.Raft.InMemory.{InMemory, new_in_memory}

pub data LogError : Type 0 where
  compacted unavailable snapshot_out_of_date other : LogError

-- A value, or the error that is returned in its place.
pub data Fetched {ℓ} (A : Type ℓ) : Type ℓ where
  fetched : A → Fetched A
  failed : LogError → Fetched A

-- The read part of the interface; the operations that change the persistent log are called from
-- outside the raft package.
pub record LogDb : Type 0 where
  pub get_range : ℕ × ℕ
  pub node_state : State × Membership
  pub term : ℕ → Fetched ℕ
  pub entries : ℕ → ℕ → ℕ → Fetched (List Entry)
  pub snapshot : Snapshot

pub record EntryLog : Type 0 where
  pub logdb : LogDb
  pub inmem : InMemory
  pub committed : ℕ
  pub applied : ℕ

-- maxEntriesToApplySize
abbrev pub max_entries_to_apply_size : ℕ
max_entries_to_apply_size = 32 * 1024 * 1024 * 2

abbrev pub new_entry_log : LogDb → EntryLog
new_entry_log logdb = record {
  logdb = logdb;
  inmem = new_in_memory logdb.get_range.1;
  committed = sub64 logdb.get_range.0 1;
  applied = sub64 logdb.get_range.0 1;
}

unfoldable pub first_index : EntryLog → ℕ
first_index l = elim (InMemory.get_snapshot_index l.inmem) [
  | some index ↦ add64 index 1
  | none ↦ l.logdb.get_range.0
]

unfoldable pub last_index : EntryLog → ℕ
last_index l = elim (InMemory.get_last_index l.inmem) [
  | some index ↦ index
  | none ↦ l.logdb.get_range.1
]

abbrev pub term_entry_range : EntryLog → ℕ × ℕ
term_entry_range l = (sub64 (first_index l) 1, last_index l)

unfoldable pub entry_range : EntryLog → Option (ℕ × ℕ)
entry_range l =
    let none_in_memory : Bool = elim l.inmem.entries [ [] ↦ true | _ ∷ _ ↦ false ] in
    let range : Option (ℕ × ℕ) = some (first_index l, last_index l) in
    elim l.inmem.snapshot [ none ↦ range | some _ ↦ if none_in_memory then none else range ]

-- The answer of the persistent log to `Term`: an error of another kind panics.
abbrev pub logdb_term : Fetched ℕ → Outcome (Fetched ℕ)
logdb_term (fetched t) = ok (fetched t)
logdb_term (failed LogError.compacted) = ok (failed LogError.compacted)
logdb_term (failed LogError.unavailable) = ok (failed LogError.unavailable)
logdb_term (failed _) = panic

unfoldable pub term : EntryLog → ℕ → Outcome (Fetched ℕ)
unfolding ◌>>=◌
term l index =
    let (first, last) = term_entry_range l in
    if ltb index first || ltb last index then ok (fetched 0) else do
      known ← InMemory.get_term l.inmem index
      elim known [ some t ↦ ok (fetched t) | none ↦ logdb_term (l.logdb.term index) ]

abbrev pub must {ℓ} : {A : Type ℓ} → Fetched A → Outcome A
must (fetched a) = ok a
must (failed _) = panic

unfoldable pub last_term : EntryLog → Outcome ℕ
unfolding ◌>>=◌
last_term l = do t ← term l (last_index l); must t

-- `none` is the nil error.
unfoldable pub check_bound : EntryLog → ℕ → ℕ → Outcome (Option LogError)
check_bound l low high = if ltb high low then panic else elim (entry_range l) [
  | none ↦ ok (some LogError.compacted)
  | some (first, last) ↦
      if ltb low first
      then ok (some LogError.compacted)
      else if ltb (add64 last 1) high
      then panic
      else ok none
]

-- The entries, and whether all that was asked for below the marker is there.
abbrev pub from_logdb : Fetched (List Entry) → ℕ → Outcome (Fetched (List Entry × Bool))
from_logdb (fetched ents) wanted =
    if ltb wanted (length ents) then panic else ok (fetched (ents, length ents == wanted))
from_logdb (failed LogError.compacted) wanted = ok (failed LogError.compacted)
from_logdb (failed _) wanted = panic

unfoldable pub get_entries_from_logdb : EntryLog → ℕ → ℕ → ℕ → Outcome (Fetched (List Entry × Bool))
unfolding min
get_entries_from_logdb l low high max_size =
    if leb l.inmem.marker_index low
    then ok (fetched ([], true))
    else let upper_bound : ℕ = min high l.inmem.marker_index in
      from_logdb (l.logdb.entries low upper_bound max_size) (sub64 upper_bound low)

unfoldable pub get_entries_from_inmem : EntryLog → List Entry → ℕ → ℕ → Outcome (List Entry)
unfolding max
get_entries_from_inmem l ents low high = if leb high l.inmem.marker_index then ok ents else do
  inmem ← InMemory.get_entries l.inmem (max low l.inmem.marker_index) high
  check_entries_to_append ents inmem
  ok (ents ++ inmem)

-- The last steps of `getEntries`, on what came from the persistent log.
abbrev pub with_inmem :
    EntryLog → ℕ → ℕ → ℕ → Fetched (List Entry × Bool) → Outcome (Fetched (List Entry))
with_inmem l low high max_size (failed err) = ok (failed err)
with_inmem l low high max_size (fetched (ents, false)) = ok (fetched ents)
with_inmem l low high max_size (fetched (ents, true)) = do
  all ← get_entries_from_inmem l ents low high
  ok (fetched (limit_size all max_size))

unfoldable pub get_entries : EntryLog → ℕ → ℕ → ℕ → Outcome (Fetched (List Entry))
get_entries l low high max_size = do
  err ← check_bound l low high
  elim err [
    | some e ↦ ok (failed e)
    | none ↦ if low == high then ok (fetched []) else do
      found ← get_entries_from_logdb l low high max_size
      with_inmem l low high max_size found
  ]

unfoldable pub entries : EntryLog → ℕ → ℕ → Outcome (Fetched (List Entry))
entries l start max_size =
    if ltb (last_index l) start
    then ok (fetched [])
    else get_entries l start (add64 (last_index l) 1) max_size

unfoldable pub snapshot : EntryLog → Snapshot
snapshot l = elim l.inmem.snapshot [ some ss ↦ ss | none ↦ l.logdb.snapshot ]

unfoldable pub first_not_applied_index : EntryLog → ℕ
unfolding max
first_not_applied_index l = max (add64 l.applied 1) (first_index l)

abbrev pub to_apply_index_limit : EntryLog → ℕ
to_apply_index_limit l = add64 l.committed 1

unfoldable pub has_entries_to_apply : EntryLog → Bool
unfolding first_not_applied_index
has_entries_to_apply l = ltb (first_not_applied_index l) (to_apply_index_limit l)

unfoldable pub has_more_entries_to_apply : EntryLog → ℕ → Bool
has_more_entries_to_apply l applied_to = ltb applied_to l.committed

unfoldable pub get_entries_to_apply : EntryLog → ℕ → Outcome (List Entry)
get_entries_to_apply l limit =
    if has_entries_to_apply l
    then (do
      found ← get_entries l (first_not_applied_index l) (to_apply_index_limit l) limit
      must found)
    else ok []

unfoldable pub entries_to_apply : EntryLog → Outcome (List Entry)
entries_to_apply l = get_entries_to_apply l max_entries_to_apply_size

abbrev pub entries_to_save : EntryLog → List Entry
entries_to_save l = InMemory.entries_to_save l.inmem

unfoldable pub match_term : EntryLog → ℕ → ℕ → Outcome Bool
match_term l index t = do
  found ← term l index
  elim found [ fetched lt ↦ ok (lt == t) | failed _ ↦ ok false ]

-- 0 where every entry is in the log already.
unfoldable pub get_conflict_index : EntryLog → List Entry → Outcome ℕ
get_conflict_index l [] = ok 0
get_conflict_index l (e ∷ es) = do
  matched ← match_term l e.index e.term
  let rest = get_conflict_index l es
  if matched then rest else ok e.index

-- entryLog.append
unfoldable pub append : EntryLog → List Entry → Outcome EntryLog
unfolding ◌>>=◌
append l [] = ok l
append l (e ∷ es) =
    if leb e.index l.committed
    then panic
    else do inmem ← InMemory.merge l.inmem (e ∷ es); ok (record l { inmem = inmem })

-- `ents[k:]`
abbrev pub slice_from : List Entry → ℕ → Outcome (List Entry)
slice_from ents k = if ltb (length ents) k then panic else ok (drop k ents)

unfoldable pub try_append : EntryLog → ℕ → List Entry → Outcome (EntryLog × Bool)
try_append l index ents = do
  conflict_index ← get_conflict_index l ents
  if conflict_index != 0
      then (do
        panic_if (leb conflict_index l.committed)
        new ← slice_from ents (sub64 (sub64 conflict_index index) 1)
        l' ← append l new
        ok (l', true))
      else ok (l, false)

unfoldable pub commit_to : EntryLog → ℕ → Outcome EntryLog
commit_to l index =
    if leb index l.committed
    then ok l
    else if ltb (last_index l) index
    then panic
    else ok (record l { committed = index })

unfoldable pub commit_update : EntryLog → UpdateCommit → Outcome EntryLog
commit_update l cu = do
  inmem ← InMemory.commit_update l.inmem cu
  if ltb 0 cu.applied_to
      then (do
        panic_if (ltb cu.applied_to l.applied || ltb l.committed cu.applied_to)
        inmem' ← InMemory.applied_log_to inmem cu.applied_to
        ok (record l { inmem = inmem'; applied = cu.applied_to }))
      else ok (record l { inmem = inmem })

unfoldable pub up_to_date : EntryLog → ℕ → ℕ → Outcome Bool
unfolding ◌>>=◌
up_to_date l index t = do
  found ← term l (last_index l)
  last ← must found
  if leb last t then if ltb last t then ok true else ok (leb (last_index l) index) else ok false

-- The term that `tryCommit` compares with: 0 for a compacted entry; another error panics.
abbrev pub commit_term : Fetched ℕ → Outcome ℕ
commit_term (fetched t) = ok t
commit_term (failed LogError.compacted) = ok 0
commit_term (failed _) = panic

unfoldable pub try_commit : EntryLog → ℕ → ℕ → Outcome (EntryLog × Bool)
unfolding ◌>>=◌ commit_to
try_commit l index t = if leb index l.committed then ok (l, false) else (do
  found ← term l index
  lterm ← commit_term found
  if ltb l.committed index && (lterm == t)
      then (do l' ← commit_to l index; ok (l', true))
      else ok (l, false))

unfoldable pub restore : EntryLog → Snapshot → EntryLog
restore l ss = record l {
  inmem = InMemory.restore l.inmem ss;
  committed = ss.index;
  applied = ss.index;
}
