-- ===== src/Queue/EntryQueue.antt =====
-- entryQueue of queue.go: two buffers, of which one is filled while the entries of the other are in
-- use. `Refinement` compares it with a bounded list.
pub mod Refinement
use dragonboat.Prelude.{
  ℕ, zero, suc, ◌%◌, Bool, true, false, not, List, [], ◌∷◌, ltb, leb, ◌==◌, if◌then◌else◌, add64,
  length, take, Outcome, ok, panic, ◌>>=◌, ◌>>◌,
}
use dragonboat.Pb.{Entry, empty_entry}
use dragonboat.Queue.Slots.{write, make}

pub record EntryQueue : Type 0 where
  pub size : ℕ
  pub left : List Entry
  pub right : List Entry
  pub left_in_write : Bool
  pub stopped : Bool
  pub idx : ℕ
  pub old_idx : ℕ
  pub cycle : ℕ
  pub lazy_free_cycle : ℕ

abbrev pub new_entry_queue : ℕ → ℕ → EntryQueue
new_entry_queue size lazy_free_cycle = record {
  size = size;
  left = make size empty_entry;
  right = make size empty_entry;
  left_in_write = false;
  stopped = false;
  idx = 0;
  old_idx = 0;
  cycle = 0;
  lazy_free_cycle = lazy_free_cycle;
}

abbrev pub close : EntryQueue → EntryQueue
close q = record q { stopped = true }

abbrev pub target_queue : EntryQueue → List Entry
target_queue q = if q.left_in_write then q.left else q.right

-- A write to the slice that `targetQueue` returns.
abbrev pub put_target : EntryQueue → List Entry → EntryQueue
put_target q es = if q.left_in_write then record q { left = es } else record q { right = es }

-- The flags say whether the entry was added and whether the queue is stopped.
unfoldable pub add : EntryQueue → Entry → Outcome (EntryQueue × Bool × Bool)
add q ent =
    if leb q.size q.idx
    then ok (q, false, q.stopped)
    else if q.stopped
    then ok (q, false, true)
    else do
      w ← write (target_queue q) q.idx ent
      ok (record (put_target q w) { idx = add64 q.idx 1 }, true, false)

-- The first `n` entries without their commands.
abbrev pub clear_cmds : ℕ → List Entry → List Entry
clear_cmds zero es = es
clear_cmds (suc n) [] = []
clear_cmds (suc n) (e ∷ es) = record e { cmd = [] } ∷ clear_cmds n es

abbrev pub free : ℕ → List Entry → Outcome (List Entry)
free n es = if ltb (length es) n then panic else ok (clear_cmds n es)

unfoldable pub gc : EntryQueue → Outcome EntryQueue
gc q =
    if ltb 0 q.lazy_free_cycle
    then if q.lazy_free_cycle == 1
      then (do es ← free q.old_idx (target_queue q); ok (put_target q es))
      else if q.cycle % q.lazy_free_cycle == 0
      then (do es ← free q.size (target_queue q); ok (put_target q es))
      else ok q
    else ok q

unfoldable pub get : EntryQueue → Outcome (EntryQueue × List Entry)
get q = do
  let t = target_queue q
  q' ← gc (record q { cycle = add64 q.cycle 1; idx = 0; left_in_write = not q.left_in_write })
  if ltb (length t) q.idx then panic else ok (record q' { old_idx = q.idx }, take q.idx t)
