-- ===== src/Queue/ReadIndexQueue.antt =====
-- readIndexQueue of queue.go: two buffers of pointers to requests, `none` for nil.
use dragonboat.Prelude.{
  ℕ, Bool, true, false, not, Option, none, some, List, ltb, leb, if◌then◌else◌, add64, length, take,
  Outcome, ok, panic, ◌>>=◌,
}
use dragonboat.Queue.Slots.{write, make}

module _ {ℓ} (RequestState : Type ℓ) where
  pub record ReadIndexQueue : Type ℓ where
    pub size : ℕ
    pub left : List (Option RequestState)
    pub right : List (Option RequestState)
    pub left_in_write : Bool
    pub stopped : Bool
    pub idx : ℕ

  abbrev pub new_read_index_queue : ℕ → ReadIndexQueue
  new_read_index_queue size = record {
    size = size;
    left = make size none;
    right = make size none;
    left_in_write = false;
    stopped = false;
    idx = 0;
  }

  abbrev pub close : ReadIndexQueue → ReadIndexQueue
  close q = record q { stopped = true }

  abbrev pub pending_size : ReadIndexQueue → ℕ
  pending_size q = q.idx

  abbrev pub target_queue : ReadIndexQueue → List (Option RequestState)
  target_queue q = if q.left_in_write then q.left else q.right

  abbrev pub put_target : ReadIndexQueue → List (Option RequestState) → ReadIndexQueue
  put_target q rs = if q.left_in_write then record q { left = rs } else record q { right = rs }

  unfoldable pub add : ReadIndexQueue → RequestState → Outcome (ReadIndexQueue × Bool × Bool)
  add q rs =
      if leb q.size q.idx
      then ok (q, false, q.stopped)
      else if q.stopped
      then ok (q, false, true)
      else do
        w ← write (target_queue q) q.idx (some rs)
        ok (record (put_target q w) { idx = add64 q.idx 1 }, true, false)

  unfoldable pub get : ReadIndexQueue → Outcome (ReadIndexQueue × List (Option RequestState))
  get q =
      let t = target_queue q in
      if ltb (length t) q.idx
      then panic
      else ok (record q { idx = 0; left_in_write = not q.left_in_write }, take q.idx t)
