-- ===== src/Queue/EntryQueue/Refinement.antt =====
-- entryQueue of queue.go against its specification: a bounded list that is emptied as a whole.
use dragonboat.Prelude.{
  ℕ, zero, suc, ◌%◌, ◌^◌, ◌≤◌, ◌<◌, ◌≡◌, refl, sym, ap, ◌∙◌, inl, inr, Bool, true, false, not, List,
  [], ◌∷◌, ◌++◌, arith, ltb, leb, ◌==◌, if◌then◌else◌, Bool-cases, add64, length, take,
  length-take_le, Outcome, ok, ◌>>=◌,
}
use dragonboat.Pb.{Entry}
use dragonboat.Queue.Slots.{set_elem, length-set_elem, take-set_elem, length-make}
use dragonboat.Queue.EntryQueue
use dragonboat.Queue.EntryQueue.{EntryQueue, target_queue, put_target, clear_cmds, free, gc}

-- What the users of a queue see.
pub record Buffer : Type 0 where
  pub size : ℕ
  pub held : List Entry
  pub stopped : Bool

pub data Op : Type 0 where
  add : Entry → Op
  get close : Op

pub data Reply : Type 0 where
  added : (done stopped : Bool) → Reply
  got : List Entry → Reply
  closed : Reply

-- The specification.
abbrev pub buffer_step : Op → Buffer → Buffer × Reply
buffer_step (Op.add e) b =
    if leb b.size (length b.held)
    then (b, Reply.added false b.stopped)
    else if b.stopped
    then (b, Reply.added false true)
    else (record b { held = b.held ++ (e ∷ []) }, Reply.added true false)
buffer_step Op.get b = (record b { held = [] }, Reply.got b.held)
buffer_step Op.close b = (record b { stopped = true }, Reply.closed)

abbrev pub buffer_run : List Op → Buffer → Buffer × List Reply
buffer_run [] b = (b, [])
buffer_run (op ∷ ops) b =
    let (b', r) = buffer_step op b in let (b'', rs) = buffer_run ops b' in (b'', r ∷ rs)

-- The code, one operation and a run of them.
abbrev pub step : Op → EntryQueue → Outcome (EntryQueue × Reply)
step (Op.add e) q = do (q', done, stopped) ← EntryQueue.add q e; ok (q', Reply.added done stopped)
step Op.get q = do (q', es) ← EntryQueue.get q; ok (q', Reply.got es)
step Op.close q = ok (EntryQueue.close q, Reply.closed)

abbrev pub run : List Op → EntryQueue → Outcome (EntryQueue × List Reply)
run [] q = ok (q, [])
run (op ∷ ops) q = do (q', r) ← step op q; (q'', rs) ← run ops q'; ok (q'', r ∷ rs)

abbrev pub view : EntryQueue → Buffer
view q = record { size = q.size; held = take q.idx (target_queue q); stopped = q.stopped }

pub record IsValid (q : EntryQueue) : Type 0 where
  pub left_size : length q.left ≡ q.size
  pub right_size : length q.right ≡ q.size
  pub idx_le : q.idx ≤ q.size
  pub old_idx_le : q.old_idx ≤ q.size
  pub fits : q.size < 2 ^ 64

length-clear_cmds : (n : ℕ) (es : List Entry) → length (clear_cmds n es) ≡ length es
length-clear_cmds zero es = refl
length-clear_cmds (suc n) [] = refl
length-clear_cmds (suc n) (e ∷ es) = ap suc (length-clear_cmds n es)

length-target_queue : (q : EntryQueue) → IsValid q → length (target_queue q) ≡ q.size
length-target_queue q v = ground (arith, v.left_size, v.right_size)

module _ (q : EntryQueue) (v : IsValid q) where
  held_size : length (view q).held ≡ q.idx
  held_size =
      length-take_le q.idx (target_queue q) (omega (arith, length-target_queue q v, v.idx_le))

  -- The buffer that is to be filled, written to.
  put_target-IsValid :
      (es : List Entry)
      → length es ≡ q.size
      → IsValid (put_target q es)
        × (target_queue (put_target q es) ≡ es)
        × ((put_target q es).size ≡ q.size)
        × ((put_target q es).idx ≡ q.idx)
        × ((put_target q es).stopped ≡ q.stopped)
  put_target-IsValid es h = elim (Bool-cases q.left_in_write) [
    | inl e ↦ rw e (
      record {
        left_size = h;
        right_size = v.right_size;
        idx_le = v.idx_le;
        old_idx_le = v.old_idx_le;
        fits = v.fits;
      },
      refl,
      refl,
      refl,
      refl,
    )
    | inr e ↦ rw e (
      record {
        left_size = v.left_size;
        right_size = h;
        idx_le = v.idx_le;
        old_idx_le = v.old_idx_le;
        fits = v.fits;
      },
      refl,
      refl,
      refl,
      refl,
    )
  ]

  abbrev Collects : Outcome EntryQueue → Type 0
  Collects m =
      (q' : EntryQueue) × (m ≡ ok q')
      × IsValid q'
      × (q'.size ≡ q.size)
      × (q'.idx ≡ q.idx)
      × (q'.stopped ≡ q.stopped)

  free-Collects :
      (n : ℕ) → n ≤ q.size → Collects (free n (target_queue q) >>= λ es. ok (put_target q es))
  unfolding ◌>>=◌
  free-Collects n le =
      let es = clear_cmds n (target_queue q) in
      let (w, _, size, idx, stopped) =
        put_target-IsValid es (length-clear_cmds n (target_queue q) ∙ length-target_queue q v) in
      let enough : ltb (length (target_queue q)) n ≡ false =
        ground (arith, length-target_queue q v) in
      (put_target q es, rw (enough, ◌>>=◌) refl, w, size, idx, stopped)

  gc-Collects : Collects (gc q)
  unfolding gc
  gc-Collects = elim (Bool-cases (ltb 0 q.lazy_free_cycle)) [
    | inr e ↦ (q, rw (e, gc) refl, v, refl, refl, refl)
    | inl e ↦ elim (Bool-cases (q.lazy_free_cycle == 1)) [
      | inl f ↦ rw (gc, e, f) (free-Collects q.old_idx v.old_idx_le)
      | inr f ↦ elim (Bool-cases (q.cycle % q.lazy_free_cycle == 0)) [
        | inl g ↦ rw (gc, e, f, g) (free-Collects q.size (omega arith))
        | inr g ↦ (q, rw (e, f, g, gc) refl, v, refl, refl, refl)
      ]
    ]
  ]

Buffer-eq : (a b : Buffer) → a.size ≡ b.size → a.held ≡ b.held → a.stopped ≡ b.stopped → a ≡ b
Buffer-eq a b e f g = cc

-- An operation of the queue does what the specification says and keeps the queue valid.
abbrev Refines : Op → EntryQueue → Type 0
Refines op q =
    (p : EntryQueue × Reply) × (step op q ≡ ok p)
    × IsValid p.0
    × (buffer_step op (view q) ≡ (view p.0, p.1))

accepts :
    (b : Buffer) (e : Entry)
    → leb b.size (length b.held) ≡ false
    → b.stopped ≡ false
    → buffer_step (Op.add e) b ≡ (record b { held = b.held ++ (e ∷ []) }, Reply.added true false)
accepts b e room going = rw (room, going) refl

add-Refines : (e : Entry) (q : EntryQueue) → IsValid q → Refines (Op.add e) q
unfolding EntryQueue.add ◌>>=◌
add-Refines e q v = elim (Bool-cases (leb q.size q.idx)) [
  | inl full ↦ (
    (q, Reply.added false q.stopped),
    rw (EntryQueue.add, full) refl,
    v,
    rw (held_size q v, full) refl,
  )
  | inr room ↦ elim (Bool-cases q.stopped) [
    | inl stopped ↦ (
      (q, Reply.added false true),
      rw (EntryQueue.add, room, stopped) refl,
      v,
      rw (held_size q v, room, stopped) refl,
    )
    | inr going ↦
        let t = target_queue q in
        let w = set_elem t q.idx e in
        let fits : ltb q.idx (length t) ≡ true = ground (arith, length-target_queue q v) in
        let next : add64 q.idx 1 ≡ suc q.idx = ground (arith, v.fits) in
        let (pv, at, size, idx, stopped) =
          put_target-IsValid q v w (length-set_elem t q.idx e ∙ length-target_queue q v) in
        let held : take (add64 q.idx 1) (target_queue (put_target q w)) ≡ take q.idx t ++ (e ∷ []) =
          ap (λ (n : ℕ). take n (target_queue (put_target q w))) next
          ∙ ap (take (suc q.idx)) at
          ∙ take-set_elem t q.idx e (ground arith) in
        let q' : EntryQueue = record (put_target q w) { idx = add64 q.idx 1 } in
        (
          (q', Reply.added true false),
          rw (EntryQueue.add, room, going, fits) refl,
          record {
            left_size = pv.left_size;
            right_size = pv.right_size;
            idx_le = ground arith;
            old_idx_le = pv.old_idx_le;
            fits = pv.fits;
          },
          accepts (view q) e (rw (held_size q v) room) going
              ∙ ap (λ (b : Buffer). (b, Reply.added true false))
                  (Buffer-eq (record (view q) { held = take q.idx t ++ (e ∷ []) }) (view q')
                    (sym size) (sym held) (sym stopped)),
        )
  ]
]

get-Refines : (q : EntryQueue) → IsValid q → Refines Op.get q
unfolding EntryQueue.get ◌>>=◌
get-Refines q v =
    let t = target_queue q in
    let turned : EntryQueue = record q {
      cycle = add64 q.cycle 1;
      idx = 0;
      left_in_write = not q.left_in_write;
    } in
    let turned-IsValid : IsValid turned = record {
      left_size = v.left_size;
      right_size = v.right_size;
      idx_le = omega arith;
      old_idx_le = v.old_idx_le;
      fits = v.fits;
    } in
    let (q', e, w, size, idx, stopped) = gc-Collects turned turned-IsValid in
    let enough : ltb (length t) q.idx ≡ false = ground (arith, length-target_queue q v, v.idx_le) in
    let r : EntryQueue = record q' { old_idx = q.idx } in
    let none_held : take q'.idx (target_queue q') ≡ [] =
      ap (λ (n : ℕ). take n (target_queue q')) idx in
    (
      (r, Reply.got (take q.idx t)),
      rw (EntryQueue.get, e, enough) refl,
      record {
        left_size = w.left_size;
        right_size = w.right_size;
        idx_le = w.idx_le;
        old_idx_le = omega (arith, size, v.idx_le);
        fits = w.fits;
      },
      ap (λ (b : Buffer). (b, Reply.got (take q.idx t)))
          (Buffer-eq (record { size = q.size; held = []; stopped = q.stopped }) (view r) (sym size)
            (sym none_held) (sym stopped)),
    )

close-Refines : (q : EntryQueue) → IsValid q → Refines Op.close q
close-Refines q v = (
  (EntryQueue.close q, Reply.closed),
  refl,
  record {
    left_size = v.left_size;
    right_size = v.right_size;
    idx_le = v.idx_le;
    old_idx_le = v.old_idx_le;
    fits = v.fits;
  },
  refl,
)

step-Refines : (op : Op) (q : EntryQueue) → IsValid q → Refines op q
step-Refines (Op.add e) q v = add-Refines e q v
step-Refines Op.get q v = get-Refines q v
step-Refines Op.close q v = close-Refines q v

-- The two buffers behave as one bounded list: every sequence of calls on a valid queue returns, with
-- the answers that the list gives, and what the queue then holds is what the list holds.
pub run-buffer_run :
    (ops : List Op) (q : EntryQueue)
    → IsValid q
    → (p : EntryQueue × List Reply) × (run ops q ≡ ok p)
      × IsValid p.0
      × (buffer_run ops (view q) ≡ (view p.0, p.1))
unfolding ◌>>=◌
run-buffer_run [] q v = ((q, []), refl, v, refl)
run-buffer_run (op ∷ ops) q v =
    let ((q', r), e, v', spec) = step-Refines op q v in
    let ((q'', rs), e', v'', spec') = run-buffer_run ops q' v' in
    ((q'', r ∷ rs), rw (e, ◌>>=◌, e') refl, v'', rw (spec, spec') refl)

pub new_entry_queue-IsValid :
    (size lazy_free_cycle : ℕ)
    → size < 2 ^ 64
    → IsValid (EntryQueue.new_entry_queue size lazy_free_cycle)
new_entry_queue-IsValid size cycle h = record {
  left_size = length-make size _;
  right_size = length-make size _;
  idx_le = omega arith;
  old_idx_le = omega arith;
  fits = h;
}
