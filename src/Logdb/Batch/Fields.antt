-- ===== src/Logdb/Batch/Fields.antt =====
-- internal/logdb/batch.go: a batch is read as it was written, and a merged batch is the log.
use dragonboat.Prelude.{
  ℕ, zero, suc, ◌+◌, ◌-◌, ◌^◌, ◌≤◌, ◌<◌, ◌≡◌, refl, sym, ap, ◌∙◌, inl, inr, ◌&&◌, List, [], ◌∷◌,
  ◌++◌, arith, ltb, leb, ◌==◌, if◌then◌else◌, Bool-cases, add64, length, take, take-length, ok,
}
use dragonboat.Pb.{Entry, last_entry}
use dragonboat.Raft.InMemory.Window.{Contiguous}
use dragonboat.Logdb.Batch.{
  get_batch_id, restore_fields, restore_batch_fields, clear_fields, compact_batch_fields,
  entries_below, merge_first_batch,
}

-- Terms that never fall, from `term` on.
abbrev pub Rising : ℕ → List Entry → Type 0
Rising term [] = Unit
Rising term (e ∷ es) = (term ≤ e.term) × Rising e.term es

last_entry-cons : (e f : Entry) (es : List Entry) → last_entry (e ∷ f ∷ es) ≡ last_entry (f ∷ es)
last_entry-cons e f es = refl

-- The last entry has the highest term, and the last index.
Rising-last :
    (term : ℕ) (f : Entry) (es : List Entry)
    → Rising term (f ∷ es)
    → term ≤ (last_entry (f ∷ es)).term
Rising-last term f [] r = r.0
Rising-last term f (g ∷ es) r = omega (arith, r.0, Rising-last f.term g es r.1)

-- If the last entry has the first term, then all have.
restore-clear :
    (term index : ℕ) (f : Entry) (es : List Entry)
    → Contiguous index (f ∷ es)
    → Rising term (f ∷ es)
    → (last_entry (f ∷ es)).term ≡ term
    → index + length es < 2 ^ 64 - 1
    → restore_fields term index (clear_fields (f ∷ es)) ≡ f ∷ es
unfolding restore_fields clear_fields
restore-clear term index f [] c r t h = ground (arith, c.0)
restore-clear term index f (g ∷ es) c r t h =
    let high = Rising-last f.term g es r.1 in
    let same : f.term ≡ term = omega (arith, r.0) in
    let rest =
      restore-clear term (index + 1) g es c.1 (omega (arith, same, r.1.0), r.1.1) t (omega arith) in
    let next : add64 index 1 ≡ index + 1 = ground arith in
    let first : record f { term = term; index = index } ≡ f = ground (arith, same, c.0) in
    let cleared = clear_fields (g ∷ es) in
    ap (λ x. x ∷ restore_fields term (add64 index 1) cleared) first
    ∙ ap (◌∷◌ f) (ap (λ k. restore_fields term k cleared) next ∙ rest)

last-clear : (f : Entry) (es : List Entry) → (last_entry (clear_fields (f ∷ es))).term ≡ 0
unfolding clear_fields
last-clear f [] = refl
last-clear f (g ∷ es) = last-clear g es

last-clear_fields :
    (e f : Entry) (es : List Entry)
    → restore_batch_fields (e ∷ clear_fields (f ∷ es))
      ≡ ok (e ∷ restore_fields e.term (add64 e.index 1) (clear_fields (f ∷ es)))
unfolding clear_fields restore_batch_fields
last-clear_fields e f es = ground (arith, last-clear f es)

-- A batch of several entries with consecutive indices and positive terms that never fall is read as it
-- was written.
pub restore-compact :
    (eb stored : List Entry) (index : ℕ)
    → 1 < length eb
    → Contiguous index eb
    → Rising 1 eb
    → index + length eb < 2 ^ 64
    → compact_batch_fields eb ≡ ok stored
    → restore_batch_fields stored ≡ ok eb
unfolding compact_batch_fields
restore-compact [] stored index n c r h e = absurd (omega arith)
restore-compact (e ∷ []) stored index n c r h k = absurd (omega arith)
restore-compact (e ∷ f ∷ es) stored index n c r h k =
    let last = last_entry (f ∷ es) in
    let next : add64 e.index 1 ≡ index + 1 = ground (arith, c.0) in
    elim (Bool-cases ((e.term == last.term) && (add64 e.index (length (f ∷ es)) == last.index))) [
      | inl same ↦
          let stored_lem : stored ≡ e ∷ clear_fields (f ∷ es) = ground arith in
          let rest = restore-clear e.term (index + 1) f es c.1 r.1 (ground arith) (omega arith) in
          rw stored_lem (
            last-clear_fields e f es
            ∙ ap (λ l. ok (e ∷ l))
                (ap (λ i. restore_fields e.term i (clear_fields (f ∷ es))) next ∙ rest))
      | inr other ↦
          let stored_lem : stored ≡ e ∷ f ∷ es = ground arith in
          rw stored_lem
            (unfold restore_batch_fields in ground (arith, Rising-last e.term f es r.1, r.0))
    ]

take_nil : (n : ℕ) → take {A = Entry} n [] ≡ []
take_nil zero = refl
take_nil (suc n) = refl

take_zero : (n : ℕ) (es : List Entry) → n ≡ 0 → take n es ≡ []
take_zero zero es h = refl
take_zero (suc n) es h = absurd (omega arith)

entries_below-take :
    (a b : ℕ) (es : List Entry) → Contiguous a es → entries_below b es ≡ take (b - a) es
unfolding entries_below
entries_below-take a b [] c = sym (take_nil (b - a))
entries_below-take a b (e ∷ es) c = elim (Bool-cases (leb b e.index)) [
  | inl stop ↦
      let none_left : b - a ≡ 0 = ground (arith, c.0) in rw (none_left, entries_below, stop) refl
  | inr go ↦
      let more : b - a ≡ suc (b - (a + 1)) = ground (arith, c.0) in
      rw (more, entries_below, go) (ap (◌∷◌ e) (entries_below-take (a + 1) b es c.1))
]

index-last_entry :
    (a : ℕ) (e : Entry) (es : List Entry)
    → Contiguous a (e ∷ es)
    → (last_entry (e ∷ es)).index ≡ a + length es
index-last_entry a e [] c = omega (arith, c.0)
index-last_entry a e (f ∷ es) c = omega (arith, index-last_entry (a + 1) f es c.1)

merged_lem :
    (e l : Entry) (es ls : List Entry)
    → Contiguous l.index (l ∷ ls)
    → e.index ≤ l.index + length (l ∷ ls)
    → (if leb e.index (last_entry (l ∷ ls)).index
        then entries_below e.index (l ∷ ls) ++ (e ∷ es)
        else (l ∷ ls) ++ (e ∷ es))
      ≡ take (e.index - l.index) (l ∷ ls) ++ (e ∷ es)
merged_lem e l es ls c near =
    let last = index-last_entry l.index l ls c in
    elim (Bool-cases (leb e.index (last_entry (l ∷ ls)).index)) [
      | inl inside ↦ rw (inside, entries_below-take l.index e.index (l ∷ ls) c) refl
      | inr behind ↦
          rw behind (
            ap (λ k. k ++ (e ∷ es)) (sym (take-length (l ∷ ls) (e.index - l.index) (ground arith))))
    ]

-- The first batch that is written after the last one, and leaves no gap behind it: if the two have the
-- same id, the entries of the last batch below the new ones, followed by the new ones.
pub merge_first_batch_lem :
    (e l : Entry) (es ls : List Entry)
    → Contiguous l.index (l ∷ ls)
    → e.index ≤ l.index + length (l ∷ ls)
    → get_batch_id l.index ≤ get_batch_id e.index
    → merge_first_batch (e ∷ es) (l ∷ ls)
      ≡ ok (
          if ltb (get_batch_id l.index) (get_batch_id e.index)
          then e ∷ es
          else take (e.index - l.index) (l ∷ ls) ++ (e ∷ es))
unfolding merge_first_batch
merge_first_batch_lem e l es ls c near ids =
    ground (arith, merged_lem e l es ls c near, take_zero (e.index - l.index) (l ∷ ls))
