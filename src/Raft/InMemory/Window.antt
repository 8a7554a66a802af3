-- ===== src/Raft/InMemory/Window.antt =====
-- The invariant of internal/raft/inmemory.go: the entries are the window of the log that begins at the
-- marker.
use dragonboat.Prelude.{
  ℕ, zero, suc, ◌+◌, ◌-◌, ◌^◌, ◌≤◌, ◌<◌, ◌≡◌, subst, Option, none, some, List, [], ◌∷◌, ◌++◌, arith,
  ltb, if◌then◌else◌, length, get_elem?, take, drop, last?,
}
use dragonboat.Pb.{Entry, Snapshot}
use dragonboat.Raft.InMemory.{InMemory}

-- Entries with consecutive indices, the first at `m`.
abbrev pub Contiguous : ℕ → List Entry → Type 0
Contiguous m [] = Unit
Contiguous m (e ∷ es) = (e.index ≡ m) × Contiguous (m + 1) es

pub record IsValid (im : InMemory) : Type 0 where
  pub contiguous : Contiguous im.marker_index im.entries
  pub positive : 1 ≤ im.marker_index
  pub fits : im.marker_index + length im.entries < 2 ^ 64
  pub saved_from : im.marker_index ≤ im.saved_to + 1
  pub saved_upto : im.saved_to < im.marker_index + length im.entries
  -- A snapshot with no entry above it is the one the marker stands behind.
  pub snapshot_below :
      (ss : Snapshot) → im.snapshot ≡ some ss → im.entries ≡ [] → ss.index < im.marker_index

-- The entry that the window holds for a log index.
abbrev pub entry_at : InMemory → ℕ → Option Entry
entry_at im i = if ltb i im.marker_index then none else get_elem? im.entries (i - im.marker_index)

pub index-get_elem? :
    (m : ℕ) (es : List Entry) (k : ℕ) {e : Entry}
    → Contiguous m es
    → get_elem? es k ≡ some e
    → e.index ≡ m + k
index-get_elem? m [] k c h = ground arith
index-get_elem? m (x ∷ es) zero c h = ground arith
index-get_elem? m (x ∷ es) (suc k) c h = omega (arith, index-get_elem? (m + 1) es k c.1 h)

pub index-last? :
    (m : ℕ) (es : List Entry) {e : Entry}
    → Contiguous m es
    → last? es ≡ some e
    → e.index + 1 ≡ m + length es
index-last? m [] c h = ground arith
index-last? m (x ∷ []) c h = ground arith
index-last? m (x ∷ y ∷ es) c h = omega (arith, index-last? (m + 1) (y ∷ es) c.1 h)

-- The same window, its start written in another way.
pub Contiguous-of_eq : (m n : ℕ) (es : List Entry) → m ≡ n → Contiguous m es → Contiguous n es
Contiguous-of_eq m n es e c = subst (λ i. Contiguous i es) e c

pub Contiguous-append :
    (m : ℕ) (xs ys : List Entry)
    → Contiguous m xs
    → Contiguous (m + length xs) ys
    → Contiguous m (xs ++ ys)
Contiguous-append m [] ys cx cy = Contiguous-of_eq (m + 0) m ys (omega arith) cy
Contiguous-append m (x ∷ xs) ys cx cy =
    (cx.0, Contiguous-append (m + 1) xs ys cx.1 (Contiguous-of_eq _ _ ys (omega arith) cy))

pub Contiguous-drop : (m n : ℕ) (xs : List Entry) → Contiguous m xs → Contiguous (m + n) (drop n xs)
Contiguous-drop m zero xs c = Contiguous-of_eq m (m + 0) xs (omega arith) c
Contiguous-drop m (suc n) [] c = tt
Contiguous-drop m (suc n) (x ∷ xs) c =
    Contiguous-of_eq (m + 1 + n) (m + suc n) (drop n xs) (omega arith)
      (Contiguous-drop (m + 1) n xs c.1)

pub Contiguous-take : (m n : ℕ) (xs : List Entry) → Contiguous m xs → Contiguous m (take n xs)
Contiguous-take m zero xs c = tt
Contiguous-take m (suc n) [] c = tt
Contiguous-take m (suc n) (x ∷ xs) c = (c.0, Contiguous-take (m + 1) n xs c.1)
