-- ===== src/Raft/EntryLog/Commit.antt =====
-- What the operations of internal/raft/logentry.go do to the commit index and to committed entries.
use dragonboat.Prelude.{
  ℕ, ◌+◌, ◌-◌, ◌≤◌, ◌<◌, ◌≡◌, subst, ◌↔◌, ◌⊎◌, inl, inr, Bool, true, false, List, [], ◌∷◌, ◌++◌,
  arith, leb, if◌then◌else◌, Bool-cases, length, take, length-take_le, get_elem?-append,
  get_elem?-take, put, ok, panic, bind-eq-ok,
}
use dragonboat.Pb.{Entry}
use dragonboat.Raft.InMemory.{InMemory, merge, merge_from, check_marker_index}
use dragonboat.Raft.InMemory.Window.{IsValid, entry_at}
use dragonboat.Raft.EntryLog.{
  EntryLog, LogError, fetched, failed, last_index, term, append, commit_to, up_to_date, try_commit,
  last_term,
}

-- `commitTo` moves the commit index to the larger of the two and changes nothing else; it panics
-- exactly when the new index is above both the commit index and the end of the log.
pub commit_to_lem :
    (l : EntryLog) (index : ℕ)
    → ((index ≤ l.committed) ⊎ (index ≤ last_index l)
        → commit_to l index
          ≡ ok (record l { committed = if leb index l.committed then l.committed else index }))
      × (l.committed < index → last_index l < index → commit_to l index ≡ panic)
unfolding commit_to
commit_to_lem l index = ground arith

-- `tryCommit` says yes exactly when the index is above the commit index and its entry has the given
-- term (a compacted entry counts as one of term 0), and then commits that index and changes nothing else; otherwise it leaves the log alone.
pub try_commit_lem :
    (l l' : EntryLog) (index t : ℕ) (done : Bool)
    → try_commit l index t ≡ ok (l', done)
    → (done ≡ true
        → (l' ≡ record l { committed = index })
          × (l.committed < index)
          × (index ≤ last_index l)
          × ((term l index ≡ ok (fetched t))
              ⊎ ((term l index ≡ ok (failed LogError.compacted)) × (t ≡ 0))))
      × (done ≡ false → (l' ≡ l) × ((index ≤ l.committed) ⊎ ¬ (term l index ≡ ok (fetched t))))
unfolding try_commit
try_commit_lem l l' index t done h = ground arith

-- The comparison of logs of section 5.4.1 of the raft paper: a candidate's log, with its last entry at
-- `index` of term `t`, is up to date when its term is above the last one here, or equal with no
-- shorter a log.
pub up_to_date_lem :
    (l : EntryLog) (index t last : ℕ)
    → last_term l ≡ ok last
    → (up_to_date l index t ≡ ok true) ↔ ((last < t) ⊎ ((last ≡ t) × (last_index l ≤ index)))
unfolding up_to_date last_term
up_to_date_lem l index t last h = ground arith

module _ (im : InMemory) (e : Entry) (es : List Entry) where
  -- Where a merge that returned put the new entries: behind all the old ones, in place of all of
  -- them, or behind those below the first new one.
  abbrev Placed : InMemory → Type 0
  Placed im' =
      ((e.index ≡ im.marker_index + length im.entries)
        × (im'.marker_index ≡ im.marker_index)
        × (im'.entries ≡ im.entries ++ (e ∷ es)))
      ⊎ ((e.index ≤ im.marker_index) × (im'.marker_index ≡ e.index))
      ⊎ ((im.marker_index ≤ e.index)
          × (e.index ≤ im.marker_index + length im.entries)
          × (im'.marker_index ≡ im.marker_index)
          × (im'.entries ≡ take (e.index - im.marker_index) im.entries ++ (e ∷ es)))

  merge_from-Placed :
      (im' : InMemory) → IsValid im → merge_from im e.index (e ∷ es) ≡ ok im' → Placed im'
  unfolding merge_from
  merge_from-Placed im' v h = ground (arith, v.fits)

  checked : (im' im'' : InMemory) → check_marker_index im' ≡ ok im'' → im' ≡ im''
  unfolding check_marker_index
  checked im' im'' h = ground arith

  merge-Placed : (im' : InMemory) → IsValid im → merge im (e ∷ es) ≡ ok im' → Placed im'
  unfolding merge
  merge-Placed im' v h =
      let (im'', from, check) = bind-eq-ok (merge_from im e.index (e ∷ es)) check_marker_index h in
      subst Placed (checked im'' im' check) (merge_from-Placed im'' v from)

  Placed-below :
      (im' : InMemory)
      → Placed im'
      → (i : ℕ) → i < e.index
      → im'.marker_index ≤ i
      → entry_at im' i ≡ entry_at im i
  Placed-below im' (inl (at, m, es')) i lt le =
      ground (arith, get_elem?-append im.entries (e ∷ es) (i - im.marker_index))
  Placed-below im' (inr (inl (le, m))) i lt le' = absurd (omega arith)
  Placed-below im' (inr (inr (ge, le, m, es'))) i lt le' = ground (
    arith,
    get_elem?-append (take (e.index - im.marker_index) im.entries) (e ∷ es) (i - im.marker_index),
    get_elem?-take (e.index - im.marker_index) im.entries (i - im.marker_index),
    length-take_le (e.index - im.marker_index) im.entries,
  )

append-merge :
    (l l' : EntryLog) (e : Entry) (es : List Entry)
    → append l (e ∷ es) ≡ ok l'
    → (l.committed < e.index)
      × ((im' : InMemory) × (merge l.inmem (e ∷ es) ≡ ok im') × (l' ≡ record l { inmem = im' }))
unfolding append
append-merge l l' e es h = elim (Bool-cases (leb e.index l.committed)) [
  | inl below ↦ ground arith
  | inr above ↦
      let (im', merged, put) =
        bind-eq-ok (merge l.inmem (e ∷ es)) (λ im'. ok (record l { inmem = im' }))
          (rw above at h) in
      (ground arith, (im', merged, ground arith))
]

append-keeps :
    (l l' : EntryLog) (es : List Entry)
    → IsValid l.inmem
    → append l es ≡ ok l'
    → (l'.committed ≡ l.committed)
      × (l'.applied ≡ l.applied)
      × ((i : ℕ)
          → i ≤ l.committed
          → l'.inmem.marker_index ≤ i
          → entry_at l'.inmem i ≡ entry_at l.inmem i)
unfolding append
append-keeps l l' [] v h = ground arith
append-keeps l l' (e ∷ es) v h =
    let (above, (im', merged, e')) = append-merge l l' e es h in
    (
      ground arith,
      ground arith,
      λ i below at. rw e' (
          Placed-below l.inmem e es im' (merge-Placed l.inmem e es im' v merged) i (omega arith)
            (rw e' at at)),
    )

-- Appending never touches what is committed. For any entries that begin at or below the commit index it
-- panics; and where it returns, the commit index and the applied index are as they were, and so is every
-- entry up to the commit index that is still in memory.
pub append-committed :
    (l : EntryLog) (es : List Entry)
    → IsValid l.inmem
    → ((e : Entry) (more : List Entry)
        → es ≡ e ∷ more
        → e.index ≤ l.committed
        → append l es ≡ panic)
      × ((l' : EntryLog)
          → append l es ≡ ok l'
          → (l'.committed ≡ l.committed)
            × (l'.applied ≡ l.applied)
            × ((i : ℕ)
                → i ≤ l.committed
                → l'.inmem.marker_index ≤ i
                → entry_at l'.inmem i ≡ entry_at l.inmem i))
unfolding append
append-committed l es v =
    (λ e more same below. rw same (ground arith), λ l'. append-keeps l l' es v)
