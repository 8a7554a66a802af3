-- ===== src/Raft/InMemory/Merge.antt =====
-- The operations of internal/raft/inmemory.go that move the window: they keep its invariant, and the
-- entries that they hold afterwards.
use dragonboat.Prelude.{
  ℕ, ◌+◌, ◌-◌, ◌^◌, ◌≤◌, ◌<◌, ◌≡◌, ap, ◌≢◌, ◌⊎◌, inl, inr, ◌&&◌, some, List, [], ◌∷◌, ◌++◌, arith,
  ltb, leb, if◌then◌else◌, Bool-cases, Option-cases, length, get_elem?, take, drop, last?,
  length-append, length-drop, length-take_le, get_elem?-append, get_elem?-take, take-length,
  empty_of_length, ok,
}
use native.Mathlib.Decide.{dec_lt, ℕ_discrete}
use dragonboat.Pb.{Entry, Snapshot}
use dragonboat.Raft.EntryUtils.{min, check_entries_to_append}
use dragonboat.Raft.InMemory.{
  InMemory, check_marker_index, saved_log_to, applied_log_to, merge_from, merge, restore,
}
use dragonboat.Raft.InMemory.Window.{
  Contiguous, IsValid, entry_at, index-last?, Contiguous-of_eq, Contiguous-append, Contiguous-drop,
  Contiguous-take,
}

check_marker_index-ok :
    (im : InMemory) → Contiguous im.marker_index im.entries → check_marker_index im ≡ ok im
unfolding check_marker_index
check_marker_index-ok im c = ground arith

-- The outcome of `savedLogTo`: nothing, or a mark inside the window at an entry of that term.
saved_log_to-cases :
    (im im' : InMemory) (index term : ℕ)
    → IsValid im
    → saved_log_to im index term ≡ ok im'
    → (im' ≡ im)
      ⊎ ((im' ≡ record im { saved_to = index })
          × (im.marker_index ≤ index)
          × (index < im.marker_index + length im.entries))
unfolding saved_log_to
saved_log_to-cases im im' index term v h = elim (Option-cases (last? im.entries)) [
  | inl e ↦ ground arith
  | inr (l, e) ↦ ground (arith, index-last? im.marker_index im.entries v.contiguous e)
]

-- `savedLogTo` keeps a valid window valid, whatever index and term it is told.
pub saved_log_to-IsValid :
    (im im' : InMemory) (index term : ℕ)
    → IsValid im
    → saved_log_to im index term ≡ ok im'
    → IsValid im'
saved_log_to-IsValid im im' index term v h = elim (saved_log_to-cases im im' index term v h) [
  | inl e ↦ rw e v
  | inr (e, above, below) ↦ rw e (record {
    contiguous = v.contiguous;
    positive = v.positive;
    fits = v.fits;
    saved_from = omega arith;
    saved_upto = omega arith;
    snapshot_below = v.snapshot_below;
  })
]

-- The outcome of `appliedLogTo`: nothing, or the window from `index` on.
pub applied_log_to-cases :
    (im : InMemory) (index : ℕ)
    → IsValid im
    → (applied_log_to im index ≡ ok im)
      ⊎ ((applied_log_to im index
            ≡ ok (record im {
              entries = drop (index - im.marker_index) im.entries;
              marker_index = index;
            }))
          × (im.marker_index ≤ index)
          × (index < im.marker_index + length im.entries))
unfolding applied_log_to
applied_log_to-cases im index v = elim (Option-cases (last? im.entries)) [
  | inl e ↦ ground arith
  | inr (l, e) ↦ elim (Bool-cases (leb im.marker_index index && leb index l.index)) [
    | inl inside ↦
        let c =
          check_marker_index-ok
            (record im {
              entries = drop (index - im.marker_index) im.entries;
              marker_index = index;
            })
            (Contiguous-of_eq (im.marker_index + (index - im.marker_index)) index
              (drop (index - im.marker_index) im.entries) (ground arith)
              (Contiguous-drop im.marker_index (index - im.marker_index) im.entries
                v.contiguous)) in
        ground (arith, index-last? im.marker_index im.entries v.contiguous e)
    | inr outside ↦ ground arith
  ]
]

-- The new window, with the case of `merge` that makes it: `first` is the index of the first new entry.
abbrev merged : InMemory → ℕ → List Entry → InMemory
merged im first ents =
    if leb first im.marker_index
    then record im { marker_index = first; entries = ents; saved_to = first - 1 }
    else record im {
      entries = take (first - im.marker_index) im.entries ++ ents;
      saved_to = min im.saved_to (first - 1);
    }

-- `appliedLogTo` returns on a valid window and keeps it valid, provided that what was applied has been
-- saved.
pub applied_log_to-IsValid :
    (im : InMemory) (index : ℕ)
    → IsValid im
    → index ≤ im.saved_to + 1
    → (im' : InMemory) × (applied_log_to im index ≡ ok im') × IsValid im'
applied_log_to-IsValid im index v s = elim (applied_log_to-cases im index v) [
  | inl e ↦ (im, e, v)
  | inr (e, above, below) ↦ (
    record im { entries = drop (index - im.marker_index) im.entries; marker_index = index },
    e,
    record {
      contiguous =
          Contiguous-of_eq (im.marker_index + (index - im.marker_index)) index
            (drop (index - im.marker_index) im.entries) (omega arith)
            (Contiguous-drop im.marker_index (index - im.marker_index) im.entries v.contiguous);
      positive = omega (arith, v.positive);
      fits = omega (arith, v.fits, length-drop (index - im.marker_index) im.entries);
      saved_from = s;
      saved_upto = omega (arith, v.saved_upto, length-drop (index - im.marker_index) im.entries);
      snapshot_below = λ ss _ none_left.
          absurd
            (omega (arith, length-drop (index - im.marker_index) im.entries, ap length none_left));
    },
  )
]

check_entries_to_append-ok :
    (m : ℕ) (xs : List Entry) (e : Entry) (es : List Entry)
    → Contiguous m xs
    → e.index ≡ m + length xs
    → e.index < 2 ^ 64
    → ((l : Entry) → last? xs ≡ some l → l.term ≤ e.term)
    → check_entries_to_append xs (e ∷ es) ≡ ok tt
unfolding check_entries_to_append
check_entries_to_append-ok m xs e es c at fits joint = elim (Option-cases (last? xs)) [
  | inl none_left ↦ ground arith
  | inr (l, found) ↦ ground (arith, index-last? m xs c found, joint l)
]

module _ (im : InMemory) (e : Entry) (es : List Entry) where
  -- The entries that `merge` keeps in front of the new ones.
  abbrev pub kept : List Entry
  kept = if leb e.index im.marker_index then [] else take (e.index - im.marker_index) im.entries

  -- New entries are contiguous, begin at most one above the window, and their terms do not fall where
  -- they join what is kept.
  pub record Mergeable : Type 0 where
    pub contiguous : Contiguous e.index (e ∷ es)
    pub positive : 1 ≤ e.index
    pub reach : e.index ≤ im.marker_index + length im.entries
    pub fits : e.index + length (e ∷ es) < 2 ^ 64
    pub joint : (l : Entry) → last? kept ≡ some l → l.term ≤ e.term

  module _ (v : IsValid im) (n : Mergeable) where
    size-kept : im.marker_index < e.index → length kept ≡ e.index - im.marker_index
    size-kept h = ground (arith, n.reach, length-take_le (e.index - im.marker_index) im.entries)

    merge_append :
        e.index ≡ im.marker_index + length im.entries
        → merge_from im e.index (e ∷ es) ≡ ok (merged im e.index (e ∷ es))
    unfolding merge_from
    merge_append at = elim (Bool-cases (leb e.index im.marker_index)) [
      | inl empty ↦ ground (arith, empty_of_length im.entries, v.fits, v.saved_from, v.saved_upto)
      | inr full ↦ ground (
        arith,
        take-length im.entries (e.index - im.marker_index),
        v.fits,
        v.saved_upto,
        check_entries_to_append-ok im.marker_index im.entries e es v.contiguous at
            (omega (arith, n.fits))
            (λ l h. n.joint l (ground (arith, take-length im.entries (e.index - im.marker_index)))),
      )
    ]

    merge_replace :
        e.index ≢ im.marker_index + length im.entries
        → e.index ≤ im.marker_index
        → merge_from im e.index (e ∷ es) ≡ ok (merged im e.index (e ∷ es))
    unfolding merge_from
    merge_replace ne le = ground (arith, n.positive, n.fits, v.fits)

    merge_overlap :
        e.index ≢ im.marker_index + length im.entries
        → im.marker_index < e.index
        → merge_from im e.index (e ∷ es) ≡ ok (merged im e.index (e ∷ es))
    unfolding merge_from
    merge_overlap ne lt = ground (
      arith,
      n.positive,
      n.fits,
      n.reach,
      v.fits,
      check_entries_to_append-ok im.marker_index kept e es
          (ground (arith, Contiguous-take im.marker_index (e.index - im.marker_index) im.entries))
          (ground (arith, size-kept)) (omega (arith, n.fits)) n.joint,
    )

    merge_from-merged : merge_from im e.index (e ∷ es) ≡ ok (merged im e.index (e ∷ es))
    merge_from-merged = elim (ℕ_discrete e.index (im.marker_index + length im.entries)) [
      | yes at ↦ merge_append at
      | no ne ↦ elim (dec_lt im.marker_index e.index) [
        | yes lt ↦ merge_overlap ne lt
        | no ge ↦ merge_replace ne (omega arith)
      ]
    ]

    size-merged :
        (merged im e.index (e ∷ es)).marker_index + length (merged im e.index (e ∷ es)).entries
        ≡ e.index + length (e ∷ es)
    size-merged =
        ground
          (arith, size-kept, length-append (take (e.index - im.marker_index) im.entries) (e ∷ es))

    merged-Contiguous :
        Contiguous (merged im e.index (e ∷ es)).marker_index (merged im e.index (e ∷ es)).entries
    merged-Contiguous = elim (Bool-cases (leb e.index im.marker_index)) [
      | inl below ↦ rw below n.contiguous
      | inr above ↦ rw above (
          Contiguous-append im.marker_index (take (e.index - im.marker_index) im.entries) (e ∷ es)
            (Contiguous-take im.marker_index (e.index - im.marker_index) im.entries v.contiguous)
            (Contiguous-of_eq e.index _ (e ∷ es) (ground (arith, size-kept)) n.contiguous))
    ]

    saved-merged :
        ((merged im e.index (e ∷ es)).marker_index ≤ (merged im e.index (e ∷ es)).saved_to + 1)
        × ((merged im e.index (e ∷ es)).saved_to < e.index)
        × (1 ≤ (merged im e.index (e ∷ es)).marker_index)
        × ((merged im e.index (e ∷ es)).marker_index ≤ e.index)
    unfolding min
    saved-merged = ground (arith, v.saved_from, v.positive, n.positive)

    merged-not-empty : (merged im e.index (e ∷ es)).entries ≢ []
    merged-not-empty h = omega (arith, ap length h, size-merged, saved-merged.3)

    merged-IsValid : IsValid (merged im e.index (e ∷ es))
    merged-IsValid = record {
      contiguous = merged-Contiguous;
      positive = saved-merged.2;
      fits = omega (arith, size-merged, n.fits);
      saved_from = saved-merged.0;
      saved_upto = omega (arith, saved-merged.1, size-merged);
      snapshot_below = λ ss _ empty. absurd (merged-not-empty empty);
    }

    -- Where new entries without a hole, of terms that do not fall, follow on the window or overlap it, do
    -- not fall in term behind the old entry before them, and end far from the wrap of the index, merging
    -- them into a valid window returns, keeps the window valid, makes it end with the last new entry, leaves every new
    -- entry to be saved, and holds at each index of the window the new entry if there is one and the
    -- old entry below the first new one.
    pub merge_lem :
        (im' : InMemory) × (merge im (e ∷ es) ≡ ok im')
        × IsValid im'
        × (im'.marker_index + length im'.entries ≡ e.index + length (e ∷ es))
        × (im'.saved_to < e.index)
        × ((i : ℕ)
            → im'.marker_index ≤ i
            → entry_at im' i
              ≡ (if ltb i e.index then entry_at im i else get_elem? (e ∷ es) (i - e.index)))
    unfolding merge
    merge_lem = (
      merged im e.index (e ∷ es),
      rw merge_from-merged (check_marker_index-ok _ merged-Contiguous),
      merged-IsValid,
      size-merged,
      saved-merged.1,
      λ i h. ground (
        arith,
        size-kept,
        get_elem?-append (take (e.index - im.marker_index) im.entries) (e ∷ es)
            (i - im.marker_index),
        get_elem?-take (e.index - im.marker_index) im.entries (i - im.marker_index),
      ),
    )

-- `restore` leaves the empty window behind the snapshot, with the snapshot's term below it.
pub restore-IsValid :
    (im : InMemory) (ss : Snapshot) → ss.index + 1 < 2 ^ 64 → IsValid (restore im ss)
unfolding restore
restore-IsValid im ss h = record {
  contiguous = tt;
  positive = omega arith;
  fits = omega arith;
  saved_from = omega arith;
  saved_upto = omega arith;
  snapshot_below = λ t e _. ground arith;
}
