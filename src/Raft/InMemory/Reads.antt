-- ===== src/Raft/InMemory/Reads.antt =====
-- What the reads of internal/raft/inmemory.go return on a valid window.
use dragonboat.Prelude.{
  ℕ, ◌+◌, ◌-◌, ◌≤◌, ◌<◌, ◌≡◌, inl, inr, Option, none, some, List, arith, ltb, leb, if◌then◌else◌,
  Bool-cases, Option-cases, length, get_elem?, take, drop, last?, length-drop, length-take_le,
  get_elem?-drop, get_elem?-take, get_elem?-none, get_elem?-some, last?-none, ok, ◌>>=◌,
}
use dragonboat.Pb.{Entry}
use dragonboat.Raft.InMemory.{
  InMemory, get_entries, get_last_index, get_term, term_upto, snapshot_term, entries_to_save,
}
use dragonboat.Raft.InMemory.Window.{IsValid, entry_at, index-last?}

module _ (im : InMemory) (v : IsValid im) where
  -- Within the window `getEntries` returns the entries of [low, high), in order and none missing;
  -- outside it, it panics.
  pub get_entries_lem :
      (low high : ℕ)
      → low ≤ high
      → im.marker_index ≤ low
      → high ≤ im.marker_index + length im.entries
      → (es : List Entry) × (get_entries im low high ≡ ok es)
        × (length es ≡ high - low)
        × ((k : ℕ) → k < high - low → get_elem? es k ≡ entry_at im (low + k))
  unfolding get_entries
  get_entries_lem low high a b c = (
    take (high - low) (drop (low - im.marker_index) im.entries),
    ground arith,
    omega (
      arith,
      length-take_le (high - low) (drop (low - im.marker_index) im.entries),
      length-drop (low - im.marker_index) im.entries,
    ),
    λ k h. ground (
      arith,
      get_elem?-take (high - low) (drop (low - im.marker_index) im.entries) k,
      get_elem?-drop (low - im.marker_index) im.entries k,
    ),
  )

  -- The answer of `getTerm`, by an independent description.
  abbrev pub known_term : ℕ → Option ℕ
  known_term index =
      if ltb index im.marker_index
      then snapshot_term im.snapshot index
      else elim (entry_at im index) [ some e ↦ some e.term | none ↦ none ]

  term_upto_lem :
      (index : ℕ)
      → im.marker_index ≤ index
      → term_upto im (get_last_index im) index ≡ ok (known_term index)
  unfolding get_last_index ◌>>=◌
  term_upto_lem index h = elim (Option-cases (last? im.entries)) [
    | inl e ↦ elim (Option-cases im.snapshot) [
      | inl s ↦ ground (arith, last?-none im.entries e)
      | inr (ss, s) ↦
          ground (arith, last?-none im.entries e, v.snapshot_below ss s (last?-none im.entries e))
    ]
    | inr (l, e) ↦ elim (Bool-cases (leb index l.index)) [
      | inl below ↦
          let (x, found) =
            get_elem?-some im.entries (index - im.marker_index)
              (ground (arith, index-last? im.marker_index im.entries v.contiguous e)) in
          ground arith
      | inr above ↦ ground (
        arith,
        get_elem?-none im.entries (index - im.marker_index),
        index-last? im.marker_index im.entries v.contiguous e,
      )
    ]
  ]

  -- `getTerm` never panics on a valid window: it answers with the term of the entry that the window
  -- holds, with the snapshot's term at the snapshot's index below it, and with nothing elsewhere.
  pub get_term_lem : (index : ℕ) → get_term im index ≡ ok (known_term index)
  unfolding get_term
  get_term_lem index = elim (Bool-cases (ltb index im.marker_index)) [
    | inl b ↦ ground arith
    | inr a ↦ ground (arith, term_upto_lem index)
  ]

  -- The entries to save are those above `savedTo` and no other: an entry of the window above it is
  -- among them, at its place, and there are as many as indices above it.
  pub entries_to_save_lem :
      (length (entries_to_save im) + im.saved_to + 1 ≡ im.marker_index + length im.entries)
      × ((k : ℕ) → get_elem? (entries_to_save im) k ≡ entry_at im (im.saved_to + 1 + k))
  unfolding entries_to_save
  entries_to_save_lem = (
    ground (arith, length-drop (im.saved_to + 1 - im.marker_index) im.entries),
    λ k. ground (arith, get_elem?-drop (im.saved_to + 1 - im.marker_index) im.entries k),
  )
