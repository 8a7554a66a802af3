-- ===== src/Raft/InMemory/Saving.antt =====
-- What the update calls of internal/raft/inmemory.go leave to be saved.
use dragonboat.Prelude.{
  ℕ, zero, suc, ◌+◌, ◌-◌, ◌<◌, ◌≡◌, refl, sym, ap, ◌∙◌, subst, inl, inr, true, false, Option, none,
  some, List, [], ◌∷◌, arith, ltb, if◌then◌else◌, Bool-cases, add64, sub64, length, get_elem?, drop,
  last?, length-drop, empty_of_length, last?-none, Outcome, ok, ◌>>=◌, ok-injective,
}
use dragonboat.Pb.{Entry, Snapshot, UpdateCommit, entry_or_empty, last_entry, is_some_snapshot}
use dragonboat.Raft.InMemory.{
  InMemory, entries_to_save, saved_log_to, applied_log_to, saved_snapshot_to, commit_update,
}
use dragonboat.Raft.InMemory.Window.{IsValid, index-last?}
use dragonboat.Raft.InMemory.Merge.{
  saved_log_to-IsValid, applied_log_to-cases, applied_log_to-IsValid,
}
use dragonboat.Raft.InMemory.Reads.{entries_to_save_lem}

-- Nothing is left to be saved.
abbrev pub IsSaved : InMemory → Type 0
IsSaved im = im.saved_to + 1 ≡ im.marker_index + length im.entries

last?-drop : (n : ℕ) (xs : List Entry) {e : Entry} → last? (drop n xs) ≡ some e → last? xs ≡ some e
last?-drop zero xs h = h
last?-drop (suc n) [] h = h
last?-drop (suc zero) (x ∷ []) h = cc
last?-drop (suc (suc n)) (x ∷ []) h = cc
last?-drop (suc n) (x ∷ y ∷ xs) h = last?-drop n (y ∷ xs) h

get_elem?-last? :
    (xs : List Entry) {e : Entry} → last? xs ≡ some e → get_elem? xs (length xs - 1) ≡ some e
get_elem?-last? [] h = cc
get_elem?-last? (x ∷ []) h = h
get_elem?-last? (x ∷ y ∷ xs) h = ground (arith, get_elem?-last? (y ∷ xs) h)

module _ (im : InMemory) (v : IsValid im) where
  pub entries_to_save-IsSaved : IsSaved im → entries_to_save im ≡ []
  entries_to_save-IsSaved s =
      empty_of_length (entries_to_save im) (omega (arith, (entries_to_save_lem im v).0))

  save_last :
      (e : Entry)
      → last? (entries_to_save im) ≡ some e
      → (saved_log_to im e.index e.term ≡ ok (record im { saved_to = e.index }))
        × (e.index + 1 ≡ im.marker_index + length im.entries)
  unfolding entries_to_save saved_log_to ◌>>=◌
  save_last e h =
      let k = sub64 (add64 im.saved_to 1) im.marker_index in
      elim (Bool-cases (ltb (length im.entries) k)) [
        | inl none_left ↦ cc (rw none_left at h)
        | inr some_left ↦
            let l : last? im.entries ≡ some e = last?-drop k im.entries (rw some_left at h) in
            let i = index-last? im.marker_index im.entries v.contiguous l in
            let at : get_elem? im.entries (length im.entries - 1) ≡ some e =
              get_elem?-last? im.entries l in
            let place : e.index - im.marker_index ≡ length im.entries - 1 = omega arith in
            let found : get_elem? im.entries (e.index - im.marker_index) ≡ some e =
              subst (λ (j : ℕ). get_elem? im.entries j ≡ some e) (sym place) at in
            (ground (arith, not_empty im.entries l), i)
      ]
    where
      not_empty : (xs : List Entry) → last? xs ≡ some e → 0 < length xs
      not_empty [] h = cc
      not_empty (x ∷ xs) h = omega arith

  -- Saving what is to be saved leaves nothing.
  abbrev Saves : Outcome InMemory → Type 0
  Saves m =
      (im' : InMemory) × (m ≡ ok im') × IsValid im' × IsSaved im' × (im'.snapshot ≡ im.snapshot)

  abbrev pub save : Entry → Outcome InMemory
  save e = if ltb 0 e.index then saved_log_to im e.index e.term else ok im

  pub save-Saves : Saves (save (last_entry (entries_to_save im)))
  save-Saves = go (last? (entries_to_save im)) refl
    where
      size : (xs : List Entry) {e : Entry} → last? xs ≡ some e → 0 < length xs
      size [] h = cc
      size (x ∷ xs) h = omega arith

      go : (o : Option Entry) → last? (entries_to_save im) ≡ o → Saves (save (entry_or_empty o))
      go none none_left =
          let empty : entries_to_save im ≡ [] = last?-none (entries_to_save im) none_left in
          (im, refl, v, omega (arith, ap length empty, (entries_to_save_lem im v).0), refl)
      go (some e) found =
          let (saves, i) = save_last e found in
          let pos : ltb 0 e.index ≡ true = ground (
            arith,
            v.positive,
            size (entries_to_save im) found,
            (entries_to_save_lem im v).0,
            v.saved_from,
          ) in
          (
            record im { saved_to = e.index },
            rw pos saves,
            saved_log_to-IsValid im (record im { saved_to = e.index }) e.index e.term v saves,
            i,
            refl,
          )

-- Where the snapshot that waits is to be noted.
abbrev pub snapshot_to : Option Snapshot → ℕ
snapshot_to none = 0
snapshot_to (some ss) = ss.index

module _ (im : InMemory) where
  abbrev noted : ℕ → InMemory
  noted index = if ltb 0 index then saved_snapshot_to im index else im

  noted_lem :
      IsValid im
      → IsSaved im
      → IsValid (noted (snapshot_to im.snapshot))
        × IsSaved (noted (snapshot_to im.snapshot))
        × (is_some_snapshot (noted (snapshot_to im.snapshot)).snapshot ≡ false)
  unfolding saved_snapshot_to
  noted_lem v s = go im.snapshot refl
    where
      forget : (o : Option Snapshot) → IsValid im → o ≡ none → IsValid (record im { snapshot = o })
      forget o v e = record {
        contiguous = v.contiguous;
        positive = v.positive;
        fits = v.fits;
        saved_from = v.saved_from;
        saved_upto = v.saved_upto;
        snapshot_below = λ ss h _. cc;
      }

      go :
          (o : Option Snapshot)
          → im.snapshot ≡ o
          → IsValid (noted (snapshot_to o))
            × IsSaved (noted (snapshot_to o))
            × (is_some_snapshot (noted (snapshot_to o)).snapshot ≡ false)
      go none e = (v, s, rw e refl)
      go (some ss) e = elim (Bool-cases (ltb 0 ss.index)) [
        | inl pos ↦
            let same : noted ss.index ≡ record im { snapshot = none } = ground arith in
            rw same (forget none v refl, s, refl)
        | inr zero_index ↦
            let same : noted ss.index ≡ im = ground arith in rw same (v, s, rw e (ground arith))
      ]

  -- Applying moves the start of the window and leaves nothing to be saved.
  pub applied_log_to-IsSaved :
      (index : ℕ)
      → IsValid im
      → IsSaved im
      → (im' : InMemory) × (applied_log_to im index ≡ ok im')
        × IsValid im'
        × IsSaved im'
        × (im'.snapshot ≡ im.snapshot)
  applied_log_to-IsSaved index v s = elim (applied_log_to-cases im index v) [
    | inl e ↦ (im, e, v, s, refl)
    | inr (e, above, below) ↦
        let rest : InMemory = record im {
          entries = drop (index - im.marker_index) im.entries;
          marker_index = index;
        } in
        let (im', e', v') = applied_log_to-IsValid im index v (omega arith) in
        (
          rest,
          e,
          subst IsValid (ok-injective im' rest (sym e' ∙ e)) v',
          omega (arith, length-drop (index - im.marker_index) im.entries),
          refl,
        )
  ]

module _ (im : InMemory) (v : IsValid im) where
  -- `commitUpdate`, for the entries that were to be saved and the snapshot that waited: it returns, and
  -- neither of them is left.
  pub commit_update-IsSaved :
      (cu : UpdateCommit)
      → cu.stable_log_to ≡ (last_entry (entries_to_save im)).index
      → cu.stable_log_term ≡ (last_entry (entries_to_save im)).term
      → cu.stable_snapshot_to ≡ snapshot_to im.snapshot
      → (im' : InMemory) × (commit_update im cu ≡ ok im')
        × IsValid im'
        × IsSaved im'
        × (is_some_snapshot im'.snapshot ≡ false)
  unfolding commit_update ◌>>=◌ saved_snapshot_to
  commit_update-IsSaved cu to term ss =
      let (im1, e, v1, s1, snap) = save-Saves im v in
      let (v2, s2, gone) = noted_lem im1 v1 s1 in
      let saves : (if ltb 0 cu.stable_log_to
            then saved_log_to im cu.stable_log_to cu.stable_log_term
            else ok im)
          ≡ ok im1 =
        subst
          (λ (i : ℕ). (if ltb 0 i then saved_log_to im i cu.stable_log_term else ok im) ≡ ok im1)
          (sym to)
          (subst
            (λ (t : ℕ).
              (if ltb 0 (last_entry (entries_to_save im)).index
                then saved_log_to im (last_entry (entries_to_save im)).index t
                else ok im)
              ≡ ok im1)
            (sym term) e) in
      let at : snapshot_to im1.snapshot ≡ snapshot_to im.snapshot = ap snapshot_to snap in
      (
        noted im1 (snapshot_to im1.snapshot),
        ap
              (λ (m : Outcome InMemory). m >>= λ x. ok (
                if ltb 0 cu.stable_snapshot_to
                then saved_snapshot_to x cu.stable_snapshot_to
                else x))
              saves
            ∙ ap (λ (j : ℕ). ok (noted im1 j)) (ss ∙ sym at),
        v2,
        s2,
        gone,
      )
