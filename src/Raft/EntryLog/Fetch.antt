-- ===== src/Raft/EntryLog/Fetch.antt =====
-- What internal/raft/logentry.go reads: the entries that it puts together from the persistent log and
-- from memory are a contiguous part of the log.
use dragonboat.Prelude.{
  ℕ, zero, suc, ◌+◌, ◌-◌, ◌≤◌, ◌≡◌, refl, sym, ap, subst, ◌⊎◌, inl, inr, Bool, true, false, Option,
  none, some, List, [], ◌∷◌, ◌++◌, arith, ltb, leb, ◌==◌, if◌then◌else◌, Bool-cases, add64, sub64,
  length, take, drop, length-append, ok, ◌>>=◌, bind-eq-ok,
}
use dragonboat.Pb.{Entry, size_upper_limit}
use dragonboat.Raft.EntryUtils.{min, max, limit_rest, limit_size, check_entries_to_append}
use dragonboat.Raft.InMemory
use dragonboat.Raft.InMemory.{InMemory}
use dragonboat.Raft.InMemory.Window
use dragonboat.Raft.InMemory.Window.{
  Contiguous, Contiguous-of_eq, Contiguous-append, Contiguous-drop, Contiguous-take,
}
use dragonboat.Raft.EntryLog.{
  EntryLog, LogDb, LogError, Fetched, fetched, failed, last_index, from_logdb,
  get_entries_from_logdb, get_entries_from_inmem, with_inmem, get_entries, entries, check_bound,
}

-- What the log relies on: the entries of [low, high) that the persistent log returns begin at `low` and
-- are in order, and not more than that.
pub record IsLawful (db : LogDb) : Type 0 where
  pub in_order :
      (low high limit : ℕ) (es : List Entry)
      → db.entries low high limit ≡ fetched es
      → Contiguous low es

-- The window in memory ends where the log ends, and what is committed is in the log.
pub record IsValid (l : EntryLog) : Type 0 where
  pub logdb : IsLawful l.logdb
  pub inmem : Window.IsValid l.inmem
  pub joined : l.inmem.marker_index + length l.inmem.entries ≡ last_index l + 1
  pub committed_le : l.committed ≤ last_index l

-- The entries of a part of the log from `low`, not beyond `high`.
abbrev pub Within : ℕ → ℕ → List Entry → Type 0
Within low high es = Contiguous low es × ((es ≡ []) ⊎ (low + length es ≤ high))

limit_rest-take :
    (total : ℕ) (es : List Entry) (limit : ℕ) → (k : ℕ) × (limit_rest total es limit ≡ take k es)
unfolding limit_rest
limit_rest-take total [] limit = (0, refl)
limit_rest-take total (e ∷ es) limit = elim (Bool-cases (ltb limit (total + size_upper_limit e))) [
  | inl over ↦ (0, rw (over, limit_rest) refl)
  | inr fits ↦
      let (k, same) = limit_rest-take (total + size_upper_limit e) es limit in
      (suc k, rw (fits, limit_rest) (ap (◌∷◌ e) same))
]

limit_size-take : (es : List Entry) (limit : ℕ) → (k : ℕ) × (limit_size es limit ≡ take k es)
unfolding limit_size
limit_size-take [] limit = (0, refl)
limit_size-take (e ∷ es) limit =
    let (k, same) = limit_rest-take (size_upper_limit e) es limit in (suc k, ap (◌∷◌ e) same)

length-take_bound : (k : ℕ) (es : List Entry) → length (take k es) ≤ k
length-take_bound zero es = omega arith
length-take_bound (suc k) [] = omega arith
length-take_bound (suc k) (e ∷ es) = omega (arith, length-take_bound k es)

length-take-le : (k : ℕ) (es : List Entry) → length (take k es) ≤ length es
length-take-le zero es = omega arith
length-take-le (suc k) [] = omega arith
length-take-le (suc k) (e ∷ es) = omega (arith, length-take-le k es)

empty_or :
    (low high : ℕ) (es : List Entry) → length es ≤ high - low → (es ≡ []) ⊎ (low + length es ≤ high)
empty_or low high [] h = inl refl
empty_or low high (e ∷ es) h = inr (omega arith)

limit_size-Within :
    (low high : ℕ) (es : List Entry) (limit : ℕ)
    → Contiguous low es
    → length es ≤ high - low
    → Within low high (limit_size es limit)
limit_size-Within low high es limit c h =
    let (k, same) = limit_size-take es limit in
    subst (Within low high) (sym same) (
      Contiguous-take low k es c,
      empty_or low high (take k es) (omega (arith, length-take-le k es)),
    )

from_logdb_lem :
    (found : Fetched (List Entry)) (wanted : ℕ) (es : List Entry) (done : Bool)
    → from_logdb found wanted ≡ ok (fetched (es, done))
    → (found ≡ fetched es) × (length es ≤ wanted) × (done ≡ (length es == wanted))
from_logdb_lem (fetched xs) wanted es done h = ground arith
from_logdb_lem (failed LogError.compacted) wanted es done h = cc
from_logdb_lem (failed LogError.unavailable) wanted es done h = cc
from_logdb_lem (failed LogError.snapshot_out_of_date) wanted es done h = cc
from_logdb_lem (failed LogError.other) wanted es done h = cc

get_entries_lem :
    (im : InMemory) (low high : ℕ) (es : List Entry)
    → Window.IsValid im
    → InMemory.get_entries im low high ≡ ok es
    → Contiguous low es × (length es ≤ high - low)
unfolding InMemory.get_entries
get_entries_lem im low high es v h =
    let rest = drop (low - im.marker_index) im.entries in
    let e : take (high - low) rest ≡ es = ground arith in
    let above : im.marker_index ≤ low = ground arith in
    (
      subst (Contiguous low) e (
          Contiguous-take low (high - low) rest (
            Contiguous-of_eq (im.marker_index + (low - im.marker_index)) low rest (omega arith)
              (Contiguous-drop im.marker_index (low - im.marker_index) im.entries v.contiguous))),
      subst (λ (xs : List Entry). length xs ≤ high - low) e (length-take_bound (high - low) rest),
    )

module _ (l : EntryLog) (v : IsValid l) where
  -- What comes from the persistent log, and where it ends if it is all that was asked for.
  abbrev FromLogdb : ℕ → ℕ → List Entry × Bool → Type 0
  FromLogdb low high (es, done) =
      Contiguous low es
      × (length es ≤ high - low)
      × (done ≡ true
          → (low + length es
              ≡ (if leb l.inmem.marker_index low then low else min high l.inmem.marker_index)))

  get_entries_from_logdb-FromLogdb :
      (low high limit : ℕ) (es : List Entry) (done : Bool)
      → low ≤ high
      → get_entries_from_logdb l low high limit ≡ ok (fetched (es, done))
      → FromLogdb low high (es, done)
  unfolding get_entries_from_logdb min
  get_entries_from_logdb-FromLogdb low high limit es done le h =
      elim (Bool-cases (leb l.inmem.marker_index low)) [
        | inl above ↦
            let none_left : es ≡ [] = ground arith in
            (
              subst (Contiguous low) (sym none_left) tt,
              omega (arith, ap length none_left),
              λ _. ground (arith, ap length none_left),
            )
        | inr below ↦
            let upper = min high l.inmem.marker_index in
            let (found, size, all) =
              from_logdb_lem (l.logdb.entries low upper limit) (sub64 upper low) es done
                (rw (below, get_entries_from_logdb) at h) in
            (
              v.logdb.in_order low upper limit es found,
              ground (arith, v.inmem.fits),
              λ e. ground (arith, v.inmem.fits),
            )
      ]

  get_entries_from_inmem-Contiguous :
      (low high : ℕ) (es all : List Entry)
      → low ≤ high
      → FromLogdb low high (es, true)
      → get_entries_from_inmem l es low high ≡ ok all
      → Contiguous low all × (length all ≤ high - low)
  unfolding get_entries_from_inmem min max
  get_entries_from_inmem-Contiguous low high es all le f h =
      elim (Bool-cases (leb high l.inmem.marker_index)) [
        | inl below ↦
            let e : es ≡ all = ground arith in
            (
              subst (Contiguous low) e f.0,
              subst (λ (xs : List Entry). length xs ≤ high - low) e f.1,
            )
        | inr above ↦
            let (mem, got, rest) =
              bind-eq-ok (InMemory.get_entries l.inmem (max low l.inmem.marker_index) high) _
                (rw (above, get_entries_from_inmem) at h) in
            let (checked, _, done) = bind-eq-ok (check_entries_to_append es mem) _ rest in
            let e : es ++ mem ≡ all = ground arith in
            let (c, size) =
              get_entries_lem l.inmem (max low l.inmem.marker_index) high mem v.inmem got in
            let at : max low l.inmem.marker_index ≡ low + length es = ground (arith, f.2 refl) in
            (
              subst (Contiguous low) e
                  (Contiguous-append low es mem f.0 (Contiguous-of_eq _ _ mem at c)),
              subst (λ (xs : List Entry). length xs ≤ high - low) e
                  (omega (arith, at, size, length-append es mem)),
            )
      ]

  with_inmem-Within :
      (low high limit : ℕ) (found : Fetched (List Entry × Bool)) (es : List Entry)
      → low ≤ high
      → get_entries_from_logdb l low high limit ≡ ok found
      → with_inmem l low high limit found ≡ ok (fetched es)
      → Within low high es
  unfolding ◌>>=◌
  with_inmem-Within low high limit (failed err) es le g h = cc
  with_inmem-Within low high limit (fetched (xs, false)) es le g h =
      let e : xs ≡ es = cc in
      let (c, size, _) = get_entries_from_logdb-FromLogdb low high limit xs false le g in
      subst (Within low high) e (c, empty_or low high xs size)
  with_inmem-Within low high limit (fetched (xs, true)) es le g h =
      let (all, got, done) = bind-eq-ok (get_entries_from_inmem l xs low high) _ h in
      let e : limit_size all limit ≡ es = cc in
      let (c, size) =
        get_entries_from_inmem-Contiguous low high xs all le
          (get_entries_from_logdb-FromLogdb low high limit xs true le g) got in
      subst (Within low high) e (limit_size-Within low high all limit c size)

  pub get_entries-Within :
      (low high limit : ℕ) (es : List Entry)
      → get_entries l low high limit ≡ ok (fetched es)
      → Within low high es
  unfolding get_entries check_bound
  get_entries-Within low high limit es h =
      let (err, checked, rest) = bind-eq-ok (check_bound l low high) _ h in
      let le : low ≤ high = bound err checked in read err rest le
    where
      bound : (err : Option LogError) → check_bound l low high ≡ ok err → low ≤ high
      bound err h = ground arith

      read :
          (err : Option LogError)
          → (elim err [
            | some e ↦ ok (failed e)
            | none ↦
                if low == high
                then ok (fetched [])
                else (get_entries_from_logdb l low high limit >>= λ found.
                    with_inmem l low high limit found)
          ])
            ≡ ok (fetched es)
          → low ≤ high
          → Within low high es
      read (some e) h le = cc
      read none h le = elim (Bool-cases (low == high)) [
        | inl same ↦ let e : [] ≡ es = ground arith in subst (Within low high) e (tt, inl refl)
        | inr differ ↦
            let (found, got, done) =
              bind-eq-ok (get_entries_from_logdb l low high limit) _ (rw differ at h) in
            with_inmem-Within low high limit found es le got done
      ]

  -- What `entries` returns is a part of the log that begins at `start`, in order and without gaps, and
  -- does not go beyond the log's last index, wherever the persistent log and the memory meet and
  -- however the size is limited.
  pub entries_lem :
      (start limit : ℕ) (es : List Entry)
      → entries l start limit ≡ ok (fetched es)
      → Within start (last_index l + 1) es
  unfolding entries
  entries_lem start limit es h = elim (Bool-cases (ltb (last_index l) start)) [
    | inl above ↦
        let e : [] ≡ es = ground arith in subst (Within start (last_index l + 1)) e (tt, inl refl)
    | inr below ↦
        let e : add64 (last_index l) 1 ≡ last_index l + 1 =
          ground (arith, v.inmem.fits, v.joined) in
        get_entries-Within start (last_index l + 1) limit es (rw (below, e) at h)
  ]
