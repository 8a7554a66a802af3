-- ===== src/Logdb/LogReader/Range.antt =====
-- internal/logdb/logreader.go: the range of the log reader under the calls that move it.
use dragonboat.Prelude.{ℕ, ◌+◌, ◌-◌, ◌^◌, ◌≤◌, ◌<◌, ◌≡◌, refl, none, arith, ltb, if◌then◌else◌, ok}
use dragonboat.Logdb.LogReader.{
  LogReader, Store, first_index, last_index, extend, set_range, compact,
}

-- The marker counts as one entry, and no index wraps around.
pub record IsValid (lr : LogReader) : Type 0 where
  pub marked : 1 ≤ lr.length
  pub fits : lr.marker_index + lr.length < 2 ^ 64

pub last_index_lem : (lr : LogReader) → IsValid lr → last_index lr + 1 ≡ lr.marker_index + lr.length
unfolding last_index
last_index_lem lr v = ground (arith, v.marked, v.fits)

-- A range of entries that leaves no gap and stays below 2 ^ 64 is taken without a panic. It never moves the
-- first index, and the last index becomes that of the range, also when this is lower, unless the whole
-- range lies below the first index.
pub set_range_lem :
    (lr : LogReader) (first n : ℕ)
    → IsValid lr
    → 0 < n
    → first + n < 2 ^ 64
    → first ≤ last_index lr + 1
    → (lr' : LogReader) × (set_range lr first n ≡ ok lr')
      × IsValid lr'
      × (first_index lr' ≡ first_index lr)
      × (last_index lr'
          ≡ (if ltb (first + n) (first_index lr + 1) then last_index lr else first + n - 1))
unfolding set_range extend first_index last_index
set_range_lem lr first n v positive fits near =
    let behind = ltb (first + n) (lr.marker_index + 2) in
    (
      record lr { length = if behind then lr.length else first + n - lr.marker_index },
      ground (arith, v.marked, v.fits),
      record { marked = ground (arith, v.marked, v.fits); fits = ground (arith, v.marked, v.fits) },
      refl,
      ground (arith, v.marked, v.fits),
    )

pub compact_lem :
    (db : Store) (lr : LogReader) (index : ℕ)
    → IsValid lr
    → IsValid (compact db lr index).1
      × (last_index (compact db lr index).1 ≡ last_index lr)
      × ((compact db lr index).0 ≡ none → first_index (compact db lr index).1 ≡ index + 1)
unfolding compact first_index last_index
compact_lem db lr index v = (
  record { marked = ground (arith, v.marked, v.fits); fits = ground (arith, v.marked, v.fits) },
  ground (arith, v.marked, v.fits),
  ground (arith, v.marked, v.fits),
)
