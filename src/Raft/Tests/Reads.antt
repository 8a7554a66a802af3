-- ===== src/Raft/Tests/Reads.antt =====
-- Runs of internal/raft/readindex.go, and the theorems on it, at concrete inputs.
use dragonboat.Prelude.{ℕ, ◌≡◌, refl, ◌⊎◌, List, [], ◌∷◌, arith, ok, ◌>>=◌}
use dragonboat.Pb.{SystemCtx}
use dragonboat.Raft.ReadIndex
use dragonboat.Raft.ReadIndex.{ReadStatus, ReadIndex, lookup}
use dragonboat.Raft.ReadIndex.Pending.{IsValid}
use dragonboat.Raft.ReadIndex.Confirm.{Waits, Releases, confirm_lem}

abbrev ctx : ℕ → SystemCtx
ctx n = record { low = n; high = 7 }

abbrev request : ℕ → ℕ → List ℕ → ReadStatus
request n index confirmed = record { index = index; from = 1; ctx = ctx n; confirmed = confirmed }

-- Two reads wait; node 2 has confirmed the second one.
abbrev waiting : ReadIndex
waiting = record {
  pending = (ctx 1, request 1 4 []) ∷ (ctx 2, request 2 5 (2 ∷ [])) ∷ [];
  queue = ctx 1 ∷ ctx 2 ∷ [];
}

waiting-IsValid : IsValid waiting
waiting-IsValid = record {
  in_queue = refl;
  ordered = (refl, refl, (omega arith, tt), (refl, refl, tt, tt));
}

-- Node 3 confirms it as well, which is enough in a cluster of five.
released :
    ReadIndex.confirm waiting (ctx 2) 3 3
    ≡ ok (
      record { pending = []; queue = [] },
      record (request 1 5 []) { index = 5 } ∷ request 2 5 (2 ∷ 3 ∷ []) ∷ [],
    )
unfolding ReadIndex.confirm ReadIndex.collect ReadIndex.release ReadIndex.remove_all ◌>>=◌
released = refl

confirm_lem_example :
    (p : ReadIndex × List ReadStatus) × (ReadIndex.confirm waiting (ctx 2) 3 3 ≡ ok p)
    × IsValid p.0
    × (Waits waiting (ctx 2) 3 3 p ⊎ Releases waiting (ctx 2) 3 3 p)
confirm_lem_example = confirm_lem waiting (ctx 2) 3 3 waiting-IsValid
