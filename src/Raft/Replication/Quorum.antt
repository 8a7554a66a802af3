-- ===== src/Raft/Replication/Quorum.antt =====
-- Which index a leader commits, in internal/raft/raft.go: `sortMatchValues` and `tryCommit`.
use dragonboat.Prelude.{
  ℕ, zero, suc, ◌+◌, ◌-◌, ◌/◌, ◌≤◌, ◌<◌, ◌≡◌, refl, ap, subst, ◌⊎◌, inl, inr, true, some, List, [],
  ◌∷◌, arith, leb, if◌then◌else◌, Bool-cases, length, get_elem?, get_elem?-some, All, Map, Outcome,
  ok, bind-eq-ok,
}
use dragonboat.Raft.Remote.{Remote}
use dragonboat.Raft.EntryLog
use dragonboat.Raft.EntryLog.{EntryLog, Fetched, fetched, failed, LogError, term}
use dragonboat.Raft.EntryLog.Commit.{try_commit_lem}
use dragonboat.Raft.Node.{Raft, quorum}
use dragonboat.Raft.Replication.{
  insert_sorted, sort_slice, bubble_sort, sort_match_values, match_values, commit_candidate,
  try_commit,
}

-- How many values are at least `q`: for match values, how many nodes have the log up to `q`.
abbrev pub at_least : ℕ → List ℕ → ℕ
at_least q [] = 0
at_least q (x ∷ xs) = (if leb q x then 1 else 0) + at_least q xs

abbrev pub IsSorted : List ℕ → Type 0
IsSorted [] = Unit
IsSorted (x ∷ xs) = All (λ y. x ≤ y) xs × IsSorted xs

All-insert_sorted :
    (b x : ℕ) (ys : List ℕ) → b ≤ x → All (λ y. b ≤ y) ys → All (λ y. b ≤ y) (insert_sorted x ys)
unfolding insert_sorted
All-insert_sorted b x [] h a = (h, tt)
All-insert_sorted b x (y ∷ ys) h a = elim (Bool-cases (leb x y)) [
  | inl e ↦ rw (e, insert_sorted) (h, a)
  | inr e ↦ rw (e, insert_sorted) (a.0, All-insert_sorted b x ys h a.1)
]

All-weaken : (b c : ℕ) (ys : List ℕ) → b ≤ c → All (λ y. c ≤ y) ys → All (λ y. b ≤ y) ys
All-weaken b c [] h a = tt
All-weaken b c (y ∷ ys) h a = (omega (arith, a.0), All-weaken b c ys h a.1)

insert_sorted-IsSorted : (x : ℕ) (ys : List ℕ) → IsSorted ys → IsSorted (insert_sorted x ys)
unfolding insert_sorted
insert_sorted-IsSorted x [] s = (tt, tt)
insert_sorted-IsSorted x (y ∷ ys) s = elim (Bool-cases (leb x y)) [
  | inl e ↦ rw (e, insert_sorted) ((ground arith, All-weaken x y ys (ground arith) s.0), s)
  | inr e ↦
      rw (e, insert_sorted)
        (All-insert_sorted y x ys (ground arith) s.0, insert_sorted-IsSorted x ys s.1)
]

sort_slice-IsSorted : (xs : List ℕ) → IsSorted (sort_slice xs)
unfolding sort_slice
sort_slice-IsSorted [] = tt
sort_slice-IsSorted (x ∷ xs) = insert_sorted-IsSorted x (sort_slice xs) (sort_slice-IsSorted xs)

at_least-insert_sorted :
    (q x : ℕ) (ys : List ℕ) → at_least q (insert_sorted x ys) ≡ at_least q (x ∷ ys)
unfolding insert_sorted
at_least-insert_sorted q x [] = refl
at_least-insert_sorted q x (y ∷ ys) = ground (arith, at_least-insert_sorted q x ys)

at_least-sort_slice : (q : ℕ) (xs : List ℕ) → at_least q (sort_slice xs) ≡ at_least q xs
unfolding sort_slice
at_least-sort_slice q [] = refl
at_least-sort_slice q (x ∷ xs) =
    ground (arith, at_least-insert_sorted q x (sort_slice xs), at_least-sort_slice q xs)

length-insert_sorted : (x : ℕ) (ys : List ℕ) → length (insert_sorted x ys) ≡ length ys + 1
unfolding insert_sorted
length-insert_sorted x [] = refl
length-insert_sorted x (y ∷ ys) = ground (arith, length-insert_sorted x ys)

length-sort_slice : (xs : List ℕ) → length (sort_slice xs) ≡ length xs
unfolding sort_slice
length-sort_slice [] = refl
length-sort_slice (x ∷ xs) =
    omega (arith, length-insert_sorted x (sort_slice xs), length-sort_slice xs)

-- The unrolled bubble sort of three values and the general sort agree: a list in order with the same
-- values as often, for any number of nodes.
pub sort_match_values_lem :
    (xs : List ℕ)
    → IsSorted (sort_match_values xs)
      × (length (sort_match_values xs) ≡ length xs)
      × ((q : ℕ) → at_least q (sort_match_values xs) ≡ at_least q xs)
unfolding sort_match_values bubble_sort
sort_match_values_lem (a ∷ b ∷ c ∷ []) = (ground arith, ground arith, λ q. ground arith)
sort_match_values_lem xs =
    (sort_slice-IsSorted xs, length-sort_slice xs, λ q. at_least-sort_slice q xs)

at_least-All : (q : ℕ) (xs : List ℕ) → All (λ y. q ≤ y) xs → at_least q xs ≡ length xs
at_least-All q [] a = refl
at_least-All q (x ∷ xs) a = ground (arith, at_least-All q xs a.1)

at_least-le : (q : ℕ) (xs : List ℕ) → at_least q xs ≤ length xs
at_least-le q [] = omega arith
at_least-le q (x ∷ xs) = ground (arith, at_least-le q xs)

le-get_elem? :
    (b : ℕ) (xs : List ℕ) (i q : ℕ) → All (λ y. b ≤ y) xs → get_elem? xs i ≡ some q → b ≤ q
le-get_elem? b [] i q a h = ground arith
le-get_elem? b (x ∷ xs) zero q a h = ground arith
le-get_elem? b (x ∷ xs) (suc i) q a h = le-get_elem? b xs i q a.1 h

-- In a sorted list the value at `i` is reached by all from `i` on, and a larger one by fewer.
rank :
    (xs : List ℕ) (i q : ℕ) → IsSorted xs → get_elem? xs i ≡ some q → length xs ≤ at_least q xs + i
rank [] i q s h = ground arith
rank (x ∷ xs) zero q s h =
    let e : x ≡ q = ground arith in
    ground (arith, at_least-All q xs (subst (λ b. All (λ y. b ≤ y) xs) e s.0))
rank (x ∷ xs) (suc i) q s h = ground (arith, rank xs i q s.1 h)

rank_above :
    (xs : List ℕ) (i q p : ℕ)
    → IsSorted xs
    → get_elem? xs i ≡ some q
    → q < p
    → at_least p xs + i < length xs
rank_above [] i q p s h lt = ground arith
rank_above (x ∷ xs) zero q p s h lt = ground (arith, at_least-le p xs)
rank_above (x ∷ xs) (suc i) q p s h lt =
    ground (arith, rank_above xs i q p s.1 h lt, le-get_elem? x xs i q s.0 h)

length-match_values : (m : Map Remote) → length (match_values m) ≡ length m
length-match_values [] = refl
length-match_values (e ∷ m) = ap suc (length-match_values m)

candidate_lem :
    (r : Raft) (q : ℕ)
    → commit_candidate r ≡ ok q
    → (quorum r ≤ at_least q (match_values r.remotes))
      × ((p : ℕ) → q < p → at_least p (match_values r.remotes) < quorum r)
unfolding commit_candidate quorum
candidate_lem r q h =
    let matches = match_values r.remotes in
    let (sorted, size, same) = sort_match_values_lem matches in
    let n = length r.remotes in
    let found : get_elem? (sort_match_values matches) (n - (n / 2 + 1)) ≡ some q = ground arith in
    (
      omega (
        arith,
        rank (sort_match_values matches) (n - (n / 2 + 1)) q sorted found,
        same q,
        size,
        length-match_values r.remotes,
        enough,
      ),
      λ p lt. omega (
        arith,
        rank_above (sort_match_values matches) (n - (n / 2 + 1)) q p sorted found lt,
        same p,
        size,
        length-match_values r.remotes,
        enough,
      ),
    )
  where
    enough : length r.remotes / 2 + 1 ≤ length r.remotes
    enough = ground arith

candidate_exists : (r : Raft) → 0 < length r.remotes → (q : ℕ) × (commit_candidate r ≡ ok q)
unfolding commit_candidate quorum
candidate_exists r some_member =
    let matches = match_values r.remotes in
    let sorted = sort_match_values matches in
    let n = length r.remotes in
    let (q, found) = get_elem?-some sorted (n - (n / 2 + 1)) (
      omega
        (arith, some_member, (sort_match_values_lem matches).1, length-match_values r.remotes)) in
    (q, ground arith)

-- Whenever there is a member there is a candidate, and it is the largest index that a quorum of the
-- members is known to have: at least a quorum has it, and fewer than a quorum have any larger one.
pub commit_candidate_lem :
    (r : Raft)
    → 0 < length r.remotes
    → (q : ℕ) × (commit_candidate r ≡ ok q)
      × (quorum r ≤ at_least q (match_values r.remotes))
      × ((p : ℕ) → q < p → at_least p (match_values r.remotes) < quorum r)
commit_candidate_lem r some_member =
    let (q, found) = candidate_exists r some_member in
    let (enough, most) = candidate_lem r q found in (q, found, enough, most)

-- When a leader commits, it commits an entry of its own term that at least a quorum of the members
-- have, above the old commit index and within its log, and commits nothing above it. (A term of 0,
-- which no leader has, would also match a compacted entry.)
pub try_commit-quorum :
    (r r' : Raft)
    → 0 < r.term
    → try_commit r ≡ ok (r', true)
    → (r.log.committed < r'.log.committed)
      × (r'.log.committed ≤ EntryLog.last_index r.log)
      × (term r.log r'.log.committed ≡ ok (fetched r.term))
      × (quorum r ≤ at_least r'.log.committed (match_values r.remotes))
      × ((p : ℕ) → r'.log.committed < p → at_least p (match_values r.remotes) < quorum r)
unfolding try_commit
try_commit-quorum r r' pos h =
    let (q, candidate, rest) = bind-eq-ok (commit_candidate r) _ h in
    let (p, tried, done) = bind-eq-ok (EntryLog.try_commit r.log q r.term) _ rest in
    let (yes_case, no_case) = try_commit_lem r.log p.0 q r.term p.1 tried in
    let (moved, above, within, at) = yes_case (ground arith) in
    let e : r'.log.committed ≡ q = ground arith in
    let (enough, most) = candidate_lem r q candidate in
    (
      omega arith,
      omega arith,
      rw e (own_term (term r.log q) at),
      rw e enough,
      λ k lt. most k (omega arith),
    )
  where
    own_term :
        (found : Outcome (Fetched ℕ))
        → (found ≡ ok (fetched r.term)) ⊎ ((found ≡ ok (failed LogError.compacted)) × (r.term ≡ 0))
        → found ≡ ok (fetched r.term)
    own_term found (inl e) = e
    own_term found (inr (_, zero_term)) = absurd (omega arith)
