-- ===== src/Requests/Proposals/Tables.antt =====
-- proposalShard of requests.go: how often a key stands in the table of waiting requests and among what
-- requests have been told.
use dragonboat.Prelude.{
  ℕ, ◌+◌, ◌≡◌, refl, inl, inr, false, none, some, List, [], ◌∷◌, ◌++◌, arith, ltb, ◌==◌,
  if◌then◌else◌, Bool-cases, Map, get, has_key, put, delete, keys, get-delete, has_key-put,
  has_key-delete, has_key-get,
}
use dragonboat.Requests.{RequestResult, RequestState}
use dragonboat.Requests.Proposals.{expired, tell_timeout, terminate_all, delete_keys}

-- Each request stands under its own key, once.
abbrev pub IsTable : Map RequestState → Type 0
IsTable [] = Unit
IsTable ((k, r) ∷ m) = (r.key ≡ k) × (has_key m k ≡ false) × IsTable m

-- How many results requests with the key have been told.
abbrev pub count : ℕ → List (RequestState × RequestResult) → ℕ
count k [] = 0
count k ((r, x) ∷ told) = (if r.key == k then 1 else 0) + count k told

-- How many requests wait under the key.
abbrev pub present : ℕ → Map RequestState → ℕ
present k m = if has_key m k then 1 else 0

pub count-append :
    (k : ℕ) (xs ys : List (RequestState × RequestResult))
    → count k (xs ++ ys) ≡ count k xs + count k ys
count-append k [] ys = omega arith
count-append k ((r, x) ∷ xs) ys = ground (arith, count-append k xs ys)

pub put-IsTable :
    (m : Map RequestState) (k : ℕ) (r : RequestState) → r.key ≡ k → IsTable m → IsTable (put m k r)
put-IsTable [] k r own t = (own, refl, tt)
put-IsTable ((j, s) ∷ m) k r own (own', once, t) = elim (Bool-cases (j == k)) [
  | inl same ↦ rw same (ground arith, once, t)
  | inr other ↦ rw other (own', ground (arith, has_key-put m k j r), put-IsTable m k r own t)
]

pub delete-IsTable : (m : Map RequestState) (k : ℕ) → IsTable m → IsTable (delete m k)
delete-IsTable [] k t = tt
delete-IsTable ((j, s) ∷ m) k (own, once, t) = elim (Bool-cases (j == k)) [
  | inl same ↦ rw same (delete-IsTable m k t)
  | inr other ↦ rw other (own, ground (arith, has_key-delete m k j), delete-IsTable m k t)
]

pub delete_keys-IsTable :
    (ks : List ℕ) (m : Map RequestState) → IsTable m → IsTable (delete_keys ks m)
unfolding delete_keys
delete_keys-IsTable [] m t = t
delete_keys-IsTable (k ∷ ks) m t = delete_keys-IsTable ks (delete m k) (delete-IsTable m k t)

pub get-key :
    (m : Map RequestState) (k : ℕ) (r : RequestState) → IsTable m → get m k ≡ some r → r.key ≡ k
get-key [] k r t e = cc
get-key ((j, s) ∷ m) k r (own, once, t) e = elim (Bool-cases (j == k)) [
  | inl same ↦ ground arith
  | inr other ↦ get-key m k r t (ground arith)
]

pub present-delete :
    (m : Map RequestState) (k j : ℕ) → present j (delete m k) ≡ (if k == j then 0 else present j m)
present-delete m k j = ground (arith, has_key-delete m k j)

pub count-terminate_all :
    (m : Map RequestState) (k : ℕ) → IsTable m → count k (terminate_all m) ≡ present k m
unfolding terminate_all
count-terminate_all [] k t = refl
count-terminate_all ((j, s) ∷ m) k (own, once, t) = ground (arith, count-terminate_all m k t)

has_key-expired :
    (m : Map RequestState) (now k : ℕ) → has_key m k ≡ false → has_key (expired m now) k ≡ false
unfolding expired
has_key-expired [] now k h = refl
has_key-expired ((j, s) ∷ m) now k h = ground (arith, has_key-expired m now k (ground arith))

expired-IsTable : (m : Map RequestState) (now : ℕ) → IsTable m → IsTable (expired m now)
unfolding expired
expired-IsTable [] now t = tt
expired-IsTable ((j, s) ∷ m) now (own, once, t) = elim (Bool-cases (ltb s.deadline now)) [
  | inl late ↦ rw late (own, has_key-expired m now j once, expired-IsTable m now t)
  | inr early ↦ rw early (expired-IsTable m now t)
]

count-tell_timeout :
    (m : Map RequestState) (k : ℕ) → IsTable m → count k (tell_timeout m) ≡ present k m
unfolding tell_timeout
count-tell_timeout [] k t = refl
count-tell_timeout ((j, s) ∷ m) k (own, once, t) = ground (arith, count-tell_timeout m k t)

present-delete_keys :
    (e m : Map RequestState) (k : ℕ)
    → present k (delete_keys (keys e) m) ≡ (if has_key e k then 0 else present k m)
unfolding delete_keys
present-delete_keys [] m k = refl
present-delete_keys ((j, s) ∷ e) m k =
    ground (arith, present-delete_keys e (delete m j) k, present-delete m j k)

-- What `gcAt` tells and what it keeps waiting make up what was waiting.
pub expired-balance :
    (m : Map RequestState) (now k : ℕ)
    → IsTable m
    → count k (tell_timeout (expired m now)) + present k (delete_keys (keys (expired m now)) m)
      ≡ present k m
expired-balance m now k t = ground (
  arith,
  count-tell_timeout (expired m now) k (expired-IsTable m now t),
  present-delete_keys (expired m now) m k,
  has_key-expired m now k,
)

pub get-delete_keys :
    (e m : Map RequestState) (k : ℕ)
    → get (delete_keys (keys e) m) k ≡ (if has_key e k then none else get m k)
unfolding delete_keys
get-delete_keys [] m k = refl
get-delete_keys ((j, s) ∷ e) m k =
    ground (arith, get-delete_keys e (delete m j) k, get-delete m j k)

-- Under a key stands what is past its deadline.
pub get-expired :
    (m : Map RequestState) (now k : ℕ) (r : RequestState)
    → IsTable m
    → get m k ≡ some r
    → get (expired m now) k ≡ (if ltb r.deadline now then some r else none)
unfolding expired
get-expired [] now k r t h = cc
get-expired ((j, s) ∷ m) now k r (own, once, t) h = elim (Bool-cases (j == k)) [
  | inl same ↦ ground (arith, has_key-expired m now k (ground arith), has_key-get (expired m now) k)
  | inr other ↦ ground (arith, get-expired m now k r t (ground arith))
]
