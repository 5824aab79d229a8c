-- ===== src/Store/Order.antt =====
-- The order of the keys, and look-ups after an insertion: vls-persist/src/kvv/memory.rs.
use mathlib.Core.Path.{subst}
use validating_lightning_sig.Common.{
  Bool-cases, ℕ, ◌≡◌, refl, inl, inr, true, false, some, List, [], ◌∷◌, arith, if◌then◌else◌,
}
use validating_lightning_sig.Store.{Key, Entry, Map, bytes_eq, key_lt, get, map_insert}

pub bytes_eq_refl : (xs : List ℕ) → bytes_eq xs xs ≡ true
unfolding bytes_eq
bytes_eq_refl [] = refl
bytes_eq_refl (x ∷ xs) = ground (arith, bytes_eq_refl xs)

pub bytes_eq→eq : (xs ys : List ℕ) → bytes_eq xs ys ≡ true → xs ≡ ys
unfolding bytes_eq
bytes_eq→eq [] [] h = refl
bytes_eq→eq [] (y ∷ ys) h = ground arith
bytes_eq→eq (x ∷ xs) [] h = ground arith
bytes_eq→eq (x ∷ xs) (y ∷ ys) h = ground (arith, bytes_eq→eq xs ys)

pub key_lt_trans : (a b c : Key) → key_lt a b ≡ true → key_lt b c ≡ true → key_lt a c ≡ true
unfolding key_lt
key_lt_trans a b [] h k = ground arith
key_lt_trans a [] (z ∷ c) h k = absurd (ground arith)
key_lt_trans [] (y ∷ b) (z ∷ c) h k = refl
key_lt_trans (x ∷ a) (y ∷ b) (z ∷ c) h k = ground (arith, key_lt_trans a b c)

-- Two keys are equal, or one comes first.
pub key_cases : (a b : Key) → bytes_eq a b ≡ false → key_lt b a ≡ false → key_lt a b ≡ true
unfolding key_lt bytes_eq
key_cases [] [] e h = ground arith
key_cases [] (y ∷ b) e h = refl
key_cases (x ∷ a) [] e h = ground arith
key_cases (x ∷ a) (y ∷ b) e h = ground (arith, key_cases a b)

-- Every key of the map comes after `low`.
unfoldable pub Above : Key → Map → Type 0
Above low [] = Unit {0}
Above low ((k, e) ∷ entries) = (key_lt low k ≡ true) × Above k entries

-- The keys come in their order.
unfoldable pub Sorted : Map → Type 0
unfolding Above
Sorted [] = Unit {0}
Sorted ((k, e) ∷ entries) = Above k entries

map_insert-Above :
    (low : Key) (entries : Map) (key : Key) (entry : Entry)
    → key_lt low key ≡ true
    → Above low entries
    → Above low (map_insert entries key entry)
unfolding Above map_insert
map_insert-Above low [] key entry h s = (h, tt)
map_insert-Above low ((k, e) ∷ entries) key entry h (lo, s) = elim (Bool-cases (bytes_eq k key)) [
  | inl same ↦ rw same (h, subst (λ j. Above j entries) (bytes_eq→eq k key same) s)
  | inr other ↦ elim (Bool-cases (key_lt key k)) [
    | inl before ↦ rw other (rw before (h, (before, s)))
    | inr after ↦
        rw other
          (rw after (lo, map_insert-Above k entries key entry (key_cases k key other after) s))
  ]
]

pub map_insert-Sorted :
    (entries : Map) (key : Key) (entry : Entry)
    → Sorted entries
    → Sorted (map_insert entries key entry)
unfolding Sorted map_insert Above
map_insert-Sorted [] key entry s = tt
map_insert-Sorted ((k, e) ∷ entries) key entry s = elim (Bool-cases (bytes_eq k key)) [
  | inl same ↦ rw same (subst (λ j. Above j entries) (bytes_eq→eq k key same) s)
  | inr other ↦ elim (Bool-cases (key_lt key k)) [
    | inl before ↦ rw other (rw before (before, s))
    | inr after ↦
        rw other (rw after (map_insert-Above k entries key entry (key_cases k key other after) s))
  ]
]

pub get-map_insert :
    (entries : Map) (key : Key) (entry : Entry) (k : Key)
    → get (map_insert entries key entry) k ≡ (if bytes_eq key k then some entry else get entries k)
unfolding get map_insert
get-map_insert [] key entry k = refl
get-map_insert ((j, e) ∷ entries) key entry k = ground (
  arith,
  get-map_insert entries key entry k,
  bytes_eq→eq j key,
  bytes_eq→eq key k,
  bytes_eq→eq j k,
)
