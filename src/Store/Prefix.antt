-- ===== src/Store/Prefix.antt =====
-- `get_prefix` of vls-persist/src/kvv/memory.rs: the walk through a range of the sorted keys.
use validating_lightning_sig.Common.{
  ◌≡◌, refl, ap, sym, inl, inr, true, false, [], ◌∷◌, arith, if◌then◌else◌, Bool-cases,
}
use validating_lightning_sig.Store.{
  Key, Map, key_lt, starts_with, take_prefix, range_from, get_prefix,
}
use validating_lightning_sig.Store.Order.{Above, Sorted, key_lt_trans}

-- Every entry whose key starts with the prefix, wherever it stands.
unfoldable pub with_prefix : Key → Map → Map
with_prefix prefix [] = []
with_prefix prefix ((k, e) ∷ entries) =
    let rest = with_prefix prefix entries in if starts_with k prefix then (k, e) ∷ rest else rest

-- A key that starts with the prefix does not come before it.
match_not_before : (k p : Key) → starts_with k p ≡ true → key_lt k p ≡ false
unfolding starts_with key_lt
match_not_before k [] h = ground arith
match_not_before [] (y ∷ p) h = absurd (ground arith)
match_not_before (x ∷ k) (y ∷ p) h = ground (arith, match_not_before k p)

-- After a key beyond the prefix no key starts with it.
beyond :
    (k j p : Key)
    → key_lt k p ≡ false
    → starts_with k p ≡ false
    → key_lt k j ≡ true
    → starts_with j p ≡ false
unfolding starts_with key_lt
beyond k j [] lo no_match after = absurd (ground arith)
beyond [] j (y ∷ p) lo no_match after = absurd (ground arith)
beyond (x ∷ k) [] (y ∷ p) lo no_match after = refl
beyond (x ∷ k) (z ∷ j) (y ∷ p) lo no_match after = ground (arith, beyond k j p)

not_before : (k j p : Key) → key_lt k p ≡ false → key_lt k j ≡ true → key_lt j p ≡ false
not_before k j p lo after = elim (Bool-cases (key_lt j p)) [
  | inl e ↦ absurd (ground (arith, key_lt_trans k j p after e))
  | inr e ↦ e
]

none_after :
    (k p : Key) (entries : Map)
    → Above k entries
    → key_lt k p ≡ false
    → starts_with k p ≡ false
    → with_prefix p entries ≡ []
unfolding Above with_prefix
none_after k p [] above lo no_match = refl
none_after k p ((j, e) ∷ entries) (after, above) lo no_match =
    let other = beyond k j p lo no_match after in
    rw other (none_after j p entries above (not_before k j p lo after) other)

take-with_prefix :
    (p : Key) (k : Key) (entries : Map)
    → key_lt k p ≡ false
    → Above k entries
    → take_prefix p entries ≡ with_prefix p entries
unfolding Above with_prefix take_prefix
take-with_prefix p k [] lo above = refl
take-with_prefix p k ((j, e) ∷ entries) lo (after, above) =
    let lo' = not_before k j p lo after in
    elim (Bool-cases (starts_with j p)) [
      | inl same ↦ rw same (ap (λ rest. (j, e) ∷ rest) (take-with_prefix p j entries lo' above))
      | inr other ↦ rw other (sym (none_after j p entries above lo' other))
    ]

before_no_match : (k p : Key) → key_lt k p ≡ true → starts_with k p ≡ false
before_no_match k p before = elim (Bool-cases (starts_with k p)) [
  | inl e ↦ absurd (ground (arith, match_not_before k p e))
  | inr e ↦ e
]

tail-Sorted : (k : Key) (entries : Map) → Above k entries → Sorted entries
unfolding Above Sorted
tail-Sorted k [] above = tt
tail-Sorted k (x ∷ entries) (after, above) = above

-- On a sorted store the walk from the prefix on, which stops at the first other key, finds
-- exactly the entries whose keys start with the prefix.
pub get_prefix-with_prefix :
    (entries : Map) (prefix : Key)
    → Sorted entries
    → get_prefix entries prefix ≡ with_prefix prefix entries
unfolding get_prefix range_from with_prefix take_prefix Sorted
get_prefix-with_prefix [] prefix sorted = refl
get_prefix-with_prefix ((k, e) ∷ entries) prefix above = elim (Bool-cases (key_lt k prefix)) [
  | inl before ↦ rw before (
      rw (before_no_match k prefix before)
        (get_prefix-with_prefix entries prefix (tail-Sorted k entries above)))
  | inr lo ↦ elim (Bool-cases (starts_with k prefix)) [
    | inl same ↦
        rw lo (rw same (ap (λ rest. (k, e) ∷ rest) (take-with_prefix prefix k entries lo above)))
    | inr other ↦ rw lo (rw other (sym (none_after k prefix entries above lo other)))
  ]
]
