-- ===== src/Store.antt =====
-- The versioned key-value store in memory: vls-persist/src/kvv/memory.rs. A `BTreeMap` is the list of
-- its entries in the order of the keys; a key is its string's bytes, in whose order strings compare.
-- The mutex is held for the whole of every call.
pub mod Order
pub mod Versions
pub mod Prefix
pub mod Tests
use validating_lightning_sig.Common.{
  ℕ, Bool, true, false, not, ◌&&◌, ◌||◌, Option, none, some, List, [], ◌∷◌, ltb, ◌==◌,
  if◌then◌else◌, u64_add, Outcome, ok, err, ◌>>◌, map,
}

abbrev pub Key : Type 0
Key = List ℕ

-- A version and the bytes of a value.
abbrev pub Entry : Type 0
Entry = ℕ × List ℕ

abbrev pub Map : Type 0
Map = List (Key × Entry)

pub data Error : Type 0 where
  version_mismatch : Error

unfoldable pub bytes_eq : List ℕ → List ℕ → Bool
bytes_eq [] [] = true
bytes_eq (a ∷ xs) (b ∷ ys) = a == b && bytes_eq xs ys
bytes_eq _ _ = false

-- The order of strings.
unfoldable pub key_lt : Key → Key → Bool
key_lt xs [] = false
key_lt [] (b ∷ ys) = true
key_lt (a ∷ xs) (b ∷ ys) = ltb a b || (a == b && key_lt xs ys)

unfoldable pub get : Map → Key → Option Entry
unfolding bytes_eq
get [] key = none
get ((k, e) ∷ entries) key = let rest = get entries key in if bytes_eq k key then some e else rest

-- `BTreeMap::insert`
unfoldable pub map_insert : Map → Key → Entry → Map
unfolding bytes_eq key_lt
map_insert [] key entry = (key, entry) ∷ []
map_insert ((k, e) ∷ entries) key entry =
    let rest = map_insert entries key entry in
    if bytes_eq k key
    then (key, entry) ∷ entries
    else if key_lt key k
    then (key, entry) ∷ (k, e) ∷ entries
    else (k, e) ∷ rest

-- The tests that `put_with_version` and `put_batch` make against the stored entry.
unfoldable pub check_version : Option Entry → Entry → Outcome Error (Unit {0})
unfolding bytes_eq
check_version none entry = ok tt
check_version (some (ver, val)) (version, value) =
    if ltb version ver
    then err version_mismatch
    else if version == ver && not (bytes_eq val value)
    then err version_mismatch
    else ok tt

abbrev is_current : Option Entry → ℕ → Bool
is_current none version = false
is_current (some (ver, val)) version = version == ver

unfoldable pub put_with_version : Map → Key → ℕ → List ℕ → Outcome Error Map
unfolding get map_insert check_version
put_with_version entries key version value =
    check_version (get entries key) (version, value)
    >> ok (
        if is_current (get entries key) version
        then entries
        else map_insert entries key (version, value))

-- `get_version(key)?.map(|v| v + 1).unwrap_or(0)`; the addition wraps in a release build.
unfoldable pub next_version : Option Entry → ℕ
next_version none = 0
next_version (some (ver, val)) = u64_add ver 1

unfoldable pub put : Map → Key → List ℕ → Outcome Error Map
unfolding get put_with_version next_version
put entries key value = put_with_version entries key (next_version (get entries key)) value

unfoldable pub check_batch : Map → Map → Outcome Error (Unit {0})
unfolding get check_version
check_batch entries [] = ok tt
check_batch entries ((k, e) ∷ kvvs) = check_version (get entries k) e >> check_batch entries kvvs

unfoldable pub insert_batch : Map → Map → Map
unfolding map_insert
insert_batch entries [] = entries
insert_batch entries ((k, e) ∷ kvvs) = insert_batch (map_insert entries k e) kvvs

-- All the checks come before the first write.
unfoldable pub put_batch : Map → Map → Outcome Error Map
unfolding check_batch insert_batch
put_batch entries kvvs = check_batch entries kvvs >> ok (insert_batch entries kvvs)

unfoldable pub starts_with : Key → Key → Bool
starts_with key [] = true
starts_with [] (p ∷ prefix) = false
starts_with (k ∷ key) (p ∷ prefix) = k == p && starts_with key prefix

-- The loop over a range, which ends at the first key that does not match.
unfoldable pub take_prefix : Key → Map → Map
unfolding starts_with
take_prefix prefix [] = []
take_prefix prefix ((k, e) ∷ entries) =
    let rest = take_prefix prefix entries in if starts_with k prefix then (k, e) ∷ rest else []

-- `entries.range(prefix..)`
unfoldable pub range_from : Key → Map → Map
unfolding key_lt
range_from prefix [] = []
range_from prefix ((k, e) ∷ entries) =
    let rest = range_from prefix entries in if key_lt k prefix then rest else (k, e) ∷ entries

unfoldable pub get_prefix : Map → Key → Map
unfolding take_prefix range_from
get_prefix entries prefix = take_prefix prefix (range_from prefix entries)

unfoldable pub delete : Map → Key → Outcome Error Map
unfolding put
delete entries key = put entries key []

unfoldable pub clear_database : Map → Map
clear_database entries = []

unfoldable pub reset_versions : Map → Map
reset_versions [] = []
reset_versions ((k, (ver, val)) ∷ entries) = (k, (0, val)) ∷ reset_versions entries
