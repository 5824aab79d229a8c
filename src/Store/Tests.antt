-- ===== src/Store/Tests.antt =====
-- A store with two keys.
use validating_lightning_sig.Common.{◌+◌, ◌<◌, ◌≡◌, refl, some, [], ◌∷◌, arith, u64_mod, ok, err}
use validating_lightning_sig.Store.{
  Key, Entry, Map, Error, bytes_eq, key_lt, get, map_insert, check_version, put_with_version,
  next_version, put, check_batch, insert_batch, put_batch, get_prefix, delete,
}
use validating_lightning_sig.Store.Order.{Sorted, Above}
use validating_lightning_sig.Store.Versions.{Advances, put_batch-Advances}
use validating_lightning_sig.Store.Prefix.{with_prefix, get_prefix-with_prefix}

abbrev key_a : Key
key_a = 97 ∷ 47 ∷ 49 ∷ []

abbrev key_b : Key
key_b = 98 ∷ 47 ∷ 49 ∷ []

abbrev store : Map
store = (key_a, (3, 1 ∷ [])) ∷ (key_b, (0, 2 ∷ [])) ∷ []

abbrev batch : Map
batch = (key_b, (1, 9 ∷ [])) ∷ (key_a, (3, 1 ∷ [])) ∷ []

abbrev stored : Map
stored = (key_a, (3, 1 ∷ [])) ∷ (key_b, (1, 9 ∷ [])) ∷ []

accepted_batch : put_batch store batch ≡ ok stored
unfolding put_batch check_batch insert_batch check_version get map_insert bytes_eq key_lt
accepted_batch = refl

-- One stale version refuses the whole batch.
refused_batch :
    put_batch store ((key_b, (1, [])) ∷ (key_a, (2, [])) ∷ []) ≡ err Error.version_mismatch
unfolding put_batch check_batch check_version get bytes_eq
refused_batch = refl

deleted : delete store key_a ≡ ok ((key_a, (4, [])) ∷ (key_b, (0, 2 ∷ [])) ∷ [])
unfolding delete put put_with_version next_version check_version get map_insert bytes_eq
deleted = refl

store-Sorted : Sorted store
unfolding Sorted Above key_lt
store-Sorted = (refl, tt)

put_batch-Advances_example : Advances store stored
put_batch-Advances_example = put_batch-Advances store batch stored accepted_batch

low : (e : Entry) → get store key_a ≡ some e → e.0 + 1 < u64_mod
unfolding get bytes_eq
low (v, val) h = ground arith

get_prefix-with_prefix_example : get_prefix store (97 ∷ []) ≡ with_prefix (97 ∷ []) store
get_prefix-with_prefix_example = get_prefix-with_prefix store (97 ∷ []) store-Sorted
