-- ===== src/Store/Versions.antt =====
-- Versions of the stored values: `put`, `put_with_version` and `put_batch` of
-- vls-persist/src/kvv/memory.rs.
use mathlib.Core.Path.{subst}
use validating_lightning_sig.Common.{
  ℕ, ◌+◌, ◌<◌, ◌≡◌, refl, ap, sym, ◌∙◌, ◌⊎◌, inl, inr, false, Option, none, some, List, [], ◌∷◌,
  arith, if◌then◌else◌, u64_mod, ok, >>-eq-ok, Bool-cases,
}
use validating_lightning_sig.Store.{
  Key, Entry, Map, bytes_eq, get, map_insert, check_version, is_current, put_with_version,
  next_version, put, check_batch, insert_batch, put_batch,
}
use validating_lightning_sig.Store.Order.{bytes_eq→eq, get-map_insert, Sorted, map_insert-Sorted}

-- The entry has a later version, or is the same.
unfoldable pub Later : Entry → Entry → Type 0
Later (v, val) (v', val') = (v < v') ⊎ (v ≡ v') × (val ≡ val')

-- Every entry is still there, or a later one of its key.
pub record Advances (old new : Map) : Type 0 where
  pub at :
      (k : Key) (e : Entry) → get old k ≡ some e → (e' : Entry) × (get new k ≡ some e') × Later e e'

checked : (old e : Entry) → check_version (some old) e ≡ ok tt → Later old e
unfolding check_version Later
checked (ver, val) (version, value) h = ground (arith, bytes_eq→eq val value)

stays : (m : Map) → Advances m m
unfolding Later
stays m = record { at = λ k e h. (e, h, inr (refl, refl)) }

map_insert-Advances :
    (old new : Map) (key : Key) (entry : Entry)
    → check_version (get old key) entry ≡ ok tt
    → Advances old new
    → Advances old (map_insert new key entry)
map_insert-Advances old new key entry h a = record {
  at = λ k e held. elim (Bool-cases (bytes_eq key k)) [
    | inl same ↦
        let here = ap (get old) (bytes_eq→eq key k same) ∙ held in
        (
          entry,
          get-map_insert new key entry k ∙ ap (λ b. if b then some entry else get new k) same,
          checked e entry (sym (ap (λ o. check_version o entry) here) ∙ h),
        )
    | inr other ↦
        let (e', found, later) = a.at k e held in
        (
          e',
          get-map_insert new key entry k
              ∙ ap (λ b. if b then some entry else get new k) other
              ∙ found,
          later,
        )
  ];
}

pub put_with_version-Advances :
    (m : Map) (key : Key) (version : ℕ) (value : List ℕ) (new : Map)
    → put_with_version m key version value ≡ ok new
    → Advances m new
unfolding put_with_version
put_with_version-Advances m key version value new h =
    let (e₁, e₂) = >>-eq-ok (check_version (get m key) (version, value)) _ h in
    elim (Bool-cases (is_current (get m key) version)) [
      | inl same ↦ subst (Advances m) (ground arith) (stays m)
      | inr newer ↦
          subst (Advances m) (ground arith)
            (map_insert-Advances m m key (version, value) e₁ (stays m))
    ]

batch-Advances :
    (m cur kvvs : Map)
    → check_batch m kvvs ≡ ok tt
    → Advances m cur
    → Advances m (insert_batch cur kvvs)
unfolding check_batch insert_batch
batch-Advances m cur [] h a = a
batch-Advances m cur ((k, e) ∷ kvvs) h a =
    let (e₁, e₂) = >>-eq-ok (check_version (get m k) e) (check_batch m kvvs) h in
    batch-Advances m (map_insert cur k e) kvvs e₂ (map_insert-Advances m cur k e e₁ a)

-- A batch that is accepted keeps every stored entry or replaces it by one of a later version,
-- whatever keys repeat in the batch.
pub put_batch-Advances : (m kvvs new : Map) → put_batch m kvvs ≡ ok new → Advances m new
unfolding put_batch
put_batch-Advances m kvvs new h =
    let (e₁, e₂) = >>-eq-ok (check_batch m kvvs) (ok (insert_batch m kvvs)) h in
    subst (Advances m) (ground arith) (batch-Advances m m kvvs e₁ (stays m))

next_passes :
    (o : Option Entry) (value : List ℕ)
    → ((e : Entry) → o ≡ some e → e.0 + 1 < u64_mod)
    → (check_version o (next_version o, value) ≡ ok tt) × (is_current o (next_version o) ≡ false)
unfolding check_version next_version
next_passes none value low = (refl, refl)
next_passes (some (v, val)) value low = let b = low (v, val) refl in (ground arith, ground arith)

-- On a sorted store a put succeeds and keeps the order, the key then has the new value at the
-- next version, and every other key has what it had, if the version does not overflow.
pub get-put :
    (m : Map) (key : Key) (value : List ℕ)
    → Sorted m
    → ((e : Entry) → get m key ≡ some e → e.0 + 1 < u64_mod)
    → (new : Map) × (put m key value ≡ ok new)
      × Sorted new
      × ((k : Key)
          → get new k
            ≡ (if bytes_eq key k then some (next_version (get m key), value) else get m k))
unfolding put put_with_version
get-put m key value sorted low =
    let entry : Entry = (next_version (get m key), value) in
    let (passes, fresh) = next_passes (get m key) value low in
    (
      map_insert m key entry,
      rw passes (rw fresh refl),
      map_insert-Sorted m key entry sorted,
      get-map_insert m key entry,
    )
