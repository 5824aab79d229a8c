-- ===== src/Channel/Secrets/Provide.antt =====
-- A secret that was taken in is found again, by the bits of its index.
use native.Mathlib.Nat.{mul-div_cancel, mul-mod_left, pow-suc}
use native.Mathlib.Decide.{dec_le}
use validating_lightning_sig.Common.{
  ℕ, zero, suc, ◌+◌, ◌*◌, ◌/◌, ◌%◌, ◌^◌, ◌≤◌, ◌<◌, ◌≡◌, refl, ap, inl, inr, false, some, List, [],
  ◌∷◌, ◌++◌, arith, ltb, Bool-cases, if◌then◌else◌, length, set, ok,
}
use validating_lightning_sig.Channel.Secrets.{
  Secret, CounterpartyCommitmentSecrets, bit, place_from, place_secret, min_from,
  get_min_seen_secret, derive_secret, provide_secret, mask, get_from, get_secret,
}

-- `idx` is a multiple of 2 ^ i.
abbrev Low : ℕ → ℕ → Type 0
Low idx i = (q : ℕ) × (idx ≡ q * 2 ^ i)

pow_pos : (i : ℕ) → 0 < 2 ^ i
pow_pos zero = omega arith
pow_pos (suc i) = rw (pow-suc 2 i) (omega (arith, pow_pos i))

Low-suc : (idx i : ℕ) → Low idx i → bit idx i ≡ false → Low idx (suc i)
unfolding bit
Low-suc idx i (q, e) b =
    let quotient : idx / 2 ^ i ≡ q = rw e (mul-div_cancel q (pow_pos i)) in
    let even : q % 2 ≡ 0 = ground (arith, quotient) in
    let half : q ≡ (q / 2) * 2 = omega arith in
    (q / 2, rw (pow-suc 2 i) (omega (arith, e, ap (λ (t : ℕ). t * 2 ^ i) half)))

place_from-bit :
    (rounds i idx j : ℕ) → rounds + i ≡ 48 → i ≤ j → j < place_from rounds i idx → bit idx j ≡ false
unfolding place_from
place_from-bit zero i idx j e h lt = absurd (omega arith)
place_from-bit (suc rounds) i idx j e h lt = elim (Bool-cases (bit idx i)) [
  | inl here ↦
      let stop : place_from (suc rounds) i idx ≡ i = rw (here, place_from) refl in
      absurd (omega (arith, stop))
  | inr later ↦
      let rest : place_from (suc rounds) i idx ≡ place_from rounds (suc i) idx =
        rw (later, place_from) refl in
      elim (dec_le (suc i) j) [
        | yes above ↦ place_from-bit rounds (suc i) idx j (omega arith) above (omega (arith, rest))
        | no at ↦ let same : j ≡ i = omega arith in rw same later
      ]
]

-- All bits below the slot of an index are zero.
place_secret-bit : (idx j : ℕ) → j < place_secret idx → bit idx j ≡ false
unfolding place_secret
place_secret-bit idx j h = place_from-bit 48 0 idx j (omega arith) (omega arith) h

place_secret-Low : (idx j : ℕ) → j ≤ place_secret idx → Low idx j
place_secret-Low idx zero h = (idx, omega arith)
place_secret-Low idx (suc j) h =
    Low-suc idx j (place_secret-Low idx j (omega arith)) (place_secret-bit idx j h)

mask_low : (idx j : ℕ) → j ≤ place_secret idx → mask idx j ≡ idx
unfolding mask
mask_low idx j h =
    let (q, e) = place_secret-Low idx j h in
    let none_low : idx % 2 ^ j ≡ 0 = rw e (mul-mod_left q (2 ^ j)) in rw none_low (omega arith)

-- Every stored index lies above `idx`.
abbrev Above : ℕ → List (Secret × ℕ) → Type 0
Above idx [] = Unit
Above idx ((secret, old_idx) ∷ rest) = (idx < old_idx) × Above idx rest

min_from-Above :
    (least idx : ℕ) (xs : List (Secret × ℕ))
    → idx < min_from least xs
    → (idx < least) × Above idx xs
unfolding min_from
min_from-Above least idx [] h = (h, tt)
min_from-Above least idx ((secret, old_idx) ∷ rest) h =
    ground (arith, min_from-Above (if ltb old_idx least then old_idx else least) idx rest h)

module _ (sha256 : Secret → Secret) (idx : ℕ) (secret : Secret) where
  derive_low : (bits : ℕ) → bits ≤ place_secret idx → derive_secret sha256 secret bits idx ≡ secret
  unfolding derive_secret
  derive_low zero h = refl
  derive_low (suc bits) h = rw (place_secret-bit idx bits h) (derive_low bits (omega arith))

  -- The search passes over the slots before the one that was written.
  get_from-set :
      (xs : List (Secret × ℕ)) (i k : ℕ)
      → i + k ≡ place_secret idx
      → k < length xs
      → Above idx xs
      → get_from sha256 idx i (set xs k (secret, idx)) ≡ some secret
  unfolding get_from
  get_from-set [] i k e h a = absurd (omega arith)
  get_from-set ((s, o) ∷ xs) i zero e h a =
      ground (arith, mask_low idx i (omega arith), derive_low i (omega arith))
  get_from-set ((s, o) ∷ xs) i (suc k) e h a = ground (
    arith,
    mask_low idx i (omega arith),
    get_from-set xs (suc i) k (omega arith) (omega arith) a.1,
  )

  get_from-push :
      (xs : List (Secret × ℕ)) (i : ℕ)
      → i + length xs ≡ place_secret idx
      → Above idx xs
      → get_from sha256 idx i (xs ++ (secret, idx) ∷ []) ≡ some secret
  unfolding get_from
  get_from-push [] i e a = ground (arith, mask_low idx i (omega arith), derive_low i (omega arith))
  get_from-push ((s, o) ∷ xs) i e a =
      ground (arith, mask_low idx i (omega arith), get_from-push xs (suc i) (omega arith) a.1)

  -- A secret for a new index, lower than every index seen, that `provide_secret` takes in is
  -- the one that `get_secret` returns for that index.
  pub get_secret-provide_secret :
      (self : CounterpartyCommitmentSecrets) {self' : CounterpartyCommitmentSecrets}
      → idx < get_min_seen_secret self
      → provide_secret sha256 self idx secret ≡ ok self'
      → get_secret sha256 self' idx ≡ ok (some secret)
  unfolding provide_secret get_secret get_min_seen_secret
  get_secret-provide_secret self h e =
      let (_, above) = min_from-Above (2 ^ 48) idx self.old_secrets h in
      ground (
        arith,
        get_from-set self.old_secrets 0 (place_secret idx) (omega arith),
        get_from-push self.old_secrets 0,
      )
