-- ===== src/Channel/Secrets.antt =====
-- `CounterpartyCommitmentSecrets` of vls-core/src/policy/validator.rs: the revocation secrets of
-- BOLT 3 in 49 slots. SHA-256 is a parameter; a secret is the list of its 32 bytes.
pub mod Provide
mod Tests
use Prim.Native.Nat.{bit_xor}
use validating_lightning_sig.Common.{
  ℕ, zero, suc, ◌+◌, ◌-◌, ◌/◌, ◌%◌, ◌^◌, min, Bool, true, false, not, ◌&&◌, Option, none, some,
  List, [], ◌∷◌, ◌++◌, ltb, leb, ◌==◌, if◌then◌else◌, length, set, take, Outcome, ok, err, panic,
}

abbrev pub Secret : Type 0
Secret = List ℕ

pub record CounterpartyCommitmentSecrets : Type 0 where
  pub old_secrets : List (Secret × ℕ)

abbrev pub new : CounterpartyCommitmentSecrets
new = record { old_secrets = [] }

abbrev pub secret_eq : Secret → Secret → Bool
secret_eq [] [] = true
secret_eq (a ∷ xs) (b ∷ ys) = a == b && secret_eq xs ys
secret_eq _ _ = false

-- `idx & (1 << i) == (1 << i)`
unfoldable pub bit : ℕ → ℕ → Bool
bit idx i = (idx / 2 ^ i) % 2 == 1

-- The rounds that are left of `for i in 0..48`.
place_from : ℕ → ℕ → ℕ → ℕ
place_from zero i idx = 48
place_from (suc rounds) i idx =
    let rest = place_from rounds (suc i) idx in if bit idx i then i else rest

pub place_secret : ℕ → ℕ
unfolding place_from bit
place_secret idx = place_from 48 0 idx

min_from : ℕ → List (Secret × ℕ) → ℕ
min_from least [] = least
min_from least ((secret, idx) ∷ rest) = min_from (if ltb idx least then idx else least) rest

pub get_min_seen_secret : CounterpartyCommitmentSecrets → ℕ
unfolding min_from
get_min_seen_secret self = min_from (2 ^ 48) self.old_secrets

byte_at : ℕ → Secret → ℕ
byte_at i [] = 0
byte_at zero (b ∷ bs) = b
byte_at (suc i) (b ∷ bs) = byte_at i bs

-- `res[(bitpos / 8) as usize] ^= 1 << (bitpos & 7)`
flip_bit : ℕ → Secret → Secret
unfolding byte_at
flip_bit bitpos res = set res (bitpos / 8) (bit_xor (byte_at (bitpos / 8) res) (2 ^ (bitpos % 8)))

-- `idx & !((1 << i) - 1)`
mask : ℕ → ℕ → ℕ
mask idx i = idx - idx % 2 ^ i

module _ (sha256 : Secret → Secret) where
  -- The loop runs from the bit `bits - 1` down to the bit 0.
  pub derive_secret : Secret → ℕ → ℕ → Secret
  unfolding bit flip_bit
  derive_secret res zero idx = res
  derive_secret res (suc bitpos) idx =
      derive_secret (if bit idx bitpos then sha256 (flip_bit bitpos res) else res) bitpos idx

  -- Each of the given earlier secrets follows from the new one.
  chains : Secret → ℕ → List (Secret × ℕ) → Bool
  unfolding derive_secret
  chains secret pos [] = true
  chains secret pos ((old_secret, old_idx) ∷ rest) =
      secret_eq (derive_secret secret pos old_idx) old_secret && chains secret pos rest

  pub provide_secret :
      CounterpartyCommitmentSecrets → ℕ → Secret → Outcome (Unit {0}) CounterpartyCommitmentSecrets
  provide_secret self idx secret =
      let pos = place_secret idx in
      if ltb (length self.old_secrets) pos
      then err tt
      else if not (chains secret pos (take pos self.old_secrets))
      then err tt
      else if leb (get_min_seen_secret self) idx
      then ok self
      else if ltb pos (length self.old_secrets)
      then ok (record { old_secrets = set self.old_secrets pos (secret, idx) })
      else ok (record { old_secrets = self.old_secrets ++ (secret, idx) ∷ [] })

  get_from : ℕ → ℕ → List (Secret × ℕ) → Option Secret
  unfolding mask derive_secret
  get_from idx i [] = none
  get_from idx i ((secret, old_idx) ∷ rest) =
      if mask idx i == old_idx then some (derive_secret secret i idx) else get_from idx (suc i) rest

  pub get_secret : CounterpartyCommitmentSecrets → ℕ → Outcome (Unit {0}) (Option Secret)
  get_secret self idx = elim (get_from idx 0 self.old_secrets) [
    | some secret ↦ ok (some secret)
    | none ↦ if ltb idx (get_min_seen_secret self) then ok none else panic
  ]
