-- ===== src/Channel/Secrets/Tests.antt =====
-- The store of secrets with a hash that only marks its argument.
use validating_lightning_sig.Common.{ℕ, ◌^◌, ◌-◌, ◌<◌, ◌≡◌, refl, some, [], ◌∷◌, arith, ok}
use validating_lightning_sig.Channel.Secrets.{
  Secret, CounterpartyCommitmentSecrets, chains, new, place_secret, provide_secret, get_secret,
  get_min_seen_secret,
}
use validating_lightning_sig.Channel.Secrets.Provide.{get_secret-provide_secret}

abbrev mark : Secret → Secret
mark secret = 255 ∷ secret

abbrev first : ℕ
first = 2 ^ 48 - 1

abbrev one_secret : CounterpartyCommitmentSecrets
one_secret = record { old_secrets = ((4 ∷ []), first) ∷ [] }

provided : provide_secret mark new first (4 ∷ []) ≡ ok one_secret
unfolding provide_secret place_secret get_min_seen_secret chains
provided = refl

lower : first < get_min_seen_secret new
unfolding get_min_seen_secret
lower = omega arith

get_secret-provide_secret_example : get_secret mark one_secret first ≡ ok (some (4 ∷ []))
get_secret-provide_secret_example = get_secret-provide_secret mark first (4 ∷ []) new lower provided
