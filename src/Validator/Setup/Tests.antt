-- ===== src/Validator/Setup/Tests.antt =====
-- The setup check on a channel that pays to an allowlisted script on shutdown.
use validating_lightning_sig.Common.{ℕ, ◌≡◌, refl, Bool, false, Option, some, ◌==◌, ok}
use validating_lightning_sig.Channel.{ChannelSetup}
use validating_lightning_sig.Samples.{policy, setup}
use validating_lightning_sig.Validator.{validate_setup_channel}

abbrev with_script : ChannelSetup
with_script = record setup { holder_shutdown_script = some 9 }

abbrev can_spend : ℕ → Option Bool
can_spend script = some false

abbrev allowlisted : ℕ → Bool
allowlisted script = script == 9

setup_checked : validate_setup_channel policy can_spend allowlisted with_script ≡ ok tt
unfolding validate_setup_channel
setup_checked = refl
