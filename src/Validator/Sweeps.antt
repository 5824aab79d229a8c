-- ===== src/Validator/Sweeps.antt =====
-- The checks of the transactions that sweep the outputs of a closed channel, in
-- vls-core/src/policy/simple_validator.rs: `validate_sweep` and the three that call it.
pub mod Accepted
pub mod Inputs
mod Tests
use validating_lightning_sig.Common.{
  ℕ, ◌+◌, ◌-◌, ◌^◌, Bool, true, false, not, ◌&&◌, ◌||◌, Option, none, some, List, [], ◌∷◌, ltb,
  ◌==◌, ◌!=◌, if◌then◌else◌, any, length, get_elem?, u32_mod, u64_add, u32_add, Outcome, ok, err,
  panic, ◌>>=◌, ◌>>◌, when, ok_or, unwrap,
}
use validating_lightning_sig.Policy.{Validated, policy_err, policy_error, transaction_format_error}
use validating_lightning_sig.Channel.{ChannelSetup, ChainState, is_anchors}
use validating_lightning_sig.Monitor.Transactions.{Transaction, TxIn, TxOut}
use validating_lightning_sig.Validator.{SimplePolicy, validate_fee}
use validating_lightning_sig.Validator.MutualClose.{Wallet}

-- An i64.
pub data ℤ : Type 0 where
  pos negsuc : ℕ → ℤ

-- What is computed from a transaction or a script elsewhere: the bitcoin crate's weight, locktime test
-- and `Height::from_consensus`, and the expiry of an HTLC script that parses as a received one, or
-- whether it parses as an offered one, with anchors or without.
pub record Scripts : Type 0 where
  pub unsigned_weight : Transaction → ℕ
  pub from_consensus : ℕ → Option ℕ
  pub is_satisfied_by : ℕ → ℕ → Bool
  pub parse_received_htlc_script : ℕ → Bool → Option ℤ
  pub parse_offered_htlc_script : ℕ → Bool → Bool

abbrev pub max_chain_lag : ℕ
max_chain_lag = 2

abbrev pub anchor_seqs : List ℕ
anchor_seqs = 1 ∷ []

abbrev pub non_anchor_seqs : List ℕ
non_anchor_seqs = 0 ∷ (2 ^ 32 - 3) ∷ (2 ^ 32 - 1) ∷ []

unfoldable pub estimated_sweep_tx_weight : ℕ → ℕ
estimated_sweep_tx_weight unsigned_weight = unsigned_weight + 220

-- `iter().map(|o| o.value.to_sat()).sum::<u64>()`, which wraps in a release build.
unfoldable pub sum_outputs : List TxOut → ℕ
sum_outputs [] = 0
sum_outputs (out ∷ outs) = u64_add out.value (sum_outputs outs)

-- An expiry that is negative or above `u32::MAX` is refused.
unfoldable pub expiry_height : ℤ → Validated ℕ
expiry_height (negsuc n) = err transaction_format_error
expiry_height (pos n) = if ltb (u32_mod - 1) n then err transaction_format_error else ok n

module _ (policy : SimplePolicy) (wallet : Wallet) where
  unfoldable pub check_destinations : ℕ → List TxOut → Validated (Unit {0})
  check_destinations wallet_path [] = ok tt
  check_destinations wallet_path (out ∷ outs) = do
    spendable ←
        ok_or (policy_error "policy-onchain-output-scriptpubkey")
          (wallet.can_spend wallet_path out.script_pubkey)
    when (not spendable && not (wallet.allowlist_contains out.script_pubkey wallet_path))
        (policy_err policy.filter "policy-sweep-destination-allowlisted")
    check_destinations wallet_path outs

  module _ (scripts : Scripts) where
    -- With several inputs the fee is not checked.
    unfoldable pub check_sweep_fee : Transaction → ℕ → Validated (Unit {0})
    unfolding estimated_sweep_tx_weight
    check_sweep_fee tx amount_sat = when (length tx.input == 1) (
        validate_fee policy "policy-sweep-fee-range" amount_sat (sum_outputs tx.output)
          (estimated_sweep_tx_weight (scripts.unsigned_weight tx)))

    unfoldable pub validate_sweep : Transaction → ℕ → ℕ → Validated (Unit {0})
    unfolding check_sweep_fee check_destinations
    validate_sweep tx amount_sat wallet_path = do
      when (tx.version != 2) (err transaction_format_error)
      check_sweep_fee tx amount_sat
      check_destinations wallet_path tx.output

    -- The locktime is at most two blocks ahead of the chain.
    unfoldable pub check_locktime : ChainState → Transaction → Validated (Unit {0})
    check_locktime cstate tx = do
      height ← unwrap (scripts.from_consensus (u32_add cstate.current_height max_chain_lag))
      when (not (scripts.is_satisfied_by tx.lock_time height)) (err transaction_format_error)

    unfoldable pub check_sequence : Transaction → List ℕ → Validated (Unit {0})
    check_sequence tx valid_seqs = do
      txin ← unwrap (get_elem? tx.input 0)
      when (not (any (λ seq. txin.sequence == seq) valid_seqs)) (err transaction_format_error)

    -- The locktime against the script that is swept: an HTLC that the counterparty received or offered.
    unfoldable pub check_htlc_locktime :
        ChannelSetup → ChainState → Transaction → ℕ → Validated (Unit {0})
    unfolding expiry_height check_locktime
    check_htlc_locktime setup cstate tx redeemscript =
        elim (scripts.parse_received_htlc_script redeemscript (is_anchors setup)) [
          | some cltv_expiry ↦ expiry_height cltv_expiry >>= λ expiry.
              when (ltb expiry tx.lock_time) (err transaction_format_error)
          | none ↦
              if scripts.parse_offered_htlc_script redeemscript (is_anchors setup)
              then check_locktime cstate tx
              else err transaction_format_error
        ]

    unfoldable pub validate_delayed_sweep :
        ChannelSetup → ChainState → Transaction → ℕ → ℕ → Validated (Unit {0})
    unfolding validate_sweep check_locktime check_sequence
    validate_delayed_sweep setup cstate tx amount_sat wallet_path = do
      validate_sweep tx amount_sat wallet_path
      check_locktime cstate tx
      check_sequence tx (setup.counterparty_selected_contest_delay ∷ [])

    unfoldable pub validate_counterparty_htlc_sweep :
        ChannelSetup → ChainState → Transaction → ℕ → ℕ → ℕ → Validated (Unit {0})
    unfolding validate_sweep check_htlc_locktime check_sequence
    validate_counterparty_htlc_sweep setup cstate tx redeemscript amount_sat wallet_path = do
      validate_sweep tx amount_sat wallet_path
      check_htlc_locktime setup cstate tx redeemscript
      check_sequence tx (if is_anchors setup then anchor_seqs else non_anchor_seqs)

    unfoldable pub validate_justice_sweep : ChainState → Transaction → ℕ → ℕ → Validated (Unit {0})
    unfolding validate_sweep check_locktime check_sequence
    validate_justice_sweep cstate tx amount_sat wallet_path = do
      validate_sweep tx amount_sat wallet_path
      check_locktime cstate tx
      check_sequence tx non_anchor_seqs
