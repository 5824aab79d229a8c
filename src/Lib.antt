-- ===== src/Lib.antt =====
-- The core of the validating lightning signer: what it lets a node sign, revoke and spend, and
-- how it follows the chain.
--
-- The signer keeps, for each channel, an enforcement state with the commitment numbers of both
-- sides. A request to sign or revoke goes through the operations of Channel, which ask a
-- validator for a verdict and then move the state. The validator reads its limits from a policy,
-- whose filter may demote a violation to a warning. A velocity control limits the volume of
-- payments per time window.
--
-- - Common: shared names, Boolean tests, machine words, lists and Outcome, the result of a call:
--   a value, an error or a panic.
-- - Velocity: vls-core/src/util/velocity.rs, all of VelocityControl. Window and Refines: the
--   list of payments that the buckets stand for; Insert, Run and Clock: one payment, sequences
--   of them, and clocks that step back.
-- - Policy: vls-core/src/policy/filter.rs, error.rs and mod.rs; the errors carry tag and kind,
--   not the message.
-- - Channel: vls-core/src/tx/tx.rs and the setup of vls-core/src/channel.rs. Balance: the
--   claimable balance; Secrets: CounterpartyCommitmentSecrets; Enforcement: EnforcementState and
--   the progress rules of the trait Validator, both in vls-core/src/policy/validator.rs;
--   Summary: the payments in flight, in the same file; Totals: the balance that a channel
--   reports; Equality: the derived equality of setups.
-- - Validator: vls-core/src/policy/simple_validator.rs. Commitment: validate_commitment_tx;
--   Sides: the counterparty's and the holder's commitments and revocations; Payments: routed
--   payments; Fee: fees; Setup: a new channel's setup; MutualClose: mutual closes, by value and
--   by transaction; Sweeps: sweeps of the holder's delayed output, of the counterparty's HTLCs
--   and of revoked outputs; Onchain: vls-core/src/policy/onchain_validator.rs.
-- - Protocol: the operations of Channel in vls-core/src/channel.rs. Close: signing for a close;
--   Remote: the counterparty's commitments; Signing: mutual closes and sweeps; Splice: the setup
--   of a channel in vls-core/src/node.rs, splices of it, the funding lock and splice signatures;
--   Deltas: the claimable balance before and after a commitment, in policy/validator.rs; Run:
--   sequences of operations, with Moves, Local and Remote on single steps, Safety, EarlyClose
--   and Alternation on runs.
-- - Monitor: the chain monitor, vls-core/src/monitor.rs. Closing: ClosingOutpoints; Changes,
--   Blocks and Depth: the changes of a block forwards and backwards, the end of a block, depths
--   and is_done; Transactions and Decode: the push listener and what
--   vls-core/src/util/transaction_utils.rs reads from a closing transaction. Undo, Returns and
--   Done have the proofs.
-- - Tracker: vls-core/src/chain/tracker.rs. Watches: the outpoints of a listener; Blocks: adding
--   and removing blocks; Replies, Reorg and Unwatched have the proofs. Listener: the monitor as
--   one of its listeners.
-- - Store: vls-persist/src/kvv/memory.rs, the versioned key-value store in memory. Order,
--   Versions and Prefix have the proofs.
-- - Node: vls-core/src/node.rs, the routed payments and the checks of commitments on them.
--   Payments: validate_payments; Apply: apply_payments and htlc_fulfilled; Totals, Balanced and
--   Recorded have the proofs. Invoices: invoices and keysends added; Pruning: the pruning of a
--   heartbeat; Restore: the state in vls-persist/src/model.rs and back; Restart: what a restart
--   makes of that state, with the payments that the channels of vls-core/src/channel.rs have in
--   flight.
-- - Approver: vls-protocol-signer/src/approver.rs, on top of Velocity; Limited has the proofs.
-- - Samples and the modules named Tests: concrete data, tests and examples.
--
-- Numbers are natural numbers. Where the source adds, multiplies or subtracts machine words
-- without a check, the definitions wrap, as a release build does; the theorems say where they
-- ask that nothing wraps. Keys, signatures, scripts, txids and hashes are only compared, and are
-- numbers; a secret is the list of its bytes. No definition needs fuel: every loop runs over a
-- list or counts down.
--
-- The record World holds what the operations of Channel take from elsewhere: key derivation,
-- signing, SHA-256, the weights of the lightning crate, the checks of the counterparty's
-- signatures, and the node's checks of balances and payments. A theorem on runs holds for every
-- World, which may differ from step to step. The records Wallet, Closings and Scripts hold what
-- the checks of closes and sweeps ask of the wallet and of the bitcoin and lightning crates:
-- whether a script is ours or on the allowlist, the transaction that a close is built into and
-- its weight, locktimes, and the parsing of HTLC scripts. The record Provider holds what the
-- monitor reads from keys, scripts and enforcement state, and Chain what the tracker asks of the
-- bitcoin crate and of the policy's check of a proof. In the monitor a call that panics gives
-- nothing; in the tracker every reply that is no panic carries the tracker, since a refused call
-- may have changed it. Writing the state to disk is taken to succeed, and the log is left out.
--
-- Not modelled: on-chain and HTLC transactions of the validator, and the block checks of the
-- trait Validator; phase 1 of the commitments, which decodes transactions; recovery; in
-- setup_channel the listeners of the tracker and the persister, whose failure is not an answer
-- of the model; the allowlist, keys and issued invoices of node.rs, and with them the
-- handle_proposed calls of the approvers; the decoder of streamed blocks, and the stores on
-- disk. The protocol messages, the daemons and the command line are input and output around this
-- core.
pub mod Common
pub mod Samples
pub mod Velocity
pub mod Policy
pub mod Channel
pub mod Validator
pub mod Protocol
pub mod Monitor
pub mod Tracker
pub mod Store
pub mod Approver
pub mod Node
