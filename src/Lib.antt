-- ===== src/Lib.antt =====
-- A verification library for the core of the Validating Lightning Signer (vls-core): the rules by
-- which the signer validates and signs a channel's commitments, releases revocation secrets and
-- limits payments, and by which it keeps its payments balanced and follows the chain.
--
-- The parts. A channel (vls-core/src/channel.rs) keeps a setup and an `EnforcementState`
-- (vls-core/src/policy/validator.rs), which holds the commitment numbers of both sides, the last
-- two counterparty points and the current commitments, each a `CommitmentInfo2`
-- (vls-core/src/tx/tx.rs). A request to sign or validate a commitment builds its `CommitmentInfo2`,
-- has it checked by the validator (vls-core/src/policy/simple_validator.rs) and by the node's
-- payment state, advances the enforcement state by the methods of the trait `Validator`, and stores
-- the channel. Each test goes through the policy filter (vls-core/src/policy/filter.rs), which may
-- turn a violation into a warning. The counterparty's revocation secrets are kept in the compact
-- store of BOLT 3. A velocity control (vls-core/src/util/velocity.rs) limits what a node pays in a
-- window of time. A node (vls-core/src/node.rs) keeps, for each payment hash, what comes in and
-- goes out on each of its channels, and the invoices it pays and has issued. The chain tracker
-- (vls-core/src/chain/tracker.rs) follows the headers and tells its listeners, among them a monitor
-- for each channel (vls-core/src/monitor.rs), of each block. The on-chain validator
-- (vls-core/src/policy/onchain_validator.rs) reads the monitor. An approver
-- (vls-protocol-signer/src/approver.rs) is asked before a payment is added.
--
-- A commitment transaction that is checked by its bytes is decoded first (vls-core/src/tx/tx.rs and
-- vls-core/src/tx/script.rs).
--
-- The files. Policy: the filter and `policy_err!`; Policy/Laws reasons about them. Tx:
-- `CommitmentInfo2` and its balances; Tx/Sorting and Tx/Balance reason about them. Script: the
-- parsers of redeem scripts; Decode: the decoding of a commitment transaction, with Decode/Values
-- and Decode/Total about the values in it. Setup: `ChannelSetup` and `ChannelBalance`. Secrets:
-- `CounterpartyCommitmentSecrets`. Enforcement: the state and its operations; Enforcement/Summary
-- has its payments and balances, which Enforcement/InFlight and Enforcement/Balance reason about;
-- Enforcement/Numbers and Enforcement/Revocation are about single operations, Enforcement/History
-- about sequences of them. Validator: `SimplePolicy` and the checks of amounts, delays and setups;
-- Validator/Commitment has those of commitments and revocations, Validator/Closing those of mutual
-- closes and HTLC transactions, Validator/Sweeps those of sweeps, and Validator/Fees,
-- Validator/Accepted, Validator/Holder, Validator/Counterparty, Validator/Revoked, Validator/Closed
-- and Validator/Swept say what passes. Channel: the channel, its keys and what it builds from them;
-- Channel/Requests has the requests, Channel/Run the runs of them, and Channel/Effects,
-- Channel/HolderEffects, Channel/Signed, Channel/Payments, Channel/Secure and Channel/Safety the
-- proofs. Node: the payment state; Node/Payments has what commitments and preimages do to it,
-- Node/Invoices how payments are added, Node/Prune what a heartbeat forgets; Node/Commit,
-- Node/Balanced, Node/Sound and Node/Steps reason about single operations, Node/History about
-- sequences of them, Node/Client about a channel's requests on a node, Node/Life about sequences
-- with restarts, and Node/Excess, Node/Heartbeat and Node/Restore about the excess, pruning and
-- what a restart keeps. Monitor: a channel's monitor; Monitor/Blocks adds and removes blocks,
-- Monitor/Undo, Monitor/Streams and Monitor/RoundTrip prove that removing undoes adding,
-- Monitor/Depths is about the depths. Tracker: the tracker; Tracker/Blocks adds and removes blocks,
-- Tracker/Stream has listeners and streamed blocks, Tracker/Listener the monitor as a listener;
-- Tracker/RoundTrip, Tracker/Slots and Tracker/History are the proofs. Onchain: the on-chain
-- validator, with Onchain/Buried about it. Approver: the approvers, with Approver/Approved about
-- them. Velocity: the control; Velocity/Window relates its buckets to a history of payments,
-- Velocity/Limit and Velocity/History prove the limit. Prelude: shared names, Boolean tests,
-- machine words and the outcome of a Rust function. Samples and the Tests modules hold concrete
-- runs.
--
-- Conventions. A function that can fail returns an `Outcome`: a value, an error of one of the kinds
-- of vls-core/src/policy/error.rs, or a panic. A method that changes its object returns the new
-- one. `+` and `-` on u64 and u32 wrap, as in a release build. Keys, points, hashes, scripts and
-- signatures that are only compared are numbers; Script has scripts that are read. A policy
-- enforces a tag if its filter treats a violation of it as an error; the default filter does so for
-- every tag.
--
-- Parameters. The cryptographic keys, signatures and hashes, the weights of HTLC and closing
-- transactions, the wallet, the storage, for a channel the node's payment state, which Node/Client
-- puts in, and for the tracker the hashes and targets of headers, the check of a proof and the
-- decoder of blocks; for the decoding of a transaction, the instructions of a script and the tests
-- of its form.
--
-- No fuel is used but for the loops over the 48 bits of an index, which have that many rounds. Not
-- modelled: the building of scripts and transactions, the checks of on-chain transactions, the
-- node's allowlist and channels, protocol messages, persistence and log lines.
pub mod Approver
pub mod Channel
pub mod Decode
pub mod Enforcement
pub mod Monitor
pub mod Node
pub mod Onchain
pub mod Policy
pub mod Prelude
pub mod Samples
pub mod Script
pub mod Secrets
pub mod Setup
pub mod Tracker
pub mod Tx
pub mod Validator
pub mod Velocity
