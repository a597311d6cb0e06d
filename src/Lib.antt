-- ===== src/Lib.antt =====
-- A verification library of the Abundance Protocol's core engines.
--
-- The program is a node of a decentralised manufacturing and compute network. Its engines are classes
-- that keep their state in Maps and are called from servers and tests:
--
-- Manufacturing (Manufacturing/Escrows): src/manufacturing/escrows.ts, ManufacturingEscrow. The
-- state is the Map `pendingEscrows`, a `Dict PoEscrow`. Each method is the function of its name:
-- create_escrow, release_milestone, raise_dispute, resolve_dispute, refund_buyer and the queries.
-- releaseMilestone has an `await` between its guards and its changes; release_begin and release_end
-- are its two parts, for calls that interleave there. Escrows/Custody has the invariant of the map,
-- Escrows/Payouts the amounts that are paid, Escrows/Overpayment what the guards let through.
--
-- Manufacturing/Tracking: src/manufacturing/tracking.ts, SupplyChainTracking. record_checkpoint and
-- batch_record_checkpoints work on the records of the products; Tracking/Trails has the invariant of a
-- record, Tracking/Durations the time spent in the stages. keccak256 is a parameter.
--
-- Manufacturing/Orders: src/manufacturing/orders.ts, ManufacturingOrders, whose state includes the
-- escrows and the tracking that it calls. Manufacturing/Orders has the life of an order up to its
-- escrow, Orders/Payment the methods that record checkpoints and release payments, Orders/Pricing the
-- amounts, and Orders/Payment/Completion what completeMilestone leaves behind.
--
-- Consensus: src/consensus/engine.ts, ConsensusEngine. create_round (also proposeResult),
-- receive_vote, expire (the callback of setTimeout), verification_begin and verification_end (the
-- two parts of proposeVerification around its wait), submit_proof and bullshark_sequence work on
-- the record Engine. Consensus/Rounds has the invariant of a round under any sequence of events,
-- Consensus/Quorum what a quorum and a penalty amount to, Consensus/Weakness what repeated votes
-- and a rejecting majority lead to, Consensus/Sequence the mempool.
--
-- Governance: src/governance/engine.ts, GovernanceEngine. Governance has the state,
-- Governance/Delegation setDelegation, Governance/Treasury the deposits, spends and the report,
-- Governance/Proposals the life of a proposal, Governance/Voting castVote, and Governance/Calls the
-- public methods as calls in any order, with the timelock and the outcome of a proposal.
-- Proposals and votes read the delegations and the treasury of the same engine.
--
-- Tasks: src/tasks/manager.ts, TaskManager. Tasks has the two maps of tasks and the methods that
-- change them, Tasks/Matching the choice of tasks by a node's capabilities, Tasks/Store the calls in any
-- order and the board of tasks that they are compared with.
--
-- Payments/Hodl: src/payments/hodl, the module's store (hodlStore) and the functions of invoice.ts,
-- route.ts, settle.ts and service.ts on it; Hodl/Custody has them in any order. Payments/Htlc:
-- src/payments/lightning/htlc.ts, HTLCManager.
--
-- Security/Lightning: src/security/lightningHardening.ts, LightningHardening, whose fields are one record;
-- Lightning/Wallet, Invoices, Treasury, Channels, Fees and Htlcs have the methods of its
-- sections. sweepToColdStorage and executeIfThresholdMet await something between their guards and
-- their changes; the halves are functions of their own.
--
-- Security/Network and Security/Agreement: src/security/networkHardening.ts, NetworkHardening and
-- ConsensusHardening. Security/Window has the sliding windows of times that the limits of both files
-- share, as an interface `Limiter` that Network/Limits/Identities and Agreement/Views fill;
-- Security/Counts has the counting by keys that Network/Peers and Agreement/Geography use.
--
-- Security/Firecracker: src/security/firecrackerHardening.ts, FirecrackerHardening: the Map of machines with
-- registerVM, unregisterVM, enforceVMLimit, evictIdleVMs, pinCPU and disableHyperthreading. Firecracker/Limits
-- has their calls in any order, Firecracker/Eviction what the timers of an eviction leave, Firecracker/Egress
-- applyNetworkPolicy and setupIptablesRules, whose commands are values. What iptables makes of them is the
-- parameter `verdict`, of which Egress/Iptables assumes the order of rules in a chain and the policy.
--
-- Training/Coordinator: src/training/coordinator.ts, TrainingCoordinator, whose jobs are one Map. Shards has
-- distributeModel, Collection the gradients and their validation, Compression and Aggregation what is made
-- of them, Checkpoints the recovery, and Simple the second set of methods, on jobs of their own. A method
-- that awaits runs as one step. The numbers are the parameter `Floats`.
--
-- Bitcoin/Identity: src/bitcoin/identity-hardened.ts. Identity/Networks has detectNetwork and its like,
-- Identity/Encryption SecureEncryption over the parameter `Cipher`, and Identity/Wallet HardenedWallet and
-- the hardware wallets over the parameter `Library`, the Bitcoin libraries that they call. scrypt may throw,
-- and Wallet/Unkeyed has what follows where it keeps to its memory limit.
--
-- Dao/CommitReveal: src/dao/commit-reveal.ts, whose state is a folder of files.
--
-- Reputation: src/reputation/manager.ts, ReputationManager. Reputation has the state and how nodes are
-- initialised and flagged, Reputation/Stakes, Tasks, Slashing and Queries the methods, and
-- Reputation/Bans the methods as calls in any order. Scores are numbers of the parameter `Fractions`.
--
-- Mesh/Routing: src/mesh/routing.ts, MoERouter, whose experts and local types are one record; Routing/Best
-- has what the choice of an expert amounts to.
--
-- Shared modules: Prelude (Booleans of comparisons, lists over the native numbers, their slices, signed
-- integers, texts as lists of characters), Sorting (what the sort of an array keeps and how it orders),
-- Dict (a Map as an association list in insertion order), Result (a thrown error as a value) and
-- Registry (a method that looks its object up in a Map and changes it in place). Tests has concrete
-- runs of the engines and an instance of each general statement.
--
-- Conventions. Identifiers, addresses and texts are numbers that are only compared, apart from the
-- texts of Bitcoin/Identity, which are lists of characters; 0 is the empty string, where the code
-- asks whether a text is truthy. Amounts in wei or sats are integers, and naturals where an
-- interface types them so. Dates are milliseconds. What the clock, the random source, the chain
-- and the timers yield is an argument of the function that uses it. A method that throws before
-- its first assignment is a Result; where it may throw later, the state comes with the error.
-- Balances and voting powers are JavaScript numbers, of which nothing is assumed: their arithmetic
-- is the parameter `Numbers`. Reputation in the consensus engine is counted in hundredths.
--
-- Fuel. The loop of setDelegation that follows the delegations is bounded by their number plus one;
-- an entry is visited once at most, and running out is a value of its own. Every other loop is
-- structural recursion.
--
-- Not modelled: the servers, the command line, the mesh apart from its routing, the sandboxes and
-- the payment clients apart from the parts named above, which are input and output around
-- third-party packages; the SQL storage of the DAO; the fee splits, products of fractions; the
-- simulated parts of the lightning hardening; the certificates, clusters and statistics of the
-- network hardening; the files, control groups, images, snapshots and devices of the machines, and
-- their statistics, which are texts of the kernel; estimateCompletion of the training and its
-- simulated delays; the simulated answers of hardware wallets; the code registry; confirmDelivery
-- of the orders, which mints passports through a chain client, and the orders' listings and
-- statistics; the estimates and reports of the tracking; `runwayMonths` of the treasury report, a
-- rounded quotient for display; and the text of error messages and log lines.
pub mod Prelude
pub mod Dict
pub mod Result
pub mod Registry
pub mod Manufacturing
pub mod Consensus
pub mod Governance
pub mod Tasks
pub mod Payments
pub mod Security
pub mod Dao
pub mod Reputation
pub mod Mesh
pub mod Sorting
pub mod Training
pub mod Bitcoin
mod Tests
