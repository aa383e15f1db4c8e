-- ===== src/Lib.antt =====
-- A verification library for anvil-zksync, an in-memory ZKsync node for tests: its clock, mempool,
-- filters, chain, storage, snapshots, the executor that changes them, the runs of the VM, gas estimation
-- and the L1 sidecar.
--
-- How the program's parts interact. API calls put transactions into the pool
-- (crates/core/src/node/pool.rs). The block sealer (sealer.rs) or a mining call (in_memory_ext.rs)
-- takes uniform batches off it and sends them to the node executor (inner/node_executor.rs), which
-- carries out one command at a time: it has the VM runner (inner/vm_runner.rs) run the batch on the
-- executor that owns the VM (batch/factory.rs) and the node (inner/in_memory_inner.rs) seal the result,
-- which notifies the filters (crates/core/src/filters.rs), applies the batch and its blocks to the chain
-- (inner/blockchain.rs), archives the earlier storage and writes the new one (inner/fork_storage.rs) at
-- the times of the clock (inner/time.rs). The L1 sidecar
-- (crates/l1_sidecar) watches an L1 for transactions, which go to the pool, and commits, proves and
-- executes batches there.
--
-- Which file models which part (sources without a folder are below crates/core/src/node):
--   Base                  numbers, machine words, lists, maps, and code that may panic
--   Utils                 crates/core/src/utils.rs: block numbers and human-readable sizes
--   Filters               crates/core/src/filters.rs: LogFilter, EthFilters
--   Node.Time             inner/time.rs: TimeState and the calls on it
--   Node.Impersonate      impersonate.rs: ImpersonationState and its manager's calls
--   Node.Pool             pool.rs, crates/types/src/transaction_order.rs: TxPool and its order
--   Node.Sealer           sealer.rs: the sealing modes and their polls
--   Node.Mining           in_memory_ext.rs: mining and the calls that drop transactions
--   Node.Blockchain       inner/blockchain.rs: BlockchainState, its blocks, batches and queries
--   Node.Storage          inner/fork_storage.rs, crates/core/src/deps/mod.rs: ForkStorage
--   Node.Fork             inner/fork.rs, crates/common/src/cache.rs: the cache (Fork), the cached
--                         lookups (Lookups, Answers) and what the cache has (Cached)
--   Node.FeeModel         fee_model.rs: TestNodeFeeInputProvider
--   Node.Inner            inner/in_memory_inner.rs: InMemoryNodeInner; its children model
--                         seal_block (Seal, Applied, Chained), the archive of states (Sealing,
--                         History), snapshots (Snapshots, Revert), saved states and reads of earlier
--                         blocks (States) and the environment of a batch (Env)
--   Node.Executor         inner/node_executor.rs: the commands
--   Node.VmRunner         inner/vm_runner.rs: a transaction (Run) and a batch of them (Batch); its
--                         block contexts (Contexts, Next) and receipts (Receipts)
--   Node.BatchVm          batch/factory.rs, batch/executor.rs: the executor that owns the VM
--                         (Commands), its snapshots (Rollback) and failed transactions (Failed)
--   Node.Eth              eth.rs: fee history (Fees), blocks as they were asked for, default fees
--   Node.GasEstimation    inner/in_memory_inner.rs: a step and the search for a gas limit (Search) and
--                         the estimate around them (Estimate, Pubdata, Result)
--   L1Sidecar             crates/l1_sidecar/src: l1_sender.rs (Sender, Stuck) and the contracts that it
--                         calls (Contracts), l1_executor.rs (Auto), l1_watcher.rs (Watcher, Polls)
-- A function of the source has its name here; where two have one name, the node's has `node` in it.
--
-- How the state is modelled. Each lock is held for one whole call, so that a call is a function from
-- the old state to the new one and its result. Hash maps are association lists, hashes and addresses
-- numbers, and a word of w bits a number whose wrap-around, saturation or overflow is written out.
-- `Outcome.panic` is a panic of the source: an `unwrap` of nothing, a failed assertion, a conversion
-- out of range, or an overflow of `+`, `-` and `*` on machine words, which are those of the dev profile,
-- with overflow checks, that cargo builds and tests with by default. A release build of the workspace
-- wraps around at these places and is not modelled. Errors that the source returns are values.
--
-- Fuel and bounds. `drain` and `poll_immediate` of Node.Sealer recurse on fuel: `drain` gets one more
-- than the number of waiting hashes, and two polls are enough; without fuel neither has a result. `bisect` of Node.GasEstimation gets 64
-- attempts, each of which halves a gap of less than 2 ^ 64. All other loops are structural; the endless
-- ones of the L1 sidecar run for as many rounds as are asked for.
--
-- What other crates do is a parameter: transactions, logs and receipts of zksync_types through the
-- fields that the code reads, channels and timers, hash functions, the layout of storage keys, the
-- client of the forked chain, floating-point numbers, the VM, and the L1 node. What is relied on of the
-- VM is that its snapshots are a stack (SnapshotLaws), and of the L1 that a call goes through exactly if
-- its receipt says so, that an error leaves open whether it has, and that an execution needs the tree
-- of the operations before it and its own (L1Contracts); Auto has an L1 that accepts what comes next
-- (Accepts).
--
-- Not modelled: the servers and their wire formats, command line, configuration and console output,
-- trace decoding and formatting, the commitments and the encoding of calls of the L1 sidecar, and the
-- opening and resetting of forks, which are network input and output. BoojumOS, whose VM the source
-- leaves to be written, is modelled only where the runner keeps its bytecodes.

pub mod Base
pub mod Filters
pub mod L1Sidecar
pub mod Node
pub mod Utils
