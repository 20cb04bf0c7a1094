-- ===== src/Lib.antt =====
-- rollout: the parts of a distributed rollout system that decide who may act, which work is whose, and
-- what survives a restart. Paths below are from the root of the repository, under crates/.
--
-- The program and its model.
--
-- Core (Core.antt): rollout-core/src/ids.rs, errors.rs and the keys of traits/storage.rs. A ULID is its
-- 128-bit value and a content id its bytes; a text is the list of its bytes. A `Result` has the error
-- values of the code; of a formatted message only the fixed part is kept. Core/Parse is `FromStr for
-- ContentId`. Core/Externals holds what comes from other crates, as arguments: the BLAKE3 hash, of which
-- nothing is assumed, and the printing and parsing of ULIDs.
--
-- Store (Store.antt): the `Storage` and `StorageTxn` traits as an interface, a record of operations on
-- contents with their laws. A transaction starts from the committed contents and reads its own writes, so
-- each call maps contents to contents. Store/Cas is `cas_bytes` of
-- rollout-storage/src/embedded/txn.rs. Store/Encoding is the postcard codec, an argument whose only law is
-- that what was encoded decodes to itself; it may fail to encode. Store/Assoc is a concrete store, a list
-- of rows, that fills the interface. Store/Embedded is rollout-storage/src/embedded, over the tables of
-- the redb crate and the encoding of keys as arguments: a transaction is the staged contents with its
-- pending events, and the router of the watches a list of channels with what was sent to each.
-- Store/Embedded/Many is `get_many_bytes`, where a panic of the closure is an error of the join.
--
-- Coordinator (Coordinator.antt): rollout-coordinator/src. WorkItem is work_item.rs, Ledger ledger.rs,
-- Steal steal.rs, Lease lease.rs, Epoch epoch.rs, Replay and Renew are `replay_and_serve` and the renew
-- loop of run.rs with fence.rs, Drain is drain.rs, Config is config.rs with
-- rollout-transport/src/config.rs and `load_config` of run.rs, and Registry is registry.rs, heartbeat.rs and
-- failure_scan.rs with rollout-transport/src/health.rs. Every function keeps its name. They are written once
-- for all stores and codecs, in sections with those as instance arguments.
--
-- Batch (Batch.antt): rollout-runtime-batch/src. Batch is state.rs, Batch/Plan coordinator.rs, Batch/Work
-- worker.rs. The inference backend, the object store and the check of UTF-8 are arguments.
--
-- Queue (Queue.antt): rollout-cloud-local/src/queue.rs, `InMemQueue`.
--
-- Blobs (Blobs.antt): the object stores. Blobs/Multipart is rollout-cloud-aws/src/s3/put_stream.rs as the
-- list of requests it makes; the answers of S3 and the reads of the stream are arguments. Blobs/Settings
-- is rollout-core/src/config/cloud.rs. Blobs/Local is rollout-cloud-local/src/object_store.rs, with the file
-- system as a map from paths to contents and its failures as arguments.
--
-- Harness (Harness.antt): Harness/Text is rollout-harness-text/src, with the reward plugin as an argument.
-- Harness/Tools is rollout-harness-tool/src: Settings and Invoke are lib.rs, Run the tools under tools/,
-- Paths sandbox/capfs.rs and Launch sandbox/launcher.rs. A call is answered with the list of its effects;
-- what the kernel, the files and the network answer is an argument that may differ from call to call.
-- Harness/Eval is rollout-harness-eval/src/job.rs, which runs on the work items of the coordinator.
--
-- Egress (Egress.antt): rollout-harness-tool/src/http. Filter is connector.rs, Fetch the loop of mod.rs;
-- the parser of URLs, the resolver and the connection are arguments that may answer anew on each hop.
--
-- Snapshots (Snapshots.antt): rollout-snapshots/src/policy.rs, `apply_prune`; Snapshots/Snapshotter is
-- `list`, `read_meta`, `save` and `restore` of lib.rs, Snapshots/Archive tar_build.rs with the `tar` crate as
-- an argument, and Snapshots/TrainState kind/train_state.rs over an object store that is an argument.
--
-- Examples (Examples.antt) runs the functions at concrete inputs, with codecs and hashes that are simple
-- enough to compute.
--
-- How they interact. The coordinator and the batch worker share nothing but the store, and change it by
-- compare-and-swap on the exact bytes of a record that they have read. Other processes may write between a
-- read and a swap: such functions take the contents at each of the two times (`read` and `c`), or a
-- function (`env`, `others`) for what others write between two of its steps. Sequences of calls by any number of processes are
-- lists of calls (Coordinator/WorkItem/Life) or steps of a relation (Coordinator/Lease/Epochs).
--
-- Bounds and fuel. The additions on epochs and deadlines wrap at 2^64 and 2^128. The subtraction of times
-- stops at 0, as `saturating_sub` does. The counters of `usize` count members of lists in memory and do
-- not wrap. The fetch loop has fuel six, the worker's loop one for each queued item and one more, and
-- the loops of an upload one for each byte of the stream and one more, and the wait for a program
-- one for each five milliseconds of its timeout and two more; that this is enough is proved.
-- The counter of turns wraps at 2^32. All other loops run over lists.
--
-- Not modelled. Sockets, TLS, tasks and clocks; the file of the embedded store and the Postgres backend;
-- the parsing of the configuration; the `tar` format; the cloud SDKs, plugin host, algorithms,
-- the scorers of the evaluation harness and the command line; the cgroup tree and the rules of the seccomp filter. An error of the batch runtime ends the call, and what it had committed before is not followed
-- further; a drain keeps its state on an error. A launch that waits for a pipe without end has no result; calls of
-- tools are followed where the outside returns. Times from 2^63 seconds on are left out. Faults of the medium of a store are left out.
pub mod Prelude
pub mod Core
pub mod Store
pub mod Coordinator
pub mod Batch
pub mod Queue
pub mod Blobs
pub mod Harness
pub mod Egress
pub mod Snapshots
pub mod Examples
