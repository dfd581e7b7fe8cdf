-- ===== src/Lib.antt =====
-- The verification library of myriadmesh-server, a mesh network's server: a ledger of blocks that
-- records what nodes do, an appliance that keeps messages for the devices paired with it, the
-- updates of adapters that nodes pass on and agree upon, and the node that ranks its adapters,
-- switches between them and exchanges heartbeats.
--
-- The parts, and the files that model them. A function of the code keeps its name.
--   Base (and below): Boolean tests, lists, equality as an instance argument, byte strings, a
--     stable sort, hash tables as association lists, sets as lists, counts over tables, the
--     arithmetic of doubles as a record, and results with do blocks.
--   Ledger.Error: crates/myriadmesh-ledger/src/error.rs.
--   Ledger.Entry: crates/myriadmesh-ledger/src/entry.rs, the entries of a block.
--   Ledger.Chain, Ledger.Block: crates/myriadmesh-ledger/src/block.rs, the data of blocks and the
--     operations on them.
--   Ledger.Merkle: crates/myriadmesh-ledger/src/merkle.rs, the root over the entries of a block.
--   Ledger.Consensus: crates/myriadmesh-ledger/src/consensus.rs, reputations, the choice of the
--     node that creates a block, the choice between chains and the quorum of signatures.
--   Ledger.Disk, Ledger.Storage: crates/myriadmesh-ledger/src/storage.rs, the files of blocks,
--     their index, pruning and look-ups.
--   Ledger.Sync: crates/myriadmesh-ledger/src/sync.rs, which composes the others: a received block
--     is validated by Block, checked by Consensus and stored by Storage.
--   Appliance.Error: the errors of crates/myriadmesh-appliance/src/types.rs.
--   Appliance.Cache: crates/myriadmesh-appliance/src/cache.rs, the message cache, with its file.
--   Appliance.Pairing: crates/myriadmesh-appliance/src/pairing.rs, the pairing of a device by a
--     token, an approval and a challenge.
--   Appliance.Power: the supply, the thresholds and the transmission power of
--     crates/myriadmesh-appliance/src/power.rs; Appliance.Usage: its data usage and quotas.
--   Appliance.Preferences: crates/myriadmesh-appliance/src/types.rs, what a device prefers.
--   Appliance.Device: crates/myriadmesh-appliance/src/device.rs, the paired devices and their file.
--   Appliance.Manager: crates/myriadmesh-appliance/src/manager.rs, which composes the devices, the
--     cache and the pairing.
--   Updates.Error: crates/myriadmesh-updates/src/lib.rs.
--   Updates.Package, Updates.Distribution: crates/myriadmesh-updates/src/distribution.rs, packages
--     with their signatures, and those that wait to be verified and installed.
--   Updates.Verification: crates/myriadmesh-updates/src/verification.rs, which packages pass.
--   Updates.Schedule, Updates.Window: crates/myriadmesh-updates/src/schedule.rs, schedules, requests
--     for them with their responses, and the choice of a window.
--   Updates.Coordination: crates/myriadmesh-updates/src/coordination.rs, which composes the others: a
--     package received is checked by Verification and kept by Distribution, an update planned takes
--     its window from Window and is kept by Schedule.
--   Node.Scoring: myriadnode-full/src/scoring.rs, the scores of adapters and their ranking.
--   Node.Health, Node.Failover: myriadnode-full/src/failover.rs, the health of adapters, the log of
--     events and the choice of the primary adapter by the ranking of Scoring; the configuration is
--     that of myriadnode-full/src/config.rs.
--   Node.Beats, Node.Heartbeat: myriadnode-full/src/heartbeat.rs, heartbeats, the limit on their rate,
--     and the service that signs and checks them and keeps the map of nodes.
--   Node.Diagnostics: myriadnode-full/src/diagnostics.rs, what a node records of its start, its life and
--     its failures; Node.Baseline: myriadnode-full/src/diagnostics/baseline.rs, the analysis of a
--     snapshot of it, and the tags of myriadnode-full/src/diagnostics/test_data.rs.
--   Examples: concrete inputs, and each result applied at one of them.
--
-- State is a record that an operation takes and returns. A fallible operation returns a Result; of
-- one that can fail after it has changed the state, the state is returned beside the Result. An
-- operation that reads the clock takes the time as an argument. Words wrap, as in the release
-- profile: `add64`, `sub64` and `mul64` write the modulus out.
--
-- What the code takes from other crates is a parameter. Ledger.Codec holds the hash of blake2 and
-- the calls of bincode, which may fail; the hypotheses on it are that digests have 64 bytes
-- (HashLength), that a block reads back as it was written (ReadsBack) and that no two headers are
-- serialised alike (HeadersDiffer). No theorem assumes that the hash has no collision: those that
-- need it return a collision as the other case. Ledger.Float holds the arithmetic of doubles, and
-- IsRounding the facts of rounding to nearest that the bounds of a score need. The record Json of
-- Appliance.Cache.Entries and DeviceJson of Appliance.Device hold the conversions of serde_json,
-- and Keys of Appliance.Pairing the Ed25519 keys, of which nothing is assumed. The record Crypto
-- of Updates.Package holds the hash, the serialisers and the signatures of the updates, and Wire
-- of Node.Heartbeat those of heartbeats, of which OwnsKeys says that what a node signs verifies
-- under its key. Base.Double holds the arithmetic of the update windows, of the power manager and
-- of the node; IsStrict says that its comparison is a strict order, and IsWeak that the complement
-- is transitive on numbers. The order of semantic versions, AdapterView, which the adapter manager
-- shows, and the distance of two points on the earth are parameters too. Examples.Codes and
-- Examples.Numbers give functions for which the hypotheses hold.
--
-- Loops are structural recursions over the list or the number of heights that the code runs
-- through. The loop of the Merkle tree runs on fuel, which is the number of its hashes: a level has
-- half as many as the one before, rounded up, so that one is left (Merkle.Shape).
--
-- A node id and a signature are their bytes, of any length, an adapter is its discriminant, a time
-- is a number of nanoseconds in the ledger, of milliseconds in the cache and of seconds in
-- pairing, and a text that an error of the ledger or a report of the diagnostics formats is kept
-- as the values it is formatted from. A file is named by the height of its block; a disk says
-- which of its calls fail and which entries of the directory are files, and a write that fails leaves the files as they were. A hash table is a
-- list whose order stands for the order of iteration.
--
-- The calls of a manager are taken one after another. The manager of an appliance is shared, and its
-- code releases the lock of a part between the steps of a call: cache_message checks the device and
-- then stores the message, update_device_preferences reads the device and then stores its copy. The
-- histories of Appliance.Manager.History do not hold another call between such steps;
-- Appliance.Manager.Races follows one, an unpairing between the check and the store.
--
-- Not modelled: of the node, its API, its storage in SQLite, its configuration but for the
-- failover, the detection of backhauls, the files of the diagnostics, the monitors and the web
-- socket, which are mostly calls of sockets, timers and a database, and the tasks that repeat a
-- check or a broadcast; printing and logging; and the signatures of the ledger, which the code
-- stores and counts and never verifies.
pub mod Base
pub mod Ledger
pub mod Appliance
pub mod Updates
pub mod Node
pub mod Examples
