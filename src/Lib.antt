-- ===== src/Lib.antt =====
-- BigFred: a model layout's locomotives driven from browsers and handsets over one command station.
--
-- The parts that are modelled are of the process dcc-bus, which owns a command station, and last of
-- the server, which owns the database and who may drive what:
--
-- * The slot leaser, pkgs/bigfred/dcc-bus/slotlease. A command station drives a locomotive through one
--   of few slots. The leaser counts who drives what, keeps every user within a cap and the whole
--   within a budget, and stops a locomotive before it gives its slot back. Slotlease/Types has
--   leaser.go's types: `Leaser` is the ledger under the mutex `mu`, with the release queue
--   `releaseCh` and the list of the calls made so far to the command station, the speed writer, the
--   store, the hub and the metrics (`effects`, the latest first). Slotlease/Ledger has the methods
--   named ...Locked, Slotlease/Release stopAndRelease, its retries and the background worker,
--   Slotlease/Reserve deselect, the slot budget and Reserve, Slotlease/Select the methods Select,
--   SelectTrain and Touch, Slotlease/Sweep the sweeps, ReleaseSession, OnSlotInUse, OnSlotReleased,
--   ReconcileSlots and ForceRelease. Slotlease/Calls has New, and histories of calls.
-- * The registry of inbound handsets, pkgs/bigfred/remotes/inbound (registry.go, keys.go):
--   Inbound/Types, Inbound/Registry, and histories of calls in Inbound/Calls. The Z21 and WiThrottle
--   servers ask it whom to tell of a locomotive's change, so its index has to agree with the clients.
-- * The Z21 LAN protocol, pkgs/bigfred/dcc-bus/z21server (protocol.go, packets.go): frames in
--   Z21/Protocol, the packets of locomotives in Z21/Packets.
-- * The speeds of trains, pkgs/bigfred/dcc-bus/service/train_speed_scheduler.go: the plan of a ramp in
--   Train/Ramp, Apply with the jobs that may be cancelled in Train/Scheduler, histories of its calls in
--   Train/Jobs. The goroutines that sleep between the commands of a job are left out.
-- * The store of locomotive states, pkgs/bigfred/dcc-bus/state/loco_store.go: LocoStore/Store. A flush
--   to Redis has two halves, with any call between them.
--
-- * The drive leases of the server: an owner lends a vehicle or a train to another user for a while.
--   Lease/Redis has the keys of pkgs/bigfred/contract/lease.go and, as an interface with laws, the
--   Redis commands and the JSON coding that pkgs/bigfred/server/repo/leases_redis.go uses; Lease/Store
--   has that store, for vehicles and trains alike, and Lease/Register what it promises. Lease/Service
--   has the state, the expiry timers and the events of pkgs/bigfred/server/cmd/lease.go,
--   Lease/Commands its calls with their guards (Lease/Commands/Checks), and Lease/Histories histories
--   of calls, timers that go off and time. Lease/Brake has the stop that ends a lease, of
--   lease_brake.go and drive_target_addrs.go in the same folder. Lease/Memory is a database in memory that keeps the laws.
--   In dcc-bus the leases decide who may drive.
-- * The signalmen of the interlockings, pkgs/bigfred/server/cmd/interlocking_occupancy.go:
--   Interlocking/Sessions has the table of sessions of server/repo/interlocking_sessions.go as the list
--   of its rows, Interlocking/Occupancy Join and Leave with the rules of
--   server/security/interlocking.go, Interlocking/Histories histories of calls, and Interlocking/Reads
--   the two calls that pair an interlocking with its occupant.
-- * The authority to drive: Authority/Policies has the rule of
--   pkgs/bigfred/server/security/drive.go, foldDriveControllers of server/cmd/layout_roster_snapshot.go
--   with MergeUserIDs, and the rules of dcc-bus/security/drive.go; Authority/Agreement compares them.
--
-- Conventions. A method that changes its receiver is a function to the changed state. The time of a
-- call is an argument, in nanoseconds since an epoch, and Go's zero time is 0. A Go map is an
-- association list; a `range` visits it in the list's order, about which nothing is assumed, and where
-- the source sorts, elements that compare equal stand in any order. Addresses and identifiers are
-- numbers. The command station, the writer, the store, the gate and the net package are parameters:
-- a component's answer may depend on all calls made before. `none` is a nil component.
--
-- Steps. A method that holds its mutex throughout is one step. `Select` gives up the mutex while the
-- command station acquires the slot, and `step` has its two halves as calls of their own, so a
-- history may put any call between them. Where the other methods of the leaser give up the mutex (in
-- the release of a slot, in Reserve's eviction at the cap, between the probes of ReconcileSlots), the
-- model takes the method as one step. A pause is an effect, without its length. Apply of the train
-- scheduler is one step too, although its mutex is free between CancelTrain and scheduleDelayed.
--
-- Bounds. The loop of ensureBudgetHeadroomLocked makes at most five attempts and the one of
-- releaseSlotWithRetry three, as in the source. splitZ21Datagram runs for at most as many rounds as
-- the datagram has bytes, which is enough: every round but the last takes four bytes or more. Counts
-- are unbounded numbers: they stay below the number of calls. The fields of a packet are written
-- with their 8 and 16 bits.
--
-- In the lease part times are milliseconds, a call reads the clock once, and a Redis transaction that
-- is tried again after a lost race is one step. The repositories that a call reads are tables, and a
-- read that fails is `none`. A connection to Redis that fails is left out, and so are ListAll,
-- ListGranted, Lendable and the leases that a takeover writes. The brake of a target is the call of
-- brakeLeasedTarget, which does nothing where no brake is set up. The kind and the id of a target stand
-- for the key that is spelled from them. Join and Leave are one step each, and the database answers.
--
-- Not modelled: the diagnostics and the export of metrics; sockets, the dispatch of packets, pairing
-- and WiThrottle's text protocol; the store's function commands and its reads of Redis; the
-- server's other commands, its database and HTTP interface; the clients.
pub mod Base
pub mod Slotlease
pub mod Inbound
pub mod Z21
pub mod Lease
pub mod Interlocking
pub mod Authority
pub mod Train
pub mod LocoStore
