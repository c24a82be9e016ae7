-- ===== src/Lib.antt =====
-- The verification library of raft-sharded-kv: a sharded key/value store over Raft, in Go.
--
-- The program. Raft nodes (src/raft1) elect leaders and replicate a log. A key/value server
-- (src/kvraft1) executes the committed operations and removes duplicates of retried writes
-- (src/kvraft1/dedup). A shard group (src/shardkv1/shardgrp) does the same for each shard that it
-- serves, and shards move between groups by Freeze, Install and Delete, fenced by configuration
-- numbers; a configuration (src/shardkv1/shardcfg) says which group has which shard, and a
-- controller (src/shardkv1/shardctrler) keeps the current one in a single server. The replicated
-- servers submit their operations through a replicated state machine (src/kvraft1/rsm). A single
-- server without replication (src/kvsrv1) serves the same interface, and a lock is built on it
-- (src/kvsrv1/lock). A coordinator of MapReduce jobs (src/mr) stands by itself.
--
-- How it is modelled. A mutex guards each object, so that each handler, and each stretch of a
-- worker that holds the mutex, is one function from the state and its inputs to the new state and
-- what it returns or sends. A panic is `none`, and in the applier the turn `panics`; any other read
-- beyond a node's log, which panics in Go, reads an empty entry. A Go map that is read and written
-- at keys is a function to Option. Unsigned 64-bit arithmetic wraps (`% 2 ^ 64`). A signed int is a
-- natural number where the code keeps it at or above 0, and an integer where it uses -1; indices
-- and terms do not overflow.
--
-- The files.
--   Prelude: lists, maps, integers and Boolean tests.
--   Rpc: the requests and replies of src/kvsrv1/rpc/rpc.go.
--   Kvsrv: src/kvsrv1. Server has Get and Put of server.go, and Clerk has the retries of client.go;
--     Versions and Retries prove.
--   Lock: src/kvsrv1/lock/lock.go. Client has Acquire and Release, System has any number of clients
--     on one key; Invariant, Exclusion and Mutex prove.
--   Dedup: src/kvraft1/dedup/dedup.go. Client has Begin and Complete, Table has Do; Once, Watermark
--     and Pending prove.
--   Kvraft: src/kvraft1. Server has DoOp, Snapshot and Restore of server.go; Leader and Clerk have
--     the clerk of client.go, with the log's commits of its request; Machine has the server as Rsm
--     takes it; Refinement, Copies, Answers and Exactly prove.
--   Rsm: src/kvraft1/rsm/rsm.go. Server has SubmitWithTimeout, cut where it waits, and the loop
--     body of applier; System has the calls and the applier of one server as a step relation;
--     Replay, Waiters and Replies prove.
--   Shardcfg: src/shardkv1/shardcfg/shardcfg.go. Config has configurations and analyze, Balance has
--     Rebalance, Change has Join, Leave and CheckConfig; Loads, Names, Rebalancing, Passing,
--     Balanced, Membership and Departure prove.
--   Ctrler: src/shardkv1/shardctrler/shardctrler.go. State has the control state, its
--     compare-and-swap, InitConfig, readOwned, the election and Query; Swap proves. Migration has
--     InitController and ChangeConfigTo, cut at the reads and writes of the control state, and
--     System has any number of controllers on one control state as a step relation; Changes,
--     Fencing, Runs, Plans and Agreement prove, and Takeover is a run.
--   Shardgrp: src/shardkv1/shardgrp. Server has DoOp of server.go, Snapshots has Snapshot, Restore
--     and the RPC handlers, Clerk has the calls of client.go; Transitions, Fencing, Migration,
--     Restored, Rounds, Calls, Results and Tries prove.
--   Shardkv: src/shardkv1/client.go. Clerk has the routing of Get and Put by the cached
--     configuration; Routing, Outcome and Puts prove.
--   Mr: src/mr/coordinator.go. Coordinator has RequestTask, ReportTask and Done; Handout and Phases
--     prove.
--   Raft: src/raft1/raft.go. Types, Log, Encoding, Roles, Boot, Vote, Append, Snapshots, Commit,
--     Replicate, Heartbeat and Apply model; replicateUntilStable is cut where it gives up the
--     mutex, into build_request and the handlers of the two replies. Ballots, Merging, Invariant,
--     Agreement, Committed, Majority, Batches, Format, Restart, Durable, Ticks, Node, Progress and
--     Compaction prove, and so does the end of Heartbeat.
--   Cluster: several nodes and the votes between them, as a step relation (System); Counting, Votes
--     and Safety prove.
--   The Examples modules hold concrete runs.
--
-- Parameters. labgob is a parameter, with its round trip as the hypothesis (Coding for log entries,
-- Codec for the servers' snapshots and for shard transfers, ArrayCodec for a group's snapshot), and
-- so are the decoder of the old format of the persistent state, the hash of a key, and the
-- controller's JSON and DeepEqual (Encoding, DeepEqual). The replicated state machine takes the
-- service as a StateMachine, with the round trip of its snapshots as the hypothesis; the examples
-- run it over the key/value server. A handler reads the time and a random number from a Clock.
--
-- Fuel. The client's loop over its completed requests runs on fuel, one round for each of them,
-- which is enough since each round deletes one. The loop of Rebalance that moves shards runs on one
-- round more than there are pairs of shards: each move leaves fewer pairs in one group. The retries
-- of a clerk are a list of attempts, with what each brings and what other calls on the clerk do
-- meanwhile, and the waits of the lock and of Submit are steps. All other loops are structural.
--
-- Not modelled. The launch and stop of goroutines; the sends of the applier outside the mutex; the
-- pauses between the attempts of a clerk; the calls of the shard groups in a run of controllers,
-- which answer there with any Boolean; the JSON of a configuration; the workers of MapReduce; the
-- simulated network and the test framework, which are not part of the program's own logic. In the
-- cluster a vote request and its reply are delivered at most once, the ticks of the heartbeat and
-- the notices and marks of workers are left out, and nodes do not restart; the restart of one node
-- is in Raft/Restart and Raft/Node. The lock and the controllers assume that the ids of their
-- clients differ, which the code draws at random, and that the version stays below 2^64.
pub mod Prelude
pub mod Rpc
pub mod Kvsrv
pub mod Lock
pub mod Dedup
pub mod Mr
pub mod Rsm
pub mod Shardcfg
pub mod Ctrler
pub mod Kvraft
pub mod Shardgrp
pub mod Shardkv
pub mod Raft
pub mod Cluster
