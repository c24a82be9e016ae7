-- ===== src/Raft/Ticks.antt =====
-- src/raft1/raft.go: what a tick of heartbeatTicker and the mark of a replicationWorker leave as
-- they are.
use raft_sharded_kv.Prelude.{ℕ, zero, suc, arith, Bool}
use raft_sharded_kv.Raft.Types.{Raft, Coding, Clock}
use raft_sharded_kv.Raft.Heartbeat.{Beat, beat_peer, beat_peers, heartbeat_or_notify_replication}
use raft_sharded_kv.Raft.Durable.{Same, Same-refl, Same-trans, Saves}
use raft_sharded_kv.Raft.Replicate.{set_busy}
use raft_sharded_kv.Raft.Invariant.{IsWellFormed}

module _ {A : Type 0} (clock : Clock) where
  beat_peer-Same :
      (rf : Raft A) (beat : Beat A) (peer : ℕ) → Same rf (beat_peer clock rf beat peer).0
  unfolding beat_peer
  beat_peer-Same rf beat peer = ground arith

  beat_peers-Same : (rf : Raft A) (n : ℕ) → Same rf (beat_peers clock rf n).0
  unfolding beat_peers
  beat_peers-Same rf zero = Same-refl rf
  beat_peers-Same rf (suc n) =
      Same-trans (beat_peers-Same rf n)
        (beat_peer-Same (beat_peers clock rf n).0 (beat_peers clock rf n).1 n)

  pub tick-Saves : (rf : Raft A) → Saves rf (heartbeat_or_notify_replication clock rf).0
  unfolding heartbeat_or_notify_replication
  tick-Saves rf = ground (arith, Same-refl rf, beat_peers-Same rf rf.peers)

  beat_peer-IsWellFormed :
      (c : Coding A) (rf : Raft A) (beat : Beat A) (peer : ℕ)
      → IsWellFormed c rf
      → IsWellFormed c (beat_peer clock rf beat peer).0
  unfolding beat_peer
  beat_peer-IsWellFormed c rf beat peer v = ground arith

  beat_peers-IsWellFormed :
      (c : Coding A) (rf : Raft A) (n : ℕ)
      → IsWellFormed c rf
      → IsWellFormed c (beat_peers clock rf n).0
  unfolding beat_peers
  beat_peers-IsWellFormed c rf zero v = v
  beat_peers-IsWellFormed c rf (suc n) v =
      beat_peer-IsWellFormed c (beat_peers clock rf n).0 (beat_peers clock rf n).1 n
        (beat_peers-IsWellFormed c rf n v)

  pub tick-IsWellFormed :
      (c : Coding A) (rf : Raft A)
      → IsWellFormed c rf
      → IsWellFormed c (heartbeat_or_notify_replication clock rf).0
  unfolding heartbeat_or_notify_replication
  tick-IsWellFormed c rf v = ground (arith, beat_peers-IsWellFormed c rf rf.peers v)

module _ {A : Type 0} where
  pub set_busy-Saves : (rf : Raft A) (peer : ℕ) (busy : Bool) → Saves rf (set_busy rf peer busy)
  unfolding set_busy
  set_busy-Saves rf peer busy = ground (arith, Same-refl rf)

  pub set_busy-IsWellFormed :
      (c : Coding A) (rf : Raft A) (peer : ℕ) (busy : Bool)
      → IsWellFormed c rf
      → IsWellFormed c (set_busy rf peer busy)
  unfolding set_busy
  set_busy-IsWellFormed c rf peer busy v = ground arith
