-- ===== src/Ctrler/Migration.antt =====
-- src/shardkv1/shardctrler/shardctrler.go: InitController, ChangeConfigTo and recoverPendingLocked,
-- cut at the reads and writes of the control state and at the calls of the shard groups.
use raft_sharded_kv.Prelude.{
  ℕ, ◌+◌, ◌%◌, ◌^◌, String, string_eq, ◌≡◌, Bool, true, false, not, ◌&&◌, ◌||◌, ◌==◌, Option, none,
  some, if◌then◌else◌,
}
use raft_sharded_kv.Shardcfg.Config.{ShardConfig}
use raft_sharded_kv.Ctrler.State.{MigrationRecord, ControllerState, ShardCtrler, found, owned}

-- reflect.DeepEqual of configurations, whose maps have their entries in one order, that in which
-- encoding/json writes them. Where it answers true, they are equal.
pub record DeepEqual : Type 0 where
  pub same : ShardConfig → ShardConfig → Bool
  pub same_sound : (a b : ShardConfig) → same a b ≡ true → a ≡ b
  pub same_refl : (a : ShardConfig) → same a a ≡ true

-- What ChangeConfigTo or InitController does when recoverPendingLocked has answered true.
pub data Rest : Type 0 where
  finish : Rest
  change : ShardConfig → Rest

-- Why readOwned is called.
pub data Purpose : Type 0 where
  checking recovering : Rest → Purpose
  verifying : MigrationRecord → Rest → Purpose
  changing : ShardConfig → Purpose

-- What a compare-and-swap writes.
pub data Write : Type 0 where
  claim : Rest → Write
  publish : MigrationRecord → Rest → Write
  clear : Rest → Write
  plan : Write

-- Where a controller stands, with the version and the state that it has read, or that it writes.
pub data Stage : Type 0 where
  idle : Stage
  electing : Rest → Stage
  owning : Purpose → Stage
  -- The calls of FreezeShard and InstallShard, and those of DeleteShard.
  migrating : MigrationRecord → Rest → ℕ → ControllerState → Stage
  deleting : MigrationRecord → Rest → ℕ → ControllerState → Stage
  writing : Write → ℕ → ControllerState → Stage

-- ensureLeadershipLocked, up to its read.
unfoldable pub ensure_leadership : ShardCtrler → Rest → Stage × ShardCtrler
ensure_leadership sck rest =
    if sck.initialized
    then (owning (checking rest), sck)
    else (electing rest, record sck { initialized = true })

-- A round of the election, from what it has read to its write.
abbrev pub claimed : String → ControllerState → ControllerState
claimed id state = record state { owner = id; epoch = (state.epoch + 1) % 2 ^ 64 }

-- recoverPendingLocked has answered true.
abbrev pub go_on : Rest → Stage
go_on finish = idle
go_on (change next) = owning (changing next)

module _ (d : DeepEqual) where
  abbrev pub same_plan : Option MigrationRecord → MigrationRecord → Bool
  same_plan none r = false
  same_plan (some q) r = d.same q.from r.from && d.same q.to r.to

  -- recoverPendingLocked, from the plan of its first readOwned on.
  abbrev pub recover : Option MigrationRecord → Rest → ℕ → ControllerState → Stage
  recover none rest version state = go_on rest
  recover (some r) rest version state =
      if d.same state.current r.from
      then migrating r rest version state
      else owning (verifying r rest)

  -- What follows readOwned, where the controller owns the state.
  unfoldable pub with_state : Purpose → ℕ → ControllerState → Stage
  with_state (checking rest) version state = owning (recovering rest)
  with_state (recovering rest) version state = recover state.pending rest version state
  with_state (verifying r rest) version state =
      if not (same_plan state.pending r) || not (d.same state.current r.to)
      then idle
      else deleting r rest version state
  with_state (changing next) version state =
      if d.same state.current next
      then idle
      else if not (next.num == state.current.num + 1)
      then idle
      else writing plan version
          (record state { pending = some (record { from = state.current; to = next }) })

  -- readOwned and what follows it, for the state that it reads.
  unfoldable pub own : Purpose → ShardCtrler → ℕ → ControllerState → Stage × ShardCtrler
  unfolding with_state owned
  own why sck version state =
      if sck.deposed
      then (idle, sck)
      else (let (mine, sck') = owned sck (found state version) in
          elim mine [ none ↦ (idle, sck') | some p ↦ (with_state why version state, sck') ])

-- The shard groups have answered every call, or one has failed.
unfoldable pub migrated : Bool → MigrationRecord → Rest → ℕ → ControllerState → Stage
migrated true r rest version state =
    writing (publish r rest) version (record state { current = r.to })
migrated false r rest version state = idle

unfoldable pub deleted : Bool → Rest → ℕ → ControllerState → Stage
deleted true rest version state = writing (clear rest) version (record state { pending = none })
deleted false rest version state = idle

-- The compare-and-swap of a state has answered.
unfoldable pub wrote : Write → ControllerState → Bool → ShardCtrler → Stage × ShardCtrler
wrote (claim rest) state true sck = (owning (recovering rest), record sck { epoch = state.epoch })
wrote (claim rest) state false sck = (electing rest, sck)
wrote (publish r rest) state true sck = (owning (verifying r rest), sck)
wrote (clear rest) state true sck = (go_on rest, sck)
wrote plan state true sck = (owning (recovering finish), sck)
wrote _ state false sck = (idle, sck)
