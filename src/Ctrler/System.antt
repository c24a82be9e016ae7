-- ===== src/Ctrler/System.antt =====
-- src/shardkv1/shardctrler/shardctrler.go: any number of controllers on one control state.
use raft_sharded_kv.Prelude.{ℕ, suc, ◌<◌, ◌≡◌, Bool, true, ◌==◌, none, if◌then◌else◌}
use raft_sharded_kv.Ctrler.State.{MigrationRecord, ControllerState, ShardCtrler}
use raft_sharded_kv.Ctrler.Migration.{
  DeepEqual, Rest, Purpose, Write, claim, Stage, idle, electing, owning, migrating, deleting,
  writing, ensure_leadership, claimed, own, migrated, deleted, wrote,
}

-- The key's version, and the states that it has had, by their versions.
pub record System : Type 0 where
  pub version : ℕ
  pub history : ℕ → ControllerState
  pub ctrler : ℕ → ShardCtrler
  pub stage : ℕ → Stage

abbrev pub now : System → ControllerState
now s = s.history s.version

-- A controller goes on.
abbrev pub goes : System → ℕ → Stage × ShardCtrler → System
goes s i (stage, sck) = record s {
  stage = λ j. if i == j then stage else s.stage j;
  ctrler = λ j. if i == j then sck else s.ctrler j;
}

-- The server executes a write of the current version.
abbrev pub store : System → ControllerState → System
store s state = record s {
  version = suc s.version;
  history = λ k. if suc s.version == k then state else s.history k;
}

module _ (d : DeepEqual) where
  pub data Step (s : System) : System → Type 0 where
    -- InitController, and ChangeConfigTo.
    begins :
        (i : ℕ) (rest : Rest)
        → s.stage i ≡ idle
        → Step s (goes s i (ensure_leadership (s.ctrler i) rest))
    elects :
        (i : ℕ) (rest : Rest)
        → s.stage i ≡ electing rest
        → Step s (
            goes s i (writing (claim rest) s.version (claimed (s.ctrler i).id (now s)), s.ctrler i))
    owns :
        (i : ℕ) (why : Purpose)
        → s.stage i ≡ owning why
        → Step s (goes s i (own d why (s.ctrler i) s.version (now s)))
    migrates :
        (i : ℕ) (r : MigrationRecord) (rest : Rest) (version : ℕ) (state : ControllerState)
        (answer : Bool)
        → s.stage i ≡ migrating r rest version state
        → Step s (goes s i (migrated answer r rest version state, s.ctrler i))
    deletes :
        (i : ℕ) (r : MigrationRecord) (rest : Rest) (version : ℕ) (state : ControllerState)
        (answer : Bool)
        → s.stage i ≡ deleting r rest version state
        → Step s (goes s i (deleted answer rest version state, s.ctrler i))
    -- A copy of the write of a running compare-and-swap arrives while its version is current. At
    -- another version it changes nothing.
    executes :
        (i : ℕ) (what : Write) (state : ControllerState)
        → s.stage i ≡ writing what s.version state
        → Step s (store s state)
    -- The compare-and-swap answers, when the version has moved on: with any Boolean.
    answers :
        (i : ℕ) (what : Write) (version : ℕ) (state : ControllerState) (answer : Bool)
        → s.stage i ≡ writing what version state
        → version < s.version
        → Step s (goes s i (wrote what state answer (s.ctrler i)))
    -- isCurrent, which the clerks of the groups call, has found another owner.
    deposes : (i : ℕ) → Step s (goes s i (s.stage i, record (s.ctrler i) { deposed = true }))

  pub data Reach (s : System) : System → Type 0 where
    here : Reach s s
    next : {t u : System} → Reach s t → Step t u → Reach s u

-- InitConfig has made the state, and no controller runs.
pub record IsInitial (s : System) : Type 0 where
  pub made : s.version ≡ 1
  pub no_plan : (now s).pending ≡ none
  pub quiet : (i : ℕ) → s.stage i ≡ idle
