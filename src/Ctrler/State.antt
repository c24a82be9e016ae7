-- ===== src/Ctrler/State.antt =====
-- src/shardkv1/shardctrler/shardctrler.go: the control state, its compare-and-swap, and the
-- election of a controller.
use raft_sharded_kv.Prelude.{
  ℕ, ◌+◌, ◌%◌, ◌^◌, String, string_eq, ◌≡◌, Bool, true, false, not, ◌||◌, ◌==◌, List, [], ◌∷◌,
  Option, none, some, if◌then◌else◌,
}
use raft_sharded_kv.Rpc.{Err, GetReply, ok, err_maybe}
use raft_sharded_kv.Kvsrv.Server.{KvServer}
use raft_sharded_kv.Kvsrv.Clerk.{Attempt, Called, clerk_put, clerk_get}
use raft_sharded_kv.Shardcfg.Config.{ShardConfig}

-- currentConfigKey
abbrev pub current_config_key : String
current_config_key = "shardctrler/current-config"

pub record MigrationRecord : Type 0 where
  pub from : ShardConfig
  pub to : ShardConfig

pub record ControllerState : Type 0 where
  pub owner : String
  pub epoch : ℕ
  pub current : ShardConfig
  pub pending : Option MigrationRecord

pub record ShardCtrler : Type 0 where
  pub id : String
  pub epoch : ℕ
  pub initialized : Bool
  pub deposed : Bool

-- encoding/json and reflect.DeepEqual, with what the code relies on: what was encoded decodes to a
-- state that is deeply equal. A text that does not decode, or to no Current, is `none`.
pub record Encoding : Type 0 where
  pub marshal : ControllerState → String
  pub unmarshal : String → Option ControllerState
  pub deep_equal : ControllerState → ControllerState → Bool
  pub unmarshal_marshal :
      (s : ControllerState)
      → (t : ControllerState) × (unmarshal (marshal s) ≡ some t) × (deep_equal t s ≡ true)

-- What becomes of a call: the clerk's loop still runs, the code panics, or it returns.
pub data Outcome {ℓ} (A : Type ℓ) : Type ℓ where
  running panics : Outcome A
  returns : A → Outcome A

-- What readState returns.
pub data Read : Type 0 where
  failed : Err → ℕ → Read
  found : ControllerState → ℕ → Read

-- InitConfig of a configuration that is not nil; it returns the controller after it.
abbrev pub created : ShardCtrler → Outcome Bool → Outcome ShardCtrler
created sck running = running
created sck panics = panics
created sck (returns true) = returns (record sck { epoch = 1; initialized = true })
created sck (returns false) = returns sck

-- readOwned after its read, where the controller is not deposed: the state and its version if the
-- controller still owns it.
unfoldable pub owned : ShardCtrler → Read → Option (ControllerState × ℕ) × ShardCtrler
owned sck (failed err version) = (none, sck)
owned sck (found state version) =
    if not (string_eq.beq state.owner sck.id) || not (state.epoch == sck.epoch)
    then (none, record sck { deposed = true })
    else (some (state, version), sck)

-- The attempts of one round of the election: of the read, of the write, and of its confirmation.
pub record Round : Type 0 where
  pub reads : List Attempt
  pub puts : List Attempt
  pub gets : List Attempt

-- Query: the configuration, or nil.
abbrev pub queried : Outcome Read → Outcome (Option ShardConfig)
queried running = running
queried panics = panics
queried (returns (failed err version)) = returns none
queried (returns (found state version)) = returns (some state.current)

module _ (e : Encoding) where
  abbrev read_reply : Option GetReply → Outcome Read
  read_reply none = running
  read_reply (some r) = elim r.err [
    | ok ↦ elim (e.unmarshal r.value) [ some s ↦ returns (found s r.version) | none ↦ panics ]
    | err ↦ returns (failed err r.version)
  ]

  -- The attempts are those of the clerk.
  unfoldable pub read_state : KvServer → List Attempt → Outcome Read × KvServer
  read_state kv attempts =
      let c = clerk_get kv current_config_key attempts in (read_reply c.result, c.server)

  abbrev pub confirmed : ControllerState → Read → Bool
  confirmed state (failed err version) = false
  confirmed state (found stored version) = e.deep_equal stored state

  abbrev pub confirm : ControllerState → Outcome Read → Outcome Bool
  confirm state running = running
  confirm state panics = panics
  confirm state (returns r) = returns (confirmed state r)

  -- The answers are those of the server to the write.
  pub record Swapped : Type 0 where
    pub outcome : Outcome Bool
    pub answers : List Err
    pub server : KvServer

  -- What follows the Put.
  unfoldable pub decided : ControllerState → List Attempt → Called Err → Swapped
  unfolding read_state
  decided state gets c = elim c.result [
    | none ↦ record { outcome = running; answers = c.answers; server = c.server }
    | some ok ↦ record { outcome = returns true; answers = c.answers; server = c.server }
    | some err_maybe ↦
        let (read, server) = read_state c.server gets in
        record { outcome = confirm state read; answers = c.answers; server = server }
    | some _ ↦ record { outcome = returns false; answers = c.answers; server = c.server }
  ]

  unfoldable pub compare_and_swap :
      KvServer → ℕ → ControllerState → List Attempt → List Attempt → Swapped
  unfolding decided
  compare_and_swap kv version state puts gets =
      decided state gets (clerk_put kv current_config_key (e.marshal state) version puts)

  unfoldable pub init_config :
      ShardCtrler
      → KvServer
      → ShardConfig
      → List Attempt
      → List Attempt
      → Outcome ShardCtrler × KvServer
  unfolding compare_and_swap
  init_config sck kv cfg puts gets =
      let state : ControllerState = record {
        owner = sck.id;
        epoch = 1;
        current = cfg;
        pending = none;
      } in
      let s = compare_and_swap kv 0 state puts gets in (created sck s.outcome, s.server)

  -- The loop of ensureLeadershipLocked over a sequence of rounds.
  unfoldable pub contend :
      ShardCtrler → KvServer → List Round → Outcome (Bool × ShardCtrler) × KvServer
  unfolding read_state compare_and_swap
  contend sck kv [] = (running, kv)
  contend sck kv (r ∷ rest) =
      let (read, kv') = read_state kv r.reads in
      elim read [
        | running ↦ (running, kv')
        | panics ↦ (panics, kv')
        | returns (failed err version) ↦ (returns (false, record sck { deposed = true }), kv')
        | returns (found state version) ↦
            let claim : ControllerState = record state {
              owner = sck.id;
              epoch = (state.epoch + 1) % 2 ^ 64;
            } in
            let s = compare_and_swap kv' version claim r.puts r.gets in
            elim s.outcome [
              | running ↦ (running, s.server)
              | panics ↦ (panics, s.server)
              | returns true ↦ (returns (true, record sck { epoch = claim.epoch }), s.server)
              | returns false ↦ contend sck s.server rest
            ]
      ]

  unfoldable pub query : KvServer → List Attempt → Outcome (Option ShardConfig) × KvServer
  unfolding read_state
  query kv attempts = let (read, kv') = read_state kv attempts in (queried read, kv')
