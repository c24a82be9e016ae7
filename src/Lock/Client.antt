-- ===== src/Lock/Client.antt =====
-- src/kvsrv1/lock/lock.go: Acquire and Release, cut at the calls of the clerk, whose loops
-- (src/kvsrv1/client.go) are cut at their RPCs.
use raft_sharded_kv.Prelude.{ℕ, String, string_eq, Bool, true, false, none, some, if◌then◌else◌}
use raft_sharded_kv.Rpc.{Err, PutArgs, GetReply, ok, err_no_key, err_maybe}
use raft_sharded_kv.Kvsrv.Clerk.{get_result, put_result}

pub record Lock : Type 0 where
  pub key : String
  pub id : String

-- Why Get was called: at the head of Acquire, to confirm an ErrMaybe, or at the head of Release.
pub data Reason : Type 0 where
  acquire confirm release : Reason

-- Where a client stands, with the local variables that are live there.
pub data Pc : Type 0 where
  idle : Pc
  -- Get of the clerk waits for a reply, or has one.
  reading : Reason → Pc
  read : Reason → GetReply → Pc
  -- Put of the clerk, called in Release or in Acquire, waits for a reply, or has one; the Boolean
  -- is `resent`.
  writing : (releasing : Bool) → PutArgs → (resent : Bool) → Pc
  written : (releasing : Bool) → PutArgs → (resent : Bool) → Err → Pc
  holding : Pc

abbrev pub put_args : String → String → ℕ → PutArgs
put_args key value version = record {
  key = key;
  value = value;
  version = version;
  client_id = 0;
  sequence = 0;
  ack = 0;
}

module _ (lk : Lock) where
  -- What follows a Get.
  unfoldable pub after_get : Reason → GetReply → Pc
  after_get acquire r = elim r.err [
    | err_no_key ↦ writing false (put_args lk.key lk.id 0) false
    | ok ↦
        if string_eq.beq r.value ""
        then writing false (put_args lk.key lk.id r.version) false
        else reading acquire
    | _ ↦ reading acquire
  ]
  after_get confirm r = elim r.err [
    | ok ↦ if string_eq.beq r.value lk.id then holding else reading acquire
    | _ ↦ reading acquire
  ]
  after_get release r = elim r.err [
    | err_no_key ↦ idle
    | ok ↦
        if string_eq.beq r.value lk.id
        then writing true (put_args lk.key "" r.version) false
        else idle
    | _ ↦ reading release
  ]

  -- What follows a Put.
  unfoldable pub after_put : Bool → Err → Pc
  after_put false err = elim err [
    | ok ↦ holding
    | err_maybe ↦ reading confirm
    | _ ↦ reading acquire
  ]
  after_put true err = elim err [ ok ↦ idle | _ ↦ reading release ]

  -- The clerk has a reply: it returns, or tries again.
  unfoldable pub on_get : Reason → GetReply → Pc
  unfolding after_get get_result
  on_get why reply = elim (get_result reply) [ some r ↦ after_get why r | none ↦ reading why ]

  unfoldable pub on_put : Bool → PutArgs → Bool → Err → Pc
  unfolding after_put put_result
  on_put releasing args resent err = elim (put_result resent err) [
    | some e ↦ after_put releasing e
    | none ↦ writing releasing args true
  ]
