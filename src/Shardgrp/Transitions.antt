-- ===== src/Shardgrp/Transitions.antt =====
-- The life of a shard in one group (src/shardkv1/shardgrp/server.go, DoOp): which changes of its
-- status and configuration number the committed operations can make.
use raft_sharded_kv.Prelude.{
  ℕ, subst, ◌<◌, ◌≡◌, refl, ◌⊎◌, inl, inr, Option, none, some, arith, nat_eq, Bool-cases, ltb, ◌==◌,
  ==_iff,
}
use raft_sharded_kv.Shardgrp.Server.{
  absent, serving, frozen, ShardState, KvServer, Codec, Request, is_serving, put_at, freeze_at,
  install_at, delete_at, do_op, set_shard, state_after, install_reply, step, key_2_shard,
}
use mathlib.Core.Option.{some-injective}
use raft_sharded_kv.Rpc
use raft_sharded_kv.Shardcfg.Constants.{n_shards}

-- One operation does to a shard one of these.
pub data Transition (s t : ShardState) : Type 0 where
  -- Nothing at all.
  same : t ≡ s → Transition s t
  -- A Put on a shard that is being served.
  write : s.status ≡ serving → t.status ≡ serving → t.config_num ≡ s.config_num → Transition s t
  -- A Freeze for a newer configuration: the data stay.
  freeze :
      s.status ≡ serving
      → s.config_num < t.config_num
      → t ≡ record s { status = frozen; config_num = t.config_num }
      → Transition s t
  -- A Delete for the configuration of the Freeze.
  drop : s.status ≡ frozen → t.status ≡ absent → t.config_num ≡ s.config_num → Transition s t
  -- An Install for a newer configuration.
  install : s.status ≡ absent → t.status ≡ serving → s.config_num < t.config_num → Transition s t

put_at_transition : (s : ShardState) (a : Rpc.PutArgs) → Transition s (put_at s a).1
unfolding put_at
put_at_transition s a = elim (Bool-cases (is_serving s.status)) [
  | inl e ↦ rw e (write (ground arith) (ground arith) refl)
  | inr e ↦ rw e (same refl)
]

freeze_at_cases :
    (c : Codec) (s : ShardState) (num : ℕ)
    → ((freeze_at c s num).1 ≡ s)
      ⊎ ((s.status ≡ serving)
          × (s.config_num < num)
          × ((freeze_at c s num).1 ≡ record s { status = frozen; config_num = num }))
unfolding freeze_at
freeze_at_cases c s num = ground arith

freeze_at_transition : (c : Codec) (s : ShardState) (num : ℕ) → Transition s (freeze_at c s num).1
freeze_at_transition c s num = elim (freeze_at_cases c s num) [
  | inl e ↦ same e
  | inr (p, q, e) ↦ rw e (freeze p q refl)
]

install_at_cases :
    (c : Codec) (s t : ShardState) (bytes : c.Bytes) (num : ℕ) (err : Rpc.Err)
    → install_at c s bytes num ≡ some (err, t)
    → (t ≡ s)
      ⊎ ((s.status ≡ absent) × (t.status ≡ serving) × (s.config_num < num) × (t.config_num ≡ num))
unfolding install_at
install_at_cases c s t bytes num err h = ground arith

install_at_transition :
    (c : Codec) (s t : ShardState) (bytes : c.Bytes) (num : ℕ) (err : Rpc.Err)
    → install_at c s bytes num ≡ some (err, t)
    → Transition s t
install_at_transition c s t bytes num err h = elim (install_at_cases c s t bytes num err h) [
  | inl e ↦ same e
  | inr (p, q, r, e) ↦ install p q (omega arith)
]

delete_at_cases :
    (s : ShardState) (num : ℕ)
    → ((delete_at s num).1 ≡ s)
      ⊎ ((s.status ≡ frozen)
          × ((delete_at s num).1.status ≡ absent)
          × ((delete_at s num).1.config_num ≡ s.config_num)
          × (num ≡ s.config_num))
unfolding delete_at
delete_at_cases s num = ground arith

delete_at_transition : (s : ShardState) (num : ℕ) → Transition s (delete_at s num).1
delete_at_transition s num = elim (delete_at_cases s num) [
  | inl e ↦ same e
  | inr (p, q, r, e) ↦ drop p q r
]

set_shard_transition :
    (kv : KvServer) (shard : ℕ) (t : ShardState) (i : ℕ)
    → Transition (kv.shards shard) t
    → Transition (kv.shards i) ((set_shard kv shard t).shards i)
set_shard_transition kv shard t i h = elim (Bool-cases (shard == i)) [
  | inl e ↦ rw (e, ← (==_iff shard i).0 e) h
  | inr e ↦ rw e (same refl)
]

after_set :
    (kv kv' : KvServer) (shard : ℕ) (t : ShardState) (i : ℕ)
    → some (set_shard kv shard t) ≡ some kv'
    → Transition (kv.shards shard) t
    → Transition (kv.shards i) (kv'.shards i)
after_set kv kv' shard t i e h =
    subst (λ v. Transition (kv.shards i) (v.shards i)) (some-injective _ _ e)
      (set_shard_transition kv shard t i h)

step_install :
    (c : Codec) (kv kv' : KvServer) (shard : ℕ) (bytes : c.Bytes) (num : ℕ) (i : ℕ)
    → (r : Option (Rpc.Err × ShardState)) → install_at c (kv.shards shard) bytes num ≡ r
    → state_after c (install_reply c kv shard r) ≡ some kv'
    → Transition (kv.shards i) (kv'.shards i)
step_install c kv kv' shard bytes num i none e h = cc
step_install c kv kv' shard bytes num i (some (err, t)) e h =
    after_set kv kv' shard t i h (install_at_transition c (kv.shards shard) t bytes num err e)

-- Every committed operation that does not panic takes every shard through at most one step of its
-- life: a write while it is served, a Freeze or an Install with a greater configuration number, or
-- a Delete of a frozen shard.
pub step_transition :
    (c : Codec) (kv kv' : KvServer) (req : Request c) (i : ℕ)
    → step c kv req ≡ some kv'
    → Transition (kv.shards i) (kv'.shards i)
unfolding step do_op
step_transition c kv kv' (Request.get args) i h =
    subst (λ v. Transition (kv.shards i) (v.shards i)) (some-injective _ _ h) (same refl)
step_transition c kv kv' (Request.put args) i h =
    after_set kv kv' _ _ i h (put_at_transition (kv.shards (key_2_shard c args.key)) args)
step_transition c kv kv' (Request.freeze_shard shard num) i h =
    elim (Bool-cases (ltb shard n_shards)) [
      | inl e ↦
          after_set kv kv' shard _ i (rw e at h) (freeze_at_transition c (kv.shards shard) num)
      | inr e ↦ ground arith
    ]
step_transition c kv kv' (Request.install_shard shard bytes num) i h =
    elim (Bool-cases (ltb shard n_shards)) [
      | inl e ↦ step_install c kv kv' shard bytes num i _ refl (rw e at h)
      | inr e ↦ ground arith
    ]
step_transition c kv kv' (Request.delete_shard shard num) i h =
    elim (Bool-cases (ltb shard n_shards)) [
      | inl e ↦ after_set kv kv' shard _ i (rw e at h) (delete_at_transition (kv.shards shard) num)
      | inr e ↦ ground arith
    ]
step_transition c kv kv' Request.other i h = cc
