-- ===== src/Shardgrp/Migration.antt =====
-- Moving a shard between groups (src/shardkv1/shardgrp/server.go): what is frozen stays as it is,
-- and the group that installs it answers as the old one would have.
use mathlib.Core.Option.{some-injective}
use raft_sharded_kv.Prelude.{
  map, ℕ, ap, ◌<◌, ◌≡◌, ◌≢◌, refl, ◌∙◌, inl, inr, Option, none, some, List, [], ◌∷◌, arith,
  Bool-cases, ltb, ◌==◌, ==_iff,
}
use raft_sharded_kv.Rpc.{
  Err, PutArgs, PutReply, GetArgs, GetReply, ok, err_wrong_group, get_error, put_reply,
}
use raft_sharded_kv.Shardgrp.Fencing.{run_cases}
use raft_sharded_kv.Shardcfg.Constants.{n_shards}
use raft_sharded_kv.Shardgrp.Server.{
  absent, serving, frozen, ShardState, KvServer, Codec, Request, is_serving, decode_shard_transfer,
  get_at, put_at, freeze_at, install_at, do_op, step, run, set_shard, state_after, install_reply,
  ShardTransfer,
}

-- The operations on a shard that clients make.
pub data ClientOp : Type 0 where
  get : GetArgs → ClientOp
  put : PutArgs → ClientOp

pub data ClientReply : Type 0 where
  got : GetReply → ClientReply
  did : PutReply → ClientReply

pub client_op : ShardState → ClientOp → ClientReply × ShardState
client_op s (ClientOp.get a) = (got (get_at s a), s)
client_op s (ClientOp.put a) = let (r, s') = put_at s a in (did r, s')

-- The replies to a sequence of them.
pub serve : ShardState → List ClientOp → List ClientReply
serve s [] = []
serve s (o ∷ os) = let (r, s') = client_op s o in r ∷ serve s' os

renumber : ShardState → ℕ → ShardState
renumber s num = record s { config_num = num }

client_op-renumber :
    (s : ShardState) (num : ℕ) (o : ClientOp)
    → client_op (renumber s num) o ≡ ((client_op s o).0, renumber (client_op s o).1 num)
unfolding client_op get_at put_at renumber
client_op-renumber s num (ClientOp.get a) = refl
client_op-renumber s num (ClientOp.put a) = elim (Bool-cases (is_serving s.status)) [
  | inl e ↦ rw e
  | inr e ↦ rw e
]

-- The replies do not depend on the configuration number.
serve-renumber :
    (os : List ClientOp) (s : ShardState) (num : ℕ) → serve (renumber s num) os ≡ serve s os
unfolding serve
serve-renumber [] s num = refl
serve-renumber (o ∷ os) s num =
    rw (client_op-renumber s num o)
      (ap (λ rest. (client_op s o).0 ∷ rest) (serve-renumber os _ num))

-- The refusal of every operation by a shard that is not served.
abbrev pub refusal : ClientOp → ClientReply
refusal (ClientOp.get a) = got (get_error err_wrong_group)
refusal (ClientOp.put a) = did (put_reply err_wrong_group)

pub serve_refused :
    (os : List ClientOp) (s : ShardState) → s.status ≢ serving → serve s os ≡ map refusal os
unfolding serve client_op get_at put_at
serve_refused [] s h = refl
serve_refused (ClientOp.get a ∷ os) s h = ground (arith, serve_refused os s h)
serve_refused (ClientOp.put a ∷ os) s h = ground (arith, serve_refused os s h)

module _ (c : Codec) where
  decode-encode : (t : ShardTransfer) → decode_shard_transfer c (c.encode t) ≡ some t
  unfolding decode_shard_transfer
  decode-encode t = rw (c.encode_nonempty t) (c.decode_encode t)

  -- A Freeze of a served shard and an Install of what it returned, both for the same newer
  -- configuration, move the shard: the Install is answered OK, the new group's replies to any Gets
  -- and Puts are those that the old one would have given, retried requests included, and the old
  -- group refuses them all.
  pub migration_keeps_replies :
      (source target : ShardState) (num : ℕ) (os : List ClientOp)
      → source.status ≡ serving
      → source.config_num < num
      → target.status ≡ absent
      → target.config_num < num
      → (moved : ShardState) × (install_at c target (freeze_at c source num).0.state num
          ≡ some (ok, moved))
        × (serve moved os ≡ serve source os)
        × (serve (freeze_at c source num).1 os ≡ map refusal os)
  unfolding freeze_at install_at renumber
  migration_keeps_replies source target num os p q r s = (
    renumber source num,
    ground (arith, decode-encode (record { values = source.values; requests = source.requests })),
    serve-renumber os source num,
    serve_refused os (freeze_at c source num).1 (ground arith),
  )

  -- No operation of the list deletes the shard.
  abbrev pub KeepsShard : ℕ → Request c → Type 0
  KeepsShard shard (Request.delete_shard i num) = i ≢ shard
  KeepsShard shard _ = Unit {0}

  abbrev pub AllKeep : ℕ → List (Request c) → Type 0
  AllKeep shard [] = Unit {0}
  AllKeep shard (req ∷ reqs) = KeepsShard shard req × AllKeep shard reqs

  frozen_put : (s : ShardState) (a : PutArgs) → s.status ≡ frozen → (put_at s a).1 ≡ s
  unfolding put_at
  frozen_put s a h = ground arith

  frozen_freeze : (s : ShardState) (num : ℕ) → s.status ≡ frozen → (freeze_at c s num).1 ≡ s
  unfolding freeze_at
  frozen_freeze s num h = ground arith

  frozen_install :
      (s : ShardState) (bytes : c.Bytes) (num : ℕ)
      → s.status ≡ frozen
      → install_at c s bytes num ≡ some (err_wrong_group, s)
  unfolding install_at
  frozen_install s bytes num h = ground arith

  set_frozen :
      (kv kv' : KvServer) (i : ℕ) (s : ShardState) (shard : ℕ)
      → some (set_shard kv i s) ≡ some kv'
      → ((i ≡ shard) → s ≡ kv.shards shard)
      → kv'.shards shard ≡ kv.shards shard
  set_frozen kv kv' i s shard e h = elim (Bool-cases (i == shard)) [
    | inl hit ↦
        ground (arith, h ((==_iff i shard).0 hit), ap (λ v. v.shards shard) (some-injective _ _ e))
    | inr miss ↦ ground (arith, ap (λ v. v.shards shard) (some-injective _ _ e))
  ]

  install_frozen :
      (kv kv' : KvServer) (i shard : ℕ) (r : Option (Err × ShardState))
      → state_after c (install_reply c kv i r) ≡ some kv'
      → ((i ≡ shard) → r ≡ some (err_wrong_group, kv.shards shard))
      → kv'.shards shard ≡ kv.shards shard
  install_frozen kv kv' i shard none e h = cc
  install_frozen kv kv' i shard (some (err, s)) e h =
      set_frozen kv kv' i s shard e (λ p. ap (λ x. x.1) (some-injective _ _ (h p)))

  step_frozen :
      (kv kv' : KvServer) (req : Request c) (shard : ℕ)
      → step c kv req ≡ some kv'
      → KeepsShard shard req
      → (kv.shards shard).status ≡ frozen
      → kv'.shards shard ≡ kv.shards shard
  unfolding step do_op
  step_frozen kv kv' (Request.get a) shard h k f = ground arith
  step_frozen kv kv' (Request.put a) shard h k f =
      set_frozen kv kv' _ _ shard h (λ e. rw e (frozen_put (kv.shards shard) a f))
  step_frozen kv kv' (Request.freeze_shard i num) shard h k f = elim (Bool-cases (ltb i n_shards)) [
    | inl e ↦
        set_frozen kv kv' i _ shard (rw e at h) (λ p. rw p (frozen_freeze (kv.shards shard) num f))
    | inr e ↦ ground arith
  ]
  step_frozen kv kv' (Request.install_shard i bytes num) shard h k f =
      elim (Bool-cases (ltb i n_shards)) [
        | inl e ↦
            install_frozen kv kv' i shard _ (rw e at h)
              (λ p. rw p (frozen_install (kv.shards shard) bytes num f))
        | inr e ↦ ground arith
      ]
  step_frozen kv kv' (Request.delete_shard i num) shard h k f = elim (Bool-cases (ltb i n_shards)) [
    | inl e ↦ set_frozen kv kv' i _ shard (rw e at h) (λ p. absurd (k p))
    | inr e ↦ ground arith
  ]
  step_frozen kv kv' Request.other shard h k f = cc

  run_frozen :
      (reqs : List (Request c)) (kv kv' : KvServer) (shard : ℕ)
      → run c kv reqs ≡ some kv'
      → AllKeep shard reqs
      → (kv.shards shard).status ≡ frozen
      → kv'.shards shard ≡ kv.shards shard
  unfolding run
  run_frozen [] kv kv' shard h k f = ground arith
  run_frozen (req ∷ rest) kv kv' shard h k f =
      let (mid, first, then') = run_cases c kv kv' req rest h in
      let e = step_frozen kv mid req shard first k.0 f in
      run_frozen rest mid kv' shard then' k.1 (rw e f) ∙ e

  freeze_ok :
      (s : ShardState) (num : ℕ)
      → (freeze_at c s num).0.err ≡ ok
      → ((freeze_at c s num).1.status ≡ frozen)
        × (freeze_at c (freeze_at c s num).1 num ≡ freeze_at c s num)
  unfolding freeze_at
  freeze_ok s num h = (ground arith, ground arith)

  -- After a Freeze that was answered OK, and while no Delete of the shard is committed, the shard
  -- stays exactly as it is, whatever else is committed, and the Freeze sent again returns the same
  -- data and changes nothing.
  pub freeze_repeatable :
      (reqs : List (Request c)) (kv kv' : KvServer) (shard : ℕ) (before : ShardState) (num : ℕ)
      → kv.shards shard ≡ (freeze_at c before num).1
      → (freeze_at c before num).0.err ≡ ok
      → run c kv reqs ≡ some kv'
      → AllKeep shard reqs
      → (kv'.shards shard ≡ kv.shards shard)
        × (freeze_at c (kv'.shards shard) num ≡ freeze_at c before num)
  freeze_repeatable reqs kv kv' shard before num e okay h k =
      let (is_frozen, again) = freeze_ok before num okay in
      let stays = run_frozen reqs kv kv' shard h k (rw e is_frozen) in (stays, rw (stays, e) again)
