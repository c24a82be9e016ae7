-- ===== src/Shardgrp/Fencing.antt =====
-- Configuration numbers as fences (src/shardkv1/shardgrp/server.go): a delayed or repeated
-- migration operation cannot undo a later one.
use raft_sharded_kv.Prelude.{
  ℕ, ap, ◌≤◌, ◌<◌, ◌≡◌, refl, inl, inr, some, List, [], ◌∷◌, arith, Bool-cases, Option-cases, ◌==◌,
  ==_iff, ◌&&◌,
}
use raft_sharded_kv.Rpc.{Err, ok, err_wrong_group}
use raft_sharded_kv.Shardcfg.Constants.{n_shards}
use raft_sharded_kv.Shardgrp.Server.{
  ShardState, KvServer, Codec, Request, Reply, set_shard, is_serving, freeze_at, install_at,
  delete_at, do_op, step, run,
}
use raft_sharded_kv.Shardgrp.Transitions.{Transition, step_transition}

Transition_num : {s t : ShardState} → Transition s t → s.config_num ≤ t.config_num
Transition_num (Transition.same e) = ground arith
Transition_num (Transition.write p q e) = omega arith
Transition_num (Transition.freeze p q e) = omega arith
Transition_num (Transition.drop p q e) = omega arith
Transition_num (Transition.install p q e) = omega arith

module _ (c : Codec) where
  pub run_cases :
      (kv kv' : KvServer) (req : Request c) (rest : List (Request c))
      → run c kv (req ∷ rest) ≡ some kv'
      → (mid : KvServer) × (step c kv req ≡ some mid) × (run c mid rest ≡ some kv')
  unfolding run
  run_cases kv kv' req rest h = elim (Option-cases (step c kv req)) [
    | inl e ↦ ground arith
    | inr (mid, e) ↦ (mid, e, rw (e, run) at h)
  ]

  -- Along any sequence of committed operations the configuration number of a shard never falls.
  pub config_num_monotone :
      (reqs : List (Request c)) (kv kv' : KvServer) (shard : ℕ)
      → run c kv reqs ≡ some kv'
      → (kv.shards shard).config_num ≤ (kv'.shards shard).config_num
  unfolding run
  config_num_monotone [] kv kv' shard h = ground arith
  config_num_monotone (req ∷ rest) kv kv' shard h =
      let (mid, first, then') = run_cases kv kv' req rest h in
      omega (
        arith,
        Transition_num (step_transition c kv mid req shard first),
        config_num_monotone rest mid kv' shard then',
      )

  freeze_fenced : (s : ShardState) (num : ℕ) → num ≤ s.config_num → (freeze_at c s num).1 ≡ s
  unfolding freeze_at
  freeze_fenced s num h = ground arith

  install_fenced :
      (s : ShardState) (bytes : c.Bytes) (num : ℕ)
      → num ≤ s.config_num
      → (err : Err) × (install_at c s bytes num ≡ some (err, s))
  unfolding install_at
  install_fenced s bytes num h = elim (Bool-cases (num == s.config_num && is_serving s.status)) [
    | inl e ↦ (ok, ground arith)
    | inr e ↦ (err_wrong_group, ground arith)
  ]

  delete_fenced : (s : ShardState) (num : ℕ) → num < s.config_num → delete_at s num ≡ (ok, s)
  unfolding delete_at
  delete_fenced s num h = ground arith

  -- A migration operation on the shard whose number a shard at number `num` has passed.
  abbrev pub IsBehind : ℕ → ℕ → Request c → Type 0
  IsBehind shard num (Request.freeze_shard i n) = (i ≡ shard) × (n ≤ num)
  IsBehind shard num (Request.install_shard i bytes n) = (i ≡ shard) × (n ≤ num)
  IsBehind shard num (Request.delete_shard i n) = (i ≡ shard) × (n < num)
  IsBehind shard num _ = ⊥

  -- The answer OK of a Freeze or an Install of the shard with the number.
  abbrev pub IsAccepted : ℕ → ℕ → Request c → Reply c → Type 0
  IsAccepted shard num (Request.freeze_shard i n) (Reply.freeze_shard r) =
      (i ≡ shard) × (n ≡ num) × (r.err ≡ ok)
  IsAccepted shard num (Request.install_shard i bytes n) (Reply.install_shard err) =
      (i ≡ shard) × (n ≡ num) × (err ≡ ok)
  IsAccepted shard num _ _ = ⊥

  freeze_ok_num :
      (s : ShardState) (num : ℕ)
      → (freeze_at c s num).0.err ≡ ok
      → num ≤ (freeze_at c s num).1.config_num
  unfolding freeze_at
  freeze_ok_num s num h = ground arith

  install_ok_num :
      (s t : ShardState) (bytes : c.Bytes) (num : ℕ)
      → install_at c s bytes num ≡ some (ok, t)
      → num ≤ t.config_num
  unfolding install_at
  install_ok_num s t bytes num h = ground arith

  accepted_num :
      (kv kv' : KvServer) (shard num : ℕ) (req : Request c) (reply : Reply c)
      → do_op c kv req ≡ some (reply, kv')
      → IsAccepted shard num req reply
      → num ≤ (kv'.shards shard).config_num
  unfolding do_op
  accepted_num kv kv' shard num (Request.freeze_shard i n) reply h a =
      ground (arith, freeze_ok_num (kv.shards i) n)
  accepted_num kv kv' shard num (Request.install_shard i bytes n) reply h a =
      elim (Option-cases (install_at c (kv.shards i) bytes n)) [
        | inl e ↦ ground arith
        | inr ((err, t), e) ↦ ground (arith, install_ok_num (kv.shards i) t bytes n)
      ]
  accepted_num kv kv' shard num (Request.get x) reply h a = ground arith
  accepted_num kv kv' shard num (Request.put x) reply h a = ground arith
  accepted_num kv kv' shard num (Request.delete_shard i n) reply h a = ground arith
  accepted_num kv kv' shard num Request.other reply h a = ground arith

  set_shard_same :
      (kv : KvServer) (i : ℕ) (s : ShardState) (j : ℕ)
      → s ≡ kv.shards i
      → (set_shard kv i s).shards j ≡ kv.shards j
  set_shard_same kv i s j e = elim (Bool-cases (i == j)) [
    | inl same ↦ rw (same, e, (==_iff i j).0 same)
    | inr other ↦ rw other
  ]

  step_behind :
      (kv : KvServer) (shard num : ℕ) (req : Request c)
      → shard < n_shards
      → num ≤ (kv.shards shard).config_num
      → IsBehind shard num req
      → (kv' : KvServer) × (step c kv req ≡ some kv') × ((i : ℕ) → kv'.shards i ≡ kv.shards i)
  unfolding step do_op
  step_behind kv shard num (Request.freeze_shard i n) bound reached h = (
    set_shard kv i (freeze_at c (kv.shards i) n).1,
    ground arith,
    (λ j. set_shard_same kv i _ j (freeze_fenced (kv.shards i) n (ground arith))),
  )
  step_behind kv shard num (Request.install_shard i bytes n) bound reached h =
      let (err, e) = install_fenced (kv.shards i) bytes n (ground arith) in
      (set_shard kv i (kv.shards i), ground arith, (λ j. set_shard_same kv i _ j refl))
  step_behind kv shard num (Request.delete_shard i n) bound reached h = (
    set_shard kv i (delete_at (kv.shards i) n).1,
    ground arith,
    (λ j. set_shard_same kv i _ j (ap (λ r. r.1) (delete_fenced (kv.shards i) n (ground arith)))),
  )
  step_behind kv shard num (Request.get x) bound reached h = absurd h
  step_behind kv shard num (Request.put x) bound reached h = absurd h
  step_behind kv shard num Request.other bound reached h = absurd h

  -- Once a Freeze or an Install of a shard has been answered OK, and whatever operations were
  -- committed since, a late Freeze or Install of that shard with its number or a smaller one, and a
  -- late Delete with a smaller one, executes without a panic and leaves every shard as it was.
  pub delayed_harmless :
      (kv kv1 kv2 : KvServer) (shard num : ℕ) (first late : Request c) (reply : Reply c)
      (between : List (Request c))
      → shard < n_shards
      → do_op c kv first ≡ some (reply, kv1)
      → IsAccepted shard num first reply
      → run c kv1 between ≡ some kv2
      → IsBehind shard num late
      → (kv3 : KvServer) × (step c kv2 late ≡ some kv3) × ((i : ℕ) → kv3.shards i ≡ kv2.shards i)
  delayed_harmless kv kv1 kv2 shard num first late reply between bound h accepted passed behind =
      step_behind kv2 shard num late bound
        (omega (
          arith,
          accepted_num kv kv1 shard num first reply h accepted,
          config_num_monotone between kv1 kv2 shard passed,
        ))
        behind
