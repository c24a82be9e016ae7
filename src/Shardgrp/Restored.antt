-- ===== src/Shardgrp/Restored.antt =====
-- src/shardkv1/shardgrp/server.go: restored servers and the handlers' replies.
use raft_sharded_kv.Prelude.{
  ℕ, ◌<◌, ◌≡◌, ◌⊎◌, empty_map, refl, ap, subst, arith, String, nat_eq, Option, none, some,
  Bool-cases, ltb, ltb→lt, ◌==◌, List, [], ◌∷◌, inl, inr,
}
use raft_sharded_kv.Rpc.{Err, PutReply, GetReply}
use raft_sharded_kv.Shardcfg.Constants.{n_shards}
use raft_sharded_kv.Kvraft.Server.{executed}
use raft_sharded_kv.Shardgrp.Server.{
  ShardState, Values, KvServer, Codec, FreezeReply, Request, Reply, get_at, put_at, freeze_at,
  install_at, delete_at, set_shard, install_reply, key_2_shard, do_op,
}
use raft_sharded_kv.Shardgrp.Snapshots.{
  Decoded, IsDecoded, made, filled, ArrayCodec, snapshot, restore, handle_get, handle_put,
  handle_freeze_shard, handle_install_shard, handle_delete_shard,
}

-- The same states of the shards that there are.
abbrev Alike : KvServer → KvServer → Type 0
Alike kv kv' = (i : ℕ) → i < n_shards → kv'.shards i ≡ kv.shards i

set_shard-Alike :
    (kv kv' : KvServer) (shard : ℕ) (state : ShardState)
    → Alike kv kv'
    → Alike (set_shard kv shard state) (set_shard kv' shard state)
set_shard-Alike kv kv' shard state e i l = elim (Bool-cases (shard == i)) [
  | inl s ↦ rw s refl
  | inr n ↦ rw n (e i l)
]

module _ (c : Codec) where
  -- The same reply, or a panic of both.
  abbrev Same : Option (Reply c × KvServer) → Option (Reply c × KvServer) → Type 0
  Same none none = Unit
  Same (some (r, kv)) (some (r', kv')) = (r' ≡ r) × Alike kv kv'
  Same _ _ = ⊥

  in_array : (key : String) → key_2_shard c key < n_shards
  unfolding key_2_shard
  in_array key = omega arith

  install-Same :
      (kv kv' : KvServer) (shard : ℕ) (o : Option (Err × ShardState))
      → Alike kv kv'
      → Same (install_reply c kv shard o) (install_reply c kv' shard o)
  install-Same kv kv' shard none e = tt
  install-Same kv kv' shard (some (err, state)) e = (refl, set_shard-Alike kv kv' shard state e)

  do_op-Same :
      (kv kv' : KvServer) (req : Request c) → Alike kv kv' → Same (do_op c kv req) (do_op c kv' req)
  unfolding do_op
  do_op-Same kv kv' (Request.get args) e =
      (ap (λ s. Reply.get (get_at s args)) (e (key_2_shard c args.key) (in_array args.key)), e)
  do_op-Same kv kv' (Request.put args) e =
      let k = key_2_shard c args.key in
      rw (e k (in_array args.key)) (refl, set_shard-Alike kv kv' k (put_at (kv.shards k) args).1 e)
  do_op-Same kv kv' (Request.freeze_shard shard num) e = elim (Bool-cases (ltb shard n_shards)) [
    | inl l ↦ rw (l, e shard (ltb→lt shard n_shards l)) (refl, set_shard-Alike kv kv' shard _ e)
    | inr g ↦ rw g tt
  ]
  do_op-Same kv kv' (Request.install_shard shard bytes num) e =
      elim (Bool-cases (ltb shard n_shards)) [
        | inl l ↦
            rw (l, e shard (ltb→lt shard n_shards l))
              (install-Same kv kv' shard (install_at c (kv.shards shard) bytes num) e)
        | inr g ↦ rw g tt
      ]
  do_op-Same kv kv' (Request.delete_shard shard num) e = elim (Bool-cases (ltb shard n_shards)) [
    | inl l ↦ rw (l, e shard (ltb→lt shard n_shards l)) (refl, set_shard-Alike kv kv' shard _ e)
    | inr g ↦ rw g tt
  ]
  do_op-Same kv kv' Request.other e = tt

  -- The replies to a sequence of committed operations, up to a panic.
  abbrev pub replies : KvServer → List (Request c) → List (Reply c)
  replies kv [] = []
  replies kv (req ∷ rest) = elim (do_op c kv req) [ none ↦ [] | some p ↦ p.0 ∷ replies p.1 rest ]

  replies-Alike :
      (kv kv' : KvServer) (reqs : List (Request c))
      → Alike kv kv'
      → replies kv' reqs ≡ replies kv reqs
  replies-Alike kv kv' [] e = refl
  replies-Alike kv kv' (req ∷ rest) e =
      go (do_op c kv req) (do_op c kv' req) (do_op-Same kv kv' req e)
        (λ x y f. replies-Alike x y rest f)
    where
      go :
          (o o' : Option (Reply c × KvServer))
          → Same o o'
          → ((x y : KvServer) → Alike x y → replies y rest ≡ replies x rest)
          → elim o' [ none ↦ [] | some p ↦ p.0 ∷ replies p.1 rest ]
            ≡ elim o [ none ↦ [] | some p ↦ p.0 ∷ replies p.1 rest ]
      go none none h k = refl
      go (some (r, x)) (some (r', y)) (same, alike) k = rw (same, k x y alike) refl
      go none (some p) h k = absurd h
      go (some p) none h k = absurd h

  made_lem :
      (o : Option Values) (values : Values)
      → (o ≡ some values) ⊎ ((o ≡ none) × (values ≡ empty_map))
      → made o ≡ values
  made_lem o values (inl e) = rw e refl
  made_lem o values (inr (e, empty)) = rw (e, empty) refl

  -- Restore makes up for the nil maps.
  filled_lem : (state : ShardState) (d : Decoded) → IsDecoded state d → filled d ≡ state
  filled_lem state d v = λ i. record {
    values = made_lem d.values state.values v.values i;
    status = v.status i;
    config_num = v.config_num i;
    requests = v.requests i;
  }

  -- Restoring a snapshot, into any server, does not panic, and the server then answers every
  -- sequence of committed operations as the one that was saved.
  pub restored_serves_alike :
      (a : ArrayCodec) (kv other : KvServer) (reqs : List (Request c))
      → (kv' : KvServer) × (restore a other (snapshot a kv) ≡ some kv')
        × (replies kv' reqs ≡ replies kv reqs)
  unfolding snapshot restore
  restored_serves_alike a kv other reqs =
      let (d, decodes, same) = a.decode_encode kv.shards in
      let kv' : KvServer = record other { shards = λ i. filled (d i) } in
      (
        kv',
        rw (a.encode_nonempty kv.shards, decodes) refl,
        replies-Alike kv kv' reqs (λ i l. filled_lem (kv.shards i) (d i) (same i l)),
      )

  -- What DoOp answers to a request, its handler takes without a panic.
  abbrev pub Handled : Request c → Reply c → Type 0
  Handled (Request.get a) r = (x : GetReply) × (handle_get c (executed r) ≡ some x)
  Handled (Request.put a) r = (x : PutReply) × (handle_put c (executed r) ≡ some x)
  Handled (Request.freeze_shard s n) r =
      (x : FreezeReply c) × (handle_freeze_shard c (executed r) ≡ some x)
  Handled (Request.install_shard s b n) r =
      (x : Err) × (handle_install_shard c (executed r) ≡ some x)
  Handled (Request.delete_shard s n) r = (x : Err) × (handle_delete_shard c (executed r) ≡ some x)
  Handled Request.other r = Unit

  Handled-reply :
      (req : Request c) (r r' : Reply c) (kv kv' : KvServer)
      → ◌≡◌ {A = Option (Reply c × KvServer)} (some (r, kv)) (some (r', kv'))
      → Handled req r
      → Handled req r'
  Handled-reply req r r' kv kv' e h = subst (Handled req) {x = r} {y = r'} (cc e) h

  -- The handler of a request accepts each reply that executing the request gives.
  pub do_op-Handled :
      (kv kv' : KvServer) (req : Request c) (r : Reply c)
      → do_op c kv req ≡ some (r, kv')
      → Handled req r
  unfolding do_op handle_get handle_put handle_freeze_shard handle_install_shard handle_delete_shard
  do_op-Handled kv kv' (Request.get args) r h =
      Handled-reply (Request.get args) _ r kv kv' h (_, refl)
  do_op-Handled kv kv' (Request.put args) r h =
      Handled-reply (Request.put args) _ r _ kv' h (_, refl)
  do_op-Handled kv kv' (Request.freeze_shard shard num) r h =
      elim (Bool-cases (ltb shard n_shards)) [
        | inl l ↦
            Handled-reply (Request.freeze_shard shard num) _ r
              (set_shard kv shard (freeze_at c (kv.shards shard) num).1) kv' (rw (do_op, l) at h)
              (_, refl)
        | inr g ↦ let h' : none ≡ some (r, kv') = rw (do_op, g) at h in absurd (ground arith)
      ]
  do_op-Handled kv kv' (Request.install_shard shard bytes num) r h =
      elim (Bool-cases (ltb shard n_shards)) [
        | inl l ↦ installs (install_at c (kv.shards shard) bytes num) (rw (do_op, l) at h)
        | inr g ↦ let h' : none ≡ some (r, kv') = rw (do_op, g) at h in absurd (ground arith)
      ]
    where
      installs :
          (o : Option (Err × ShardState))
          → install_reply c kv shard o ≡ some (r, kv')
          → Handled (Request.install_shard shard bytes num) r
      installs none f = absurd (ground arith)
      installs (some (err, state)) f =
          Handled-reply (Request.install_shard shard bytes num) (Reply.install_shard err) r
            (set_shard kv shard state) kv' f (err, refl)
  do_op-Handled kv kv' (Request.delete_shard shard num) r h =
      elim (Bool-cases (ltb shard n_shards)) [
        | inl l ↦
            Handled-reply (Request.delete_shard shard num) _ r
              (set_shard kv shard (delete_at (kv.shards shard) num).1) kv' (rw (do_op, l) at h)
              (_, refl)
        | inr g ↦ let h' : none ≡ some (r, kv') = rw (do_op, g) at h in absurd (ground arith)
      ]
  do_op-Handled kv kv' Request.other r h = tt
