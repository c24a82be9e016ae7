-- ===== src/Shardgrp/Tries.antt =====
-- src/shardkv1/shardgrp/client.go: the calls of a migration, which stop when their controller is
-- replaced.
use raft_sharded_kv.Prelude.{
  ℕ, ◌≡◌, ◌≢◌, ◌⊎◌, inl, inr, refl, sym, ◌∙◌, ap, Bool, true, false, not, ◌&&◌, ◌==◌, ==_iff, List,
  [], ◌∷◌, length, Option, none, some, Bool-cases, Option-cases,
}
use raft_sharded_kv.Rpc.{
  Err, ok, err_no_key, err_version, err_maybe, err_wrong_leader, err_wrong_group, err_stale_request,
}
use raft_sharded_kv.Kvraft.Leader.{
  Leader, moves, InRange, AllInRange, moves-InRange, advance_leader, advance_leader-InRange,
  get_elem?_lt,
}
use raft_sharded_kv.Kvraft.Clerk.{Ended, running, panics, returns}
use raft_sharded_kv.Shardgrp.Server.{Codec, FreezeReply}
use raft_sharded_kv.Shardgrp.Clerk.{Try, verdict_of, migration_loop, freeze_verdict, freeze_shard}

-- The other calls on the clerk remember only its servers.
abbrev pub AllTries : {A : Type 0} → ℕ → List (Try A) → Type 0
AllTries n [] = Unit {0}
AllTries n (t ∷ rest) =
    (AllInRange n t.visit.before × AllInRange n t.visit.during) × AllTries n rest

-- In one of the attempts the controller is no longer current.
abbrev pub HasDeposed : {A : Type 0} → List (Try A) → Type 0
HasDeposed [] = ⊥
HasDeposed (t ∷ rest) = (t.current ≡ false) ⊎ HasDeposed rest

-- One of the attempts brings a reply that satisfies a predicate.
abbrev pub Brings : {A : Type 0} → (A → Type 0) → List (Try A) → Type 0
Brings P [] = ⊥
Brings P (t ∷ rest) = ((a : _) × (t.visit.reply ≡ some a) × P a) ⊎ Brings P rest

module _ {A B : Type 0} (verdict : A → Option B) (refused : B) (guarded : Bool) where
  pub record IsMigrating (tries : List (Try A)) (ended : Ended B) : Type 0 where
    pub calm : ended ≢ panics
    pub told :
        (b : B)
        → ended ≡ returns b
        → Brings (λ a. verdict a ≡ some b) tries
          ⊎ ((b ≡ refused) × (guarded ≡ true) × HasDeposed tries)
    pub ends : guarded ≡ true → HasDeposed tries → ended ≢ running

  verdict_cases :
      (o : Option A)
      → (verdict_of verdict refused guarded o ≡ none)
        ⊎ ((a : A) × (b : B) × (o ≡ some a)
            × (verdict_of verdict refused guarded o ≡ some b)
            × (verdict a ≡ some b))
  verdict_cases none = inl refl
  verdict_cases (some a) = elim (Option-cases (verdict a)) [
    | inl e ↦ inl e
    | inr (b, e) ↦ inr (a, b, refl, e, e)
  ]

  stopped_cases :
      (g current : Bool)
      → ((g && not current ≡ true) × (g ≡ true) × (current ≡ false))
        ⊎ ((g && not current ≡ false) × (g ≡ true → current ≡ true))
  stopped_cases true true = inr (refl, λ e. refl)
  stopped_cases true false = inl (refl, refl, refl)
  stopped_cases false true = inr (refl, λ e. refl)
  stopped_cases false false = inr (refl, λ e. absurd (cc e))

  no_tries-IsMigrating :
      (ck : Leader) → IsMigrating [] (migration_loop verdict refused guarded [] ck).0
  unfolding migration_loop
  no_tries-IsMigrating ck = record {
    calm = λ e. cc e;
    told = λ b e. absurd (cc e);
    ends = λ g h e. h;
  }

  pub migration_loop-IsMigrating :
      (tries : List (Try A)) (ck : Leader)
      → InRange ck
      → AllTries (length ck.servers) tries
      → IsMigrating tries (migration_loop verdict refused guarded tries ck).0
  unfolding migration_loop
  migration_loop-IsMigrating [] ck in_range all = no_tries-IsMigrating ck
  migration_loop-IsMigrating (t ∷ rest) ck in_range all = elim (stopped_cases guarded t.current) [
    | inl stop ↦
        rw (stop.0, migration_loop)
          (record {
            calm = λ e. cc e;
            told = λ b e. inr (let same : refused ≡ b = cc e in sym same, stop.1, inl stop.2);
            ends = λ g h e. cc e;
          })
    | inr go_on ↦
        let place = moves-InRange t.visit.before ck in_range all.0.0 in
        let ck' = moves t.visit.before ck in
        let place' = moves-InRange t.visit.during ck' place.0 (rw place.1 all.0.1) in
        let ck'' = moves t.visit.during ck' in
        let moved = advance_leader-InRange ck'.leader ck'' place'.0 in
        let (server, there) = get_elem?_lt ck'.servers ck'.leader place.0 in
        elim (verdict_cases t.visit.reply) [
          | inr (a, b, replied, final, wanted) ↦
              rw (go_on.0, migration_loop, there, final)
                (record {
                  calm = λ e. cc e;
                  told = λ b' e. inl (
                      inl (a, replied, let same : b ≡ b' = cc e in wanted ∙ ap (λ x. some x) same));
                  ends = λ g h e. cc e;
                })
          | inl again ↦
              let later =
                migration_loop-IsMigrating rest (advance_leader ck'.leader ck'') moved.0
                  (rw (moved.1 ∙ place'.1 ∙ place.1) all.1) in
              rw (go_on.0, migration_loop, there, again)
                (record {
                  calm = later.calm;
                  told = λ b e. elim (later.told b e) [
                    | inl brings ↦ inl (inr brings)
                    | inr (same, g, deposed) ↦ inr (same, g, inr deposed)
                  ];
                  ends = λ g h. elim h [
                    | inl out ↦ λ e. cc (go_on.1 g, out)
                    | inr further ↦ later.ends g further
                  ];
                })
        ]
  ]

module _ (c : Codec) where
  freeze_fields :
      (num : ℕ) (state : c.Bytes) (n : ℕ) (err : Err) (bytes : c.Bytes) (out : Err)
      → freeze_verdict c num (record { state = state; num = n; err = err }) ≡ some (bytes, out)
      → ((out ≡ ok) × (err ≡ ok) × (n ≡ num) × (state ≡ bytes)) ⊎ (out ≡ err_wrong_group)
  unfolding freeze_verdict
  freeze_fields num state n ok bytes out e = elim (Bool-cases (n == num)) [
    | inl same ↦
        let h = rw same at e in
        let p : ◌≡◌ {A = c.Bytes × Err} (state, ok) (bytes, out) = cc h in
        inl (ap (λ x. x.1) (sym p), refl, (==_iff n num).0 same, ap (λ x. x.0) p)
    | inr other ↦
        let h = rw other at e in
        let p : ◌≡◌ {A = c.Bytes × Err} (c.nil, err_wrong_group) (bytes, out) = cc h in
        inr (ap (λ x. x.1) (sym p))
  ]
  freeze_fields num state n err_wrong_group bytes out e =
      let p : ◌≡◌ {A = c.Bytes × Err} (c.nil, err_wrong_group) (bytes, out) = cc e in
      inr (ap (λ x. x.1) (sym p))
  freeze_fields num state n err_no_key bytes out e = absurd (cc e)
  freeze_fields num state n err_version bytes out e = absurd (cc e)
  freeze_fields num state n err_maybe bytes out e = absurd (cc e)
  freeze_fields num state n err_wrong_leader bytes out e = absurd (cc e)
  freeze_fields num state n err_stale_request bytes out e = absurd (cc e)

  -- A reply that carries a frozen shard with its number.
  abbrev pub IsFrozen : ℕ → c.Bytes → FreezeReply c → Type 0
  IsFrozen num bytes r = (r.err ≡ ok) × (r.num ≡ num) × (r.state ≡ bytes)

  Brings-IsFrozen :
      (num : ℕ) (bytes : c.Bytes) (tries : List (Try (FreezeReply c)))
      → Brings (λ r. freeze_verdict c num r ≡ some (bytes, ok)) tries
      → Brings (IsFrozen num bytes) tries
  Brings-IsFrozen num bytes [] h = h
  Brings-IsFrozen num bytes (t ∷ rest) (inl (r, replied, e)) =
      elim (freeze_fields num r.state r.num r.err bytes ok e) [
        | inl p ↦ inl (r, replied, (p.1, p.2, p.3))
        | inr other ↦ absurd (cc other)
      ]
  Brings-IsFrozen num bytes (t ∷ rest) (inr h) = inr (Brings-IsFrozen num bytes rest h)

  no_verdict :
      (num : ℕ) (bytes : c.Bytes) (tries : List (Try (FreezeReply c)))
      → Brings (λ r. freeze_verdict c num r ≡ some (bytes, err_wrong_leader)) tries
      → ⊥
  no_verdict num bytes [] h = h
  no_verdict num bytes (t ∷ rest) (inl (r, replied, e)) =
      elim (freeze_fields num r.state r.num r.err bytes err_wrong_leader e) [
        | inl p ↦ cc p.0
        | inr other ↦ cc other
      ]
  no_verdict num bytes (t ∷ rest) (inr h) = no_verdict num bytes rest h

  -- For a clerk whose leader is one of its servers, and other calls that remember only its servers:
  -- FreezeShard never indexes out of range. It returns OK only with the bytes of a server's reply
  -- OK with the number asked for, and ErrWrongLeader only where the clerk has isCurrent and that
  -- has answered false; it does not run on where that happens.
  pub freeze_shard_lem :
      (guarded : Bool) (num : ℕ) (tries : List (Try (FreezeReply c))) (ck : Leader)
      → InRange ck
      → AllTries (length ck.servers) tries
      → let ended = (freeze_shard c guarded num tries ck).0 in
        (ended ≢ panics)
        × ((bytes : c.Bytes) → ended ≡ returns (bytes, ok) → Brings (IsFrozen num bytes) tries)
        × ((bytes : c.Bytes)
            → ended ≡ returns (bytes, err_wrong_leader)
            → (guarded ≡ true) × HasDeposed tries)
        × (guarded ≡ true → HasDeposed tries → ended ≢ running)
  unfolding freeze_shard
  freeze_shard_lem guarded num tries ck in_range all =
      let m =
        migration_loop-IsMigrating (freeze_verdict c num) (c.nil, err_wrong_leader) guarded tries ck
          in_range all in
      (
        m.calm,
        λ bytes e. elim (m.told (bytes, ok) e) [
          | inl brings ↦ Brings-IsFrozen num bytes tries brings
          | inr p ↦ absurd (let same = ap (λ x. x.1) p.0 in cc same)
        ],
        λ bytes e. elim (m.told (bytes, err_wrong_leader) e) [
          | inl brings ↦ absurd (no_verdict num bytes tries brings)
          | inr p ↦ (p.1, p.2)
        ],
        m.ends,
      )
