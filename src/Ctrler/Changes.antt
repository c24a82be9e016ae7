-- ===== src/Ctrler/Changes.antt =====
-- src/shardkv1/shardctrler/shardctrler.go: each write of the control state is one of four changes.
use raft_sharded_kv.Prelude.{
  ℕ, suc, ◌+◌, ◌%◌, ◌^◌, ◌<◌, ◌≤◌, String, string_eq, ◌≡◌, ◌≢◌, ◌⊎◌, inl, inr, refl, sym, ap, ◌∙◌,
  subst, arith, true, ◌==◌, ==_iff, Option, none, some, Bool-cases,
}
use raft_sharded_kv.Shardcfg.Config.{ShardConfig}
use raft_sharded_kv.Ctrler.State.{MigrationRecord, ControllerState, ShardCtrler, found, owned}
use raft_sharded_kv.Ctrler.Migration.{
  DeepEqual, Rest, finish, change, Purpose, checking, recovering, verifying, changing, claim,
  publish, clear, plan, Stage, idle, electing, owning, migrating, deleting, writing, go_on, recover,
  with_state, own, same_plan,
}
use raft_sharded_kv.Ctrler.System.{System, goes}

-- What a write does to the control state.
pub data Change (s : ControllerState) : ControllerState → Type 0 where
  -- An owner takes over: the epoch counts, and the configuration and the plan stay.
  claims :
      {t : ControllerState}
      → t.epoch ≡ (s.epoch + 1) % 2 ^ 64
      → t.current ≡ s.current
      → t.pending ≡ s.pending
      → Change s t
  -- A plan is made where there is none, for the next number.
  plans :
      (to : ShardConfig)
      → s.pending ≡ none
      → to.num ≡ s.current.num + 1
      → Change s (record s { pending = some (record { from = s.current; to = to }) })
  -- The planned configuration becomes current.
  publishes :
      (r : MigrationRecord)
      → s.pending ≡ some r
      → s.current ≡ r.from
      → Change s (record s { current = r.to })
  -- The plan has been carried out.
  clears :
      (r : MigrationRecord)
      → s.pending ≡ some r
      → s.current ≡ r.to
      → Change s (record s { pending = none })

-- The controllers on a history of states whose last version is top.
module _ (id : ℕ → String) where
  -- The state was read at the version, and if the version has moved on, another owns the state.
  pub record ReadAt (h : ℕ → ControllerState) (top i version : ℕ) (state : ControllerState)
      : Type 0 where
    pub old : version ≤ top
    pub was : h version ≡ state
    pub moved : version < top → (h top).owner ≢ id i

  -- A write that is a change of the state at its version, by its owner.
  pub record Fits (h : ℕ → ControllerState) (top i version : ℕ) (state : ControllerState)
      : Type 0 where
    pub old : version ≤ top
    pub mine : state.owner ≡ id i
    pub fits : Change (h version) state
    pub moved : version < top → (h top).owner ≡ id i → h top ≡ state

  -- What is known of a controller at a stage.
  abbrev pub StageOk : (ℕ → ControllerState) → ℕ → ℕ → Stage → Type 0
  StageOk h top i idle = Unit
  StageOk h top i (electing rest) = Unit
  StageOk h top i (owning (checking rest)) = Unit
  StageOk h top i (owning (recovering rest)) = Unit
  StageOk h top i (owning (verifying r rest)) = Unit
  StageOk h top i (owning (changing to)) = (h top).owner ≡ id i → (h top).pending ≡ none
  StageOk h top i (migrating r rest version state) =
      ReadAt h top i version state
      × (state.owner ≡ id i)
      × (state.pending ≡ some r)
      × (state.current ≡ r.from)
  StageOk h top i (deleting r rest version state) =
      ReadAt h top i version state
      × (state.owner ≡ id i)
      × (state.pending ≡ some r)
      × (state.current ≡ r.to)
  StageOk h top i (writing (clear rest) version state) =
      Fits h top i version state × (state.pending ≡ none)
  StageOk h top i (writing (claim rest) version state) = Fits h top i version state
  StageOk h top i (writing (publish r rest) version state) = Fits h top i version state
  StageOk h top i (writing plan version state) = Fits h top i version state

  pub record Inv (s : System) : Type 0 where
    pub ids : (i : ℕ) → (s.ctrler i).id ≡ id i
    pub stages : (i : ℕ) → StageOk s.history s.version i (s.stage i)
    pub changes : (k : ℕ) → 1 ≤ k → k < s.version → Change (s.history k) (s.history (suc k))
    pub started : 1 ≤ s.version

  pub goes-Inv :
      (s : System) (i : ℕ) (stage : Stage) (sck : ShardCtrler)
      → Inv s
      → sck.id ≡ id i
      → StageOk s.history s.version i stage
      → Inv (goes s i (stage, sck))
  goes-Inv s i stage sck v e h = record {
    ids = λ j. elim (Bool-cases (i == j)) [
      | inl same ↦ rw same (e ∙ ap id ((==_iff i j).0 same))
      | inr other ↦ rw other (v.ids j)
    ];
    stages = λ j. elim (Bool-cases (i == j)) [
      | inl same ↦ rw (same, ← (==_iff i j).0 same) h
      | inr other ↦ rw other (v.stages j)
    ];
    changes = v.changes;
    started = v.started;
  }

  pub go_on-StageOk :
      (h : ℕ → ControllerState) (top i : ℕ) (rest : Rest)
      → ((h top).owner ≡ id i → (h top).pending ≡ none)
      → StageOk h top i (go_on rest)
  go_on-StageOk h top i finish none_left = tt
  go_on-StageOk h top i (change to) none_left = none_left

  read_now : (h : ℕ → ControllerState) (top i : ℕ) → ReadAt h top i top (h top)
  read_now h top i = record { old = omega arith; was = refl; moved = λ lt. absurd (omega arith) }

  pub Fits-now :
      (h : ℕ → ControllerState) (top i : ℕ) (state : ControllerState)
      → state.owner ≡ id i
      → Change (h top) state
      → Fits h top i top state
  Fits-now h top i state mine c = record {
    old = omega arith;
    mine = mine;
    fits = c;
    moved = λ lt. absurd (omega arith);
  }

  -- A read state of the controller's own, changed under the same owner.
  pub ReadAt-Fits :
      (h : ℕ → ControllerState) (top i version : ℕ) (state after : ControllerState)
      → ReadAt h top i version state
      → after.owner ≡ id i
      → Change state after
      → Fits h top i version after
  ReadAt-Fits h top i version state after r mine c = record {
    old = r.old;
    mine = mine;
    fits = subst (λ t. Change t after) (sym r.was) c;
    moved = λ lt same. absurd (r.moved lt same);
  }

  plan_ext : {q r : MigrationRecord} → q.from ≡ r.from → q.to ≡ r.to → q ≡ r
  plan_ext e e' = λ i. record { from = e i; to = e' i }

  module _ (d : DeepEqual) where
    same_plan_lem :
        (pending : Option MigrationRecord) (r : MigrationRecord)
        → same_plan d pending r ≡ true
        → pending ≡ some r
    same_plan_lem none r e = absurd (cc e)
    same_plan_lem (some q) r e = elim (Bool-cases (d.same q.from r.from)) [
      | inr other ↦ absurd (let h = rw other at e in cc h)
      | inl same ↦
          let there = rw same at e in
          ap some (plan_ext (d.same_sound _ _ same) (d.same_sound _ _ there))
    ]

    recover-StageOk :
        (h : ℕ → ControllerState) (top i : ℕ) (pending : Option MigrationRecord) (rest : Rest)
        → (h top).owner ≡ id i
        → (h top).pending ≡ pending
        → StageOk h top i (recover d pending rest top (h top))
    recover-StageOk h top i none rest mine e = go_on-StageOk h top i rest (λ _. e)
    recover-StageOk h top i (some r) rest mine e =
        elim (Bool-cases (d.same (h top).current r.from)) [
          | inl same ↦ rw same (read_now h top i, mine, e, d.same_sound _ _ same)
          | inr other ↦ rw other tt
        ]

    -- readOwned has found the controller's own state.
    with_state-StageOk :
        (h : ℕ → ControllerState) (top i : ℕ) (why : Purpose)
        → StageOk h top i (owning why)
        → (h top).owner ≡ id i
        → StageOk h top i (with_state d why top (h top))
    unfolding with_state
    with_state-StageOk h top i (checking rest) ok_now mine = tt
    with_state-StageOk h top i (recovering rest) ok_now mine =
        recover-StageOk h top i (h top).pending rest mine refl
    with_state-StageOk h top i (verifying r rest) ok_now mine =
        elim (Bool-cases (same_plan d (h top).pending r)) [
          | inl planned ↦ elim (Bool-cases (d.same (h top).current r.to)) [
            | inl same ↦
                rw (planned, same)
                  (
                    read_now h top i,
                    mine,
                    same_plan_lem (h top).pending r planned,
                    d.same_sound _ _ same,
                  )
            | inr other ↦ rw (planned, other) tt
          ]
          | inr other ↦ rw other tt
        ]
    with_state-StageOk h top i (changing to) ok_now mine =
        elim (Bool-cases (d.same (h top).current to)) [
          | inl same ↦ rw same tt
          | inr other ↦ elim (Bool-cases (to.num == (h top).current.num + 1)) [
            | inl next_num ↦
                rw (other, next_num)
                  (Fits-now h top i _ mine (plans to (ok_now mine) ((==_iff _ _).0 next_num)))
            | inr out ↦ rw (other, out) tt
          ]
        ]

    owned-cases :
        (sck : ShardCtrler) (state : ControllerState) (version : ℕ)
        → ((owned sck (found state version) ≡ (some (state, version), sck))
            × (state.owner ≡ sck.id))
          ⊎ (owned sck (found state version) ≡ (none, record sck { deposed = true }))
    unfolding owned
    owned-cases sck state version = elim (Bool-cases (string_eq.beq state.owner sck.id)) [
      | inr other ↦ inr (rw other refl)
      | inl mine ↦ elim (Bool-cases (state.epoch == sck.epoch)) [
        | inr other ↦ inr (rw (mine, other) refl)
        | inl same ↦ inl (rw (mine, same) refl, (string_eq.beq_iff _ _).0 mine)
      ]
    ]

    own-cases :
        (why : Purpose) (sck : ShardCtrler) (version : ℕ) (state : ControllerState)
        → ((own d why sck version state ≡ (with_state d why version state, sck))
            × (state.owner ≡ sck.id))
          ⊎ (((own d why sck version state).0 ≡ idle)
              × ((own d why sck version state).1.id ≡ sck.id))
    unfolding own
    own-cases why sck version state = elim (Bool-cases sck.deposed) [
      | inl out ↦ inr (simp out refl, simp out refl)
      | inr not_out ↦ elim (owned-cases sck state version) [
        | inl p ↦ inl (simp (not_out, p.0) refl, p.1)
        | inr none_owned ↦ inr (simp (not_out, none_owned) refl, simp (not_out, none_owned) refl)
      ]
    ]

    pub own-StageOk :
        (h : ℕ → ControllerState) (top i : ℕ) (why : Purpose) (sck : ShardCtrler)
        → sck.id ≡ id i
        → StageOk h top i (owning why)
        → StageOk h top i (own d why sck top (h top)).0 × ((own d why sck top (h top)).1.id ≡ id i)
    own-StageOk h top i why sck e ok_now = elim (own-cases why sck top (h top)) [
      | inl p ↦ rw p.0 (with_state-StageOk h top i why ok_now (p.1 ∙ e), e)
      | inr p ↦ (rw p.0 tt, p.1 ∙ e)
    ]
