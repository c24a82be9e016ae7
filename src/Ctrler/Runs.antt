-- ===== src/Ctrler/Runs.antt =====
-- src/shardkv1/shardctrler/shardctrler.go: the writes of the controllers along a run.
use raft_sharded_kv.Prelude.{
  ℕ, String, ◌≡◌, inl, inr, refl, sym, ◌∙◌, subst, arith, Bool, true, false, Bool-cases,
}
use raft_sharded_kv.Ctrler.State.{MigrationRecord, ControllerState, ShardCtrler}
use raft_sharded_kv.Ctrler.Migration.{
  DeepEqual, Rest, migrating, deleting, ensure_leadership, migrated, deleted,
}
use raft_sharded_kv.Ctrler.System.{
  System, Step, begins, elects, owns, migrates, deletes, executes, answers, deposes, Reach, here,
  next, IsInitial,
}
use raft_sharded_kv.Ctrler.Changes.{
  claims, publishes, clears, StageOk, Inv, goes-Inv, Fits-now, ReadAt-Fits, own-StageOk,
}
use raft_sharded_kv.Ctrler.Fencing.{store-Inv, wrote-StageOk}

module _ (id : ℕ → String) where
  ensure_leadership-StageOk :
      (h : ℕ → ControllerState) (top i : ℕ) (sck : ShardCtrler) (rest : Rest)
      → StageOk id h top i (ensure_leadership sck rest).0
        × ((ensure_leadership sck rest).1.id ≡ sck.id)
  unfolding ensure_leadership
  ensure_leadership-StageOk h top i sck rest = elim (Bool-cases sck.initialized) [
    | inl known ↦ simp known (tt, refl)
    | inr fresh ↦ simp fresh (tt, refl)
  ]

  migrated-StageOk :
      (h : ℕ → ControllerState) (top i : ℕ) (answer : Bool) (r : MigrationRecord) (rest : Rest)
      (version : ℕ) (state : ControllerState)
      → StageOk id h top i (migrating r rest version state)
      → StageOk id h top i (migrated answer r rest version state)
  unfolding migrated
  migrated-StageOk h top i true r rest version state ok_now =
      ReadAt-Fits id h top i version state _ ok_now.0 ok_now.1 (publishes r ok_now.2 ok_now.3)
  migrated-StageOk h top i false r rest version state ok_now = tt

  deleted-StageOk :
      (h : ℕ → ControllerState) (top i : ℕ) (answer : Bool) (r : MigrationRecord) (rest : Rest)
      (version : ℕ) (state : ControllerState)
      → StageOk id h top i (deleting r rest version state)
      → StageOk id h top i (deleted answer rest version state)
  unfolding deleted
  deleted-StageOk h top i true r rest version state ok_now =
      (ReadAt-Fits id h top i version state _ ok_now.0 ok_now.1 (clears r ok_now.2 ok_now.3), refl)
  deleted-StageOk h top i false r rest version state ok_now = tt

  module _ (apart : (i j : ℕ) → id i ≡ id j → i ≡ j) (d : DeepEqual) where
    Step-Inv : (s t : System) → Step d s t → Inv id s → Inv id t
    Step-Inv s _ (begins i rest e) v =
        let p = ensure_leadership-StageOk s.history s.version i (s.ctrler i) rest in
        goes-Inv id s i _ _ v (p.1 ∙ v.ids i) p.0
    Step-Inv s _ (elects i rest e) v =
        goes-Inv id s i _ _ v (v.ids i)
          (Fits-now id s.history s.version i _ (v.ids i) (claims refl refl refl))
    Step-Inv s _ (owns i why e) v =
        let p =
          own-StageOk id d s.history s.version i why (s.ctrler i) (v.ids i)
            (subst (StageOk id s.history s.version i) e (v.stages i)) in
        goes-Inv id s i _ _ v p.1 p.0
    Step-Inv s _ (migrates i r rest version state answer e) v = goes-Inv id s i _ _ v (v.ids i) (
        migrated-StageOk s.history s.version i answer r rest version state
          (subst (StageOk id s.history s.version i) e (v.stages i)))
    Step-Inv s _ (deletes i r rest version state answer e) v = goes-Inv id s i _ _ v (v.ids i) (
        deleted-StageOk s.history s.version i answer r rest version state
          (subst (StageOk id s.history s.version i) e (v.stages i)))
    Step-Inv s _ (executes i what state e) v = store-Inv id apart s i what state e v
    Step-Inv s _ (answers i what version state answer e lt) v =
        let p =
          wrote-StageOk id s.history s.version i what version state answer (s.ctrler i) lt
            (subst (StageOk id s.history s.version i) e (v.stages i)) in
        goes-Inv id s i _ _ v (p.1 ∙ v.ids i) p.0
    Step-Inv s _ (deposes i) v = goes-Inv id s i _ _ v (v.ids i) (v.stages i)

    pub Reach-Inv : (s t : System) → Reach d s t → Inv id s → Inv id t
    Reach-Inv s _ here v = v
    Reach-Inv s t (next {t = u} run step) v = Step-Inv u t step (Reach-Inv s u run v)

    pub IsInitial-Inv : (s : System) → IsInitial s → ((i : ℕ) → (s.ctrler i).id ≡ id i) → Inv id s
    IsInitial-Inv s h ids = record {
      ids = ids;
      stages = λ i. subst (StageOk id s.history s.version i) (sym (h.quiet i)) tt;
      changes = λ k le lt. absurd (let made = h.made in omega arith);
      started = let made = h.made in omega arith;
    }
