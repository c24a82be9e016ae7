-- ===== src/Ctrler/Fencing.antt =====
-- src/shardkv1/shardctrler/shardctrler.go: each controller's stage stays true while the others
-- write.
use raft_sharded_kv.Prelude.{
  ℕ, suc, ◌<◌, ◌≤◌, String, ◌≡◌, ◌≢◌, ◌⊎◌, inl, inr, refl, sym, ap, ◌∙◌, subst, arith, Bool, true,
  false, ◌==◌, ==_iff, Bool-cases, if◌then◌else◌,
}
use raft_sharded_kv.Ctrler.State.{ControllerState, ShardCtrler}
use raft_sharded_kv.Ctrler.Migration.{
  checking, recovering, verifying, changing, Write, claim, publish, clear, plan, Stage, idle,
  electing, owning, migrating, deleting, writing, wrote,
}
use raft_sharded_kv.Ctrler.System.{System, store}
use raft_sharded_kv.Ctrler.Changes.{Change, ReadAt, Fits, StageOk, Inv, go_on-StageOk}

-- The history with one state more.
abbrev pub extended : (ℕ → ControllerState) → ℕ → ControllerState → ℕ → ControllerState
extended h top state k = if suc top == k then state else h k

pub extended_old :
    (h : ℕ → ControllerState) (top : ℕ) (state : ControllerState) (k : ℕ)
    → k ≤ top
    → extended h top state k ≡ h k
extended_old h top state k le = elim (Bool-cases (suc top == k)) [
  | inl same ↦ absurd (let e = (==_iff (suc top) k).0 same in omega arith)
  | inr other ↦ rw other refl
]

extended_new :
    (h : ℕ → ControllerState) (top : ℕ) (state : ControllerState)
    → extended h top state (suc top) ≡ state
extended_new h top state = rw ((==_iff (suc top) (suc top)).1 refl) refl

last_or_before : (k n : ℕ) → k < suc n → (k ≡ n) ⊎ (k < n)
last_or_before k n lt = omega arith

module _ (id : ℕ → String) where
  -- Another controller's stage, after a write of this one.
  ReadAt-extended :
      (h : ℕ → ControllerState) (top i version : ℕ) (state new : ControllerState)
      → new.owner ≢ id i
      → ReadAt id h top i version state
      → ReadAt id (extended h top new) (suc top) i version state
  ReadAt-extended h top i version state new other r = record {
    old = let o = r.old in omega arith;
    was = extended_old h top new version r.old ∙ r.was;
    moved = λ lt same. other (ap (λ t. t.owner) (sym (extended_new h top new)) ∙ same);
  }

  Fits-extended :
      (h : ℕ → ControllerState) (top i version : ℕ) (state new : ControllerState)
      → new.owner ≢ id i
      → Fits id h top i version state
      → Fits id (extended h top new) (suc top) i version state
  Fits-extended h top i version state new other r = record {
    old = let o = r.old in omega arith;
    mine = r.mine;
    fits = subst (λ t. Change t state) (sym (extended_old h top new version r.old)) r.fits;
    moved = λ lt same. absurd (other (ap (λ t. t.owner) (sym (extended_new h top new)) ∙ same));
  }

  StageOk-extended :
      (h : ℕ → ControllerState) (top i : ℕ) (new : ControllerState) (stage : Stage)
      → new.owner ≢ id i
      → StageOk id h top i stage
      → StageOk id (extended h top new) (suc top) i stage
  StageOk-extended h top i new idle other ok_now = tt
  StageOk-extended h top i new (electing rest) other ok_now = tt
  StageOk-extended h top i new (owning (checking rest)) other ok_now = tt
  StageOk-extended h top i new (owning (recovering rest)) other ok_now = tt
  StageOk-extended h top i new (owning (verifying r rest)) other ok_now = tt
  StageOk-extended h top i new (owning (changing to)) other ok_now =
      λ same. absurd (other (ap (λ t. t.owner) (sym (extended_new h top new)) ∙ same))
  StageOk-extended h top i new (migrating r rest version state) other ok_now =
      (ReadAt-extended h top i version state new other ok_now.0, ok_now.1, ok_now.2, ok_now.3)
  StageOk-extended h top i new (deleting r rest version state) other ok_now =
      (ReadAt-extended h top i version state new other ok_now.0, ok_now.1, ok_now.2, ok_now.3)
  StageOk-extended h top i new (writing (clear rest) version state) other ok_now =
      (Fits-extended h top i version state new other ok_now.0, ok_now.1)
  StageOk-extended h top i new (writing (claim rest) version state) other ok_now =
      Fits-extended h top i version state new other ok_now
  StageOk-extended h top i new (writing (publish r rest) version state) other ok_now =
      Fits-extended h top i version state new other ok_now
  StageOk-extended h top i new (writing plan version state) other ok_now =
      Fits-extended h top i version state new other ok_now

  writing-Fits :
      (h : ℕ → ControllerState) (top i : ℕ) (what : Write) (version : ℕ) (state : ControllerState)
      → StageOk id h top i (writing what version state)
      → Fits id h top i version state
  writing-Fits h top i (clear rest) version state ok_now = ok_now.0
  writing-Fits h top i (claim rest) version state ok_now = ok_now
  writing-Fits h top i (publish r rest) version state ok_now = ok_now
  writing-Fits h top i plan version state ok_now = ok_now

  -- The writer's own stage after its write.
  Fits-stored :
      (h : ℕ → ControllerState) (top i : ℕ) (new : ControllerState)
      → Fits id h top i top new
      → Fits id (extended h top new) (suc top) i top new
  Fits-stored h top i new f = record {
    old = omega arith;
    mine = f.mine;
    fits = subst (λ t. Change t new) (sym (extended_old h top new top (omega arith))) f.fits;
    moved = λ lt same. extended_new h top new;
  }

  StageOk-stored :
      (h : ℕ → ControllerState) (top i : ℕ) (what : Write) (new : ControllerState)
      → StageOk id h top i (writing what top new)
      → StageOk id (extended h top new) (suc top) i (writing what top new)
  StageOk-stored h top i (clear rest) new ok_now = (Fits-stored h top i new ok_now.0, ok_now.1)
  StageOk-stored h top i (claim rest) new ok_now = Fits-stored h top i new ok_now
  StageOk-stored h top i (publish r rest) new ok_now = Fits-stored h top i new ok_now
  StageOk-stored h top i plan new ok_now = Fits-stored h top i new ok_now

  pub wrote-StageOk :
      (h : ℕ → ControllerState) (top i : ℕ) (what : Write) (version : ℕ) (state : ControllerState)
      (answer : Bool) (sck : ShardCtrler)
      → version < top
      → StageOk id h top i (writing what version state)
      → StageOk id h top i (wrote what state answer sck).0
        × ((wrote what state answer sck).1.id ≡ sck.id)
  unfolding wrote
  wrote-StageOk h top i (claim rest) version state true sck lt ok_now = (tt, refl)
  wrote-StageOk h top i (claim rest) version state false sck lt ok_now = (tt, refl)
  wrote-StageOk h top i (publish r rest) version state true sck lt ok_now = (tt, refl)
  wrote-StageOk h top i (publish r rest) version state false sck lt ok_now = (tt, refl)
  wrote-StageOk h top i (clear rest) version state true sck lt ok_now =
      (go_on-StageOk id h top i rest (λ mine. rw (ok_now.0.moved lt mine) ok_now.1), refl)
  wrote-StageOk h top i (clear rest) version state false sck lt ok_now = (tt, refl)
  wrote-StageOk h top i plan version state true sck lt ok_now = (tt, refl)
  wrote-StageOk h top i plan version state false sck lt ok_now = (tt, refl)

  module _ (apart : (i j : ℕ) → id i ≡ id j → i ≡ j) where
    pub store-Inv :
        (s : System) (i : ℕ) (what : Write) (state : ControllerState)
        → s.stage i ≡ writing what s.version state
        → Inv id s
        → Inv id (store s state)
    store-Inv s i what state e v =
        let mine = subst (StageOk id s.history s.version i) e (v.stages i) in
        let f = writing-Fits s.history s.version i what s.version state mine in
        record {
          ids = v.ids;
          stages = λ j. elim (Bool-cases (i == j)) [
            | inl same ↦
                subst
                  (λ k.
                    StageOk id (extended s.history s.version state) (suc s.version) k (s.stage k))
                  ((==_iff i j).0 same)
                  (subst (StageOk id (extended s.history s.version state) (suc s.version) i) (sym e)
                    (StageOk-stored s.history s.version i what state mine))
            | inr other ↦
                StageOk-extended s.history s.version j state (s.stage j)
                  (λ both.
                    absurd
                      (let k = (==_iff i j).1 (apart i j (sym f.mine ∙ both)) in cc (k, other)))
                  (v.stages j)
          ];
          changes = λ k le lt. elim (last_or_before k s.version lt) [
            | inl last ↦
                subst
                  (λ k.
                    Change (extended s.history s.version state k)
                      (extended s.history s.version state (suc k)))
                  (sym last)
                  (rw (extended_new s.history s.version state)
                    (Fits-stored s.history s.version i state f).fits)
            | inr before ↦
                subst (λ t. Change t (extended s.history s.version state (suc k)))
                  (sym (extended_old s.history s.version state k (omega arith)))
                  (subst (Change (s.history k))
                    (sym (extended_old s.history s.version state (suc k) (omega arith)))
                    (v.changes k le before))
          ];
          started = let st = v.started in omega arith;
        }
