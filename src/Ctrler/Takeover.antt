-- ===== src/Ctrler/Takeover.antt =====
-- A run of src/shardkv1/shardctrler: a controller plans a change, and another takes over.
use raft_sharded_kv.Prelude.{
  ℕ, ◌<◌, String, string_eq, nat_eq, Eq, ◌≡◌, subst, ◌⊎◌, inl, inr, refl, arith, Bool, true, false,
  List, [], ◌∷◌, none, some, ℤ, int_eq, int_eq_iff, Bool-cases, if◌then◌else◌,
}
use raft_sharded_kv.Prelude.Names.{name_of, names_apart}
use raft_sharded_kv.Shardcfg.Config.{ShardConfig, make_shard_config}
use raft_sharded_kv.Ctrler.State.{MigrationRecord, ControllerState, ShardCtrler, owned}
use raft_sharded_kv.Ctrler.Migration.{
  DeepEqual, Rest, finish, change, recovering, changing, claim, plan, idle, electing, owning,
  writing, ensure_leadership, claimed, with_state, own, wrote,
}
use raft_sharded_kv.Ctrler.System.{
  System, goes, store, Reach, here, next, begins, elects, owns, executes, answers, IsInitial,
}
use raft_sharded_kv.Ctrler.Changes.{Change}
use raft_sharded_kv.Ctrler.Agreement.{run-Change, one_plan_per_number, current_advances}

-- Equality tests for what a configuration is made of.
abbrev lists_equal {ℓ} : {A : Type ℓ} → Eq A → List A → List A → Bool
lists_equal e [] [] = true
lists_equal e (x ∷ xs) (y ∷ ys) = if e.beq x y then lists_equal e xs ys else false
lists_equal e _ _ = false

lists_equal_lem {ℓ} :
    {A : Type ℓ} (e : Eq A) (xs ys : List A) → lists_equal e xs ys ≡ true → xs ≡ ys
lists_equal_lem e [] [] same = refl
lists_equal_lem e (x ∷ xs) (y ∷ ys) same = elim (Bool-cases (e.beq x y)) [
  | inl first ↦
      let p = (e.beq_iff x y).0 first in
      let q = lists_equal_lem e xs ys (rw first at same) in cc (p, q)
  | inr other ↦ absurd (let h = rw other at same in cc h)
]
lists_equal_lem e [] (y ∷ ys) same = absurd (cc same)
lists_equal_lem e (x ∷ xs) [] same = absurd (cc same)

lists_equal_refl {ℓ} : {A : Type ℓ} (e : Eq A) (xs : List A) → lists_equal e xs xs ≡ true
lists_equal_refl e [] = refl
lists_equal_refl e (x ∷ xs) = rw ((e.beq_iff x x).1 refl) (lists_equal_refl e xs)

abbrev list_eq {ℓ} : {A : Type ℓ} → Eq A → Eq (List A)
list_eq e = record {
  beq = lists_equal e;
  beq_iff = λ xs ys. (
    lists_equal_lem e xs ys,
    λ same. subst (λ zs. lists_equal e xs zs ≡ true) same (lists_equal_refl e xs),
  );
}

abbrev int_has_eq : Eq ℤ
int_has_eq = record { beq = int_eq; beq_iff = int_eq_iff }

abbrev pair_equal {ℓ κ} : {A : Type ℓ} {B : Type κ} → Eq A → Eq B → A × B → A × B → Bool
pair_equal e f (a, b) (x, y) = if e.beq a x then f.beq b y else false

pair_equal_lem {ℓ κ} :
    {A : Type ℓ} {B : Type κ} (e : Eq A) (f : Eq B) (p q : A × B)
    → pair_equal e f p q ≡ true
    → p ≡ q
pair_equal_lem e f (a, b) (x, y) same = elim (Bool-cases (e.beq a x)) [
  | inl first ↦
      let p = (e.beq_iff a x).0 first in let q = (f.beq_iff b y).0 (rw first at same) in cc (p, q)
  | inr other ↦ absurd (let h = rw other at same in cc h)
]

pair_equal_refl {ℓ κ} :
    {A : Type ℓ} {B : Type κ} (e : Eq A) (f : Eq B) (p : A × B) → pair_equal e f p p ≡ true
pair_equal_refl e f (a, b) = rw ((e.beq_iff a a).1 refl) ((f.beq_iff b b).1 refl)

abbrev pair_eq {ℓ κ} : {A : Type ℓ} {B : Type κ} → Eq A → Eq B → Eq (A × B)
pair_eq e f = record {
  beq = pair_equal e f;
  beq_iff = λ p q. (
    pair_equal_lem e f p q,
    λ same. subst (λ r. pair_equal e f p r ≡ true) same (pair_equal_refl e f p),
  );
}

abbrev parts : ShardConfig → ℕ × (List ℤ × List (ℤ × List String))
parts c = (c.num, (c.shards, c.groups))

abbrev parts_eq : Eq (ℕ × (List ℤ × List (ℤ × List String)))
parts_eq =
    pair_eq nat_eq (pair_eq (list_eq int_has_eq) (list_eq (pair_eq int_has_eq (list_eq string_eq))))

abbrev deep_equal : DeepEqual
deep_equal = record {
  same = λ a b. parts_eq.beq (parts a) (parts b);
  same_sound = λ a b same.
      let e = (parts_eq.beq_iff (parts a) (parts b)).0 same in
      λ i. record { num = (e i).0; shards = (e i).1.0; groups = (e i).1.1 };
  same_refl = λ a. (parts_eq.beq_iff (parts a) (parts a)).1 refl;
}

abbrev planned_config : ShardConfig
planned_config = record { num = 1; shards = []; groups = [] }

abbrev first_state : ControllerState
first_state = record { owner = "init"; epoch = 1; current = make_shard_config; pending = none }

abbrev ctrler_of : ℕ → ShardCtrler
ctrler_of i = record { id = name_of i; epoch = 0; initialized = false; deposed = false }

abbrev start : System
start = record { version = 1; history = λ k. first_state; ctrler = ctrler_of; stage = λ i. idle }

abbrev wanted : Rest
wanted = change planned_config

abbrev begun : System
begun = goes start 0 (electing wanted, record (ctrler_of 0) { initialized = true })

abbrev claim0 : ControllerState
claim0 = claimed (name_of 0) first_state

abbrev elected : System
elected = store (goes begun 0 (writing (claim wanted) 1 claim0, begun.ctrler 0)) claim0

abbrev leader : ShardCtrler
leader = record (begun.ctrler 0) { epoch = claim0.epoch }

abbrev recovered : System
recovered =
    goes (goes elected 0 (owning (recovering wanted), leader)) 0
      (owning (changing planned_config), leader)

abbrev plan0 : MigrationRecord
plan0 = record { from = make_shard_config; to = planned_config }

abbrev planned_state : ControllerState
planned_state = record claim0 { pending = some plan0 }

abbrev planned : System
planned = store (goes recovered 0 (writing plan 2 planned_state, leader)) planned_state

abbrev rival : System
rival = goes planned 1 (electing finish, record (ctrler_of 1) { initialized = true })

abbrev claim1 : ControllerState
claim1 = claimed (name_of 1) planned_state

abbrev taken_over : System
taken_over = store (goes rival 1 (writing (claim finish) 3 claim1, rival.ctrler 1)) claim1

start-IsInitial : IsInitial start
start-IsInitial = record { made = refl; no_plan = refl; quiet = λ i. refl }

takes_over : Reach deep_equal start taken_over
unfolding ensure_leadership own owned with_state wrote name_of make_shard_config
takes_over =
    next
      (next
        (next
          (next
            (next
              (next
                (next
                  (next (next (next here (begins 0 wanted refl)) (elects 0 wanted refl))
                    (executes 0 (claim wanted) claim0 refl))
                  (answers 0 (claim wanted) 1 claim0 true refl (omega arith)))
                (owns 0 (recovering wanted) refl))
              (owns 0 (changing planned_config) refl))
            (executes 0 plan planned_state refl))
          (begins 1 finish refl))
        (elects 1 finish refl))
      (executes 1 (claim finish) claim1 refl)

run-Change_example : Change planned_state claim1
run-Change_example =
    run-Change deep_equal start taken_over start-IsInitial names_apart takes_over 3 (omega arith)
      (omega arith)

one_plan_per_number_example : plan0 ≡ plan0
one_plan_per_number_example =
    one_plan_per_number deep_equal start taken_over start-IsInitial names_apart takes_over 3 4 plan0
      plan0 (omega arith) (omega arith) (omega arith) (omega arith) refl refl refl

current_advances_example :
    (claim1.current ≡ first_state.current) ⊎ (first_state.current.num < claim1.current.num)
current_advances_example =
    current_advances deep_equal start taken_over start-IsInitial names_apart takes_over 1 4
      (omega arith) (omega arith) (omega arith)
