-- ===== src/Prelude/Keys.antt =====
-- Go maps. A map that the code only reads, writes and deletes at a key is a function; the type of
-- its keys has an equality test, found as an instance.
use Prim.Native.Nat.{ℕ}
use Prim.Native.String.{String}
use mathlib.Core.Path.{◌≡◌, refl}
use mathlib.Core.Logic.{◌↔◌}
use mathlib.Core.Bool.{Bool, true}
use mathlib.Core.Option.{Option, none, some}
use text.Mathlib.Text.{◌==◌ as str_eq}
use text.Mathlib.TextEquality.{eq_iff}
use raft_sharded_kv.Prelude.Tests.{◌==◌, ==_iff, if◌then◌else◌}

pub record Eq {ℓ} (A : Type ℓ) : Type ℓ where
  pub beq : A → A → Bool
  pub beq_iff : (a b : A) → (beq a b ≡ true) ↔ (a ≡ b)

instance abbrev pub nat_eq : Eq ℕ
nat_eq = record { beq = ◌==◌; beq_iff = ==_iff }

instance abbrev pub string_eq : Eq String
string_eq = record { beq = str_eq; beq_iff = eq_iff }

abbrev pub Map {ℓ κ} : Type ℓ → Type κ → Type (ℓ ⊔ κ)
Map K V = K → Option V

-- make(map[K]V)
abbrev pub empty_map {ℓ κ} : {K : Type ℓ} {V : Type κ} → Map K V
empty_map k = none

-- m[k] = v
abbrev pub insert {ℓ κ} : {K : Type ℓ} {V : Type κ} ⦃e : Eq K⦄ → K → V → Map K V → Map K V
insert ⦃e⦄ k v m j = if e.beq k j then some v else m j

-- delete(m, k)
abbrev pub remove {ℓ κ} : {K : Type ℓ} {V : Type κ} ⦃e : Eq K⦄ → K → Map K V → Map K V
remove ⦃e⦄ k m j = if e.beq k j then none else m j

pub beq_refl {ℓ} : {K : Type ℓ} ⦃e : Eq K⦄ (k : K) → e.beq k k ≡ true
beq_refl ⦃e⦄ k = (e.beq_iff k k).1 refl
