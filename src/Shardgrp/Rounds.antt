-- ===== src/Shardgrp/Rounds.antt =====
-- src/shardkv1/shardgrp/client.go: the rounds of Get and of PutRequest through the servers of a
-- group.
use raft_sharded_kv.Prelude.{
  ℕ, suc, ◌+◌, ◌<◌, ◌≤◌, ◌≡◌, inl, inr, refl, ap, subst, arith, Bool, true, false, List, [], ◌∷◌,
  length, take, replicate, Option, none, some, Bool-cases, leb, if◌then◌else◌,
}
use raft_sharded_kv.Kvraft.Leader.{AllInRange}
use raft_sharded_kv.Kvraft.Clerk.{Visit}
use raft_sharded_kv.Shardgrp.Clerk.{Turn, continues, gives_up, next_turn, is_received}

-- The other calls on the clerk remember only its servers.
abbrev pub AllVisits : {A : Type 0} → ℕ → List (Visit A) → Type 0
AllVisits n [] = Unit {0}
AllVisits n (v ∷ rest) = (AllInRange n v.before × AllInRange n v.during) × AllVisits n rest

-- The latest n attempts of the call have all failed.
abbrev pub Failed : {A : Type 0} → ℕ → List (Option A) → Type 0
Failed n replies = (n ≤ length replies) × (take n replies ≡ replicate n none)

-- What the first of the attempts in a round says, while none was answered.
abbrev pub TurnOk : {A : Type 0} → ℕ → List (Option A) → Turn → Type 0
TurnOk n seen (continues k received) = (k < n) × (received ≡ false → Failed k seen)
TurnOk n seen gives_up = Failed n seen

Failed-again :
    {A : Type 0} (attempts : ℕ) (reply : Option A) (received : Bool) (seen : List (Option A))
    → (received ≡ false → Failed attempts seen)
    → (if is_received reply then true else received) ≡ false
    → Failed (suc attempts) (reply ∷ seen)
Failed-again attempts none received seen h e =
    let f = h e in (omega (arith, f.0), ap (λ t. none ∷ t) f.1)
Failed-again attempts (some a) received seen h e = absurd (cc e)

last_turn :
    {A : Type 0} (n : ℕ) (received : Bool) (seen : List (Option A))
    → 0 < n
    → (received ≡ false → Failed n seen)
    → TurnOk n seen (if received then continues 0 false else gives_up)
last_turn n true seen lt h = (lt, λ e. (omega arith, refl))
last_turn n false seen lt h = h refl

pub next_turn-TurnOk :
    {A : Type 0} (n attempts : ℕ) (reply : Option A) (received : Bool) (seen : List (Option A))
    → attempts < n
    → (received ≡ false → Failed attempts seen)
    → TurnOk n
        (reply ∷ seen)
        (next_turn n (attempts + 1) (if is_received reply then true else received))
next_turn-TurnOk n attempts reply received seen lt h = elim (Bool-cases (leb n (attempts + 1))) [
  | inl last ↦
      let full : suc attempts ≡ n = ground arith in
      rw last (
        last_turn n (if is_received reply then true else received) (reply ∷ seen) (omega arith)
          (λ e.
            subst (λ k. Failed k (reply ∷ seen)) full
              (Failed-again attempts reply received seen h e)))
  | inr more ↦ rw more (
    ground arith,
    λ e.
        subst (λ k. Failed k (reply ∷ seen)) {x = suc attempts} {y = attempts + 1} (omega arith)
          (Failed-again attempts reply received seen h e),
  )
]
