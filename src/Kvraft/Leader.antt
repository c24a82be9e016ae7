-- ===== src/Kvraft/Leader.antt =====
-- src/kvraft1/client.go: how a clerk tracks the leader. The clerk of a shard group
-- (src/shardkv1/shardgrp/client.go) does the same.
use raft_sharded_kv.Prelude.{
  ℕ, zero, suc, some, get_elem?, ◌+◌, ◌<◌, ◌%◌, ◌≡◌, String, List, [], ◌∷◌, length, arith, ◌==◌,
  if◌then◌else◌, Bool-cases, inl, inr, refl, ◌∙◌,
}

-- The servers, and the place of the one that answered last.
pub record Leader : Type 0 where
  pub servers : List String
  pub leader : ℕ

unfoldable pub remember_leader : ℕ → Leader → Leader
remember_leader server ck = record ck { leader = server }

unfoldable pub advance_leader : ℕ → Leader → Leader
advance_leader failed ck =
    if ck.leader == failed then record ck { leader = (failed + 1) % length ck.servers } else ck

-- What other calls on the same clerk do meanwhile.
pub data Move : Type 0 where
  remembered advanced : ℕ → Move

unfoldable pub moves : List Move → Leader → Leader
unfolding remember_leader advance_leader
moves [] ck = ck
moves (remembered server ∷ rest) ck = moves rest (remember_leader server ck)
moves (advanced server ∷ rest) ck = moves rest (advance_leader server ck)

-- The leader is one of the servers, so that ck.servers[server] is in range.
abbrev pub InRange : Leader → Type 0
InRange ck = ck.leader < length ck.servers

-- The other calls remember only servers that they have read from the clerk.
abbrev pub AllInRange : ℕ → List Move → Type 0
AllInRange n [] = Unit {0}
AllInRange n (remembered server ∷ rest) = (server < n) × AllInRange n rest
AllInRange n (advanced server ∷ rest) = AllInRange n rest

pub advance_leader-InRange :
    (failed : ℕ) (ck : Leader)
    → InRange ck
    → InRange (advance_leader failed ck) × ((advance_leader failed ck).servers ≡ ck.servers)
unfolding advance_leader
advance_leader-InRange failed ck h = elim (Bool-cases (ck.leader == failed)) [
  | inl same ↦ simp same (omega arith, refl)
  | inr other ↦ simp other (h, refl)
]

pub advance_leader_servers :
    (failed : ℕ) (ck : Leader) → (advance_leader failed ck).servers ≡ ck.servers
unfolding advance_leader
advance_leader_servers failed ck = elim (Bool-cases (ck.leader == failed)) [
  | inl same ↦ simp same refl
  | inr other ↦ simp other refl
]

pub moves_servers : (ms : List Move) (ck : Leader) → (moves ms ck).servers ≡ ck.servers
unfolding moves remember_leader
moves_servers [] ck = refl
moves_servers (remembered server ∷ rest) ck = moves_servers rest (record ck { leader = server })
moves_servers (advanced server ∷ rest) ck =
    moves_servers rest (advance_leader server ck) ∙ advance_leader_servers server ck

pub moves-InRange :
    (ms : List Move) (ck : Leader)
    → InRange ck
    → AllInRange (length ck.servers) ms
    → InRange (moves ms ck) × ((moves ms ck).servers ≡ ck.servers)
unfolding moves remember_leader
moves-InRange [] ck h all = (h, refl)
moves-InRange (remembered server ∷ rest) ck h all =
    moves-InRange rest (record ck { leader = server }) all.0 all.1
moves-InRange (advanced server ∷ rest) ck h all =
    let step = advance_leader-InRange server ck h in
    let after = moves-InRange rest (advance_leader server ck) step.0 (rw step.1 all) in
    (after.0, after.1 ∙ step.1)

pub get_elem?_lt {ℓ} :
    {A : Type ℓ} (xs : List A) (i : ℕ) → i < length xs → (x : A) × (get_elem? xs i ≡ some x)
get_elem?_lt [] i lt = absurd (omega arith)
get_elem?_lt (x ∷ xs) zero lt = (x, refl)
get_elem?_lt (x ∷ xs) (suc i) lt = get_elem?_lt xs i (omega arith)
