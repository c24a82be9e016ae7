-- ===== src/Shardkv/Routing.antt =====
-- src/shardkv1/client.go: the configuration that a clerk caches.
use raft_sharded_kv.Prelude.{
  ◌≤◌, String, ◌≡◌, inl, inr, refl, arith, Bool, true, false, List, [], ◌∷◌, Option, none, some, ℤ,
  Bool-cases, leb,
}
use raft_sharded_kv.Shardcfg.Config.{ShardConfig}
use raft_sharded_kv.Shardkv.Clerk.{
  Clerk, group_clerk, refresh, refreshes, load_config, make_all, keep,
}

-- The cached configuration is there, and its number is at least as large.
abbrev pub IsNewer : Option ShardConfig → Option ShardConfig → Type 0
IsNewer none later = Unit {0}
IsNewer (some c) none = ⊥
IsNewer (some c) (some d) = c.num ≤ d.num

pub IsNewer-refl : (c : Option ShardConfig) → IsNewer c c
IsNewer-refl none = tt
IsNewer-refl (some c) = omega arith

pub IsNewer-trans : (a b c : Option ShardConfig) → IsNewer a b → IsNewer b c → IsNewer a c
IsNewer-trans none b c x y = tt
IsNewer-trans (some a) none c x y = absurd x
IsNewer-trans (some a) (some b) none x y = absurd y
IsNewer-trans (some a) (some b) (some c) x y = omega arith

refresh-IsNewer : (cached query : Option ShardConfig) → IsNewer cached (refresh cached query).1
unfolding refresh
refresh-IsNewer none none = tt
refresh-IsNewer none (some q) = tt
refresh-IsNewer (some c) none = omega arith
refresh-IsNewer (some c) (some q) = elim (Bool-cases (leb c.num q.num)) [
  | inl newer ↦ rw newer (ground arith)
  | inr older ↦ rw older (omega arith)
]

pub refreshes-IsNewer :
    (cached : Option ShardConfig) (queries : List (Option ShardConfig))
    → IsNewer cached (refreshes cached queries)
unfolding refreshes
refreshes-IsNewer cached [] = IsNewer-refl cached
refreshes-IsNewer cached (q ∷ rest) =
    IsNewer-trans cached _ _ (refresh-IsNewer cached q)
      (refreshes-IsNewer (refresh cached q).1 rest)

pub load_config-IsNewer :
    (force : Bool) (cached query : Option ShardConfig)
    → IsNewer cached (load_config force cached query).1
unfolding load_config
load_config-IsNewer false (some c) query = omega arith
load_config-IsNewer false none query = tt
load_config-IsNewer true cached query = refresh-IsNewer cached query

pub make_all_rest :
    (made : List (ℤ × List String)) (ck : Clerk)
    → ((make_all made ck).config ≡ ck.config) × ((make_all made ck).requests ≡ ck.requests)
unfolding make_all
make_all_rest [] ck = (refl, refl)
make_all_rest ((gid, servers) ∷ rest) ck =
    make_all_rest rest (keep ck gid (group_clerk ck gid servers))
