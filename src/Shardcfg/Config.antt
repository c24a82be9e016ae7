-- ===== src/Shardcfg/Config.antt =====
-- src/shardkv1/shardcfg/shardcfg.go: configurations, and the loads of their groups.
use raft_sharded_kv.Prelude.{
  ℕ, suc, String, Bool, false, ◌||◌, List, [], ◌∷◌, Option, none, some, ltb, ℤ, pos, minus_one,
  int_eq, int_ltb, int_leb, replicate, get_or, if◌then◌else◌,
}
use raft_sharded_kv.Shardcfg.Constants.{n_shards}

-- A Go map from gids to servers, as its entries in an order in which the program may see them.
abbrev pub Groups : Type 0
Groups = List (ℤ × List String)

pub record ShardConfig : Type 0 where
  pub num : ℕ
  pub shards : List ℤ
  pub groups : Groups

-- Is the gid in the list?
abbrev pub has : List ℤ → ℤ → Bool
has [] g = false
has (h ∷ hs) g = int_eq h g || has hs g

abbrev pub gids : Groups → List ℤ
gids [] = []
gids ((g, servers) ∷ rest) = g ∷ gids rest

-- `groups[g]`
unfoldable pub find_group : Groups → ℤ → Option (List String)
find_group [] g = none
find_group ((h, servers) ∷ rest) g = if int_eq h g then some servers else find_group rest g

-- delete(groups, g)
unfoldable pub delete_group : Groups → ℤ → Groups
delete_group [] g = []
delete_group ((h, servers) ∷ rest) g =
    if int_eq h g then delete_group rest g else (h, servers) ∷ delete_group rest g

-- `groups[g] = servers`
abbrev pub insert_group : Groups → ℤ → List String → Groups
insert_group groups g servers = (g, servers) ∷ delete_group groups g

unfoldable pub make_shard_config : ShardConfig
make_shard_config = record { num = 0; shards = replicate n_shards (pos 0); groups = [] }

-- counts[g], for the counts of the shards
abbrev pub count : List ℤ → ℤ → ℕ
count [] g = 0
count (s ∷ rest) g = if int_eq s g then suc (count rest g) else count rest g

-- slices.Sort
abbrev pub insert_sorted : ℤ → List ℤ → List ℤ
insert_sorted g [] = g ∷ []
insert_sorted g (h ∷ hs) = if int_leb g h then g ∷ h ∷ hs else h ∷ insert_sorted g hs

unfoldable pub sort : List ℤ → List ℤ
sort [] = []
sort (g ∷ gs) = insert_sorted g (sort gs)

-- The results of `analyze`: the group with the most shards and their number, and that with the
-- least.
pub record Load : Type 0 where
  pub mg : ℤ
  pub mn : ℤ
  pub lg : ℤ
  pub ln : ℕ

-- One step of the loop of `analyze`.
abbrev pub weigh : (ℤ → ℕ) → Load → ℤ → Load
weigh counts l g =
    let fewer = ltb (counts g) l.ln in
    let more = int_ltb l.mn (pos (counts g)) in
    record {
      mg = if more then g else l.mg;
      mn = if more then pos (counts g) else l.mn;
      lg = if fewer then g else l.lg;
      ln = if fewer then counts g else l.ln;
    }

abbrev pub weigh_all : (ℤ → ℕ) → Load → List ℤ → Load
weigh_all counts l [] = l
weigh_all counts l (g ∷ gs) = weigh_all counts (weigh counts l g) gs

abbrev pub no_load : Load
no_load = record { mg = minus_one; mn = minus_one; lg = minus_one; ln = 257 }

unfoldable pub analyze : ShardConfig → Load
unfolding sort
analyze c = weigh_all (count c.shards) no_load (sort (gids c.groups))

abbrev pub least : ShardConfig → ℤ
least c = (analyze c).lg

unfoldable pub gid_servers : ShardConfig → ℕ → ℤ × Option (List String)
unfolding find_group
gid_servers c sh = let gid = get_or c.shards sh (pos 0) in (gid, find_group c.groups gid)

unfoldable pub is_member : ShardConfig → ℤ → Bool
is_member c gid = has c.shards gid
