-- ===== src/Shardcfg/Names.antt =====
-- src/shardkv1/shardcfg/shardcfg.go: what the checks of Join and Leave ask of gids and servers.
use raft_sharded_kv.Prelude.{
  ◌≡◌, ◌↔◌, ◌⊎◌, refl, sym, ap, subst, arith, true, false, Bool-cases, List, [], ◌∷◌, ℤ, int_eq_iff,
  inl, inr, String, string_eq,
}
use raft_sharded_kv.Shardcfg.Config.{Groups, has, gids}
use raft_sharded_kv.Shardcfg.Change.{has_server, shares, clashes, has_all}

abbrev pub Listed : {B : Type 0} → B → List B → Type 0
Listed x [] = ⊥
Listed x (y ∷ ys) = (y ≡ x) ⊎ Listed x ys

-- Groups of which no two have the same gid, and no two have a server in common.
abbrev pub Separate : Groups → Type 0
Separate [] = Unit
Separate ((g, servers) ∷ rest) =
    (¬ Listed g (gids rest))
    × ((k : ℤ) (others : List String) (s : String)
        → Listed (k, others) rest
        → Listed s others
        → ¬ Listed s servers)
    × Separate rest

-- Gids of which no two are the same.
abbrev pub Once : List ℤ → Type 0
Once [] = Unit
Once (g ∷ rest) = (¬ Listed g rest) × Once rest

pub has_iff : (gs : List ℤ) (g : ℤ) → (has gs g ≡ true) ↔ Listed g gs
has_iff [] g = ground arith
has_iff (h ∷ hs) g = ground (arith, int_eq_iff h g, has_iff hs g)

pub absent_iff : (gs : List ℤ) (g : ℤ) → (has gs g ≡ false) ↔ (¬ Listed g gs)
absent_iff gs g = elim (Bool-cases (has gs g)) [
  | inl e ↦ ground (arith, has_iff gs g)
  | inr n ↦ ground (arith, has_iff gs g)
]

has_server_iff : (ss : List String) (s : String) → (has_server ss s ≡ true) ↔ Listed s ss
has_server_iff [] s = ground arith
has_server_iff (t ∷ ts) s =
    let same : (string_eq.beq s t ≡ true) ↔ (t ≡ s) =
      ((λ e. sym ((string_eq.beq_iff s t).0 e)), (λ e. (string_eq.beq_iff s t).1 (sym e))) in
    ground (arith, same, has_server_iff ts s)

shares_iff :
    (xs servers : List String)
    → (shares xs servers ≡ true) ↔ ((s : String) × Listed s xs × Listed s servers)
shares_iff [] servers = ((λ e. absurd (ground arith)), (λ (s, m, l). absurd m))
shares_iff (x ∷ rest) servers = (
  (λ e. elim (Bool-cases (has_server servers x)) [
    | inl hit ↦ (x, inl refl, (has_server_iff servers x).0 hit)
    | inr miss ↦ let (s, m, l) = (shares_iff rest servers).0 (rw miss at e) in (s, inr m, l)
  ]),
  (λ (s, m, l). elim m [
    | inl same ↦
        let hit : has_server servers x ≡ true =
          (has_server_iff servers x).1 (subst (λ n. Listed n servers) (sym same) l) in
        rw hit refl
    | inr m' ↦ let later = (shares_iff rest servers).1 (s, m', l) in ground (arith, later)
  ]),
)

-- A server of a group is among the servers.
abbrev Clash : Groups → List String → Type 0
Clash gs servers =
    (k : ℤ) × (others : List String) × (s : String) × Listed (k, others) gs
    × Listed s others
    × Listed s servers

clashes_iff : (gs : Groups) (servers : List String) → (clashes gs servers ≡ true) ↔ Clash gs servers
clashes_iff [] servers = ((λ e. absurd (ground arith)), (λ (k, others, s, m, l, l'). absurd m))
clashes_iff ((g, xs) ∷ rest) servers = (
  (λ e. elim (Bool-cases (shares xs servers)) [
    | inl hit ↦ let (s, l, l') = (shares_iff xs servers).0 hit in (g, xs, s, inl refl, l, l')
    | inr miss ↦
        let (k, others, s, m, l, l') = (clashes_iff rest servers).0 (rw miss at e) in
        (k, others, s, inr m, l, l')
  ]),
  (λ (k, others, s, m, l, l'). elim m [
    | inl same ↦
        let hit : shares xs servers ≡ true =
          (shares_iff xs servers).1
            (s, subst (Listed s) (sym (ap (λ (p : ℤ × List String). p.1) same)) l, l') in
        rw hit refl
    | inr m' ↦
        let later = (clashes_iff rest servers).1 (k, others, s, m', l, l') in ground (arith, later)
  ]),
)

pub clear_iff :
    (gs : Groups) (servers : List String)
    → (clashes gs servers ≡ false) ↔ (
        (k : ℤ) (others : List String) (s : String)
        → Listed (k, others) gs
        → Listed s others
        → ¬ Listed s servers)
clear_iff gs servers = (
  (λ miss k others s m l l'.
      let hit = (clashes_iff gs servers).1 (k, others, s, m, l, l') in absurd (cc (miss, hit))),
  (λ none_listed. elim (Bool-cases (clashes gs servers)) [
    | inl hit ↦
        let (k, others, s, m, l, l') = (clashes_iff gs servers).0 hit in
        absurd (none_listed k others s m l l')
    | inr miss ↦ miss
  ]),
)

pub has_all_iff : (gs xs : List ℤ) → (has_all gs xs ≡ true) ↔ ((g : ℤ) → Listed g xs → Listed g gs)
has_all_iff gs [] = ((λ e g m. absurd m), (λ all. refl))
has_all_iff gs (x ∷ rest) = (
  (λ e g m. elim m [
    | inl same ↦
        let hit : has gs x ≡ true = ground (arith, e) in
        subst (λ n. Listed n gs) same ((has_iff gs x).0 hit)
    | inr m' ↦
        let later : has_all gs rest ≡ true = ground (arith, e) in (has_all_iff gs rest).0 later g m'
  ]),
  (λ all.
      let hit = (has_iff gs x).1 (all x (inl refl)) in
      let later = (has_all_iff gs rest).1 (λ g m. all g (inr m)) in ground (arith, hit, later)),
)
