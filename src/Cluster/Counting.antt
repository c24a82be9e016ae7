-- ===== src/Cluster/Counting.antt =====
-- Counting the members of a set of peers, and two majorities of one cluster.
use raft_sharded_kv.Prelude.{
  ℕ, zero, suc, ◌+◌, ◌<◌, ◌≤◌, ◌≡◌, ◌≢◌, refl, ap, Bool, true, false, arith, if◌then◌else◌, ◌==◌,
  Bool-cases, inl, inr,
}

-- How many numbers below n pass the test.
unfoldable pub count : (ℕ → Bool) → ℕ → ℕ
count p zero = 0
count p (suc n) = (if p n then 1 else 0) + count p n

pub count-cong : (p q : ℕ → Bool) (n : ℕ) → ((k : ℕ) → k < n → p k ≡ q k) → count p n ≡ count q n
unfolding count
count-cong p q zero h = refl
count-cong p q (suc n) h =
    ground (arith, count-cong p q n (λ k b. h k (omega arith)), h n (omega arith))

-- One more member.
pub count_insert :
    (p q : ℕ → Bool) (s n : ℕ)
    → s < n
    → p s ≡ false
    → q s ≡ true
    → ((k : ℕ) → k ≢ s → q k ≡ p k)
    → count q n ≡ count p n + 1
unfolding count
count_insert p q s zero b ps qs h = absurd (omega arith)
count_insert p q s (suc n) b ps qs h = elim (Bool-cases (n == s)) [
  | inl e ↦ ground (arith, count-cong q p n (λ k l. h k (ground arith)), ap p (eq e), ap q (eq e))
  | inr e ↦ ground (arith, count_insert p q s n (ground arith) ps qs h, h n (ground arith))
]
  where
    eq : (n == s) ≡ true → n ≡ s
    eq e = ground arith

pub count_none : (n : ℕ) → count (λ k. false) n ≡ 0
unfolding count
count_none zero = refl
count_none (suc n) = omega (arith, count_none n)

pub count-le : (p : ℕ → Bool) (n : ℕ) → count p n ≤ n
unfolding count
count-le p zero = omega arith
count-le p (suc n) = ground (arith, count-le p n)

-- Two sets of peers that together count more than the peers have a peer in common.
pub count_overlap :
    (p q : ℕ → Bool) (n : ℕ)
    → n < count p n + count q n
    → (s : ℕ) × (s < n) × (p s ≡ true) × (q s ≡ true)
unfolding count
count_overlap p q zero h = absurd (omega arith)
count_overlap p q (suc n) h = elim (Bool-cases (p n)) [
  | inl e ↦ elim (Bool-cases (q n)) [
    | inl f ↦ (n, omega arith, e, f)
    | inr f ↦ below (count_overlap p q n (ground arith))
  ]
  | inr e ↦ below (count_overlap p q n (ground arith))
]
  where
    below :
        ((s : ℕ) × (s < n) × (p s ≡ true) × (q s ≡ true))
        → (s : ℕ) × (s < suc n) × (p s ≡ true) × (q s ≡ true)
    below (s, b, e, f) = (s, omega arith, e, f)
