-- ===== src/Prelude/Names.antt =====
-- Names that differ, for the examples.
use Prim.Native.Nat.{ℕ, zero, suc}
use Prim.Native.String.{String, count, ◌++◌}
use Prim.Native.String.count.{cons as count_cons}
use Prim.Native.String.append.{cons as append_cons, nil as append_nil}
use mathlib.Core.Path.{◌≡◌, refl, ap}
use native.Mathlib.Omega.{arith}

-- Different names for clients and controllers: a, aa, aaa and so on.
unfoldable pub name_of : ℕ → String
name_of zero = "a"
name_of (suc n) = "a" ++ name_of n

pub name_of-count : (n : ℕ) → count (name_of n) ≡ suc n
unfolding name_of
name_of-count zero = refl
name_of-count (suc n) =
    rw
      (
        append_cons "a" "" (name_of n),
        count_cons "a" ("" ++ name_of n),
        append_nil (name_of n),
        name_of-count n,
      )
      refl

pub names_apart : (i j : ℕ) → name_of i ≡ name_of j → i ≡ j
names_apart i j e = omega (arith, name_of-count i, name_of-count j, ap count e)
