-- ===== src/Base/Int.antt =====
-- Go's signed integers, and `%d`.
use Prim.Native.Nat.{ℕ, zero, suc, ◌+◌, ◌/◌, ◌%◌}
use mathlib.Core.Bool.{Bool, true, false}
use mathlib.Core.List.{[], ◌∷◌, ◌++◌}
use mikrotik_operator.Base.Tests.{nat_eq, ltb, if◌then◌else◌}
use mikrotik_operator.Base.Texts.{Text}

-- `negsuc n` is -(n + 1).
pub data ℤ : Type 0 where
  pos : ℕ → ℤ
  negsuc : ℕ → ℤ

-- The first argument is fuel; a number has fewer digits than its successor.
decimal_fuel : ℕ → ℕ → Text
decimal_fuel zero n = []
decimal_fuel (suc f) n =
    let more = decimal_fuel f (n / 10) ++ (b'0' + n % 10) ∷ [] in
    if ltb n 10 then (b'0' + n) ∷ [] else more

-- `fmt.Sprintf("%d", n)`, `strconv.FormatInt`
unfoldable pub show_int : ℤ → Text
unfolding decimal_fuel
show_int (pos n) = decimal_fuel (suc n) n
show_int (negsuc n) = b'-' ∷ decimal_fuel (suc (suc n)) (suc n)

abbrev pub is_zero : ℤ → Bool
is_zero (pos zero) = true
is_zero _ = false

abbrev pub is_positive : ℤ → Bool
is_positive (pos (suc n)) = true
is_positive _ = false
