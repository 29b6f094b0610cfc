-- ===== src/Prelude/Int.antt =====
-- Signed integers, as far as the program needs them: `negsuc n` is -(n + 1).
use Prim.Native.Nat.{ℕ, zero, suc, ◌+◌, ◌-◌, ◌*◌, ◌/◌, ◌%◌, ◌^◌}
use mathlib.Core.Path.{◌≡◌}
use mathlib.Core.Logic.{◌↔◌}
use mathlib.Core.Bool.{Bool, true, false, ◌&&◌}
use mathlib.Core.List.{List, [], ◌∷◌, ◌++◌}
use mathlib.Core.Option.{Option, none, some}
use native.Mathlib.Omega.{arith}
use rustify.Prelude.Tests.{◌==◌, ltb, leb, if◌then◌else◌}

pub data ℤ : Type 0 where
  pos : ℕ → ℤ
  negsuc : ℕ → ℤ

-- `n.max(0)`, as a natural number.
abbrev pub pos_part : ℤ → ℕ
pos_part (pos n) = n
pos_part (negsuc n) = 0

abbrev pub int_eq : ℤ → ℤ → Bool
int_eq (pos a) (pos b) = a == b
int_eq (negsuc a) (negsuc b) = a == b
int_eq _ _ = false

pub int_eq_iff : (a b : ℤ) → (int_eq a b ≡ true) ↔ (a ≡ b)
int_eq_iff (pos a) (pos b) = ground arith
int_eq_iff (pos a) (negsuc b) = ground arith
int_eq_iff (negsuc a) (pos b) = ground arith
int_eq_iff (negsuc a) (negsuc b) = ground arith

-- `a <= b`.
abbrev pub int_leb : ℤ → ℤ → Bool
int_leb (pos a) (pos b) = leb a b
int_leb (pos a) (negsuc b) = false
int_leb (negsuc a) (pos b) = true
int_leb (negsuc a) (negsuc b) = leb b a

-- The signed number of the 32 low bits `n`.
abbrev pub of_bits32 : ℕ → ℤ
of_bits32 n = if ltb n (2 ^ 31) then pos n else negsuc (2 ^ 32 - 1 - n)

-- `n as i32`: the low 32 bits.
abbrev pub as_i32 : ℤ → ℤ
as_i32 (pos n) = of_bits32 (n % 2 ^ 32)
as_i32 (negsuc n) = of_bits32 (2 ^ 32 - 1 - n % 2 ^ 32)

-- `str::parse::<i64>` and `::<i32>`, by the number of bits of the magnitude: an optional sign, then
-- digits, within the range of the type.
digits_value : ℕ → List ℕ → Option ℕ
digits_value acc [] = some acc
digits_value acc (c ∷ s) =
    if leb 48 c && leb c 57 then digits_value (acc * 10 + (c - 48)) s else none

digits : List ℕ → Option ℕ
unfolding digits_value
digits [] = none
digits (c ∷ s) = digits_value 0 (c ∷ s)

abbrev in_range : ℕ → Bool → ℕ → Option ℤ
in_range bits true n =
    if n == 0 then some (pos 0) else if leb n (2 ^ bits) then some (negsuc (n - 1)) else none
in_range bits false n = if ltb n (2 ^ bits) then some (pos n) else none

signed : ℕ → Bool → Option ℕ → Option ℤ
signed bits minus none = none
signed bits minus (some n) = in_range bits minus n

unfoldable pub parse_int : ℕ → List ℕ → Option ℤ
unfolding digits signed
parse_int bits [] = none
parse_int bits (c ∷ s) =
    if c == 45
    then signed bits true (digits s)
    else if c == 43
    then signed bits false (digits s)
    else signed bits false (digits (c ∷ s))

abbrev pub parse_i64 : List ℕ → Option ℤ
parse_i64 = parse_int 63

abbrev pub parse_i32 : List ℕ → Option ℤ
parse_i32 = parse_int 31

-- `n.to_string()`. A number has no more digits than its value and one.
decimal_digits : ℕ → ℕ → List ℕ
decimal_digits zero n = []
decimal_digits (suc fuel) n =
    let rest = decimal_digits fuel (n / 10) in
    if ltb n 10 then (n + 48) ∷ [] else rest ++ ((n % 10 + 48) ∷ [])

unfoldable pub decimal : ℕ → List ℕ
unfolding decimal_digits
decimal n = decimal_digits (suc n) n

unfoldable pub int_decimal : ℤ → List ℕ
unfolding decimal
int_decimal (pos n) = decimal n
int_decimal (negsuc n) = 45 ∷ decimal (n + 1)

-- `str::parse::<u32>`: an optional plus sign, and digits within the range.
abbrev below : ℕ → Option ℕ → Option ℕ
below bound none = none
below bound (some n) = if ltb n bound then some n else none

unfoldable pub parse_u32 : List ℕ → Option ℕ
unfolding digits
parse_u32 [] = none
parse_u32 (c ∷ s) = below (2 ^ 32) (if c == 43 then digits s else digits (c ∷ s))
