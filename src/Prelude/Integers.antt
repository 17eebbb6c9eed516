-- ===== src/Prelude/Integers.antt =====
-- The integers over the native numbers, and the decimal text of an `int`: what std::to_string and
-- an ostream write, and what std::stoi and an istream read.
pub mod Roundtrip
use Prim.Native.Nat.{ℕ, zero, suc, ◌+◌, ◌-◌, ◌*◌, ◌/◌, ◌%◌, ◌^◌, ◌≤◌, ◌<◌}
use mathlib.Core.Path.{◌≡◌, refl, ap}
use mathlib.Core.Bool.{Bool, true, false, ◌&&◌, ◌||◌}
use mathlib.Core.Option.{Option, none, some}
use mathlib.Core.List.{List, [], ◌∷◌, ◌++◌}
use ipc_with_cht.Prelude.Tests.{ltb, leb, ◌==◌, if◌then◌else◌}
use ipc_with_cht.Prelude.Bytes.{Bytes}

pub data ℤ : Type 0 where
  pos negsuc : ℕ → ℤ

-- Whether a number is an `int` of 32 bits.
unfoldable pub is_int : ℤ → Bool
is_int (pos n) = ltb n (2 ^ 31)
is_int (negsuc n) = ltb n (2 ^ 31)

-- The decimal digits, with fuel: a number below 10 ^ fuel has them all.
unfoldable pub digits : ℕ → ℕ → Bytes
digits zero n = []
digits (suc fuel) n =
    let rest = digits fuel (n / 10) in
    if ltb n 10 then (b'0' + n) ∷ [] else rest ++ (b'0' + n % 10) ∷ []

-- The text of an `int`.
unfoldable pub print_int : ℤ → Bytes
unfolding digits
print_int (pos n) = digits 11 n
print_int (negsuc n) = b'-' ∷ digits 11 (suc n)

abbrev pub is_digit : ℕ → Bool
is_digit c = leb b'0' c && leb c b'9'

-- The characters that `isspace` names.
abbrev pub is_space : ℕ → Bool
is_space c = (c == 32) || (leb 9 c && leb c 13)

-- The value of the digits at the head of a text, behind those read so far.
unfoldable pub read_digits : ℕ → Bytes → ℕ
read_digits acc [] = acc
read_digits acc (c ∷ s) =
    let rest = read_digits (acc * 10 + (c - b'0')) s in if is_digit c then rest else acc

-- The number at the head of a text, if a digit stands there.
unfoldable pub read_nat : Bytes → Option ℕ
unfolding read_digits
read_nat [] = none
read_nat (c ∷ s) = if is_digit c then some (read_digits 0 (c ∷ s)) else none

abbrev pub negate : ℕ → ℤ
negate zero = pos zero
negate (suc n) = negsuc n

-- An `int`, or nothing: the value is out of range.
unfoldable pub in_range : ℤ → Option ℤ
unfolding is_int
in_range i = if is_int i then some i else none

unfoldable pub read_signed : Bytes → Option ℤ
unfolding read_nat in_range
read_signed [] = none
read_signed (c ∷ s) =
    if c == b'-'
    then elim (read_nat s) [ none ↦ none | some n ↦ in_range (negate n) ]
    else elim (read_nat (if c == b'+' then s else c ∷ s)) [
      | none ↦ none
      | some n ↦ in_range (pos n)
    ]

-- White space is skipped, and what follows the number is not read.
unfoldable pub parse_int : Bytes → Option ℤ
unfolding read_signed
parse_int [] = none
parse_int (c ∷ s) = let rest = parse_int s in if is_space c then rest else read_signed (c ∷ s)
