-- ===== src/Prelude/Number.antt =====
-- The number readers of Go's `strconv` package that the driver calls, and `fmt`'s writers of a number.
pub mod Laws
use git_csi_driver.Prelude.Tests.{length, ltb, leb, ◌==◌, if◌then◌else◌}
use git_csi_driver.Prelude.Int.{ℤ, pos, negsuc, sub_ℕ}
use git_csi_driver.Prelude.Text.{Bytes}
use Prim.Native.Nat.{ℕ, zero, suc, ◌+◌, ◌-◌, ◌*◌, ◌/◌, ◌%◌, ◌^◌}
use mathlib.Core.Bool.{true, false, ◌&&◌}
use mathlib.Core.Option.{Option, none, some}
use mathlib.Core.List.{[], ◌∷◌, ◌++◌}

-- The digits of a base up to ten, behind the number read so far.
unfoldable pub digits : ℕ → ℕ → Bytes → Option ℕ
digits base n [] = some n
digits base n (c ∷ s) =
    let rest = digits base (n * base + (c - b'0')) s in
    if leb b'0' c && ltb c (b'0' + base) then rest else none

-- `strconv.ParseUint(s, base, width)`: one digit at least, no sign, and no number past the width.
unfoldable pub parse_uint : ℕ → ℕ → Bytes → Option ℕ
unfolding digits
parse_uint base width [] = none
parse_uint base width (c ∷ s) = elim (digits base 0 (c ∷ s)) [
  | none ↦ none
  | some n ↦ if ltb n (2 ^ width) then some n else none
]

abbrev within : ℕ → Option ℕ → Option ℕ
within top none = none
within top (some n) = if leb n top then some n else none

abbrev negated : Option ℕ → Option ℤ
negated none = none
negated (some n) = some (sub_ℕ 0 n)

abbrev positive : Option ℕ → Option ℤ
positive none = none
positive (some n) = some (pos n)

-- `strconv.Atoi` where `int` has 64 bits: one sign at most, then one digit at least.
unfoldable pub atoi : Bytes → Option ℤ
unfolding parse_uint
atoi [] = none
atoi (c ∷ s) =
    if c == b'-'
    then negated (within (2 ^ 63) (parse_uint 10 64 s))
    else if c == b'+'
    then positive (within (2 ^ 63 - 1) (parse_uint 10 64 s))
    else positive (within (2 ^ 63 - 1) (parse_uint 10 64 (c ∷ s)))

-- The digits of a number in front of a text. A round takes one digit, and the fuel is more than the
-- number, which falls in every round.
unfoldable pub put_digits : ℕ → ℕ → ℕ → Bytes → Bytes
put_digits base zero n acc = acc
put_digits base (suc fuel) n acc = elim (ltb n base) [
  | true ↦ (b'0' + n) ∷ acc
  | false ↦ put_digits base fuel (n / base) ((b'0' + n % base) ∷ acc)
]

-- `%d` and `%o` of a number that is not negative.
unfoldable pub print_uint : ℕ → ℕ → Bytes
unfolding put_digits
print_uint base n = put_digits base (suc n) n []

-- `%d`
unfoldable pub print_int : ℤ → Bytes
print_int (pos n) = print_uint 10 n
print_int (negsuc n) = b'-' ∷ print_uint 10 (suc n)

unfoldable pub zeros : ℕ → Bytes → Bytes
zeros zero s = s
zeros (suc n) s = b'0' ∷ zeros n s

-- `%04o`
unfoldable pub print_octal : ℕ → Bytes
unfolding zeros
print_octal n = zeros (4 - length (print_uint 8 n)) (print_uint 8 n)
