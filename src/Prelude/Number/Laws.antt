-- ===== src/Prelude/Number/Laws.antt =====
-- A number that was written is read back.
use Prim.Native.Nat.{ℕ, zero, suc, ◌+◌, ◌-◌, ◌*◌, ◌/◌, ◌%◌, ◌^◌, ◌≤◌, ◌<◌}
use mathlib.Core.Path.{◌≡◌, refl, sym, ap, subst, ◌∙◌}
use mathlib.Core.Logic.{inl, inr}
use mathlib.Core.Option.{some}
use mathlib.Core.List.{[], ◌∷◌}
use native.Mathlib.Omega.{arith}
use git_csi_driver.Prelude.Tests.{All, Bool-cases, ltb, length}
use git_csi_driver.Prelude.Int.{ℤ, pos, negsuc}
use git_csi_driver.Prelude.Text.{Bytes, Lacks}
use git_csi_driver.Prelude.Number.{
  digits, parse_uint, atoi, put_digits, print_uint, print_int, zeros, print_octal,
}

abbrev IsDigit : ℕ → Type 0
IsDigit c = (48 ≤ c) × (c < 58)

-- What the division by a base up to ten does, for `omega` cannot see it where the base is a variable.
record IsBase (base : ℕ) : Type 0 where
  low : base ≤ 10
  some_digit : 0 < base
  small : (n : ℕ) → n % base < base
  whole : (n : ℕ) → n / base * base + n % base ≡ n
  falls : (n : ℕ) → base ≤ n → n / base < n

octal : IsBase 8
octal = record {
  low = omega arith;
  some_digit = omega arith;
  small = λ n. omega arith;
  whole = λ n. omega arith;
  falls = λ n h. omega arith;
}

decimal : IsBase 10
decimal = record {
  low = omega arith;
  some_digit = omega arith;
  small = λ n. omega arith;
  whole = λ n. omega arith;
  falls = λ n h. omega arith;
}

module _ (base : ℕ) (laws : IsBase base) where
  one_digit :
      (d m : ℕ) (s : Bytes)
      → d < base
      → digits base m ((b'0' + d) ∷ s) ≡ digits base (m * base + d) s
  unfolding digits
  one_digit d m s h = ground (arith, laws.low)

  digits-put_digits :
      (fuel n : ℕ) (acc : Bytes)
      → n < fuel
      → digits base 0 (put_digits base fuel n acc) ≡ digits base n acc
  unfolding put_digits
  digits-put_digits zero n acc h = absurd (omega arith)
  digits-put_digits (suc fuel) n acc h = elim (Bool-cases (ltb n base)) [
    | inl last ↦
        rw (last, put_digits)
          (one_digit n 0 acc (ground arith) ∙ ap (λ k. digits base k acc) (ground arith))
    | inr more ↦
        let above : base ≤ n = ground arith in
        rw (more, put_digits)
          (digits-put_digits fuel (n / base) ((b'0' + n % base) ∷ acc)
              (omega (arith, laws.falls n above))
            ∙ one_digit (n % base) (n / base) acc (laws.small n)
            ∙ ap (λ k. digits base k acc) (laws.whole n))
  ]

  put_digits-IsDigit :
      (fuel n : ℕ) (acc : Bytes) → All IsDigit acc → All IsDigit (put_digits base fuel n acc)
  unfolding put_digits
  put_digits-IsDigit zero n acc h = h
  put_digits-IsDigit (suc fuel) n acc h = elim (Bool-cases (ltb n base)) [
    | inl last ↦ rw (last, put_digits) (ground arith, h)
    | inr more ↦
        rw (more, put_digits)
          (put_digits-IsDigit fuel (n / base) _ (omega (arith, laws.small n), h))
  ]

  put_digits_cons :
      (fuel n c : ℕ) (acc : Bytes)
      → (d : ℕ) × (s : Bytes) × (put_digits base fuel n (c ∷ acc) ≡ d ∷ s)
  unfolding put_digits
  put_digits_cons zero n c acc = (c, acc, refl)
  put_digits_cons (suc fuel) n c acc = elim (Bool-cases (ltb n base)) [
    | inl last ↦ rw (last, put_digits) (b'0' + n, c ∷ acc, refl)
    | inr more ↦ rw (more, put_digits) (put_digits_cons fuel (n / base) (b'0' + n % base) (c ∷ acc))
  ]

  print_uint_cons : (n : ℕ) → (d : ℕ) × (s : Bytes) × (print_uint base n ≡ d ∷ s)
  unfolding print_uint put_digits
  print_uint_cons n = elim (Bool-cases (ltb n base)) [
    | inl last ↦ rw (print_uint, last, put_digits) (b'0' + n, [], refl)
    | inr more ↦
        rw (print_uint, more, put_digits) (put_digits_cons n (n / base) (b'0' + n % base) [])
  ]

  digits-print_uint : (n : ℕ) → digits base 0 (print_uint base n) ≡ some n
  unfolding print_uint digits
  digits-print_uint n = digits-put_digits (suc n) n [] (omega arith)

  print_uint-IsDigit : (n : ℕ) → All IsDigit (print_uint base n)
  unfolding print_uint
  print_uint-IsDigit n = put_digits-IsDigit (suc n) n [] tt

  digits-zeros : (k : ℕ) (s : Bytes) → digits base 0 (zeros k s) ≡ digits base 0 s
  unfolding zeros
  digits-zeros zero s = refl
  digits-zeros (suc k) s =
      ground (arith, one_digit 0 0 (zeros k s) laws.some_digit, digits-zeros k s)

  print_uint_head : (n : ℕ) → (d : ℕ) × (s : Bytes) × (print_uint base n ≡ d ∷ s) × IsDigit d
  print_uint_head n =
      let (d, s, e) = print_uint_cons n in
      let all : All IsDigit (d ∷ s) = subst (All IsDigit) e (print_uint-IsDigit n) in
      (d, s, e, all.0)

-- A text of digits that is not empty is read as its number, where the number has the width.
parse_uint_lem :
    (base width n c : ℕ) (s p : Bytes)
    → p ≡ c ∷ s
    → digits base 0 p ≡ some n
    → n < 2 ^ width
    → parse_uint base width p ≡ some n
unfolding parse_uint
parse_uint_lem base width n c s p e found fits =
    let at_cons : digits base 0 (c ∷ s) ≡ some n = sym (ap (digits base 0) e) ∙ found in
    rw (e, parse_uint, at_cons) (ground arith)

parse_uint-print_uint : (n : ℕ) → n < 2 ^ 64 → parse_uint 10 64 (print_uint 10 n) ≡ some n
parse_uint-print_uint n h =
    let (d, s, e, digit) = print_uint_head 10 decimal n in
    parse_uint_lem 10 64 n d s _ e (digits-print_uint 10 decimal n) h

-- The integers that an `int` of 64 bits holds.
abbrev pub FitsInt : ℤ → Type 0
FitsInt (pos n) = n < 2 ^ 63
FitsInt (negsuc n) = n < 2 ^ 63

-- `atoi` reads what `%d` wrote.
pub atoi-print_int : (z : ℤ) → FitsInt z → atoi (print_int z) ≡ some z
unfolding atoi print_int
atoi-print_int (pos n) h =
    let (d, s, e, digit) = print_uint_head 10 decimal n in
    let read = parse_uint-print_uint n (omega arith) in rw e (rw (atoi, sym e, read) (ground arith))
atoi-print_int (negsuc n) h = rw (parse_uint-print_uint (suc n) (omega arith)) (ground arith)

zeros_cons : (k d : ℕ) (s p : Bytes) → p ≡ d ∷ s → (c : ℕ) × (t : Bytes) × (zeros k p ≡ c ∷ t)
unfolding zeros
zeros_cons zero d s p e = (d, s, e)
zeros_cons (suc k) d s p e = (b'0', zeros k p, refl)

-- What `%04o` writes is read back, where the number has the width.
pub parse_uint-print_octal :
    (width n : ℕ) → n < 2 ^ width → parse_uint 8 width (print_octal n) ≡ some n
unfolding print_octal
parse_uint-print_octal width n h =
    let (d, s, e, digit) = print_uint_head 8 octal n in
    let (c, t, e') = zeros_cons (4 - length (print_uint 8 n)) d s (print_uint 8 n) e in
    parse_uint_lem 8 width n c t _ e'
      (digits-zeros 8 octal (4 - length (print_uint 8 n)) (print_uint 8 n)
        ∙ digits-print_uint 8 octal n)
      h

All-zeros : (k : ℕ) (s : Bytes) → All IsDigit s → All IsDigit (zeros k s)
unfolding zeros
All-zeros zero s h = h
All-zeros (suc k) s h = ((omega arith, omega arith), All-zeros k s h)

IsDigit-Lacks : (b : ℕ) (s : Bytes) → b < 45 → All IsDigit s → Lacks b s
IsDigit-Lacks b [] low h = tt
IsDigit-Lacks b (c ∷ s) low h = (omega (arith, h.0), IsDigit-Lacks b s low h.1)

-- A blank or a newline is in no number.
pub print_octal-Lacks : (b n : ℕ) → b < 45 → Lacks b (print_octal n)
unfolding print_octal
print_octal-Lacks b n low = IsDigit-Lacks b _ low (All-zeros _ _ (print_uint-IsDigit 8 octal n))

pub print_int-Lacks : (b : ℕ) (z : ℤ) → b < 45 → Lacks b (print_int z)
unfolding print_int
print_int-Lacks b (pos n) low = IsDigit-Lacks b _ low (print_uint-IsDigit 10 decimal n)
print_int-Lacks b (negsuc n) low =
    (omega arith, IsDigit-Lacks b _ low (print_uint-IsDigit 10 decimal (suc n)))
