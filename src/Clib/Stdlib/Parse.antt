-- ===== src/Clib/Stdlib/Parse.antt =====
-- os/lib/stdlib.c: `str_to_ull` on what `ull_to_str` writes.
use hrishikos.Base.{
  ℕ, zero, suc, ◌+◌, ◌-◌, ◌*◌, ◌/◌, ◌%◌, ◌^◌, ◌≤◌, ◌<◌, ◌≡◌, ◌≢◌, refl, arith, ap, sym, ◌∙◌, true,
  false, ◌&&◌, some, ltb, u64, ==_ne, length,
}
use native.Mathlib.Nat.{mod-lt, mod-add-div', div-le_self}
use hrishikos.Clib.Strings.{strlen}
use hrishikos.Clib.Strings.Compare.{read, read-IsString, length-read, strlen_lem}
use hrishikos.Clib.Stdlib.{
  digit_char, digit_value, skip_spaces, detect_base, parse_loop, ull_to_str, str_to_ull,
  number_fuel,
}
use hrishikos.Clib.Stdlib.Digits.{shifted}
use hrishikos.Clib.Stdlib.Print.{IsNumeral, ull_to_str_lem, digit_char-ne}

digit_value-digit_char : (d c : ℕ) → d < 16 → c ≡ digit_char d → digit_value c ≡ some d
unfolding digit_value
digit_value-digit_char d c small e = ground (arith, e, small)

shifted-suc : (base k j : ℕ) → shifted base k (suc j) ≡ shifted base k j / base
shifted-suc base k zero = refl
shifted-suc base k (suc j) = shifted-suc base (k / base) j

shifted-le : (base k j : ℕ) → shifted base k j ≤ k
shifted-le base k zero = omega arith
shifted-le base k (suc j) = omega (arith, shifted-le base (k / base) j, div-le_self k base)

append_sum :
    (whole base number : ℕ)
    → number ≡ whole / base
    → whole < 2 ^ 64
    → u64 (number * base + whole % base) ≡ whole
append_sum whole base number e small =
    ap (λ x. u64 (x * base + whole % base)) e ∙ omega (arith, mod-add-div' whole base)

parse_loop_step :
    (fuel : ℕ) (m : ℕ → ℕ) (string length base i number d i' number' : ℕ)
    → digit_value (m (string + i)) ≡ some d
    → (ltb i length && ltb d base) ≡ true
    → (i + 1) % 2 ^ 16 ≡ i'
    → u64 (number * base + d) ≡ number'
    → parse_loop (suc fuel) 16 m string length base i number
      ≡ parse_loop fuel 16 m string length base i' number'
unfolding parse_loop
parse_loop_step fuel m string length base i number d i' number' digit goes next sum =
    rw (digit, goes, next, sum) refl

parse_loop_end :
    (fuel : ℕ) (m : ℕ → ℕ) (string length base i number : ℕ)
    → ltb i length ≡ false
    → parse_loop (suc fuel) 16 m string length base i number ≡ some number
unfolding parse_loop
parse_loop_end fuel m string length base i number done = rw done refl

-- From the highest digits read so far the loop comes to the number.
parse_loop_lem :
    (r fuel : ℕ) (m : ℕ → ℕ) (buffer base k n i number : ℕ)
    → IsNumeral m buffer base k n
    → k < 2 ^ 64
    → 2 ≤ base
    → base ≤ 16
    → n < 2 ^ 16
    → i + r ≡ n
    → number ≡ shifted base k r
    → r < fuel
    → parse_loop fuel 16 m buffer n base i number ≡ some k
parse_loop_lem r zero m buffer base k n i number numeral small two most short at_i sofar enough =
    absurd (omega arith)
parse_loop_lem zero (suc fuel) m buffer base k n i number numeral small two most short at_i sofar
      enough =
    parse_loop_end fuel m buffer n base i number (ground (arith, at_i)) ∙ ap some sofar
parse_loop_lem (suc r) (suc fuel) m buffer base k n i number numeral small two most short at_i sofar
      enough =
    let whole = shifted base k r in
    let d = whole % base in
    let below : d < base = mod-lt whole (omega arith) in
    let here : n - 1 - i ≡ r = omega arith in
    let sum : u64 (number * base + d) ≡ whole =
      append_sum whole base number (sofar ∙ shifted-suc base k r)
        (omega (arith, shifted-le base k r)) in
    parse_loop_step fuel m buffer n base i number d (i + 1) whole
      (digit_value-digit_char d (m (buffer + i)) (omega (arith, below))
        (rw here at (numeral.digits i (omega arith))))
      (ground (arith, below, at_i)) (omega arith) sum
    ∙ parse_loop_lem r fuel m buffer base k n (i + 1) whole numeral small two most short
        (omega arith) refl (omega arith)

skip_spaces_none :
    (fuel : ℕ) (m : ℕ → ℕ) (string : ℕ)
    → m string ≢ 32
    → skip_spaces (suc fuel) 16 m string 0 ≡ some 0
unfolding skip_spaces
skip_spaces_none fuel m string ne =
    let here : string + 0 ≡ string = omega arith in rw (here, ==_ne (m string) 32 ne) refl

str_to_ull_run :
    (fuel : ℕ) (m : ℕ → ℕ) (string base n : ℕ)
    → skip_spaces fuel 16 m string 0 ≡ some 0
    → strlen fuel m string ≡ some n
    → base ≢ 0
    → str_to_ull fuel m string base ≡ parse_loop fuel 16 m string n base 0 0
unfolding str_to_ull detect_base
str_to_ull_run fuel m string base n skipped count ne = rw (skipped, count, ==_ne base 0 ne) refl

digit_char-not_space : (d c : ℕ) → c ≡ digit_char d → c ≢ 32
digit_char-not_space d c e f = ground (arith, e, f)

str_to_ull-IsNumeral :
    (m : ℕ → ℕ) (k buffer base n : ℕ)
    → IsNumeral m buffer base k n
    → k < 2 ^ 64
    → 2 ≤ base
    → base ≤ 16
    → 0 < n
    → n ≤ 64
    → str_to_ull number_fuel m buffer base ≡ some k
str_to_ull-IsNumeral m k buffer base n numeral small two most positive short =
    let digit = λ (i : ℕ). shifted base k (n - 1 - i) % base in
    let string =
      read-IsString m buffer n (λ i h e. digit_char-ne (digit i) (sym (numeral.digits i h) ∙ e))
        numeral.end in
    let l = length-read m buffer n in
    let first : m buffer ≡ digit_char (digit 0) = ap m (omega arith) ∙ numeral.digits 0 positive in
    str_to_ull_run number_fuel m buffer base n
      (skip_spaces_none 66 m buffer (digit_char-not_space (digit 0) (m buffer) first))
      (strlen_lem number_fuel m buffer (read m buffer n) string (omega (arith, l)) ∙ ap some l)
      (omega arith)
    ∙ parse_loop_lem n number_fuel m buffer base k n 0 0 numeral small two most (omega arith)
        (omega arith) (sym numeral.whole) (omega arith)

-- For a base from 2 to 16 and a 64-bit number, `ull_to_str` succeeds, and `str_to_ull` in the same
-- base reads the number back from the buffer.
pub str_to_ull-ull_to_str :
    (m : ℕ → ℕ) (k buffer base : ℕ)
    → k < 2 ^ 64
    → 2 ≤ base
    → base ≤ 16
    → (n : ℕ) × (m' : ℕ → ℕ) × (ull_to_str m k buffer base ≡ some (n, m'))
      × (str_to_ull number_fuel m' buffer base ≡ some k)
str_to_ull-ull_to_str m k buffer base small two most =
    let (n, m', run, positive, short, numeral, _) =
      ull_to_str_lem m k buffer base small two (omega arith) in
    (n, m', run, str_to_ull-IsNumeral m' k buffer base n numeral small two most positive short)
