-- ===== src/Clib/Stdlib/Print.antt =====
-- os/lib/stdlib.c: what `ull_to_str` writes.
use hrishikos.Base.{
  ℕ, zero, suc, ◌+◌, ◌-◌, ◌/◌, ◌%◌, ◌^◌, ◌≤◌, ◌<◌, ◌≡◌, ◌≢◌, ◌⊎◌, refl, arith, sym, ◌∙◌, false,
  ◌&&◌, ◌||◌, inl, inr, some, eq-cases, ltb, leb, if◌then◌else◌, update, subst, ==_ne,
}
use native.Mathlib.Nat.{zero-div}
use hrishikos.Clib.Strings.{strrev}
use hrishikos.Clib.Strings.Compare.{read, read-IsString, length-read}
use hrishikos.Clib.Strings.Reverse.{strrev_lem}
use hrishikos.Clib.Stdlib.{digit_char, digits_loop, ull_to_str, number_fuel}
use hrishikos.Clib.Stdlib.Digits.{shifted, HasDigits, digit_count, digits_loop_lem}

-- `n` characters at `buffer` are the digits of `k`, the first one the highest; a zero ends them.
pub record IsNumeral (m : ℕ → ℕ) (buffer base k n : ℕ) : Type 0 where
  pub digits : (i : ℕ) → i < n → m (buffer + i) ≡ digit_char (shifted base k (n - 1 - i) % base)
  pub end : m (buffer + n) ≡ 0
  pub whole : shifted base k n ≡ 0

HasDigits-shifted : (base k n : ℕ) → HasDigits base k n → shifted base k n ≡ 0
HasDigits-shifted base k zero has = has
HasDigits-shifted base k (suc n) (_, has) = HasDigits-shifted base (k / base) n has

base_refused : (base : ℕ) → 2 ≤ base → base ≤ 36 → (ltb base 2 || ltb 36 base) ≡ false
base_refused base two most = ground arith

ull_to_str_zero :
    (m : ℕ → ℕ) (buffer base : ℕ)
    → 2 ≤ base
    → base ≤ 36
    → ull_to_str m 0 buffer base ≡ some (1, update (update m buffer 48) (buffer + 1) 0)
unfolding ull_to_str
ull_to_str_zero m buffer base two most = rw (base_refused base two most)

ull_to_str_run :
    (m m' : ℕ → ℕ) (k buffer base n : ℕ)
    → 2 ≤ base
    → base ≤ 36
    → k ≢ 0
    → (digits_loop 65 m buffer k base 0).1 ≡ n
    → strrev number_fuel (update (digits_loop 65 m buffer k base 0).0 (buffer + n) 0) buffer
      ≡ some m'
    → ull_to_str m k buffer base ≡ some (n, m')
unfolding ull_to_str
ull_to_str_run m m' k buffer base n two most ne count reversed =
    rw (base_refused base two most, ==_ne k 0 ne, count, reversed)

pub digit_char-ne : (d : ℕ) → digit_char d ≢ 0
digit_char-ne d e = ground (arith, e)

-- The bytes after the loop and after `strrev`.
IsNumeral-bytes :
    (base k n buffer : ℕ) (m d m' : ℕ → ℕ)
    → HasDigits base k n
    → 0 < n
    → ((a : ℕ)
        → d a ≡ (
            if leb (buffer + 0) a && ltb a (buffer + 0 + n)
            then digit_char (shifted base k (a - (buffer + 0)) % base)
            else m a))
    → ((a : ℕ)
        → m' a ≡ (
            if leb buffer a && ltb a (buffer + n)
            then update d (buffer + n) 0 (buffer + (buffer + n - 1) - a)
            else update d (buffer + n) 0 a))
    → IsNumeral m' buffer base k n × ((a : ℕ) → (a < buffer) ⊎ (buffer + n < a) → m' a ≡ m a)
IsNumeral-bytes base k n buffer m d m' has some_digits loop reversed = (
  record {
    digits = λ i h.
        let mirrored : buffer + (buffer + n - 1) - (buffer + i) - (buffer + 0) ≡ n - 1 - i =
          omega arith in
        let at_end = loop (buffer + (buffer + n - 1) - (buffer + i)) in
        reversed (buffer + i) ∙ ground (arith, h) ∙ at_end ∙ rw mirrored (ground (arith, h));
    end = reversed (buffer + n) ∙ ground arith;
    whole = HasDigits-shifted base k n has;
  },
  λ a outside. reversed a ∙ ground (arith, outside, loop a),
)

ull_to_str-some :
    (m : ℕ → ℕ) (k buffer base : ℕ)
    → k < 2 ^ 64
    → 2 ≤ base
    → base ≤ 36
    → k ≢ 0
    → (n : ℕ) × (m' : ℕ → ℕ) × (ull_to_str m k buffer base ≡ some (n, m'))
      × (0 < n)
      × (n ≤ 64)
      × IsNumeral m' buffer base k n
      × ((a : ℕ) → (a < buffer) ⊎ (buffer + n < a) → m' a ≡ m a)
ull_to_str-some m k buffer base small two most ne =
    let (n, le, has) = digit_count 64 k base two small in
    let positive : 0 < n = some_digits n has in
    let (count, loop) = digits_loop_lem n 65 m buffer k base 0 has (omega arith) (omega arith) in
    let d = (digits_loop 65 m buffer k base 0).0 in
    let t = update d (buffer + n) 0 in
    let string =
      read-IsString t buffer n
        (λ i h e. digit_char-ne (shifted base k i % base) (written n d loop i h e))
        (ground arith) in
    let l = length-read t buffer n in
    let (m', run, bytes) =
      strrev_lem number_fuel t buffer (read t buffer n) string (omega (arith, l)) (omega (arith, l))
        (omega (arith, l)) in
    let (numeral, frame) = IsNumeral-bytes base k n buffer m d m' has positive loop (λ a.
      subst
        (λ z.
          m' a
          ≡ (if leb buffer a && ltb a (buffer + z) then t (buffer + (buffer + z - 1) - a) else t a))
        l (bytes a)) in
    (
      n,
      m',
      ull_to_str_run m m' k buffer base n two most ne (omega (arith, count)) run,
      positive,
      le,
      numeral,
      frame,
    )
  where
    some_digits : (n : ℕ) → HasDigits base k n → 0 < n
    some_digits zero has = absurd (ne has)
    some_digits (suc n) has = omega arith

    written :
        (n : ℕ) (d : ℕ → ℕ)
        → ((a : ℕ)
            → d a ≡ (
                if leb (buffer + 0) a && ltb a (buffer + 0 + n)
                then digit_char (shifted base k (a - (buffer + 0)) % base)
                else m a))
        → (i : ℕ) → i < n
        → update d (buffer + n) 0 (buffer + i) ≡ 0
        → digit_char (shifted base k i % base) ≡ 0
    written n d loop i h e =
        let here : buffer + i - (buffer + 0) ≡ i = omega arith in
        sym (rw here at (loop (buffer + i)) ∙ ground (arith, h)) ∙ sym (ground (arith, h)) ∙ e

zero_digit : (base i : ℕ) → 2 ≤ base → digit_char (shifted base 0 (1 - 1 - i) % base) ≡ 48
zero_digit base i two =
    let none_left : 1 - 1 - i ≡ 0 = omega arith in
    let nothing : 0 % base ≡ 0 = omega arith in rw (none_left, nothing) refl

-- For a base from 2 to 36, `ull_to_str` of any 64-bit number ends: it writes between 1 and 64 digits
-- of the number, the highest one first, and a zero behind them, returns their count, and changes no
-- other byte.
pub ull_to_str_lem :
    (m : ℕ → ℕ) (k buffer base : ℕ)
    → k < 2 ^ 64
    → 2 ≤ base
    → base ≤ 36
    → (n : ℕ) × (m' : ℕ → ℕ) × (ull_to_str m k buffer base ≡ some (n, m'))
      × (0 < n)
      × (n ≤ 64)
      × IsNumeral m' buffer base k n
      × ((a : ℕ) → (a < buffer) ⊎ (buffer + n < a) → m' a ≡ m a)
ull_to_str_lem m k buffer base small two most = elim (eq-cases k 0) [
  | inl nothing ↦ (
    1,
    update (update m buffer 48) (buffer + 1) 0,
    rw nothing (ull_to_str_zero m buffer base two most),
    omega arith,
    omega arith,
    record {
      digits = λ i h. rw nothing (ground (arith, h, zero_digit base i two));
      end = ground arith;
      whole = rw nothing (zero-div base);
    },
    λ a outside. ground (arith, outside),
  )
  | inr ne ↦ ull_to_str-some m k buffer base small two most ne
]
