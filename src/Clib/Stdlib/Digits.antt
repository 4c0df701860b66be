-- ===== src/Clib/Stdlib/Digits.antt =====
-- os/lib/stdlib.c: the digits of a number, and the loop of `ull_to_str` that writes them.
use hrishikos.Base.{
  ℕ, zero, suc, ◌+◌, ◌-◌, ◌/◌, ◌%◌, ◌^◌, ◌≤◌, ◌<◌, ◌≡◌, ◌≢◌, arith, ◌∙◌, ◌&&◌, inl, inr, eq-cases,
  ltb, leb, if◌then◌else◌, update, ==_ne,
}
use native.Mathlib.Nat.{mod-add-div', mul-le-mul_left, pow-suc}
use hrishikos.Clib.Stdlib.{digit_char, digits_loop}

-- The number less its last `j` digits.
abbrev pub shifted : (base k j : ℕ) → ℕ
shifted base k zero = k
shifted base k (suc j) = shifted base (k / base) j

-- The number has `n` digits.
abbrev pub HasDigits : (base k n : ℕ) → Type 0
HasDigits base k zero = k ≡ 0
HasDigits base k (suc n) = (k ≢ 0) × HasDigits base (k / base) n

half_lt : (w k base : ℕ) → 2 ≤ base → k < 2 ^ suc w → k / base < 2 ^ w
half_lt w k base two h =
    omega
      (arith, mod-add-div' k base, mul-le-mul_left {m = 2} {n = base} (k / base) two, pow-suc 2 w)

pub digit_count : (w k base : ℕ) → 2 ≤ base → k < 2 ^ w → (n : ℕ) × (n ≤ w) × HasDigits base k n
digit_count zero k base two h = (0, omega arith, omega arith)
digit_count (suc w) k base two h = elim (eq-cases k 0) [
  | inl none_left ↦ (0, omega arith, none_left)
  | inr some_left ↦
      let (n, le, has) = digit_count w (k / base) base two (half_lt w k base two h) in
      (suc n, omega arith, (some_left, has))
]

shift_step :
    (base k p a : ℕ) → p < a → shifted base k (a - p) ≡ shifted base (k / base) (a - (p + 1))
shift_step base k p a below = let next : a - p ≡ suc (a - (p + 1)) = omega arith in rw next

pub digits_loop_lem :
    (n fuel : ℕ) (m : ℕ → ℕ) (buffer k base i : ℕ)
    → HasDigits base k n
    → n < fuel
    → i + n < 2 ^ 16
    → ((digits_loop fuel m buffer k base i).1 ≡ i + n)
      × ((a : ℕ)
          → (digits_loop fuel m buffer k base i).0 a ≡ (
              if leb (buffer + i) a && ltb a (buffer + i + n)
              then digit_char (shifted base k (a - (buffer + i)) % base)
              else m a))
unfolding digits_loop
digits_loop_lem n zero m buffer k base i has enough short = absurd (omega arith)
digits_loop_lem zero (suc fuel) m buffer k base i has enough short =
    rw has (omega arith, λ a. ground arith)
digits_loop_lem (suc n) (suc fuel) m buffer k base i (ne, has) enough short =
    let next : (i + 1) % 2 ^ 16 ≡ i + 1 = omega arith in
    let written = update m (buffer + i) (digit_char (k % base)) in
    let (count, bytes) =
      digits_loop_lem n fuel written buffer (k / base) base (i + 1) has (omega arith)
        (omega arith) in
    rw (==_ne k 0 ne, next) (omega (arith, count), λ a. byte a (bytes a))
  where
    byte :
        {b : ℕ} (a : ℕ)
        → b ≡ (
            if leb (buffer + (i + 1)) a && ltb a (buffer + (i + 1) + n)
            then digit_char (shifted base (k / base) (a - (buffer + (i + 1))) % base)
            else update m (buffer + i) (digit_char (k % base)) a)
        → b ≡ (
            if leb (buffer + i) a && ltb a (buffer + i + suc n)
            then digit_char (shifted base k (a - (buffer + i)) % base)
            else m a)
    byte a e = elim (eq-cases (buffer + i) a) [
      | inl here ↦
          let none_off : a - (buffer + i) ≡ 0 = omega arith in
          rw none_off (e ∙ ground (arith, here))
      | inr off ↦ e ∙ ground (arith, off, shift_step base k (buffer + i) a)
    ]
