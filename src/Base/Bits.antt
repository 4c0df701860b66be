-- ===== src/Base/Bits.antt =====
-- The binary digits of a machine word, and what `&`, `|` and `~` do to each of them.
use Prim.Native.Nat.{digits, bitwise, bit_and-bitwise, bit_or-bitwise, bit_xor-bitwise, differ}
use native.Mathlib.Nat.{
  pow-suc, one-le-pow, pow-le-pow_right, mod-add-div', mod-lt, mul-add-mod_self_right, mod-eq_of_lt,
}
use hrishikos.Base.{
  ℕ, zero, suc, ◌+◌, ◌-◌, ◌*◌, ◌/◌, ◌%◌, ◌^◌, ◌≤◌, ◌<◌, min, max, bit_and, bit_or, bit_xor, ◌≡◌,
  refl, ap, ◌∙◌, arith, ◌==◌, if◌then◌else◌, ltb, Bool, true, ◌&&◌,
}

-- Digit `k` of `a`.
unfoldable pub bit : ℕ → ℕ → ℕ
bit a zero = a % 2
bit a (suc k) = bit (a / 2) k

pub bit-le_one : (a k : ℕ) → bit a k ≤ 1
unfolding bit
bit-le_one a zero = omega arith
bit-le_one a (suc k) = bit-le_one (a / 2) k

-- The native operations run over the digits with fuel; any fuel from the first argument on serves.
module _ (z : ℕ → ℕ) (f : ℕ → ℕ → ℕ) where
  enough_fuel : (n m a b : ℕ) → a ≤ n → a ≤ m → digits z f n a b ≡ digits z f m a b
  enough_fuel zero zero a b p q = refl
  enough_fuel n m zero b p q = no_digits n m b
    where
      no_digits : (n m b : ℕ) → digits z f n zero b ≡ digits z f m zero b
      no_digits zero zero b = refl
      no_digits zero (suc m) b = refl
      no_digits (suc n) zero b = refl
      no_digits (suc n) (suc m) b = refl
  enough_fuel zero (suc m) (suc a) b p q = absurd (omega arith)
  enough_fuel (suc n) zero (suc a) b p q = absurd (omega arith)
  enough_fuel (suc n) (suc m) (suc a) b p q =
      ap (λ (t : ℕ). t * 2 + f (suc a % 2) (b % 2))
        (enough_fuel n m (suc a / 2) (b / 2) (omega arith) (omega arith))

  one_digit :
      (a b : ℕ)
      → bitwise z f (suc a) b ≡ bitwise z f (suc a / 2) (b / 2) * 2 + f (suc a % 2) (b % 2)
  one_digit a b =
      ap (λ (t : ℕ). t * 2 + f (suc a % 2) (b % 2))
        (enough_fuel a (suc a / 2) (suc a / 2) (b / 2) (omega arith) (omega arith))

pub bit_and_digit : (a b : ℕ) → bit_and a b ≡ bit_and (a / 2) (b / 2) * 2 + min (a % 2) (b % 2)
bit_and_digit zero b = simp bit_and-bitwise (omega arith)
bit_and_digit (suc a) b = simp bit_and-bitwise (one_digit (λ _. 0) min a b)

pub bit_or_digit : (a b : ℕ) → bit_or a b ≡ bit_or (a / 2) (b / 2) * 2 + max (a % 2) (b % 2)
bit_or_digit zero b = simp bit_or-bitwise (omega arith)
bit_or_digit (suc a) b = simp bit_or-bitwise (one_digit (λ y. y) max a b)

pub bit_xor_digit : (a b : ℕ) → bit_xor a b ≡ bit_xor (a / 2) (b / 2) * 2 + differ (a % 2) (b % 2)
bit_xor_digit zero b = simp bit_xor-bitwise (omega arith)
bit_xor_digit (suc a) b = simp bit_xor-bitwise (one_digit (λ y. y) differ a b)

pub bit_xor_odd : (a b : ℕ) → a % 2 ≡ 1 → b % 2 ≡ 0 → bit_xor a b % 2 ≡ 1
bit_xor_odd a b odd even =
    let low : differ (a % 2) (b % 2) ≡ 1 = rw (odd, even) in omega (arith, bit_xor_digit a b, low)

pub bit-bit_and : (a b k : ℕ) → bit (bit_and a b) k ≡ min (bit a k) (bit b k)
unfolding bit
bit-bit_and a b zero = omega (arith, bit_and_digit a b)
bit-bit_and a b (suc k) =
    let half : bit_and a b / 2 ≡ bit_and (a / 2) (b / 2) = omega (arith, bit_and_digit a b) in
    rw half (bit-bit_and (a / 2) (b / 2) k)

pub bit-bit_or : (a b k : ℕ) → bit (bit_or a b) k ≡ max (bit a k) (bit b k)
unfolding bit
bit-bit_or a b zero = omega (arith, bit_or_digit a b)
bit-bit_or a b (suc k) =
    let half : bit_or a b / 2 ≡ bit_or (a / 2) (b / 2) = omega (arith, bit_or_digit a b) in
    rw half (bit-bit_or (a / 2) (b / 2) k)

pub bit-zero : (k : ℕ) → bit 0 k ≡ 0
unfolding bit
bit-zero zero = refl
bit-zero (suc k) = bit-zero k

pub two_pow_pos : (k : ℕ) → 0 < 2 ^ k
two_pow_pos k = one-le-pow k 2 (omega arith)

pub two_pow-lt : (k w : ℕ) → k < w → 2 ^ k < 2 ^ w
two_pow-lt k w h = omega (
  arith,
  pow-suc 2 k,
  two_pow_pos k,
  pow-le-pow_right {n = 2} (omega arith) {i = suc k} {j = w} h,
)

pub bit-pow : (k j : ℕ) → bit (2 ^ k) j ≡ (if k == j then 1 else 0)
unfolding bit
bit-pow zero zero = refl
bit-pow zero (suc j) = ground (arith, bit-zero j)
bit-pow (suc k) zero = ground (arith, pow-suc 2 k)
bit-pow (suc k) (suc j) =
    let half : 2 ^ suc k / 2 ≡ 2 ^ k = omega (arith, pow-suc 2 k) in
    rw half (ground (arith, bit-pow k j))

-- `~m` in a word of `w` bits.
pub bit-complement : (w m j : ℕ) → m < 2 ^ w → j < w → bit (2 ^ w - 1 - m) j ≡ 1 - bit m j
unfolding bit
bit-complement zero m j h l = absurd (omega arith)
bit-complement (suc w) m zero h l = omega (arith, pow-suc 2 w)
bit-complement (suc w) m (suc j) h l =
    let half : (2 ^ suc w - 1 - m) / 2 ≡ 2 ^ w - 1 - m / 2 = omega (arith, pow-suc 2 w) in
    rw half (bit-complement w (m / 2) j (omega (arith, pow-suc 2 w)) (omega arith))

pub bit-ones : (w j : ℕ) → j < w → bit (2 ^ w - 1) j ≡ 1
bit-ones w j l =
    let all : 2 ^ w - 1 - 0 ≡ 2 ^ w - 1 = omega arith in
    omega (arith, rw all at (bit-complement w 0 j (two_pow_pos w) l), bit-zero j)

pub bit-of_lt : (w a j : ℕ) → a < 2 ^ w → w ≤ j → bit a j ≡ 0
unfolding bit
bit-of_lt zero a j h l = let e : a ≡ 0 = omega arith in rw e (bit-zero j)
bit-of_lt (suc w) a zero h l = absurd (omega arith)
bit-of_lt (suc w) a (suc j) h l = bit-of_lt w (a / 2) j (omega (arith, pow-suc 2 w)) (omega arith)

-- Two words with the same digits are equal.
pub bit_ext : (w a b : ℕ) → a < 2 ^ w → b < 2 ^ w → ((j : ℕ) → j < w → bit a j ≡ bit b j) → a ≡ b
unfolding bit
bit_ext zero a b ha hb same = omega arith
bit_ext (suc w) a b ha hb same = omega (
  arith,
  same 0 (omega arith),
  bit_ext w (a / 2) (b / 2) (omega (arith, pow-suc 2 w)) (omega (arith, pow-suc 2 w))
      λ j l. same (suc j) (omega arith),
)

pub bit_and-le : (w a b : ℕ) → a < 2 ^ w → bit_and a b ≤ a
bit_and-le zero a b h = let e : a ≡ 0 = omega arith in rw e (omega (arith, bit_and-bitwise 0 b))
bit_and-le (suc w) a b h =
    omega (arith, bit_and_digit a b, bit_and-le w (a / 2) (b / 2) (omega (arith, pow-suc 2 w)))

pub bit_or-lt : (w a b : ℕ) → a < 2 ^ w → b < 2 ^ w → bit_or a b < 2 ^ w
bit_or-lt zero a b ha hb =
    let e : a ≡ 0 = omega arith in
    let f : b ≡ 0 = omega arith in rw (e, f) (omega (arith, bit_or-bitwise 0 0))
bit_or-lt (suc w) a b ha hb = omega (
  arith,
  pow-suc 2 w,
  bit_or_digit a b,
  bit_or-lt w (a / 2) (b / 2) (omega (arith, pow-suc 2 w)) (omega (arith, pow-suc 2 w)),
)

bit_and-zero_fuel : (n a : ℕ) → a ≤ n → bit_and a 0 ≡ 0
bit_and-zero_fuel n zero h = bit_and-bitwise 0 0
bit_and-zero_fuel zero (suc a) h = absurd (omega arith)
bit_and-zero_fuel (suc n) (suc a) h =
    omega (arith, bit_and_digit (suc a) 0, bit_and-zero_fuel n (suc a / 2) (omega arith))

pub bit_and-zero : (a : ℕ) → bit_and a 0 ≡ 0
bit_and-zero a = bit_and-zero_fuel a a (omega arith)

-- A mask with one digit set selects that digit.
pub bit_and-pow : (a k : ℕ) → bit_and a (2 ^ k) ≡ bit a k * 2 ^ k
unfolding bit
bit_and-pow a zero = omega (arith, bit_and_digit a 1, bit_and-zero (a / 2))
bit_and-pow a (suc k) =
    let half : 2 ^ suc k / 2 ≡ 2 ^ k = omega (arith, pow-suc 2 k) in
    let digit = rw half at (bit_and_digit a (2 ^ suc k)) in
    omega (
      arith,
      pow-suc 2 k,
      digit,
      bit_and-pow (a / 2) k,
      ap (λ (t : ℕ). bit (a / 2) k * t) (pow-suc 2 k),
    )

mod-two_pow_suc : (k a : ℕ) → a % 2 ^ suc k ≡ a / 2 % 2 ^ k * 2 + a % 2
mod-two_pow_suc k a =
    let q = a / 2 / 2 ^ k in
    let r = a / 2 % 2 ^ k * 2 + a % 2 in
    let split : a ≡ q * 2 ^ suc k + r =
      omega (arith, mod-add-div' (a / 2) (2 ^ k), ap (λ (t : ℕ). q * t) (pow-suc 2 k)) in
    let small : r < 2 ^ suc k =
      omega (arith, pow-suc 2 k, mod-lt (a / 2) {m = 2 ^ k} (two_pow_pos k)) in
    ap (λ (t : ℕ). t % 2 ^ suc k) split
    ∙ mul-add-mod_self_right q (2 ^ suc k) r
    ∙ mod-eq_of_lt small

-- A mask of `k` ones keeps the remainder by `2 ^ k`.
pub bit_and-ones : (k a : ℕ) → bit_and a (2 ^ k - 1) ≡ a % 2 ^ k
bit_and-ones zero a = omega (arith, bit_and-zero a)
bit_and-ones (suc k) a =
    let half : (2 ^ suc k - 1) / 2 ≡ 2 ^ k - 1 = omega (arith, pow-suc 2 k, two_pow_pos k) in
    let digit = rw half at (bit_and_digit a (2 ^ suc k - 1)) in
    omega (arith, pow-suc 2 k, two_pow_pos k, digit, bit_and-ones k (a / 2), mod-two_pow_suc k a)

-- Two fields side by side: the digits below `n` are those of `r`, the others those of `q`.
pub bit_fields :
    (n q r j : ℕ) → r < 2 ^ n → bit (q * 2 ^ n + r) j ≡ (if ltb j n then bit r j else bit q (j - n))
unfolding bit
bit_fields zero q r j h =
    let all : q * 2 ^ 0 + r ≡ q = omega arith in
    let same : j - 0 ≡ j = omega arith in rw (all, same) (ground arith)
bit_fields (suc n) q r zero h =
    let even = ap (λ (t : ℕ). q * t) (pow-suc 2 n) in ground (arith, even)
bit_fields (suc n) q r (suc j) h =
    let even = ap (λ (t : ℕ). q * t) (pow-suc 2 n) in
    let half : (q * 2 ^ suc n + r) / 2 ≡ q * 2 ^ n + r / 2 = omega (arith, even) in
    let shift : suc j - suc n ≡ j - n = omega arith in
    rw (half, bit_fields n q (r / 2) j (omega (arith, pow-suc 2 n)), shift) (ground arith)

pub bit-mod : (n a j : ℕ) → j < n → bit (a % 2 ^ n) j ≡ bit a j
bit-mod n a j h =
    rw (← bit_and-ones n a)
      (omega (arith, bit-bit_and a (2 ^ n - 1) j, bit-ones n j h, bit-le_one a j))

pub bit-div : (n a j : ℕ) → n ≤ j → bit (a / 2 ^ n) (j - n) ≡ bit a j
bit-div n a j h =
    let parts : a / 2 ^ n * 2 ^ n + a % 2 ^ n ≡ a = omega (arith, mod-add-div' a (2 ^ n)) in
    let above = bit_fields n (a / 2 ^ n) (a % 2 ^ n) j (mod-lt a (two_pow_pos n)) in
    ground (arith, rw parts at above)

-- A property of the numbers below `n` by evaluation.
unfoldable pub all_below : ℕ → (ℕ → Bool) → Bool
all_below zero holds = true
all_below (suc n) holds = holds n && all_below n holds

pub all_below_sound :
    (n : ℕ) (holds : ℕ → Bool) (x : ℕ) → all_below n holds ≡ true → x < n → holds x ≡ true
unfolding all_below
all_below_sound zero holds x h lt = absurd (omega arith)
all_below_sound (suc n) holds x h lt = ground (arith, all_below_sound n holds x)
