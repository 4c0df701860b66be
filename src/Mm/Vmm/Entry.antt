-- ===== src/Mm/Vmm/Entry.antt =====
-- os/mm/vmm.c: the accessors of a page-table entry.
use hrishikos.Base.{
  ℕ, ◌-◌, ◌%◌, ◌^◌, ◌<◌, max, ◌≡◌, refl, arith, ◌==◌, ltb, leb, if◌then◌else◌, bit_and, bit_or,
  true, ◌&&◌, ==_iff, ap,
}
use hrishikos.Base.Bits.{
  bit, bit-bit_and, bit-bit_or, bit-complement, bit-le_one, bit_ext, bit_and-le, bit_or-lt,
  bit_and-pow, bit-pow, bit-of_lt, bit-mod, bit-zero, all_below, all_below_sound,
}
use hrishikos.Mm.Vmm.{
  pte_frame, pte_present, pte_read_write, pte_get_frame, pte_set_frame, pte_is_present,
  entry_add_flag, entry_clear_flag,
}

frame_digits_table :
    all_below 64 (λ j. bit pte_frame j == (if leb 12 j && ltb j 52 then 1 else 0)) ≡ true
unfolding all_below bit
frame_digits_table = refl

-- The frame is the digits from 12 to 51.
pub frame_digits : (j : ℕ) → j < 64 → bit pte_frame j ≡ (if leb 12 j && ltb j 52 then 1 else 0)
frame_digits j h = (==_iff _ _).0 (all_below_sound 64 _ j frame_digits_table h)

pub bit-set_frame :
    (e a j : ℕ)
    → j < 64
    → bit (pte_set_frame e a) j ≡ (if leb 12 j && ltb j 52 then bit a j else bit e j)
unfolding pte_set_frame
bit-set_frame e a j h = ground (
  arith,
  bit-bit_or (bit_and e (2 ^ 64 - 1 - pte_frame)) (bit_and a pte_frame) j,
  bit-bit_and e (2 ^ 64 - 1 - pte_frame) j,
  bit-bit_and a pte_frame j,
  bit-complement 64 pte_frame j,
  frame_digits j h,
  bit-le_one a j,
  bit-le_one e j,
)

pub set_frame-lt : (e a : ℕ) → e < 2 ^ 64 → a < 2 ^ 64 → pte_set_frame e a < 2 ^ 64
unfolding pte_set_frame
set_frame-lt e a he ha =
    bit_or-lt 64 (bit_and e (2 ^ 64 - 1 - pte_frame)) (bit_and a pte_frame)
      (omega (arith, bit_and-le 64 e (2 ^ 64 - 1 - pte_frame) he))
      (omega (arith, bit_and-le 64 a pte_frame ha))

pub bit-get_frame :
    (e j : ℕ) → j < 64 → bit (pte_get_frame e) j ≡ (if leb 12 j && ltb j 52 then bit e j else 0)
unfolding pte_get_frame
bit-get_frame e j h = ground (arith, bit-bit_and e pte_frame j, frame_digits j h, bit-le_one e j)

pub get_frame-lt : (e : ℕ) → e < 2 ^ 64 → pte_get_frame e < 2 ^ 64
unfolding pte_get_frame
get_frame-lt e h = omega (arith, bit_and-le 64 e pte_frame h)

-- An address of a page below 2 ^ 52 is its own frame.
pub get_frame_aligned : (a : ℕ) → a < 2 ^ 52 → a % 4096 ≡ 0 → pte_get_frame a ≡ a
get_frame_aligned a small aligned =
    bit_ext 64 (pte_get_frame a) a (get_frame-lt a (omega arith)) (omega arith)
      λ j h. ground (arith, bit-get_frame a j h, low j, bit-of_lt 52 a j small)
  where
    low : (j : ℕ) → j < 12 → bit a j ≡ 0
    low j h = omega (arith, bit-mod 12 a j h, ap (λ (t : ℕ). bit t j) aligned, bit-zero j)

-- Writing a frame into an entry of 64 bits and reading it gives the frame's bits of the address;
-- and every bit of the entry outside the frame, where the flags are, stays as it was.
pub get_frame-set_frame :
    (e a j : ℕ)
    → e < 2 ^ 64
    → a < 2 ^ 64
    → j < 64
    → (pte_get_frame (pte_set_frame e a) ≡ pte_get_frame a)
      × (bit (pte_set_frame e a) j ≡ (if leb 12 j && ltb j 52 then bit a j else bit e j))
get_frame-set_frame e a j he ha h = (
  bit_ext 64 (pte_get_frame (pte_set_frame e a)) (pte_get_frame a)
      (get_frame-lt (pte_set_frame e a) (set_frame-lt e a he ha)) (get_frame-lt a ha)
      λ k l.
        ground (
          arith,
          bit-get_frame (pte_set_frame e a) k l,
          bit-get_frame a k l,
          bit-set_frame e a k l,
        ),
  bit-set_frame e a j h,
)

-- Present means that the lowest digit is set.
pub is_present_iff : (e : ℕ) → pte_is_present e ≡ (bit e 0 == 1)
unfolding pte_is_present
is_present_iff e = ground (arith, bit_and-pow e 0, bit-le_one e 0)

pub bit-add_flag : (e f j : ℕ) → bit (entry_add_flag e f) j ≡ max (bit e j) (bit f j)
unfolding entry_add_flag
bit-add_flag e f j = bit-bit_or e f j

-- The entry that a new mapping gets: its frame is that of the address, and it is present.
pub new_entry :
    (e a : ℕ)
    → e < 2 ^ 64
    → a < 2 ^ 64
    → let e' = entry_add_flag (entry_add_flag (pte_set_frame e a) pte_present) pte_read_write in
      (pte_get_frame e' ≡ pte_get_frame a) × (pte_is_present e' ≡ true) × (e' < 2 ^ 64)
new_entry e a he ha = (
  bit_ext 64 (pte_get_frame whole) (pte_get_frame a) (get_frame-lt whole fits) (get_frame-lt a ha)
      λ j h. ground (
        arith,
        bit-get_frame whole j h,
        bit-get_frame a j h,
        digit j h,
        bit-set_frame e a j h,
        bit-le_one a j,
      ),
  rw (is_present_iff whole) (ground (arith, digit 0, bit-le_one whole 0)),
  fits,
)
  where
    framed : ℕ
    framed = pte_set_frame e a

    whole : ℕ
    whole = entry_add_flag (entry_add_flag framed pte_present) pte_read_write

    digit :
        (j : ℕ)
        → j < 64
        → bit whole j ≡ max (max (bit framed j) (if 0 == j then 1 else 0)) (if 1 == j then 1 else 0)
    digit j h = omega (
      arith,
      bit-add_flag (entry_add_flag framed pte_present) pte_read_write j,
      bit-add_flag framed pte_present j,
      bit-pow 0 j,
      bit-pow 1 j,
    )

    fits : whole < 2 ^ 64
    fits =
        unfold entry_add_flag in
        bit_or-lt 64 (bit_or framed pte_present) pte_read_write
          (bit_or-lt 64 framed pte_present (set_frame-lt e a he ha) (omega arith)) (omega arith)

-- Adding a flag sets its bits and no other; clearing it then gives back every bit outside it.
pub add_flag-clear_flag :
    (e f j : ℕ)
    → e < 2 ^ 64
    → f < 2 ^ 64
    → j < 64
    → (bit (entry_add_flag e f) j ≡ max (bit e j) (bit f j))
      × (bit (entry_clear_flag (entry_add_flag e f) f) j ≡ (if bit f j == 1 then 0 else bit e j))
unfolding entry_clear_flag
add_flag-clear_flag e f j he hf h = (
  bit-add_flag e f j,
  ground (
    arith,
    bit-bit_and (entry_add_flag e f) (2 ^ 64 - 1 - f) j,
    bit-add_flag e f j,
    bit-complement 64 f j hf h,
    bit-le_one e j,
    bit-le_one f j,
  ),
)
