-- ===== src/Clib/Strings.antt =====
-- os/lib/string.c and os/lib/ctype.c. Memory is a function from the address to the byte that stands
-- there, and addresses do not wrap. A walk along a string has fuel; `none` is a string that does not
-- end within it.
pub mod Copy
pub mod Compare
pub mod Reverse
mod Tests
use hrishikos.Base.{
  ◌>>=◌, ℕ, zero, suc, ◌+◌, ◌-◌, ◌%◌, ◌^◌, Bool, true, false, ◌&&◌, ◌||◌, Option, none, some, ◌==◌,
  ltb, leb, if◌then◌else◌, u8, update,
}

-- The loop of `memcpy`, and the first one of `memmove`, at index `i` with `left` rounds to go.
pub copy_up : (ℕ → ℕ) → (destination source left i : ℕ) → ℕ → ℕ
copy_up m d s zero i = m
copy_up m d s (suc left) i = copy_up (update m (d + i) (m (s + i))) d s left (i + 1)

-- The second loop of `memmove`, with the counter as it counts down.
pub copy_down : (ℕ → ℕ) → (destination source i : ℕ) → ℕ → ℕ
copy_down m d s zero = m
copy_down m d s (suc i) = copy_down (update m (d + i) (m (s + i))) d s i

pub memcpy : (ℕ → ℕ) → (destination source count : ℕ) → ℕ → ℕ
memcpy m d s count = copy_up m d s count 0

pub memmove : (ℕ → ℕ) → (destination source count : ℕ) → ℕ → ℕ
memmove m d s count =
    if ltb d s then copy_up m d s count 0 else if ltb s d then copy_down m d s count else m

pub memset : (ℕ → ℕ) → (pointer value count : ℕ) → ℕ → ℕ
memset m p value zero = m
memset m p value (suc count) = memset (update m p (u8 value)) (p + 1) value count

pub strlen_loop : (fuel : ℕ) → (ℕ → ℕ) → (string length : ℕ) → Option ℕ
strlen_loop zero m p n = none
strlen_loop (suc fuel) m p n =
    let rest = strlen_loop fuel m p (n + 1) in if m (p + n) == 0 then some n else rest

pub strlen : (fuel : ℕ) → (ℕ → ℕ) → (string : ℕ) → Option ℕ
strlen fuel m p = strlen_loop fuel m p 0

pub strcpy : (fuel : ℕ) → (ℕ → ℕ) → (destination source : ℕ) → Option (ℕ → ℕ)
strcpy fuel m d s = do n ← strlen fuel m s; some (memcpy m d s (n + 1))

-- `strncmp`, and the loop of `strcmp`, from index `i` on: 1 for equal bytes.
pub compare : (ℕ → ℕ) → (string_1 string_2 left i : ℕ) → ℕ
compare m a b zero i = 1
compare m a b (suc left) i =
    let rest = compare m a b left (i + 1) in if m (a + i) == m (b + i) then rest else 0

pub strncmp : (ℕ → ℕ) → (string_1 string_2 count : ℕ) → ℕ
strncmp m a b count = compare m a b count 0

pub strcmp : (fuel : ℕ) → (ℕ → ℕ) → (string_1 string_2 : ℕ) → Option ℕ
strcmp fuel m a b = do
  n ← strlen fuel m a
  k ← strlen fuel m b
  some (if n == k then compare m a b n 0 else 0)

-- The loop of `strrev`; the two indices are `unsigned short`s.
pub strrev_loop : (fuel : ℕ) → (ℕ → ℕ) → (string start end : ℕ) → ℕ → ℕ
strrev_loop zero m p start end = m
strrev_loop (suc fuel) m p start end =
    let swapped = update (update m (p + start) (m (p + end))) (p + end) (m (p + start)) in
    let rest = strrev_loop fuel swapped p ((start + 1) % 2 ^ 16) ((end + 2 ^ 16 - 1) % 2 ^ 16) in
    if ltb start end then rest else m

pub strrev : (fuel : ℕ) → (ℕ → ℕ) → (string : ℕ) → Option (ℕ → ℕ)
strrev fuel m p = do
  n ← strlen fuel m p
  some (strrev_loop (2 ^ 15) m p 0 ((n + 2 ^ 16 - 1) % 2 ^ 16))

pub is_digit : ℕ → Bool
is_digit character = leb b'0' character && leb character b'9'

-- Space, tab, newline, vertical tab, form feed and carriage return.
pub is_whitespace : ℕ → Bool
is_whitespace character =
    (character == 0x20)
    || (character == 9)
    || (character == 10)
    || (character == 11)
    || (character == 12)
    || (character == 13)

-- A byte is compared as a `char`, which has a sign; the bounds are ASCII, so no byte from 0x80 on
-- lies between them.
pub to_uppercase : (ℕ → ℕ) → (string count : ℕ) → ℕ → ℕ
to_uppercase m p zero = m
to_uppercase m p (suc count) =
    let c = m p in
    to_uppercase (update m p (if ltb c b'z' && ltb b'a' c then u8 (c + 32) else c)) (p + 1) count

pub to_lowercase : (ℕ → ℕ) → (string count : ℕ) → ℕ → ℕ
to_lowercase m p zero = m
to_lowercase m p (suc count) =
    let c = m p in
    to_lowercase (update m p (if ltb c b'Z' && ltb b'A' c then u8 (c + 256 - 32) else c)) (p + 1)
      count
