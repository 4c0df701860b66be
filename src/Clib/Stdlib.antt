-- ===== src/Clib/Stdlib.antt =====
-- os/lib/stdlib.c: numbers as text, in memory as in Clib/Strings.antt, and the heap under the names
-- of C. A signed number is its 64-bit word. `none` is a string that does not end within the fuel, a
-- loop whose 16-bit index never comes to the end, or the sign of -2 ^ 63; the sums of `str_to_ll`
-- wrap.
pub mod Digits
pub mod Print
pub mod Parse
mod Tests
use hrishikos.Base.{
  ◌>>=◌, ℕ, zero, suc, ◌+◌, ◌-◌, ◌*◌, ◌/◌, ◌%◌, ◌^◌, Bool, true, false, ◌&&◌, ◌||◌, Option, none,
  some, ◌==◌, ltb, leb, if◌then◌else◌, u64, update,
}
use hrishikos.Clib.Strings.{strlen, strrev}
use hrishikos.Mm.Heap
use hrishikos.Mm.Heap.{Heap}

-- A number has at most 64 digits, in base 2; a sign and the end come to them.
abbrev pub number_fuel : ℕ
number_fuel = 67

-- `base_lookup[digit]`
abbrev pub digit_char : ℕ → ℕ
digit_char digit = if ltb digit 10 then 48 + digit else 55 + digit

-- The loop `while (number != 0)`; `i` is an `unsigned short`.
pub digits_loop : (fuel : ℕ) → (ℕ → ℕ) → (buffer number base i : ℕ) → (ℕ → ℕ) × ℕ
digits_loop zero m buffer number base i = (m, i)
digits_loop (suc fuel) m buffer number base i =
    let written = update m (buffer + i) (digit_char (number % base)) in
    let rest = digits_loop fuel written buffer (number / base) base ((i + 1) % 2 ^ 16) in
    if number == 0 then (m, i) else rest

-- The result, -1 for a base that is refused, with memory.
pub ull_to_str : (ℕ → ℕ) → (number buffer base : ℕ) → Option (ℕ × (ℕ → ℕ))
ull_to_str m number buffer base =
    if ltb base 2 || ltb 36 base
    then some (2 ^ 64 - 1, m)
    else if number == 0
    then some (1, update (update m buffer 48) (buffer + 1) 0)
    else let (digits, i) = digits_loop 65 m buffer number base 0 in
      do reversed ← strrev number_fuel (update digits (buffer + i) 0) buffer; some (i, reversed)

pub ll_to_str : (ℕ → ℕ) → (number buffer base : ℕ) → Option (ℕ × (ℕ → ℕ))
ll_to_str m number buffer base =
    if ltb base 2 || ltb 36 base
    then some (2 ^ 64 - 1, m)
    else if number == 0
    then some (1, update (update m buffer 48) (buffer + 1) 0)
    else if number == 2 ^ 63
    then none
    else let negative = leb (2 ^ 63) number in
      let (digits, i) =
        digits_loop 65 m buffer (if negative then 2 ^ 64 - number else number) base 0 in
      let signed = if negative then update digits (buffer + i) 45 else digits in
      let end = if negative then i + 1 else i in
      do reversed ← strrev number_fuel (update signed (buffer + end) 0) buffer; some (end, reversed)

-- The index of a parser is an `unsigned short` in `str_to_ull` and a `size_t` in `str_to_ll`: it
-- wraps at `2 ^ width`.
pub skip_spaces : (fuel width : ℕ) → (ℕ → ℕ) → (string i : ℕ) → Option ℕ
skip_spaces zero width m string i = none
skip_spaces (suc fuel) width m string i =
    let rest = skip_spaces fuel width m string ((i + 1) % 2 ^ width) in
    if m (string + i) == 32 then rest else some i

-- The base and the index behind its prefix, for the base 0.
pub detect_base : (ℕ → ℕ) → (string base i : ℕ) → ℕ × ℕ
detect_base m string base i =
    if base == 0
    then (if m (string + i) == 48
        then (if m (string + (i + 1)) == 120 || m (string + (i + 1)) == 88
            then (16, i + 2)
            else (8, i + 1))
        else (10, i))
    else (base, i)

pub digit_value : ℕ → Option ℕ
digit_value character =
    if leb 48 character && leb character 57
    then some (character - 48)
    else if leb 65 character && leb character 70
    then some (character - 65 + 10)
    else if leb 97 character && leb character 102
    then some (character - 97 + 10)
    else none

-- A digit below the base goes on.
abbrev pub accepted : (base : ℕ) → Option ℕ → Bool
accepted base none = false
accepted base (some d) = ltb d base

abbrev pub appended : (number base : ℕ) → Option ℕ → ℕ
appended number base none = number
appended number base (some d) = u64 (number * base + d)

-- The `for` loop, `length` being `strlen(string)`.
pub parse_loop : (fuel width : ℕ) → (ℕ → ℕ) → (string length base i number : ℕ) → Option ℕ
parse_loop zero width m string length base i number = none
parse_loop (suc fuel) width m string length base i number =
    let digit = digit_value (m (string + i)) in
    let rest =
      parse_loop fuel width m string length base ((i + 1) % 2 ^ width)
        (appended number base digit) in
    if ltb i length && accepted base digit then rest else some number

pub str_to_ull : (fuel : ℕ) → (ℕ → ℕ) → (string base : ℕ) → Option ℕ
str_to_ull fuel m string base = do
  start ← skip_spaces fuel 16 m string 0
  length ← strlen fuel m string
  let (base', i) = detect_base m string base start
  parse_loop fuel 16 m string length base' (i % 2 ^ 16) 0

pub str_to_ll : (fuel : ℕ) → (ℕ → ℕ) → (string base : ℕ) → Option ℕ
str_to_ll fuel m string base = do
  start ← skip_spaces fuel 64 m string 0
  length ← strlen fuel m string
  let is_negative = m (string + start) == 45
  let (base', i) = detect_base m string base (if is_negative then start + 1 else start)
  number ← parse_loop fuel 64 m string length base' i 0
  some (if is_negative then u64 (2 ^ 64 - number) else number)

pub malloc : Heap → (size : ℕ) → Option (ℕ × Heap)
malloc h size = Heap.alloc h size

pub realloc : Heap → (ptr size : ℕ) → Option (ℕ × Heap)
realloc h ptr size = do freed ← Heap.free h ptr; Heap.alloc freed size
