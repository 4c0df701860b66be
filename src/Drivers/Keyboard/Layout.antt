-- ===== src/Drivers/Keyboard/Layout.antt =====
-- os/drivers/keyboard.c: the keys of the keyboard by their rows, and what a scan code asks for,
-- written without the program's tables and switches.
use hrishikos.Base.{
  ℕ, zero, suc, ◌+◌, ◌-◌, bit_xor, Bool, true, false, not, ◌&&◌, ◌||◌, List, [], ◌∷◌, ◌==◌, leb,
  if◌then◌else◌,
}
use hrishikos.Drivers.Keyboard.{Keyboard}
use hrishikos.Drivers.Keyboard.Buffer.{enqueue}

-- A row holds the characters of keys with consecutive scan codes; no code for a key outside it.
abbrev nth : List ℕ → ℕ → List ℕ
nth [] i = []
nth (c ∷ cs) zero = c ∷ []
nth (c ∷ cs) (suc i) = nth cs i

abbrev in_row : (row : List ℕ) (first key : ℕ) → List ℕ → List ℕ
in_row row first key others =
    if leb first key
    then elim (nth row (key - first)) [ [] ↦ others | (c ∷ _) ↦ c ∷ [] ]
    else others

abbrev plain_rows : (key : ℕ) → List ℕ
plain_rows key =
    in_row (b'z' ∷ b'x' ∷ b'c' ∷ b'v' ∷ b'b' ∷ b'n' ∷ b'm' ∷ b',' ∷ b'.' ∷ b'/' ∷ []) 0x2c key (
      in_row
        (b'a' ∷ b's' ∷ b'd' ∷ b'f' ∷ b'g' ∷ b'h' ∷ b'j' ∷ b'k' ∷ b'l' ∷ b';' ∷ 0x27 ∷ b'`' ∷ [])
        0x1e key
        (in_row
          (b'q' ∷ b'w' ∷ b'e' ∷ b'r' ∷ b't' ∷ b'y' ∷ b'u' ∷ b'i' ∷ b'o' ∷ b'p' ∷ b'[' ∷ b']' ∷ [])
          0x10 key
          (in_row
            (b'1' ∷ b'2' ∷ b'3' ∷ b'4' ∷ b'5' ∷ b'6' ∷ b'7' ∷ b'8' ∷ b'9' ∷ b'0' ∷ b'-' ∷ b'=' ∷ [])
            0x02 key [])))

abbrev raised_rows : (key : ℕ) → List ℕ
raised_rows key =
    in_row (b'Z' ∷ b'X' ∷ b'C' ∷ b'V' ∷ b'B' ∷ b'N' ∷ b'M' ∷ b'<' ∷ b'>' ∷ b'?' ∷ []) 0x2c key (
      in_row
        (b'A' ∷ b'S' ∷ b'D' ∷ b'F' ∷ b'G' ∷ b'H' ∷ b'J' ∷ b'K' ∷ b'L' ∷ b':' ∷ 0x22 ∷ b'~' ∷ [])
        0x1e key
        (in_row
          (b'Q' ∷ b'W' ∷ b'E' ∷ b'R' ∷ b'T' ∷ b'Y' ∷ b'U' ∷ b'I' ∷ b'O' ∷ b'P' ∷ b'{' ∷ b'}' ∷ [])
          0x10 key
          (in_row
            (b'!' ∷ b'@' ∷ b'#' ∷ b'$' ∷ b'%' ∷ b'^' ∷ b'&' ∷ b'*' ∷ b'(' ∷ b')' ∷ b'_' ∷ b'+' ∷ [])
            0x02 key [])))

-- Enter, backspace, tab, space and the backslash, which stand beside the rows.
abbrev typed_character : (raised : Bool) (key : ℕ) → List ℕ
typed_character raised key =
    if key == 0x1c
    then 10 ∷ []
    else if key == 0x0e
    then 8 ∷ []
    else if key == 0x0f
    then 9 ∷ []
    else if key == 0x39
    then 32 ∷ []
    else if key == 0x2b
    then (if raised then b'|' else 0x5c) ∷ []
    else if raised
    then raised_rows key
    else plain_rows key

-- Up, down, left, right, control and alt, each with the code for it going down and coming up.
abbrev held_keys : List (ℕ × ℕ × ℕ)
held_keys =
    (0x48, 0x1001, 0x1005)
    ∷ (0x50, 0x1002, 0x1006)
    ∷ (0x4b, 0x1003, 0x1007)
    ∷ (0x4d, 0x1004, 0x1008)
    ∷ (0x1d, 0x1009, 0x100b)
    ∷ (0x38, 0x100a, 0x100c)
    ∷ []

abbrev held_code : (down : Bool) (key : ℕ) → List (ℕ × ℕ × ℕ) → List ℕ
held_code down key [] = []
held_code down key ((k, set, unset) ∷ keys) =
    if key == k then (if down then set else unset) ∷ [] else held_code down key keys

-- The codes, one at most, that a scan code puts into the queue, with the prefix 0xe0 before it or not
-- and with shift and caps lock different or not.
unfoldable pub codes_of : (prefixed raised : Bool) (scancode : ℕ) → List ℕ
codes_of prefixed raised s =
    if s == 0xe0
    then []
    else if leb 128 s
    then held_code false (s - 128) held_keys
    else if prefixed
    then held_code true s held_keys
    else typed_character raised s

-- What happens to a flag: 0 and 1 are its new value.
abbrev pub toggle : ℕ
toggle = 2

abbrev pub keep : ℕ
keep = 3

abbrev pub change : (what old : ℕ) → ℕ
change what old = if what == keep then old else if what == toggle then bit_xor old 1 else what

abbrev pub changes : (what old : List ℕ) → List ℕ
changes (w ∷ ws) (f ∷ fs) = change w f ∷ changes ws fs
changes [] fs = []
changes ws [] = []

-- The flag of a key that only counts behind the prefix, or without it.
abbrev held_change : (counts : Bool) (key scancode : ℕ) → ℕ
held_change counts key s = if s == key + 128 then 0 else if (s == key) && counts then 1 else keep

-- Shift, control, alt, caps lock, the prefix, up, down, left and right.
abbrev pub flags : Keyboard → List ℕ
flags k =
    k.shift_down ∷ k.ctrl_down ∷ k.alt_down ∷ k.caps_lock ∷ k.extended ∷ k.up_arrow_down
    ∷ k.down_arrow_down ∷ k.left_arrow_down ∷ k.right_arrow_down ∷ []

-- Either shift key, a control or alt key behind the prefix when it goes down, the caps lock key, the
-- prefix itself, which the next scan code takes back, and the arrow keys.
unfoldable pub changes_of : (prefixed : Bool) (scancode : ℕ) → List ℕ
changes_of prefixed s =
    (if s == 0xaa || s == 0xb6
      then 0
      else if (s == 0x2a || s == 0x36) && not prefixed
      then 1
      else keep)
    ∷ held_change prefixed 0x1d s
    ∷ held_change prefixed 0x38 s
    ∷ (if (s == 0x3a) && not prefixed then toggle else keep)
    ∷ (if s == 0xe0 then 1 else if leb 128 s || prefixed then 0 else keep)
    ∷ held_change prefixed 0x48 s
    ∷ held_change prefixed 0x50 s
    ∷ held_change prefixed 0x4b s
    ∷ held_change prefixed 0x4d s
    ∷ []

abbrev pub prefixed : Keyboard → Bool
prefixed k = not (k.extended == 0)

abbrev pub raised : Keyboard → Bool
raised k = not (bit_xor k.shift_down k.caps_lock == 0)

abbrev pub enqueue_all : List ℕ → List ℕ → List ℕ
enqueue_all q [] = q
enqueue_all q (c ∷ cs) = enqueue_all (enqueue q c) cs
