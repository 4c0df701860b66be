-- ===== src/Drivers/Keyboard.antt =====
-- os/drivers/keyboard.c: scan codes to a ring of 256 key codes. The globals are the record
-- `Keyboard`; the array is a function of the index.
pub mod Buffer
pub mod Handler
pub mod Layout
pub mod Step
pub mod Actions
mod Tests
use hrishikos.Base.{
  ℕ, ◌+◌, ◌-◌, ◌%◌, ◌^◌, bit_and, bit_xor, Bool, true, false, not, List, [], ◌∷◌, Option, none,
  some, ◌==◌, ltb, if◌then◌else◌, update,
}

pub record Keyboard : Type 0 where
  pub shift_down : ℕ
  pub ctrl_down : ℕ
  pub alt_down : ℕ
  pub caps_lock : ℕ
  pub extended : ℕ
  pub up_arrow_down : ℕ
  pub down_arrow_down : ℕ
  pub left_arrow_down : ℕ
  pub right_arrow_down : ℕ
  pub buffer : ℕ → ℕ
  pub buffer_head : ℕ
  pub buffer_tail : ℕ

abbrev pub buffer_size : ℕ
buffer_size = 256

abbrev pub keycode_base : ℕ
keycode_base = 0x1000

-- The entries are (base, ascii).
abbrev pub letter_list : List (ℕ × ℕ)
letter_list =
    (0x1e, b'a')
    ∷ (0x30, b'b')
    ∷ (0x2e, b'c')
    ∷ (0x20, b'd')
    ∷ (0x12, b'e')
    ∷ (0x21, b'f')
    ∷ (0x22, b'g')
    ∷ (0x23, b'h')
    ∷ (0x17, b'i')
    ∷ (0x24, b'j')
    ∷ (0x25, b'k')
    ∷ (0x26, b'l')
    ∷ (0x32, b'm')
    ∷ (0x31, b'n')
    ∷ (0x18, b'o')
    ∷ (0x19, b'p')
    ∷ (0x10, b'q')
    ∷ (0x13, b'r')
    ∷ (0x1f, b's')
    ∷ (0x14, b't')
    ∷ (0x16, b'u')
    ∷ (0x2f, b'v')
    ∷ (0x11, b'w')
    ∷ (0x2d, b'x')
    ∷ (0x15, b'y')
    ∷ (0x2c, b'z')
    ∷ []

-- The entries are (base, normal, shifted).
abbrev pub digit_symbol_list : List (ℕ × ℕ × ℕ)
digit_symbol_list =
    (0x02, b'1', b'!')
    ∷ (0x03, b'2', b'@')
    ∷ (0x04, b'3', b'#')
    ∷ (0x05, b'4', b'$')
    ∷ (0x06, b'5', b'%')
    ∷ (0x07, b'6', b'^')
    ∷ (0x08, b'7', b'&')
    ∷ (0x09, b'8', b'*')
    ∷ (0x0a, b'9', b'(')
    ∷ (0x0b, b'0', b')')
    ∷ (0x0c, b'-', b'_')
    ∷ (0x0d, b'=', b'+')
    ∷ (0x1a, b'[', b'{')
    ∷ (0x1b, b']', b'}')
    ∷ (0x27, b';', b':')
    ∷ (0x28, 0x27, 0x22)
    ∷ (0x29, b'`', b'~')
    ∷ (0x2b, 0x5c, b'|')
    ∷ (0x33, b',', b'<')
    ∷ (0x34, b'.', b'>')
    ∷ (0x35, b'/', b'?')
    ∷ []

-- Enter, backspace, tab and space.
abbrev pub control_list : List (ℕ × ℕ)
control_list = (0x1c, 10) ∷ (0x0e, 8) ∷ (0x0f, 9) ∷ (0x39, 32) ∷ []

pub buffer_write : Keyboard → ℕ → Keyboard
buffer_write k keycode =
    let head = (k.buffer_head + 1) % buffer_size in
    record k {
      buffer = update k.buffer k.buffer_head keycode;
      buffer_head = head;
      buffer_tail =
          if head == k.buffer_tail then (k.buffer_tail + 1) % buffer_size else k.buffer_tail;
    }

-- A `uint16_t`; -1 for an empty buffer.
pub get_keycode : Keyboard → ℕ × Keyboard
get_keycode k =
    if k.buffer_head == k.buffer_tail
    then (0xffff, k)
    else (k.buffer k.buffer_tail, record k { buffer_tail = (k.buffer_tail + 1) % buffer_size })

-- A `char` as its byte; -1 for an empty buffer and for a code past the characters.
pub buffer_read : Keyboard → ℕ × Keyboard
buffer_read k =
    if k.buffer_head == k.buffer_tail
    then (0xff, k)
    else let character = k.buffer k.buffer_tail in
      let k' = record k { buffer_tail = (k.buffer_tail + 1) % buffer_size } in
      if ltb keycode_base character then (0xff, k') else (character % 2 ^ 8, k')

-- The `switch` on a break code.
pub release : Keyboard → (base : ℕ) → Keyboard
release k base =
    if base == 0x48
    then buffer_write (record k { up_arrow_down = 0 }) (keycode_base + 5)
    else if base == 0x50
    then buffer_write (record k { down_arrow_down = 0 }) (keycode_base + 6)
    else if base == 0x4b
    then buffer_write (record k { left_arrow_down = 0 }) (keycode_base + 7)
    else if base == 0x4d
    then buffer_write (record k { right_arrow_down = 0 }) (keycode_base + 8)
    else if base == 0x2a
    then record k { shift_down = 0 }
    else if base == 0x36
    then record k { shift_down = 0 }
    else if base == 0x1d
    then buffer_write (record k { ctrl_down = 0 }) (keycode_base + 11)
    else if base == 0x38
    then buffer_write (record k { alt_down = 0 }) (keycode_base + 12)
    else k

-- The `switch` on a make code behind the prefix 0xe0.
pub press_extended : Keyboard → (base : ℕ) → Keyboard
press_extended k base =
    if base == 0x48
    then buffer_write (record k { up_arrow_down = 1 }) (keycode_base + 1)
    else if base == 0x50
    then buffer_write (record k { down_arrow_down = 1 }) (keycode_base + 2)
    else if base == 0x4b
    then buffer_write (record k { left_arrow_down = 1 }) (keycode_base + 3)
    else if base == 0x4d
    then buffer_write (record k { right_arrow_down = 1 }) (keycode_base + 4)
    else if base == 0x1d
    then buffer_write (record k { ctrl_down = 1 }) (keycode_base + 9)
    else if base == 0x38
    then buffer_write (record k { alt_down = 1 }) (keycode_base + 10)
    else k

pub find_key : (base : ℕ) → List (ℕ × ℕ) → Option ℕ
find_key base [] = none
find_key base ((b, ascii) ∷ rest) = if b == base then some ascii else find_key base rest

pub find_symbol : (base : ℕ) → List (ℕ × ℕ × ℕ) → Option (ℕ × ℕ)
find_symbol base [] = none
find_symbol base ((b, normal, shifted) ∷ rest) =
    if b == base then some (normal, shifted) else find_symbol base rest

-- The three table loops, in their order.
pub type_key : Keyboard → (base : ℕ) → Keyboard
type_key k base =
    let plain = bit_xor k.shift_down k.caps_lock == 0 in
    elim (find_key base letter_list) [
      | some ascii ↦ if plain then buffer_write k ascii else buffer_write k (ascii - 0x20)
      | none ↦ elim (find_symbol base digit_symbol_list) [
        | some (normal, shifted) ↦ if plain then buffer_write k normal else buffer_write k shifted
        | none ↦ elim (find_key base control_list) [ some ascii ↦ buffer_write k ascii | none ↦ k ]
      ]
    ]

pub press : Keyboard → (base : ℕ) → Keyboard
press k base =
    if base == 0x2a
    then record k { shift_down = 1 }
    else if base == 0x36
    then record k { shift_down = 1 }
    else if base == 0x3a
    then record k { caps_lock = bit_xor k.caps_lock 1 }
    else type_key k base

pub central_handler : Keyboard → (scancode : ℕ) → Keyboard
central_handler k scancode =
    if scancode == 0xe0
    then record k { extended = 1 }
    else let base = bit_and scancode 0x7f in
      if not (bit_and scancode 0x80 == 0)
      then record (release k base) { extended = 0 }
      else if not (k.extended == 0)
      then record (press_extended k base) { extended = 0 }
      else press k base
