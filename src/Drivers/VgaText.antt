-- ===== src/Drivers/VgaText.antt =====
-- os/drivers/vga_text.c: the text console. The globals are the record `VgaText`; the video memory is
-- a function from the byte's offset to the byte, and `hardware_cursor` the position that the
-- controller was last told. The cursor's coordinates are `long`s, kept as their 64-bit words. `none`
-- is a copy that leaves the screen.
pub mod Scroll
pub mod Cursor
pub mod Print
mod Tests
use hrishikos.Base.{
  ℕ, zero, suc, ◌+◌, ◌-◌, ◌*◌, ◌/◌, ◌%◌, ◌^◌, Bool, true, false, ◌&&◌, ◌||◌, not, Option, none,
  some, List, [], ◌∷◌, ◌==◌, ltb, leb, if◌then◌else◌, u8, add64, sub64, mul64, u64, bit_and, bit_or,
  update, ◌>>=◌,
}
use hrishikos.Clib.Strings.{memcpy}

pub record VgaText : Type 0 where
  pub cursor_x : ℕ
  pub cursor_y : ℕ
  pub foreground_color : ℕ
  pub background_color : ℕ
  pub memory : ℕ → ℕ
  pub hardware_cursor : ℕ

abbrev pub columns : ℕ
columns = 80

abbrev pub rows : ℕ
rows = 25

abbrev pub is_negative : ℕ → Bool
is_negative w = leb (2 ^ 63) w

-- `w / 80` and `w % 4` of a `long`, which round towards zero.
abbrev pub quotient_80 : ℕ → ℕ
quotient_80 w = if is_negative w then u64 (2 ^ 64 - (2 ^ 64 - w) / 80) else w / 80

abbrev pub remainder_4 : ℕ → ℕ
remainder_4 w = if is_negative w then u64 (2 ^ 64 - (2 ^ 64 - w) % 4) else w % 4

pub attribute_of : (foreground background : ℕ) → ℕ
attribute_of foreground background = u8 (bit_or (background * 16) (bit_and foreground 0x0f))

-- The loop of `vga_text_clear_segment`; `i` is an `unsigned short`, which takes at most 2 ^ 15 steps.
pub clear_segment_loop : (fuel : ℕ) → (ℕ → ℕ) → (attribute i end : ℕ) → ℕ → ℕ
clear_segment_loop zero m attribute i end = m
clear_segment_loop (suc fuel) m attribute i end =
    let rest =
      clear_segment_loop fuel (update (update m i 0x20) (i + 1) attribute) attribute
        ((i + 2) % 2 ^ 16) end in
    if ltb i end then rest else m

pub clear_segment : VgaText → (start end : ℕ) → VgaText
clear_segment v start end =
    let attribute = attribute_of v.foreground_color v.background_color in
    record v {
      memory = clear_segment_loop (2 ^ 15) v.memory attribute (start % 2 ^ 16) (end % 2 ^ 16);
    }

pub scroll : VgaText → (count : ℕ) → Option VgaText
scroll v count =
    if ltb rows count
    then none
    else let kept = (rows - count) * (columns * 2) in
      let copied = record v { memory = memcpy v.memory 0 (count * (columns * 2)) kept } in
      some (clear_segment copied kept (kept + count * (columns * 2)))

-- The two tests on the column.
pub rectify_column : (x y : ℕ) → ℕ × ℕ
rectify_column x y =
    let (x1, y1) =
      (if not (is_negative x) && ltb 79 x
        then (let overflow = quotient_80 x in (sub64 x (mul64 columns overflow), add64 y overflow))
        else (x, y)) in
    if is_negative x1
    then (let overflow = add64 (quotient_80 x1) 1 in
        (sub64 x1 (mul64 columns overflow), add64 y1 overflow))
    else (x1, y1)

pub cursor_rectify : VgaText → Option VgaText
cursor_rectify v =
    let (x, y) = rectify_column v.cursor_x v.cursor_y in
    let moved = record v { cursor_x = x; cursor_y = y } in
    if is_negative y
    then (do scrolled ← scroll moved y; some (record scrolled { cursor_y = 0 }))
    else if ltb 24 y
    then (do scrolled ← scroll moved (y - 24); some (record scrolled { cursor_y = 24 }))
    else some moved

pub blinking_cursor_shift : VgaText → VgaText
blinking_cursor_shift v = record v {
  hardware_cursor = add64 (mul64 v.cursor_y columns) v.cursor_x % 2 ^ 16;
}

pub cursor_shift : VgaText → (x y : ℕ) → Option VgaText
cursor_shift v x y = do
  rectified ← cursor_rectify (record v { cursor_x = x; cursor_y = y })
  some (blinking_cursor_shift rectified)

-- The offset of the character under the cursor; its attribute follows it.
pub cell : VgaText → ℕ
cell v = mul64 2 (add64 (mul64 v.cursor_y columns) v.cursor_x)

abbrev pub write_cell : VgaText → (character attribute : ℕ) → VgaText
write_cell v character attribute = record v {
  memory = update (update v.memory (cell v) character) (u64 (cell v + 1)) attribute;
}

-- The three common cases of the two `switch`es on the character.
pub newline : VgaText → Option VgaText
newline v = cursor_shift v 0 (add64 v.cursor_y 1)

pub backspace : VgaText → (attribute : ℕ) → Option VgaText
backspace v attribute = do
  shifted ← cursor_shift v (sub64 v.cursor_x 1) v.cursor_y
  some (write_cell shifted 0x20 attribute)

pub put : VgaText → (character attribute : ℕ) → Option VgaText
put v character attribute =
    cursor_shift (write_cell v character attribute) (add64 v.cursor_x 1) v.cursor_y

pub put_spaces : (count : ℕ) → VgaText → (attribute : ℕ) → Option VgaText
put_spaces zero v attribute = some v
put_spaces (suc count) v attribute = do next ← put v 0x20 attribute; put_spaces count next attribute

pub tab : VgaText → (attribute : ℕ) → Option VgaText
tab v attribute =
    let spaces = u8 (remainder_4 v.cursor_x) in
    let target = add64 v.cursor_x (sub64 4 spaces) in
    if not (is_negative target) && ltb 79 target
    then newline v
    else put_spaces (4 - spaces) v attribute

pub print_character : VgaText → (character : ℕ) → Option VgaText
print_character v c =
    let attribute = attribute_of v.foreground_color v.background_color in
    if c == 10
    then newline v
    else if c == 9
    then tab v attribute
    else if c == 8
    then backspace v attribute
    else put v c attribute

pub print_character_color : VgaText → (character foreground background : ℕ) → Option VgaText
print_character_color v c foreground background =
    let attribute = attribute_of foreground background in
    if c == 10 then newline v else if c == 8 then backspace v attribute else put v c attribute

-- A string is the list of its bytes.
pub print : VgaText → List ℕ → Option VgaText
print v [] = some v
print v (c ∷ cs) = do next ← print_character v c; print next cs

pub print_color : VgaText → List ℕ → (foreground background : ℕ) → Option VgaText
print_color v [] foreground background = some v
print_color v (c ∷ cs) foreground background = do
  next ← print_character_color v c foreground background
  print_color next cs foreground background

-- `x` and `y` are `unsigned char`s; the cursor is not used.
pub print_position : VgaText → List ℕ → (x y : ℕ) → VgaText
print_position v [] x y = v
print_position v (c ∷ cs) x y =
    if c == 10
    then print_position v cs 0 (u8 (y + 1))
    else let position : ℕ × ℕ =
        (if leb columns x
          then (x - columns, u8 (y + 1))
          else if leb rows y
          then (x, y - rows)
          else (x, y)) in
      let (x', y') = position in
      let offset = 2 * (y' * columns + x') in
      let written = record v { memory = update (update v.memory offset c) (offset + 1) 0x0f } in
      print_position written cs (u8 (x' + 1)) y'

pub reset_screen : VgaText → Option VgaText
reset_screen v = cursor_shift (record v { memory = λ a. if ltb a 4000 then 0 else v.memory a }) 0 0

pub clear_screen : VgaText → Option VgaText
clear_screen v =
    cursor_shift
      (record v { memory = λ a. if ltb a 4000 && (a % 2 == 0) then 0x20 else v.memory a }) 0 0

pub change_colors : VgaText → (foreground background : ℕ) → VgaText
change_colors v foreground background =
    if ltb 0xf foreground || ltb 0xf background
    then v
    else record v { foreground_color = foreground; background_color = background }

pub refresh_colors : VgaText → VgaText
refresh_colors v =
    let attribute = attribute_of v.foreground_color v.background_color in
    record v { memory = λ a. if ltb a 4000 && (a % 2 == 1) then attribute else v.memory a }
