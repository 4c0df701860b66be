-- ===== src/Drivers/VgaText/Print.antt =====
-- os/drivers/vga_text.c: `vga_text_print_character`.
use hrishikos.Base.{
  ℕ, zero, suc, ◌+◌, ◌-◌, ◌*◌, ◌/◌, ◌%◌, ◌^◌, min, ◌<◌, ◌≡◌, ◌≢◌, refl, arith, ap, ◌∙◌, Option,
  some, ◌==◌, ltb, if◌then◌else◌, Bool, false, true, u8, add64, sub64, not, ◌&&◌, ==_ne,
}
use hrishikos.Drivers.VgaText.{
  VgaText, cursor_shift, put, newline, tab, put_spaces, backspace, print_character, cell,
  write_cell, attribute_of, remainder_4, is_negative, rectify_column, cursor_rectify,
  blinking_cursor_shift,
}
use hrishikos.Drivers.VgaText.Cursor.{IsMoved, cursor_shift_lem}

-- The cursor is on the screen.
abbrev pub IsOn : VgaText → Type 0
IsOn v = (v.cursor_x < 80) × (v.cursor_y < 25)

-- The call succeeds and leaves the cursor on the screen.
abbrev pub LandsOn : Option VgaText → Type 0
LandsOn o = (w : VgaText) × (o ≡ some w) × IsOn w

newline-LandsOn : (v : VgaText) → IsOn v → LandsOn (newline v)
unfolding newline
newline-LandsOn v on =
    let row : add64 v.cursor_y 1 ≡ v.cursor_y + 1 = omega (arith, on) in
    let (w, moved, is) = cursor_shift_lem v 0 (v.cursor_y + 1) (omega arith) (omega (arith, on)) in
    (w, ap (λ r. cursor_shift v 0 r) row ∙ moved, (omega (arith, is.at_x), omega (arith, is.at_y)))

put-IsMoved :
    (v : VgaText) (c attribute : ℕ)
    → IsOn v
    → let next = v.cursor_x + 1 in
      let row = v.cursor_y + next / 80 in
      (w : VgaText) × (put v c attribute ≡ some w)
      × IsMoved (write_cell v c attribute) (row - 24) (next % 80) (min 24 row) w
unfolding put
put-IsMoved v c attribute on =
    let column : add64 v.cursor_x 1 ≡ v.cursor_x + 1 = omega (arith, on) in
    let (w, moved, is) =
      cursor_shift_lem (write_cell v c attribute) (v.cursor_x + 1) v.cursor_y (omega (arith, on))
        (omega (arith, on)) in
    (w, ap (λ x. cursor_shift (write_cell v c attribute) x v.cursor_y) column ∙ moved, is)

put-LandsOn : (v : VgaText) (c attribute : ℕ) → IsOn v → LandsOn (put v c attribute)
put-LandsOn v c attribute on =
    let (w, run, is) = put-IsMoved v c attribute on in
    (w, run, (omega (arith, is.at_x), omega (arith, is.at_y)))

put_spaces-LandsOn :
    (count : ℕ) (v : VgaText) (attribute : ℕ) → IsOn v → LandsOn (put_spaces count v attribute)
unfolding put_spaces
put_spaces-LandsOn zero v attribute on = (v, refl, on)
put_spaces-LandsOn (suc count) v attribute on =
    let (w, run, there) = put-LandsOn v 0x20 attribute on in
    rw run (put_spaces-LandsOn count w attribute there)

if-LandsOn :
    (b : Bool) {o p : Option VgaText} → LandsOn o → LandsOn p → LandsOn (if b then o else p)
if-LandsOn true yes_ no_ = yes_
if-LandsOn false yes_ no_ = no_

tab-LandsOn : (v : VgaText) (attribute : ℕ) → IsOn v → LandsOn (tab v attribute)
unfolding tab
tab-LandsOn v attribute on =
    let spaces = u8 (remainder_4 v.cursor_x) in
    let target = add64 v.cursor_x (sub64 4 spaces) in
    if-LandsOn (not (is_negative target) && ltb 79 target) (newline-LandsOn v on)
      (put_spaces-LandsOn (4 - spaces) v attribute on)

-- From a cursor on the screen, `vga_text_print_character` of any character but the backspace
-- succeeds and leaves the cursor on the screen.
pub print_character-LandsOn : (v : VgaText) (c : ℕ) → c ≢ 8 → IsOn v → LandsOn (print_character v c)
unfolding print_character
print_character-LandsOn v c ne on =
    let attribute = attribute_of v.foreground_color v.background_color in
    rw (==_ne c 8 ne) (
      if-LandsOn (c == 10) (newline-LandsOn v on)
        (if-LandsOn (c == 9) (tab-LandsOn v attribute on) (put-LandsOn v c attribute on)))

-- From a cursor on the screen, a character that is neither a newline, a tab nor a backspace shows
-- up, in the present colours, right before the place where the cursor then is, also when the screen
-- has scrolled.
pub print_character_shown :
    (v : VgaText) (c : ℕ)
    → c ≢ 8
    → c ≢ 9
    → c ≢ 10
    → IsOn v
    → (w : VgaText) × (print_character v c ≡ some w)
      × (w.memory (2 * (80 * w.cursor_y + w.cursor_x - 1)) ≡ c)
      × (w.memory (2 * (80 * w.cursor_y + w.cursor_x - 1) + 1)
          ≡ attribute_of v.foreground_color v.background_color)
unfolding print_character cell
print_character_shown v c back tab_ line on =
    let attribute = attribute_of v.foreground_color v.background_color in
    let (w, run, is) = put-IsMoved v c attribute on in
    let there = 2 * (80 * w.cursor_y + w.cursor_x - 1) in
    let column = is.at_x in
    let row = is.at_y in
    let old : cell v ≡ 2 * (80 * v.cursor_y + v.cursor_x) = omega (arith, on) in
    (
      w,
      rw (==_ne c 10 line, ==_ne c 9 tab_, ==_ne c 8 back) run,
      ground (arith, is.screen there, column, row, old, on),
      ground (arith, is.screen (there + 1), column, row, old, on),
    )

shift_margin :
    (v : VgaText) (y : ℕ)
    → y < 24
    → cursor_shift v (2 ^ 64 - 1) y
      ≡ some (blinking_cursor_shift (record v { cursor_x = 2 ^ 64 - 81; cursor_y = y + 1 }))
unfolding cursor_shift cursor_rectify rectify_column
shift_margin v y above =
    let row : add64 y 1 ≡ y + 1 = omega arith in
    let positive : is_negative (y + 1) ≡ false = ground arith in
    let inside : ltb 24 (y + 1) ≡ false = ground arith in rw (row, positive, inside)

-- A backspace in the first column of a row above the last one leaves the cursor off the screen: its
-- column is -81, and its row is the next one.
pub backspace_margin :
    (v : VgaText)
    → v.cursor_x ≡ 0
    → v.cursor_y < 24
    → (w : VgaText) × (print_character v 8 ≡ some w)
      × (w.cursor_x ≡ 2 ^ 64 - 81)
      × (w.cursor_y ≡ v.cursor_y + 1)
unfolding print_character backspace blinking_cursor_shift cursor_shift cell
backspace_margin v margin above =
    let attribute = attribute_of v.foreground_color v.background_color in
    let off = record v { cursor_x = 2 ^ 64 - 81; cursor_y = v.cursor_y + 1 } in
    (
      write_cell (blinking_cursor_shift off) 0x20 attribute,
      rw (margin, shift_margin v v.cursor_y above),
      refl,
      refl,
    )
