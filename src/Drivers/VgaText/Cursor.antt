-- ===== src/Drivers/VgaText/Cursor.antt =====
-- os/drivers/vga_text.c: where the cursor goes.
use hrishikos.Base.{
  ℕ, ◌+◌, ◌-◌, ◌*◌, ◌/◌, ◌%◌, ◌^◌, min, ◌≤◌, ◌<◌, ◌≡◌, refl, arith, ap, sym, ◌∙◌, some, ◌==◌, ltb,
  leb, if◌then◌else◌, inl, inr, Bool-cases, false, true, ltb→lt, add64, sub64, mul64,
}
use hrishikos.Drivers.VgaText.{
  VgaText, is_negative, rectify_column, cursor_rectify, cursor_shift, scroll, attribute_of,
  blinking_cursor_shift,
}
use hrishikos.Drivers.VgaText.Scroll.{scroll_lem}

rectify_column_lem :
    (x y : ℕ) → x < 2 ^ 63 → y + x / 80 < 2 ^ 63 → rectify_column x y ≡ (x % 80, y + x / 80)
unfolding rectify_column
rectify_column_lem x y hx hy =
    let positive : is_negative x ≡ false = ground arith in
    elim (Bool-cases (ltb 79 x)) [
      | inl over ↦
          let column : sub64 x (mul64 80 (x / 80)) ≡ x % 80 = omega arith in
          let row : add64 y (x / 80) ≡ y + x / 80 = omega arith in
          let inside : is_negative (x % 80) ≡ false = ground arith in
          rw (positive, over, column, row, inside)
      | inr within ↦
          let column : x ≡ x % 80 = ground arith in
          let row : y ≡ y + x / 80 = ground arith in
          rw (positive, within, positive) (ap (λ c. (c, y)) column ∙ ap (λ r. (x % 80, r)) row)
    ]

-- The state that a move within the screen leaves: `lines` rows have been scrolled away.
pub record IsMoved (v : VgaText) (lines x y : ℕ) (w : VgaText) : Type 0 where
  pub at_x : w.cursor_x ≡ x
  pub at_y : w.cursor_y ≡ y
  pub shown : w.hardware_cursor ≡ 80 * y + x
  pub screen :
      (a : ℕ)
      → w.memory a ≡ (
          if leb 4000 a
          then v.memory a
          else if ltb (a / 160 + lines) 25
          then v.memory (a + 160 * lines)
          else if a % 2 == 0
          then 0x20
          else attribute_of v.foreground_color v.background_color)

abbrev placed : VgaText → (x y : ℕ) → VgaText
placed v x y = record v { cursor_x = x; cursor_y = y }

shift_inside :
    (v : VgaText) (x y : ℕ)
    → x < 2 ^ 63
    → y + x / 80 ≤ 24
    → cursor_shift v x y ≡ some (blinking_cursor_shift (placed v (x % 80) (y + x / 80)))
unfolding cursor_shift cursor_rectify
shift_inside v x y hx hy =
    let inside : ltb 24 (y + x / 80) ≡ false = ground arith in
    let positive : is_negative (y + x / 80) ≡ false = ground arith in
    rw (rectify_column_lem x y hx (omega arith), positive, inside)

shift_below :
    (v w : VgaText) (x y : ℕ)
    → x < 2 ^ 63
    → 24 < y + x / 80
    → y + x / 80 < 2 ^ 63
    → scroll (placed v (x % 80) (y + x / 80)) (y + x / 80 - 24) ≡ some w
    → cursor_shift v x y ≡ some (blinking_cursor_shift (record w { cursor_y = 24 }))
unfolding cursor_shift cursor_rectify
shift_below v w x y hx low hy scrolled =
    let outside : ltb 24 (y + x / 80) ≡ true = ground arith in
    let positive : is_negative (y + x / 80) ≡ false = ground arith in
    rw (rectify_column_lem x y hx hy, positive, outside, scrolled)

-- `vga_text_cursor_shift` to a column that is not negative, with at most 49 rows between the row it
-- comes to and the top, succeeds: the column wraps at 80 into the rows below, and what then lies
-- below row 24 is made up for by scrolling exactly as many rows; the controller is told the place.
pub cursor_shift_lem :
    (v : VgaText) (x y : ℕ)
    → x < 2 ^ 63
    → y + x / 80 ≤ 49
    → (w : VgaText) × (cursor_shift v x y ≡ some w)
      × IsMoved v (y + x / 80 - 24) (x % 80) (min 24 (y + x / 80)) w
unfolding blinking_cursor_shift
cursor_shift_lem v x y hx hy = elim (Bool-cases (ltb 24 (y + x / 80))) [
  | inl below ↦
      let lines = y + x / 80 - 24 in
      let (w, scrolled, same_x, _, screen) =
        scroll_lem (placed v (x % 80) (y + x / 80)) lines (omega arith) in
      let row : min 24 (y + x / 80) ≡ 24 = ground arith in
      (
        blinking_cursor_shift (record w { cursor_y = 24 }),
        shift_below v w x y hx (ltb→lt 24 (y + x / 80) below) (omega arith) scrolled,
        record {
          at_x = same_x;
          at_y = sym row;
          shown = ground (arith, same_x, row);
          screen = screen;
        },
      )
  | inr inside ↦
      let row : y + x / 80 ≤ 24 = ground arith in
      (
        blinking_cursor_shift (placed v (x % 80) (y + x / 80)),
        shift_inside v x y hx row,
        record { at_x = refl; at_y = omega arith; shown = omega arith; screen = λ a. ground arith },
      )
]
