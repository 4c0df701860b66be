-- ===== src/Drivers/VgaText/Tests.antt =====
-- os/drivers/vga_text.c at concrete inputs.
use hrishikos.Base.{◌+◌, ◌-◌, ◌*◌, ◌^◌, ◌≡◌, refl, arith, some, ◌%◌}
use hrishikos.Drivers.VgaText.{VgaText, print_character, attribute_of}
use hrishikos.Drivers.VgaText.Print.{
  IsOn, LandsOn, print_character-LandsOn, print_character_shown, backspace_margin,
}

-- The cursor is in the last cell of the screen.
abbrev corner : VgaText
corner = record {
  cursor_x = 79;
  cursor_y = 24;
  foreground_color = 7;
  background_color = 0;
  memory = λ a. a % 7;
  hardware_cursor = 1999;
}

abbrev margin : VgaText
margin = record corner { cursor_x = 0; cursor_y = 3 }

corner-IsOn : IsOn corner
corner-IsOn = (omega arith, omega arith)

print_character-LandsOn_example : LandsOn (print_character corner 10)
print_character-LandsOn_example = print_character-LandsOn corner 10 (omega arith) corner-IsOn

print_character_shown_example :
    (w : VgaText) × (print_character corner 0x61 ≡ some w)
    × (w.memory (2 * (80 * w.cursor_y + w.cursor_x - 1)) ≡ 0x61)
    × (w.memory (2 * (80 * w.cursor_y + w.cursor_x - 1) + 1) ≡ attribute_of 7 0)
print_character_shown_example =
    print_character_shown corner 0x61 (omega arith) (omega arith) (omega arith) corner-IsOn

backspace_margin_example :
    (w : VgaText) × (print_character margin 8 ≡ some w)
    × (w.cursor_x ≡ 2 ^ 64 - 81)
    × (w.cursor_y ≡ 4)
backspace_margin_example = backspace_margin margin refl (omega arith)
