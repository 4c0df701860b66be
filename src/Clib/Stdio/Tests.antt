-- ===== src/Clib/Stdio/Tests.antt =====
-- os/lib/stdio.c at concrete inputs.
use hrishikos.Base.{ℕ, ◌-◌, ◌≡◌, refl, arith, none, some, List, [], ◌∷◌, get_or, leb, if◌then◌else◌}
use hrishikos.Clib.Strings.Compare.{is_digit-d}
use hrishikos.Clib.Stdio.{parse_print, parse_scan, format_parse}
use hrishikos.Clib.Stdio.Bounds.{IsConversion, format_parse-IsConversion}
use hrishikos.Clib.Stdio.Scan.{format_parse_scan}

-- `"a%08lx"` at 0x100.
abbrev wide : List ℕ
wide = 97 ∷ 37 ∷ 48 ∷ 56 ∷ 108 ∷ 120 ∷ []

-- `"%d"` at 0x200.
abbrev plain : List ℕ
plain = 37 ∷ 100 ∷ []

abbrev bytes : ℕ → ℕ
bytes a = if leb 0x200 a then get_or plain (a - 0x200) 0 else get_or wide (a - 0x100) 0

format_parse_example : IsConversion bytes 0x100 3 6 (format_parse 20 bytes 0x100 1 parse_print)
format_parse_example =
    format_parse-IsConversion 20 bytes 0x100 1 wide parse_print
      (
        refl,
        omega arith,
        (
          refl,
          omega arith,
          (refl, omega arith, (refl, omega arith, (refl, omega arith, (refl, omega arith, refl)))),
        ),
      )
      (omega arith)

format_parse_scan_example : format_parse 20 bytes 0x200 0 parse_scan ≡ some none
format_parse_scan_example =
    format_parse_scan 20 bytes 0x200 0 plain (refl, omega arith, (refl, omega arith, refl))
      (omega arith) is_digit-d (omega arith)
