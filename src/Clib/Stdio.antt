-- ===== src/Clib/Stdio.antt =====
-- os/lib/stdio.c: `format_parse`, which reads one conversion of a format, the string in memory at
-- `format`. Inner `none` is the result 0, with which the wrapper is not used. Outer `none` is a string
-- that does not end within the fuel. The width and the precision are `int8_t`s, kept as their bytes.
pub mod Within
pub mod Bounds
pub mod Scan
mod Tests
use hrishikos.Base.{
  ◌>>=◌, ℕ, zero, suc, ◌+◌, ◌-◌, ◌*◌, ◌/◌, ◌%◌, ◌^◌, Bool, true, false, ◌&&◌, ◌||◌, Option, none,
  some, ◌==◌, ltb, leb, if◌then◌else◌, u8,
}
use hrishikos.Clib.Strings.{strlen, is_digit}

pub data FormatLength : Type 0 where
  length_none : FormatLength
  length_hh : FormatLength
  length_h : FormatLength
  length_l : FormatLength
  length_ll : FormatLength
  length_z : FormatLength

pub data FormatSpecifier : Type 0 where
  specifier_esc : FormatSpecifier
  specifier_char : FormatSpecifier
  specifier_str : FormatSpecifier
  specifier_int : FormatSpecifier
  specifier_uint : FormatSpecifier
  specifier_hex : FormatSpecifier
  specifier_ptr : FormatSpecifier

pub data FormatParse : Type 0 where
  parse_print : FormatParse
  parse_scan : FormatParse

pub record FormatWrapper : Type 0 where
  pub left_align : Bool
  pub sign : Bool
  pub space_prefix : Bool
  pub base_prefix : Bool
  pub zero_padding : Bool
  pub skip : Bool
  pub width : ℕ
  pub precision : ℕ
  pub length : FormatLength
  pub specifier : FormatSpecifier

-- The wrapper set to zero.
abbrev pub empty_wrapper : FormatWrapper
empty_wrapper = record {
  left_align = false;
  sign = false;
  space_prefix = false;
  base_prefix = false;
  zero_padding = false;
  skip = false;
  width = 0;
  precision = 0;
  length = length_none;
  specifier = specifier_esc;
}

abbrev pub ssize_max : ℕ
ssize_max = 2 ^ 63 - 1

-- A stage of the function, after which it goes on with its two variables or has returned 0.
abbrev pub Stage : Type 0
Stage = Option (Option (FormatWrapper × ℕ))

abbrev pub unless_refused : Stage → (FormatWrapper × ℕ → Stage) → Stage
unless_refused none k = none
unless_refused (some none) k = some none
unless_refused (some (some a)) k = k a

-- The `switch` on the flags; `none` is its default.
pub set_flag : FormatWrapper → (character : ℕ) → Option FormatWrapper
set_flag w character =
    if character == 45
    then some (record w { left_align = true })
    else if character == 43
    then some (record w { sign = true })
    else if character == 32
    then some (record w { space_prefix = true })
    else if character == 35
    then some (record w { base_prefix = true })
    else if character == 48
    then some (record w { zero_padding = true })
    else none

abbrev pub on_flag : (FormatWrapper → Stage) → Stage → Option FormatWrapper → Stage
on_flag loop stop none = stop
on_flag loop stop (some w) = loop w

pub parse_flags : (fuel : ℕ) → (ℕ → ℕ) → (format : ℕ) → FormatWrapper → (index : ℕ) → Stage
parse_flags zero m format w index = none
parse_flags (suc fuel) m format w index =
    on_flag (λ after. parse_flags fuel m format after (index + 1)) (some (some (w, index)))
      (set_flag w (m (format + index)))

pub parse_skip : (ℕ → ℕ) → (format : ℕ) → FormatWrapper → (index : ℕ) → Stage
parse_skip m format w index =
    if m (format + index) == 42
    then some (some (record w { skip = true }, index + 1))
    else some (some (record w { skip = false }, index))

-- The test on the range; a byte from 128 on is negative.
pub too_wide : (number digit : ℕ) → Bool
too_wide number digit =
    ltb number 128
    && (ltb (ssize_max / 10) number || ((number == ssize_max / 10) && ltb (ssize_max % 10) digit))

-- The loop over the digits: the number and the index behind it.
pub parse_digits : (fuel : ℕ) → (ℕ → ℕ) → (format index number : ℕ) → Option (Option (ℕ × ℕ))
parse_digits zero m format index number = none
parse_digits (suc fuel) m format index number =
    let digit = u8 (m (format + index) + 2 ^ 8 - 48) in
    let rest = parse_digits fuel m format (index + 1) (u8 (number * 10 + digit)) in
    if is_digit (m (format + index))
    then (if too_wide number digit then some none else rest)
    else some (some (number, index))

-- The number as the width; -1 is 255.
abbrev pub with_width : FormatParse → FormatWrapper → Option (Option (ℕ × ℕ)) → Stage
with_width type w none = none
with_width type w (some none) = some none
with_width parse_print w (some (some (number, index))) =
    some (some (record w { width = if number == 0 then 255 else number }, index))
with_width parse_scan w (some (some (number, index))) =
    if number == 0 then some none else some (some (record w { width = number }, index))

pub parse_width :
    (fuel : ℕ) → (ℕ → ℕ) → (format : ℕ) → FormatParse → FormatWrapper → (index : ℕ) → Stage
parse_width fuel m format type w index =
    if m (format + index) == 45
    then some none
    else with_width type w (parse_digits fuel m format index 0)

abbrev pub with_precision : FormatWrapper → Option (Option (ℕ × ℕ)) → Stage
with_precision w none = none
with_precision w (some none) = some none
with_precision w (some (some (number, index))) =
    some (some (record w { precision = number }, index))

-- The inner test looks at the delimiter once more, before the index goes on.
pub parse_precision : (fuel : ℕ) → (ℕ → ℕ) → (format : ℕ) → FormatWrapper → (index : ℕ) → Stage
parse_precision fuel m format w index =
    if m (format + index) == 46
    then (if m (format + index) == 45
        then some none
        else with_precision w (parse_digits fuel m format (index + 1) 0))
    else some (some (record w { precision = 255 }, index))

pub parse_length : (ℕ → ℕ) → (format : ℕ) → FormatWrapper → (index : ℕ) → Stage
parse_length m format w index =
    let next = m (format + (index + 1)) in
    let character = m (format + index) in
    if character == 104
    then (if next == 104
        then some (some (record w { length = length_hh }, index + 2))
        else some (some (record w { length = length_h }, index + 1)))
    else if character == 108
    then (if next == 108
        then some (some (record w { length = length_ll }, index + 2))
        else some (some (record w { length = length_l }, index + 1)))
    else if character == 122
    then some (some (record w { length = length_z }, index + 1))
    else some (some (record w { length = length_none }, index))

-- The last `switch`; the case of the escape falls through to the default.
pub specifier_of : (character : ℕ) → Option FormatSpecifier
specifier_of character =
    if character == 99
    then some specifier_char
    else if character == 115
    then some specifier_str
    else if character == 100
    then some specifier_int
    else if character == 105
    then some specifier_int
    else if character == 117
    then some specifier_uint
    else if character == 120
    then some specifier_hex
    else if character == 88
    then some specifier_hex
    else if character == 112
    then some specifier_ptr
    else none

abbrev pub with_specifier : FormatWrapper → (index : ℕ) → Option FormatSpecifier → Stage
with_specifier w index none = some none
with_specifier w index (some specifier) =
    some (some (record w { specifier = specifier }, index + 1))

pub parse_specifier : (ℕ → ℕ) → (format : ℕ) → FormatWrapper → (index : ℕ) → Stage
parse_specifier m format w index = with_specifier w index (specifier_of (m (format + index)))

-- The parts that are for one type only.
abbrev pub parse_start :
    (fuel : ℕ) → (ℕ → ℕ) → (format : ℕ) → FormatParse → FormatWrapper → (index : ℕ) → Stage
parse_start fuel m format parse_print w index = parse_flags fuel m format w index
parse_start fuel m format parse_scan w index = parse_skip m format w index

abbrev pub parse_fraction :
    (fuel : ℕ) → (ℕ → ℕ) → (format : ℕ) → FormatParse → FormatWrapper → (index : ℕ) → Stage
parse_fraction fuel m format parse_print w index = parse_precision fuel m format w index
parse_fraction fuel m format parse_scan w index = some (some (w, index))

pub parse_stages : (fuel : ℕ) → (ℕ → ℕ) → (format index : ℕ) → FormatParse → Stage
parse_stages fuel m format index type =
    unless_refused (parse_start fuel m format type empty_wrapper index) λ (w, i).
      unless_refused (parse_width fuel m format type w i) λ (w, i).
        unless_refused (parse_fraction fuel m format type w i) λ (w, i).
          unless_refused (parse_length m format w i) λ (w, i). parse_specifier m format w i

pub format_parse : (fuel : ℕ) → (ℕ → ℕ) → (format offset : ℕ) → FormatParse → Stage
format_parse fuel m format offset type =
    if m (format + offset) == 37
    then (do
      n ← strlen fuel m format
      if leb n offset then some none else parse_stages fuel m format (offset + 1) type)
    else some none
