-- ===== src/Clib/Stdio/Scan.antt =====
-- os/lib/stdio.c: `format_parse` for `sscanf`.
use hrishikos.Base.{
  ℕ, zero, suc, ◌+◌, ◌<◌, ◌≡◌, ◌≢◌, inl, inr, refl, arith, ap, ◌∙◌, false, none, some, List, length,
  ◌==◌, leb, if_true, if_false, eq-cases, ==_ne, Bool-cases,
}
use hrishikos.Clib.Strings.{is_digit}
use hrishikos.Clib.Strings.Compare.{IsString, strlen_lem}
use hrishikos.Clib.Stdio.{
  FormatWrapper, parse_scan, empty_wrapper, parse_skip, parse_digits, with_width, parse_width,
  parse_stages, format_parse,
}
use hrishikos.Clib.Stdio.Bounds.{format_parse_run, no_delimiter, past_end}

skip_none :
    (m : ℕ → ℕ) (format : ℕ) (w : FormatWrapper) (index : ℕ)
    → m (format + index) ≢ 42
    → parse_skip m format w index ≡ some (some (record w { skip = false }, index))
unfolding parse_skip
skip_none m format w index ne = if_false _ (==_ne (m (format + index)) 42 ne)

digits_none :
    (fuel : ℕ) (m : ℕ → ℕ) (format index number : ℕ)
    → is_digit (m (format + index)) ≡ false
    → parse_digits (suc fuel) m format index number ≡ some (some (number, index))
unfolding parse_digits
digits_none fuel m format index number e = if_false _ e

width_none :
    (fuel : ℕ) (m : ℕ → ℕ) (format : ℕ) (w : FormatWrapper) (index : ℕ)
    → is_digit (m (format + index)) ≡ false
    → parse_width (suc fuel) m format parse_scan w index ≡ some none
unfolding parse_width
width_none fuel m format w index e = elim (Bool-cases (m (format + index) == 45)) [
  | inl minus ↦ if_true _ minus
  | inr other ↦
      if_false _ other ∙ ap (λ o. with_width parse_scan w o) (digits_none fuel m format index 0 e)
]

stages_refused :
    (fuel : ℕ) (m : ℕ → ℕ) (format index : ℕ)
    → m (format + index) ≢ 42
    → is_digit (m (format + index)) ≡ false
    → parse_stages (suc fuel) m format index parse_scan ≡ some none
unfolding parse_stages
stages_refused fuel m format index star digit =
    rw
      (
        skip_none m format empty_wrapper index star,
        width_none fuel m format (record empty_wrapper { skip = false }) index digit,
      )
      refl

-- Of a format that ends within the fuel, `format_parse` for `sscanf` refuses every conversion that
-- starts neither with a digit nor with the star: one without a width, as `%d` is.
pub format_parse_scan :
    (fuel : ℕ) (m : ℕ → ℕ) (format offset : ℕ) (xs : List ℕ)
    → IsString m format xs
    → length xs < fuel
    → is_digit (m (format + (offset + 1))) ≡ false
    → m (format + (offset + 1)) ≢ 42
    → format_parse fuel m format offset parse_scan ≡ some none
format_parse_scan zero m format offset xs s enough digit star = absurd (omega arith)
format_parse_scan (suc fuel) m format offset xs s enough digit star =
    let count = strlen_lem (suc fuel) m format xs s enough in
    elim (eq-cases (m (format + offset)) 37) [
      | inr other ↦ no_delimiter (suc fuel) m format offset parse_scan other
      | inl delimiter ↦ elim (Bool-cases (leb (length xs) offset)) [
        | inl past ↦
            past_end (suc fuel) m format offset (length xs) parse_scan delimiter count
              (ground (arith, past))
        | inr under ↦
            format_parse_run (suc fuel) m format offset (length xs) parse_scan delimiter count
              (ground (arith, under))
            ∙ stages_refused fuel m format (offset + 1) star digit
      ]
    ]
