-- ===== src/Clib/Stdio/Bounds.antt =====
-- os/lib/stdio.c: `format_parse` stays within the format.
use hrishikos.Base.{
  ℕ, ◌+◌, ◌-◌, ◌≤◌, ◌<◌, ◌≡◌, ◌≢◌, ◌⊎◌, inl, inr, refl, arith, ap, sym, subst, ◌∙◌, true, false,
  Option, none, some, List, length, leb, eq-cases, ==_ne, Bool-cases, Option-cases,
}
use hrishikos.Clib.Strings.{strlen}
use hrishikos.Clib.Strings.Compare.{IsString, strlen_lem, IsString-end_zero}
use hrishikos.Clib.Stdio.{
  FormatWrapper, FormatParse, FormatSpecifier, parse_print, parse_scan, Stage, unless_refused,
  empty_wrapper, with_specifier, specifier_of, parse_specifier, parse_width, parse_length,
  parse_start, parse_fraction, parse_stages, format_parse,
}
use hrishikos.Clib.Stdio.Within.{
  IsWithin, here, inside, flags-IsWithin, skip-IsWithin, width-IsWithin, precision-IsWithin,
  length-IsWithin,
}

-- The conversion is refused, or it ends at an index from `lo` to `n`, behind the character of its
-- specifier.
abbrev pub IsConversion : (ℕ → ℕ) → (format lo n : ℕ) → Stage → Type 0
IsConversion m format lo n o =
    (o ≡ some none)
    ⊎ ((w : FormatWrapper) × (i : ℕ) × (o ≡ some (some (w, i)))
        × (lo ≤ i)
        × (i ≤ n)
        × (specifier_of (m (format + (i - 1))) ≡ some w.specifier))

specifier_end : (c : ℕ) → c ≡ 0 → specifier_of c ≡ none
unfolding specifier_of
specifier_end c e = rw e refl

is_none : Option FormatSpecifier → ℕ
is_none none = 1
is_none (some x) = 0

module _ (m : ℕ → ℕ) (format n : ℕ) (end : m (format + n) ≡ 0) where
  -- One stage after the other.
  IsConversion-unless_refused :
      (lo lo' : ℕ) (o : Stage) (k : FormatWrapper × ℕ → Stage)
      → IsWithin lo n o
      → ((w : FormatWrapper) (i : ℕ) → lo ≤ i → i ≤ n → IsConversion m format lo' n (k (w, i)))
      → IsConversion m format lo' n (unless_refused o k)
  IsConversion-unless_refused lo lo' o k (inl refused) next =
      inl (ap (λ x. unless_refused x k) refused)
  IsConversion-unless_refused lo lo' o k (inr (w, i, run, low, high)) next =
      subst (λ x. IsConversion m format lo' n (unless_refused x k)) (sym run) (next w i low high)

  specifier-IsConversion :
      (lo : ℕ) (w : FormatWrapper) (i : ℕ)
      → lo ≤ i
      → i ≤ n
      → IsConversion m format (lo + 1) n (parse_specifier m format w i)
  unfolding parse_specifier is_none
  specifier-IsConversion lo w i low high = elim (Option-cases (specifier_of (m (format + i)))) [
    | inl bad ↦ inl (ap (λ x. with_specifier w i x) bad)
    | inr (specifier, good) ↦
        let more : i + 1 ≤ n =
          inside m format n end i high (λ z.
            absurd (omega (arith, ap is_none (sym good ∙ specifier_end (m (format + i)) z)))) in
        let back : i + 1 - 1 ≡ i = omega arith in
        inr (
          record w { specifier = specifier },
          i + 1,
          ap (λ x. with_specifier w i x) good,
          omega arith,
          more,
          ap (λ j. specifier_of (m (format + j))) back ∙ good,
        )
  ]

  stages-IsConversion :
      (fuel lo : ℕ) (type : FormatParse)
      → lo ≤ n
      → n < fuel
      → IsConversion m format (lo + 1) n (parse_stages fuel m format lo type)
  unfolding parse_stages
  stages-IsConversion fuel lo type high enough =
      IsConversion-unless_refused lo (lo + 1) (parse_start fuel m format type empty_wrapper lo) _
        (start type)
        (λ w i low le.
          IsConversion-unless_refused lo (lo + 1) (parse_width fuel m format type w i) _
            (width-IsWithin m format n end fuel lo type w i low le (omega arith))
            (λ w i low le.
              IsConversion-unless_refused lo (lo + 1) (parse_fraction fuel m format type w i) _
                (fraction type w i low le)
                (λ w i low le.
                  IsConversion-unless_refused lo (lo + 1) (parse_length m format w i) _
                    (length-IsWithin m format n end lo w i low le)
                    (λ w i low le. specifier-IsConversion lo w i low le))))
    where
      start : (type : FormatParse) → IsWithin lo n (parse_start fuel m format type empty_wrapper lo)
      start parse_print =
          flags-IsWithin m format n end fuel lo empty_wrapper lo (omega arith) high (omega arith)
      start parse_scan = skip-IsWithin m format n end lo empty_wrapper lo (omega arith) high

      fraction :
          (type : FormatParse) (w : FormatWrapper) (i : ℕ)
          → lo ≤ i
          → i ≤ n
          → IsWithin lo n (parse_fraction fuel m format type w i)
      fraction parse_print w i low le =
          precision-IsWithin m format n end fuel lo w i low le (omega arith)
      fraction parse_scan w i low le = here lo n i w low le

pub no_delimiter :
    (fuel : ℕ) (m : ℕ → ℕ) (format offset : ℕ) (type : FormatParse)
    → m (format + offset) ≢ 37
    → format_parse fuel m format offset type ≡ some none
unfolding format_parse
no_delimiter fuel m format offset type ne = rw (==_ne (m (format + offset)) 37 ne) refl

pub past_end :
    (fuel : ℕ) (m : ℕ → ℕ) (format offset n : ℕ) (type : FormatParse)
    → m (format + offset) ≡ 37
    → strlen fuel m format ≡ some n
    → n ≤ offset
    → format_parse fuel m format offset type ≡ some none
unfolding format_parse
past_end fuel m format offset n type delimiter count past =
    let over : leb n offset ≡ true = ground (arith, past) in rw (delimiter, count, over) refl

pub format_parse_run :
    (fuel : ℕ) (m : ℕ → ℕ) (format offset n : ℕ) (type : FormatParse)
    → m (format + offset) ≡ 37
    → strlen fuel m format ≡ some n
    → offset < n
    → format_parse fuel m format offset type ≡ parse_stages fuel m format (offset + 1) type
unfolding format_parse
format_parse_run fuel m format offset n type delimiter count before =
    let under : leb n offset ≡ false = ground (arith, before) in rw (delimiter, count, under) refl

-- `format_parse` of a format that ends within the fuel, at any offset, ends: it returns 0, or an index
-- at least two behind the offset and not behind the end of the format, and the character before it
-- is that of the specifier.
pub format_parse-IsConversion :
    (fuel : ℕ) (m : ℕ → ℕ) (format offset : ℕ) (xs : List ℕ) (type : FormatParse)
    → IsString m format xs
    → length xs < fuel
    → IsConversion m format (offset + 2) (length xs) (format_parse fuel m format offset type)
format_parse-IsConversion fuel m format offset xs type s enough =
    let count = strlen_lem fuel m format xs s enough in
    elim (eq-cases (m (format + offset)) 37) [
      | inr other ↦ inl (no_delimiter fuel m format offset type other)
      | inl delimiter ↦ elim (Bool-cases (leb (length xs) offset)) [
        | inl past ↦
            inl (
              past_end fuel m format offset (length xs) type delimiter count (ground (arith, past)))
        | inr under ↦
            let before : offset < length xs = ground (arith, under) in
            let two : offset + 1 + 1 ≡ offset + 2 = omega arith in
            subst (λ o. IsConversion m format (offset + 2) (length xs) o)
              (sym (format_parse_run fuel m format offset (length xs) type delimiter count before))
              (subst
                (λ lo.
                  IsConversion m format lo (length xs)
                    (parse_stages fuel m format (offset + 1) type))
                two
                (stages-IsConversion m format (length xs) (IsString-end_zero m format xs s) fuel
                  (offset + 1) type (omega arith) enough))
      ]
    ]
