-- ===== src/Clib/Stdio/Within.antt =====
-- os/lib/stdio.c: every stage of `format_parse` stays within the format.
use hrishikos.Base.{
  ℕ, zero, suc, ◌+◌, ◌-◌, ◌*◌, ◌^◌, ◌≤◌, ◌<◌, ◌≡◌, ◌≢◌, ◌⊎◌, inl, inr, refl, arith, ap, sym, subst,
  ◌∙◌, Bool, true, false, Option, none, some, ◌==◌, if◌then◌else◌, u8, eq-cases, Option-cases,
}
use hrishikos.Clib.Strings.{is_digit}
use hrishikos.Clib.Strings.Compare.{is_digit-zero}
use hrishikos.Clib.Stdio.{
  FormatWrapper, FormatParse, parse_print, parse_scan, set_flag, parse_flags, parse_skip, too_wide,
  parse_digits, with_width, parse_width, FormatLength, length_none, length_hh, length_h, length_l,
  length_ll, length_z, with_precision, parse_precision, parse_length,
}

-- The stage ends: it refuses, or goes on at an index from `lo` to `n`.
abbrev pub IsWithin : {A : Type 0} → (lo n : ℕ) → Option (Option (A × ℕ)) → Type 0
IsWithin {A = A} lo n o =
    (o ≡ some none) ⊎ ((w : A) × (i : ℕ) × (o ≡ some (some (w, i))) × (lo ≤ i) × (i ≤ n))

pub here : {A : Type 0} (lo n i : ℕ) (w : A) → lo ≤ i → i ≤ n → IsWithin lo n (some (some (w, i)))
here lo n i w low high = inr (w, i, refl, low, high)

pub IsWithin-if :
    {A : Type 0} (lo n : ℕ) (b : Bool) {o p : Option (Option (A × ℕ))}
    → (b ≡ true → IsWithin lo n o)
    → (b ≡ false → IsWithin lo n p)
    → IsWithin lo n (if b then o else p)
IsWithin-if lo n true yes_ no_ = yes_ refl
IsWithin-if lo n false yes_ no_ = no_ refl

flag_end : (w : FormatWrapper) (c : ℕ) → c ≡ 0 → set_flag w c ≡ none
unfolding set_flag
flag_end w c e = rw e refl

flags_stop :
    (fuel : ℕ) (m : ℕ → ℕ) (format : ℕ) (w : FormatWrapper) (index : ℕ)
    → set_flag w (m (format + index)) ≡ none
    → parse_flags (suc fuel) m format w index ≡ some (some (w, index))
unfolding parse_flags
flags_stop fuel m format w index e = rw e refl

flags_go :
    (fuel : ℕ) (m : ℕ → ℕ) (format : ℕ) (w after : FormatWrapper) (index : ℕ)
    → set_flag w (m (format + index)) ≡ some after
    → parse_flags (suc fuel) m format w index ≡ parse_flags fuel m format after (index + 1)
unfolding parse_flags
flags_go fuel m format w after index e = rw e refl

module _ (m : ℕ → ℕ) (format n : ℕ) (end : m (format + n) ≡ 0) where
  -- Behind a byte that is not zero the string goes on.
  pub inside : (i : ℕ) → i ≤ n → m (format + i) ≢ 0 → i + 1 ≤ n
  inside i le ne = elim (eq-cases i n) [
    | inl last ↦ absurd (ne (ap (λ j. m (format + j)) last ∙ end))
    | inr before ↦ omega arith
  ]

  inside_at : (i c : ℕ) → i ≤ n → (m (format + i) == c) ≡ true → c ≢ 0 → i + 1 ≤ n
  inside_at i c le e ne = inside i le (λ z. ne (ground (arith, e, z)))

  pub flags-IsWithin :
      (fuel lo : ℕ) (w : FormatWrapper) (i : ℕ)
      → lo ≤ i
      → i ≤ n
      → n < i + fuel
      → IsWithin lo n (parse_flags fuel m format w i)
  flags-IsWithin zero lo w i low high enough = absurd (omega arith)
  flags-IsWithin (suc fuel) lo w i low high enough =
      elim (Option-cases (set_flag w (m (format + i)))) [
        | inl stop ↦
            subst (λ o. IsWithin lo n o) (sym (flags_stop fuel m format w i stop))
              (here lo n i w low high)
        | inr (after, go) ↦
            subst (λ o. IsWithin lo n o) (sym (flags_go fuel m format w after i go))
              (elim (eq-cases (m (format + i)) 0) [
                | inl over ↦ absurd (some-none after (sym go ∙ flag_end w (m (format + i)) over))
                | inr more ↦
                    let le = inside i high more in
                    flags-IsWithin fuel lo after (i + 1) (omega arith) le (omega (arith, le))
              ])
      ]
    where
      is_none : Option FormatWrapper → ℕ
      is_none none = 1
      is_none (some x) = 0

      some-none : (x : FormatWrapper) → some x ≢ none
      some-none x e = absurd (omega (arith, ap is_none e))

  pub skip-IsWithin :
      (lo : ℕ) (w : FormatWrapper) (i : ℕ)
      → lo ≤ i
      → i ≤ n
      → IsWithin lo n (parse_skip m format w i)
  unfolding parse_skip
  skip-IsWithin lo w i low high =
      IsWithin-if lo n (m (format + i) == 42)
        (λ e.
          here lo n (i + 1) (record w { skip = true }) (omega arith)
            (inside_at i 42 high e (omega arith)))
        (λ _. here lo n i (record w { skip = false }) low high)

  digits-IsWithin :
      (fuel lo i number : ℕ)
      → lo ≤ i
      → i ≤ n
      → n < i + fuel
      → IsWithin lo n (parse_digits fuel m format i number)
  unfolding parse_digits
  digits-IsWithin zero lo i number low high enough = absurd (omega arith)
  digits-IsWithin (suc fuel) lo i number low high enough =
      let digit = u8 (m (format + i) + 2 ^ 8 - 48) in
      IsWithin-if lo n (is_digit (m (format + i)))
        (λ e.
          let le = inside i high (λ z. digit_end (sym e ∙ ap is_digit z ∙ is_digit-zero)) in
          IsWithin-if lo n (too_wide number digit) (λ _. inl refl)
            (λ _.
              digits-IsWithin fuel lo (i + 1) (u8 (number * 10 + digit)) (omega arith) le
                (omega (arith, le))))
        (λ _. here lo n i number low high)
    where
      digit_end : true ≢ false
      digit_end e = ground (arith, e)

  pub width-IsWithin :
      (fuel lo : ℕ) (type : FormatParse) (w : FormatWrapper) (i : ℕ)
      → lo ≤ i
      → i ≤ n
      → n < i + fuel
      → IsWithin lo n (parse_width fuel m format type w i)
  unfolding parse_width
  width-IsWithin fuel lo type w i low high enough =
      IsWithin-if lo n (m (format + i) == 45) (λ _. inl refl)
        (λ _.
          number type (parse_digits fuel m format i 0)
            (digits-IsWithin fuel lo i 0 low high enough))
    where
      number :
          (type : FormatParse) (o : Option (Option (ℕ × ℕ)))
          → IsWithin lo n o
          → IsWithin lo n (with_width type w o)
      number type o (inl refused) = inl (ap (λ x. with_width type w x) refused ∙ none_width type)
        where
          none_width : (type : FormatParse) → with_width type w (some none) ≡ some none
          none_width parse_print = refl
          none_width parse_scan = refl
      number parse_print o (inr (v, j, run, l, h)) =
          subst (λ x. IsWithin lo n (with_width parse_print w x)) (sym run)
            (here lo n j (record w { width = if v == 0 then 255 else v }) l h)
      number parse_scan o (inr (v, j, run, l, h)) =
          subst (λ x. IsWithin lo n (with_width parse_scan w x)) (sym run)
            (IsWithin-if lo n (v == 0) (λ _. inl refl)
              (λ _. here lo n j (record w { width = v }) l h))

  pub precision-IsWithin :
      (fuel lo : ℕ) (w : FormatWrapper) (i : ℕ)
      → lo ≤ i
      → i ≤ n
      → n < i + fuel
      → IsWithin lo n (parse_precision fuel m format w i)
  unfolding parse_precision
  precision-IsWithin fuel lo w i low high enough =
      IsWithin-if lo n (m (format + i) == 46)
        (λ e.
          let le = inside_at i 46 high e (omega arith) in
          IsWithin-if lo n (m (format + i) == 45) (λ _. inl refl)
            (λ _.
              number (parse_digits fuel m format (i + 1) 0)
                (digits-IsWithin fuel lo (i + 1) 0 (omega arith) le (omega (arith, le)))))
        (λ _. here lo n i (record w { precision = 255 }) low high)
    where
      number : (o : Option (Option (ℕ × ℕ))) → IsWithin lo n o → IsWithin lo n (with_precision w o)
      number o (inl refused) = inl (ap (λ x. with_precision w x) refused)
      number o (inr (v, j, run, l, h)) =
          subst (λ x. IsWithin lo n (with_precision w x)) (sym run)
            (here lo n j (record w { precision = v }) l h)

  pub length-IsWithin :
      (lo : ℕ) (w : FormatWrapper) (i : ℕ)
      → lo ≤ i
      → i ≤ n
      → IsWithin lo n (parse_length m format w i)
  unfolding parse_length
  length-IsWithin lo w i low high =
      IsWithin-if lo n (m (format + i) == 104)
        (λ e. twice 104 length_hh length_h (inside_at i 104 high e (omega arith)) (omega arith))
        (λ _.
          IsWithin-if lo n (m (format + i) == 108)
            (λ e. twice 108 length_ll length_l (inside_at i 108 high e (omega arith)) (omega arith))
            (λ _.
              IsWithin-if lo n (m (format + i) == 122)
                (λ e.
                  here lo n (i + 1) (record w { length = length_z }) (omega arith)
                    (inside_at i 122 high e (omega arith)))
                (λ _. here lo n i (record w { length = length_none }) low high)))
    where
      twice :
          (c : ℕ) (double single : FormatLength)
          → i + 1 ≤ n
          → c ≢ 0
          → IsWithin lo n (
              if m (format + (i + 1)) == c
              then some (some (record w { length = double }, i + 2))
              else some (some (record w { length = single }, i + 1)))
      twice c double single le ne =
          IsWithin-if lo n (m (format + (i + 1)) == c)
            (λ e.
              let more = inside_at (i + 1) c le e ne in
              here lo n (i + 2) (record w { length = double }) (omega arith) (omega (arith, more)))
            (λ _. here lo n (i + 1) (record w { length = single }) (omega arith) le)
