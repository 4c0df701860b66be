-- ===== src/Clib/Strings/Compare.antt =====
-- os/lib/string.c: `strlen` and `strcmp`.
use hrishikos.Base.{
  ℕ, zero, suc, ◌+◌, ◌<◌, ◌≡◌, ◌≢◌, ◌⊎◌, refl, arith, ap, ◌∙◌, some, List, [], ◌∷◌, length, inl,
  inr, eq-cases, ◌==◌, if◌then◌else◌, ==_ne, ==_refl, false,
}
use hrishikos.Clib.Strings.{strlen_loop, strlen, compare, strcmp, is_digit}

-- At `p` stand the bytes `xs`, none of them zero, and then a zero.
abbrev pub IsString : (ℕ → ℕ) → ℕ → List ℕ → Type 0
IsString m p [] = m p ≡ 0
IsString m p (x ∷ xs) = (m p ≡ x) × (x ≢ 0) × IsString m (p + 1) xs

-- The `n` bytes at `p`.
abbrev pub read : (ℕ → ℕ) → (p n : ℕ) → List ℕ
read m p zero = []
read m p (suc n) = m p ∷ read m (p + 1) n

pub length-read : (m : ℕ → ℕ) (p n : ℕ) → length (read m p n) ≡ n
length-read m p zero = refl
length-read m p (suc n) = ap suc (length-read m (p + 1) n)

pub read-IsString :
    (m : ℕ → ℕ) (p n : ℕ)
    → ((i : ℕ) → i < n → m (p + i) ≢ 0)
    → m (p + n) ≡ 0
    → IsString m p (read m p n)
read-IsString m p zero ne end = ap m (omega arith) ∙ end
read-IsString m p (suc n) ne end = (
  refl,
  λ e. ne 0 (omega arith) (ap m (omega arith) ∙ e),
  read-IsString m (p + 1) n (λ i h e. ne (i + 1) (omega arith) (ap m (omega arith) ∙ e))
      (ap m (omega arith) ∙ end),
)

strlen_loop_lem :
    (fuel : ℕ) (m : ℕ → ℕ) (p n q : ℕ) (xs : List ℕ)
    → q ≡ p + n
    → IsString m q xs
    → length xs < fuel
    → strlen_loop fuel m p n ≡ some (n + length xs)
unfolding strlen_loop
strlen_loop_lem zero m p n q xs here s enough = absurd (omega arith)
strlen_loop_lem (suc fuel) m p n q [] here s enough = rw (← here, s) (ap some (omega arith))
strlen_loop_lem (suc fuel) m p n q (x ∷ xs) here (e, ne, s) enough =
    rw (← here, e, ==_ne x 0 ne)
      (strlen_loop_lem fuel m p (n + 1) (q + 1) xs (omega arith) s (omega arith)
        ∙ ap some (omega arith))

-- `strlen` of a string ends, with its length.
pub strlen_lem :
    (fuel : ℕ) (m : ℕ → ℕ) (p : ℕ) (xs : List ℕ)
    → IsString m p xs
    → length xs < fuel
    → strlen fuel m p ≡ some (length xs)
unfolding strlen
strlen_lem fuel m p xs s enough =
    strlen_loop_lem fuel m p 0 p xs (omega arith) s enough ∙ ap some (omega arith)

head_of : ℕ → List ℕ → ℕ
head_of d [] = d
head_of d (x ∷ xs) = x

tail_of : List ℕ → List ℕ
tail_of [] = []
tail_of (x ∷ xs) = xs

-- `compare` tells whether the two strings are equal.
abbrev Tells : ℕ → List ℕ → List ℕ → Type 0
Tells r xs ys = ((r ≡ 1) × (xs ≡ ys)) ⊎ ((r ≡ 0) × (xs ≢ ys))

compare-Tells :
    (m : ℕ → ℕ) (a b i p q : ℕ) (xs ys : List ℕ)
    → p ≡ a + i
    → q ≡ b + i
    → IsString m p xs
    → IsString m q ys
    → length xs ≡ length ys
    → Tells (compare m a b (length xs) i) xs ys
unfolding compare head_of tail_of
compare-Tells m a b i p q [] [] hp hq s t e = inl (refl, refl)
compare-Tells m a b i p q [] (y ∷ ys) hp hq s t e = absurd (omega arith)
compare-Tells m a b i p q (x ∷ xs) [] hp hq s t e = absurd (omega arith)
compare-Tells m a b i p q (x ∷ xs) (y ∷ ys) hp hq (ex, nx, s) (ey, ny, t) e =
    let rest =
      compare-Tells m a b (i + 1) (p + 1) (q + 1) xs ys (omega arith) (omega arith) s t
        (omega arith) in
    rw (← hp, ← hq, ex, ey)
      (elim (eq-cases x y) [
        | inl same ↦
            rw (same, ==_refl y)
              (elim rest [
                | inl (one, eq) ↦ inl (one, ap (λ (l : List ℕ). y ∷ l) eq)
                | inr (none_, ne) ↦ inr (none_, λ q. ne (ap tail_of q))
              ])
        | inr differ ↦ rw (==_ne x y differ) (inr (refl, λ q. differ (ap (head_of 0) q)))
      ])

strcmp_run :
    (fuel : ℕ) (m : ℕ → ℕ) (a b n k : ℕ)
    → strlen fuel m a ≡ some n
    → strlen fuel m b ≡ some k
    → strcmp fuel m a b ≡ some (if n == k then compare m a b n 0 else 0)
unfolding strcmp
strcmp_run fuel m a b n k ea eb = rw (ea, eb)

-- `strcmp` of two strings ends, with 1 if they are equal and with 0 if they are not.
pub strcmp_lem :
    (fuel : ℕ) (m : ℕ → ℕ) (a b : ℕ) (xs ys : List ℕ)
    → IsString m a xs
    → IsString m b ys
    → length xs < fuel
    → length ys < fuel
    → ((strcmp fuel m a b ≡ some 1) × (xs ≡ ys)) ⊎ ((strcmp fuel m a b ≡ some 0) × (xs ≢ ys))
strcmp_lem fuel m a b xs ys s t hx hy = elim (eq-cases (length xs) (length ys)) [
  | inl same ↦ elim (compare-Tells m a b 0 a b xs ys (omega arith) (omega arith) s t same) [
    | inl (one, eq) ↦ inl (run ∙ rw (same, ==_refl (length ys)) (ap some (rw same at one)), eq)
    | inr (nil, ne) ↦ inr (run ∙ rw (same, ==_refl (length ys)) (ap some (rw same at nil)), ne)
  ]
  | inr differ ↦ inr (
    run ∙ rw (==_ne (length xs) (length ys) differ),
    λ q. differ (ap (λ (l : List ℕ). length l) q),
  )
]
  where
    run :
        strcmp fuel m a b ≡ some (if length xs == length ys then compare m a b (length xs) 0 else 0)
    run =
        strcmp_run fuel m a b (length xs) (length ys) (strlen_lem fuel m a xs s hx)
          (strlen_lem fuel m b ys t hy)

-- The end of a string is no digit.
pub is_digit-zero : is_digit 0 ≡ false
unfolding is_digit
is_digit-zero = refl

-- Behind the bytes of a string stands a zero.
pub IsString-end_zero : (m : ℕ → ℕ) (p : ℕ) (xs : List ℕ) → IsString m p xs → m (p + length xs) ≡ 0
IsString-end_zero m p [] s = ap m (omega arith) ∙ s
IsString-end_zero m p (x ∷ xs) (e, ne, s) = ap m (omega arith) ∙ IsString-end_zero m (p + 1) xs s

-- The letter `d` is no digit.
pub is_digit-d : is_digit 100 ≡ false
unfolding is_digit
is_digit-d = refl

-- The same bytes elsewhere are the same string.
pub IsString-shift :
    (m m' : ℕ → ℕ) (p q : ℕ) (xs : List ℕ)
    → ((a : ℕ) → a < length xs + 1 → m' (q + a) ≡ m (p + a))
    → IsString m p xs
    → IsString m' q xs
IsString-shift m m' p q [] same s =
    ap m' (omega arith) ∙ same 0 (omega arith) ∙ ap m (omega arith) ∙ s
IsString-shift m m' p q (x ∷ xs) same (e, ne, s) = (
  ap m' (omega arith) ∙ same 0 (omega arith) ∙ ap m (omega arith) ∙ e,
  ne,
  IsString-shift m m' (p + 1) (q + 1) xs
      (λ a h. ap m' (omega arith) ∙ same (a + 1) (omega arith) ∙ ap m (omega arith)) s,
)
