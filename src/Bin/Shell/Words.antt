-- ===== src/Bin/Shell/Words.antt =====
-- os/bin/shell/shell.c: what a line says, apart from how `shell_input_parse` goes through it.
use hrishikos.Base.{
  ◌<◌, ◌≢◌, ap, ◌∙◌, arith, ℕ, zero, suc, ◌+◌, min, ◌≤◌, ◌≡◌, refl, List, [], ◌∷◌, ◌++◌, length,
  take, get_or, ◌==◌, if◌then◌else◌, inl, inr, eq-cases, update, ==_ne,
}
use hrishikos.Clib.Strings.Compare.{IsString}

-- The word at the front, if there is one, and then the others.
abbrev pub with_word : (word : List ℕ) → List (List ℕ) → List (List ℕ)
with_word [] words = words
with_word (x ∷ word) words = (x ∷ word) ∷ words

-- The words of a line, which are parted by spaces; `word` is what has been read of the first one.
abbrev pub words_from : (word : List ℕ) → (line : List ℕ) → List (List ℕ)
words_from word [] = with_word word []
words_from word (x ∷ line) =
    if x == 32 then with_word word (words_from [] line) else words_from (word ++ (x ∷ [])) line

abbrev pub words : (line : List ℕ) → List (List ℕ)
words line = words_from [] line

abbrev pub drop_spaces : List ℕ → List ℕ
drop_spaces [] = []
drop_spaces (x ∷ line) = if x == 32 then drop_spaces line else x ∷ line

pub words-drop_spaces : (line : List ℕ) → words (drop_spaces line) ≡ words line
words-drop_spaces [] = refl
words-drop_spaces (x ∷ line) = elim (eq-cases x 32) [
  | inl e ↦ rw e (words-drop_spaces line)
  | inr ne ↦ rw (==_ne x 32 ne, ==_ne x 32 ne) refl
]

module _ {ℓ} {A : Type ℓ} where
  pub take-append_long : (n : ℕ) (xs ys : List A) → n ≤ length xs → take n (xs ++ ys) ≡ take n xs
  take-append_long zero xs ys le = refl
  take-append_long (suc n) [] ys le = absurd (omega arith)
  take-append_long (suc n) (x ∷ xs) ys le = ap (λ l. x ∷ l) (take-append_long n xs ys (omega arith))

  pub take_short : (n : ℕ) (xs : List A) → length xs ≤ n → take n xs ≡ xs
  take_short zero [] le = refl
  take_short zero (x ∷ xs) le = absurd (omega arith)
  take_short (suc n) [] le = refl
  take_short (suc n) (x ∷ xs) le = ap (λ l. x ∷ l) (take_short n xs (omega arith))

  pub length-take : (n : ℕ) (xs : List A) → length (take n xs) ≡ min n (length xs)
  length-take zero xs = omega arith
  length-take (suc n) [] = omega arith
  length-take (suc n) (x ∷ xs) = omega (arith, length-take n xs)

  pub get_or-append_left :
      (xs ys : List A) (j : ℕ) (d : A) → j < length xs → get_or (xs ++ ys) j d ≡ get_or xs j d
  get_or-append_left [] ys j d lt = absurd (omega arith)
  get_or-append_left (x ∷ xs) ys zero d lt = refl
  get_or-append_left (x ∷ xs) ys (suc j) d lt = get_or-append_left xs ys j d (omega arith)

  pub get_or-append_at :
      (xs ys : List A) (y : A) (j : ℕ) (d : A) → j ≡ length xs → get_or (xs ++ (y ∷ ys)) j d ≡ y
  get_or-append_at [] ys y zero d e = refl
  get_or-append_at [] ys y (suc j) d e = absurd (omega arith)
  get_or-append_at (x ∷ xs) ys y zero d e = absurd (omega arith)
  get_or-append_at (x ∷ xs) ys y (suc j) d e = get_or-append_at xs ys y j d (omega arith)

  pub get_or_out : (xs : List A) (j : ℕ) (d : A) → length xs ≤ j → get_or xs j d ≡ d
  get_or_out [] j d le = refl
  get_or_out (x ∷ xs) zero d le = absurd (omega arith)
  get_or_out (x ∷ xs) (suc j) d le = get_or_out xs j d (omega arith)

-- A string depends on its own bytes only.
pub IsString-same :
    (m m' : ℕ → ℕ) (p : ℕ) (xs : List ℕ)
    → ((a : ℕ) → p ≤ a → a ≤ p + length xs → m' a ≡ m a)
    → IsString m p xs
    → IsString m' p xs
IsString-same m m' p [] same s = same p (omega arith) (omega arith) ∙ s
IsString-same m m' p (x ∷ xs) same (e, ne, s) = (
  same p (omega arith) (omega arith) ∙ e,
  ne,
  IsString-same m m' (p + 1) xs (λ a lo hi. same a (omega arith) (omega arith)) s,
)

-- The end of a string, written once more.
pub IsString-end :
    (m : ℕ → ℕ) (p n : ℕ) (xs : List ℕ)
    → n ≡ p + length xs
    → IsString m p xs
    → IsString (update m n 0) p xs
IsString-end m p n [] e s = ground (arith, e)
IsString-end m p n (x ∷ xs) e (ex, ne, s) =
    (ground (arith, e, ex), ne, IsString-end m (p + 1) n xs (omega arith) s)

-- A character appended to a string.
pub IsString-append :
    (m : ℕ → ℕ) (p n x : ℕ) (xs : List ℕ)
    → n ≡ p + length xs
    → x ≢ 0
    → IsString m p xs
    → IsString (update (update m n x) (n + 1) 0) p (xs ++ (x ∷ []))
IsString-append m p n x [] e ne s = (ground (arith, e), ne, ground (arith, e))
IsString-append m p n x (y ∷ xs) e ne (ey, ny, s) =
    (ground (arith, e, ey), ny, IsString-append m (p + 1) n x xs (omega arith) ne s)
