-- ===== src/Bin/Shell/Run.antt =====
-- os/bin/shell/shell.c: which command `shell_run_command` calls.
use hrishikos.Base.{
  ℕ, zero, suc, ◌+◌, ◌≤◌, ◌<◌, ◌≡◌, ◌≢◌, refl, arith, ◌∙◌, Bool, true, ◌&&◌, some, List, [], ◌∷◌,
  length, get_or, leb, inl, inr, eq-cases,
}
use hrishikos.Clib.Strings.{strcmp}
use hrishikos.Clib.Strings.Compare.{IsString, strcmp_lem}
use hrishikos.Bin.Shell.{Action, nothing, call, invalid, find_command, run_command, command_names}

-- The name of command `i`.
abbrev pub name : ℕ → List ℕ
name i = get_or command_names i []

-- What is to be done on the word `xs`.
abbrev pub IsAction : List ℕ → Action → Type 0
IsAction xs nothing = xs ≡ []
IsAction xs (call i) = (xs ≢ []) × (i < 21) × (name i ≡ xs) × ((j : ℕ) → j < i → name j ≢ xs)
IsAction xs invalid = (xs ≢ []) × ((j : ℕ) → j < 21 → name j ≢ xs)

abbrev all_short : List (List ℕ) → Bool
all_short [] = true
all_short (x ∷ xs) = leb (length x) 8 && all_short xs

short-get_or : (xs : List (List ℕ)) (i : ℕ) → all_short xs ≡ true → length (get_or xs i []) ≤ 8
short-get_or [] i e = omega arith
short-get_or (x ∷ xs) zero e = ground (arith, e)
short-get_or (x ∷ xs) (suc i) e = short-get_or xs i (ground (arith, e))

name_short : (i : ℕ) → length (name i) ≤ 8
name_short i = short-get_or command_names i refl

find_step :
    (fuel left : ℕ) (m : ℕ → ℕ) (command : ℕ → ℕ) (argument i : ℕ)
    → strcmp fuel m (command i) argument ≡ some 0
    → find_command fuel (suc left) m command argument i
      ≡ find_command fuel left m command argument (i + 1)
unfolding find_command
find_step fuel left m command argument i e = rw e refl

find_hit :
    (fuel left : ℕ) (m : ℕ → ℕ) (command : ℕ → ℕ) (argument i : ℕ)
    → strcmp fuel m (command i) argument ≡ some 1
    → find_command fuel (suc left) m command argument i ≡ some (call i)
unfolding find_command
find_hit fuel left m command argument i e = rw e refl

find_miss :
    (fuel : ℕ) (m : ℕ → ℕ) (command : ℕ → ℕ) (argument i : ℕ)
    → find_command fuel 0 m command argument i ≡ some invalid
unfolding find_command
find_miss fuel m command argument i = refl

find_command-IsAction :
    (left fuel : ℕ) (m : ℕ → ℕ) (command : ℕ → ℕ) (argument i : ℕ) (xs : List ℕ)
    → ((j : ℕ) → j < 21 → IsString m (command j) (name j))
    → IsString m argument xs
    → length xs < fuel
    → 8 < fuel
    → xs ≢ []
    → i + left ≡ 21
    → ((j : ℕ) → j < i → name j ≢ xs)
    → (r : Action) × (find_command fuel left m command argument i ≡ some r) × IsAction xs r
find_command-IsAction zero fuel m command argument i xs names s enough eight ne all before =
    (invalid, find_miss fuel m command argument i, (ne, λ j below. before j (omega (arith, all))))
find_command-IsAction (suc left) fuel m command argument i xs names s enough eight ne all before =
    elim (strcmp_lem fuel m (command i) argument (name i) xs (names i (omega (arith, all))) s
      (omega (arith, name_short i)) enough) [
        | inl (equal, same) ↦ (
          call i,
          find_hit fuel left m command argument i equal,
          (ne, omega (arith, all), same, before),
        )
        | inr (differs, other) ↦
            let (r, run, is) =
              find_command-IsAction left fuel m command argument (i + 1) xs names s enough eight ne
                (omega (arith, all))
                (λ j below. elim (eq-cases j i) [
                  | inl here ↦ rw here other
                  | inr off ↦ before j (omega arith)
                ]) in
            (r, find_step fuel left m command argument i differs ∙ run, is)
      ]

run_empty :
    (fuel : ℕ) (m : ℕ → ℕ) (command : ℕ → ℕ) (empty argument : ℕ)
    → strcmp fuel m argument empty ≡ some 1
    → run_command fuel m command empty argument ≡ some nothing
unfolding run_command
run_empty fuel m command empty argument e = rw e refl

run_find :
    (fuel : ℕ) (m : ℕ → ℕ) (command : ℕ → ℕ) (empty argument : ℕ)
    → strcmp fuel m argument empty ≡ some 0
    → run_command fuel m command empty argument ≡ find_command fuel 21 m command argument 0
unfolding run_command
run_find fuel m command empty argument e = rw e refl

-- With the 21 names of the table, an empty string and a first word in memory, all of which end
-- within the fuel, `shell_run_command` does nothing on an empty word, calls the first command whose
-- name is the word, and else prints that the command is invalid.
pub run_command-IsAction :
    (fuel : ℕ) (m : ℕ → ℕ) (command : ℕ → ℕ) (empty argument : ℕ) (xs : List ℕ)
    → ((j : ℕ) → j < 21 → IsString m (command j) (name j))
    → IsString m empty []
    → IsString m argument xs
    → length xs < fuel
    → 8 < fuel
    → (r : Action) × (run_command fuel m command empty argument ≡ some r) × IsAction xs r
run_command-IsAction fuel m command empty argument xs names nil s enough eight =
    elim (strcmp_lem fuel m argument empty xs [] s nil enough (omega arith)) [
      | inl (equal, same) ↦ (nothing, run_empty fuel m command empty argument equal, same)
      | inr (differs, other) ↦
          let (r, run, is) =
            find_command-IsAction 21 fuel m command argument 0 xs names s enough eight other refl
              (λ j below. absurd (omega arith)) in
          (r, run_find fuel m command empty argument differs ∙ run, is)
    ]
