-- ===== src/Bin/Shell/Tests.antt =====
-- os/bin/shell/shell.c at concrete inputs.
use hrishikos.Base.{
  ℕ, zero, suc, ◌+◌, ◌*◌, ◌/◌, ◌%◌, ◌<◌, ◌≡◌, ◌≢◌, refl, arith, subst, Bool, true, ◌&&◌, not, some,
  List, [], ◌∷◌, length, get_or, ◌==◌, leb, ltb, if◌then◌else◌,
}
use hrishikos.Clib.Strings.Compare.{IsString}
use hrishikos.Drivers.VgaText.{VgaText}
use hrishikos.Bin.Shell.{
  Arguments, Action, Reading, input_parse, run_command, get_input, read_arguments, command_names,
}
use hrishikos.Bin.Shell.Rows.{IsParsed}
use hrishikos.Bin.Shell.Parse.{input_parse-IsParsed}
use hrishikos.Bin.Shell.Run.{name, IsAction, run_command-IsAction}
use hrishikos.Bin.Shell.Typed.{IsPlain, IsReading, get_input-IsReading}
use hrishikos.Bin.Shell.Prompt.{read_arguments-IsParsed}

-- `" ls  a"` at 0x100.
abbrev spaced : List ℕ
spaced = 32 ∷ 108 ∷ 115 ∷ 32 ∷ 32 ∷ 97 ∷ []

abbrev bytes : ℕ → ℕ
bytes a = if leb 0x100 a then get_or spaced (a % 0x100) 0 else 0

bytes-IsString : IsString bytes 0x100 spaced
bytes-IsString = (
  refl,
  omega arith,
  (
    refl,
    omega arith,
    (refl, omega arith, (refl, omega arith, (refl, omega arith, (refl, omega arith, refl)))),
  ),
)

input_parse_example :
    (b : Arguments) × (input_parse 20 bytes (λ i j. 1) 0x100 ≡ some b)
    × IsParsed ((108 ∷ 115 ∷ []) ∷ (97 ∷ []) ∷ []) b
input_parse_example =
    input_parse-IsParsed 20 bytes (λ i j. 1) 0x100 spaced bytes-IsString (omega arith) (omega arith)

-- The table of names at 0, 16 bytes for each.
abbrev table : ℕ → ℕ
table a =
    if ltb a 0x200 then get_or (name (a / 16)) (a % 16) 0 else get_or (108 ∷ 115 ∷ []) (a % 0x100) 0

abbrev matches : List ℕ → (p : ℕ) → Bool
matches [] p = table p == 0
matches (x ∷ xs) p = (table p == x) && (not (x == 0) && matches xs (p + 1))

matches-IsString : (xs : List ℕ) (p : ℕ) → matches xs p ≡ true → IsString table p xs
matches-IsString [] p e = ground (arith, e)
matches-IsString (x ∷ xs) p e = (
  first (table p) (not (x == 0) && matches xs (p + 1)) e,
  second (table p == x) (matches xs (p + 1)) e,
  matches-IsString xs (p + 1) (third (table p == x) (not (x == 0)) (matches xs (p + 1)) e),
)
  where
    first : (t : ℕ) (b : Bool) → ((t == x) && b) ≡ true → t ≡ x
    first t b e' = ground (arith, e')

    second : (a b : Bool) → (a && (not (x == 0) && b)) ≡ true → x ≢ 0
    second a b e' = ground (arith, e')

    third : (a b c : Bool) → (a && (b && c)) ≡ true → c ≡ true
    third a b c e' = ground (arith, e')

abbrev all_match : List (List ℕ) → (p : ℕ) → Bool
all_match [] p = true
all_match (x ∷ xs) p = matches x p && all_match xs (p + 16)

all_match-get_or :
    (xs : List (List ℕ)) (p j : ℕ)
    → all_match xs p ≡ true
    → j < length xs
    → IsString table (p + 16 * j) (get_or xs j [])
all_match-get_or [] p j e below = absurd (omega arith)
all_match-get_or (x ∷ xs) p zero e below =
    let here : p ≡ p + 16 * 0 = omega arith in
    subst (λ q. IsString table q x) here
      (matches-IsString x p (left (matches x p) (all_match xs (p + 16)) e))
  where
    left : (a b : Bool) → (a && b) ≡ true → a ≡ true
    left a b e' = ground (arith, e')
all_match-get_or (x ∷ xs) p (suc j) e below =
    let here : p + 16 + 16 * j ≡ p + 16 * suc j = omega arith in
    subst (λ q. IsString table q (get_or xs j [])) here
      (all_match-get_or xs (p + 16) j (right (matches x p) (all_match xs (p + 16)) e) (omega arith))
  where
    right : (a b : Bool) → (a && b) ≡ true → b ≡ true
    right a b e' = ground (arith, e')

table-IsString : (j : ℕ) → j < 21 → IsString table (16 * j) (name j)
table-IsString j below =
    let here : 0 + 16 * j ≡ 16 * j = omega arith in
    subst (λ q. IsString table q (name j)) here (all_match-get_or command_names 0 j refl below)

run_command_example :
    (r : Action) × (run_command 20 table (λ i. 16 * i) 0x302 0x300 ≡ some r)
    × IsAction (108 ∷ 115 ∷ []) r
run_command_example =
    run_command-IsAction 20 table (λ i. 16 * i) 0x302 0x300 (108 ∷ 115 ∷ []) table-IsString refl
      (refl, omega arith, (refl, omega arith, refl)) (omega arith) (omega arith)

abbrev corner : VgaText
corner = record {
  cursor_x = 79;
  cursor_y = 24;
  foreground_color = 7;
  background_color = 0;
  memory = λ a. 0;
  hardware_cursor = 1999;
}

-- `"l"`, nothing, `"s"` and a newline.
abbrev keys : List ℕ
keys = 108 ∷ 255 ∷ 115 ∷ 10 ∷ []

keys-IsPlain : IsPlain keys
keys-IsPlain zero = (omega arith, omega arith)
keys-IsPlain (suc zero) = (omega arith, omega arith)
keys-IsPlain (suc (suc zero)) = (omega arith, omega arith)
keys-IsPlain (suc (suc (suc zero))) = (omega arith, omega arith)
keys-IsPlain (suc (suc (suc (suc i)))) = (omega arith, omega arith)

get_input_example :
    (r : Reading) × (get_input corner keys ≡ some r) × IsReading keys (108 ∷ 115 ∷ []) r
get_input_example = get_input-IsReading corner keys (omega arith, omega arith) keys-IsPlain

read_arguments_example :
    (b : Arguments) × (read_arguments 1024 (λ i j. 1) corner keys ≡ some (some b))
    × IsParsed ((108 ∷ 115 ∷ []) ∷ []) b
read_arguments_example =
    read_arguments-IsParsed (λ i j. 1) corner keys 3 (omega arith, omega arith) keys-IsPlain refl
