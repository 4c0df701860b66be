-- ===== src/Clib/Stdlib/Tests.antt =====
-- os/lib/stdlib.c at concrete inputs.
use hrishikos.Base.{ℕ, ◌+◌, ◌≡◌, ◌⊎◌, ◌<◌, ◌≤◌, arith, some}
use hrishikos.Clib.Stdlib.{ull_to_str, str_to_ull, number_fuel}
use hrishikos.Clib.Stdlib.Print.{IsNumeral, ull_to_str_lem}
use hrishikos.Clib.Stdlib.Parse.{str_to_ull-ull_to_str}

abbrev blank : ℕ → ℕ
blank a = 0

ull_to_str_example :
    (n : ℕ) × (m' : ℕ → ℕ) × (ull_to_str blank 255 0x100 16 ≡ some (n, m'))
    × (0 < n)
    × (n ≤ 64)
    × IsNumeral m' 0x100 16 255 n
    × ((a : ℕ) → (a < 0x100) ⊎ (0x100 + n < a) → m' a ≡ blank a)
ull_to_str_example = ull_to_str_lem blank 255 0x100 16 (omega arith) (omega arith) (omega arith)

str_to_ull-ull_to_str_example :
    (n : ℕ) × (m' : ℕ → ℕ) × (ull_to_str blank 1234 0x100 10 ≡ some (n, m'))
    × (str_to_ull number_fuel m' 0x100 10 ≡ some 1234)
str_to_ull-ull_to_str_example =
    str_to_ull-ull_to_str blank 1234 0x100 10 (omega arith) (omega arith) (omega arith)
