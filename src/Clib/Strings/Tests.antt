-- ===== src/Clib/Strings/Tests.antt =====
-- os/lib/string.c at concrete inputs.
use hrishikos.Base.{
  ℕ, ◌+◌, ◌-◌, ◌≡◌, refl, arith, List, [], ◌∷◌, some, update, ◌&&◌, ltb, leb, if◌then◌else◌,
}
use hrishikos.Clib.Strings.{memmove, strrev}
use hrishikos.Clib.Strings.Copy.{memmove_lem}
use hrishikos.Clib.Strings.Compare.{IsString}
use hrishikos.Clib.Strings.Reverse.{strrev_lem}

-- The string `abc` at 0x100 and the string `ab` at 0x200.
abbrev bytes : ℕ → ℕ
bytes =
    update (update (update (update (update (λ _. 0) 0x100 97) 0x101 98) 0x102 99) 0x200 97) 0x201 98

abbrev abc : List ℕ
abc = 97 ∷ 98 ∷ 99 ∷ []

abbrev ab : List ℕ
ab = 97 ∷ 98 ∷ []

bytes-IsString : IsString bytes 0x100 abc
bytes-IsString = (refl, omega arith, (refl, omega arith, (refl, omega arith, refl)))

bytes-IsString_second : IsString bytes 0x200 ab
bytes-IsString_second = (refl, omega arith, (refl, omega arith, refl))

memmove_example : memmove bytes 0x101 0x100 3 0x102 ≡ 98
memmove_example = memmove_lem bytes 0x101 0x100 3 0x102

strrev_example :
    (m' : ℕ → ℕ) × (strrev 9 bytes 0x100 ≡ some m')
    × ((a : ℕ)
        → m' a ≡ (
            if leb 0x100 a && ltb a (0x100 + 3)
            then bytes (0x100 + (0x100 + 3 - 1) - a)
            else bytes a))
strrev_example =
    strrev_lem 9 bytes 0x100 abc bytes-IsString (omega arith) (omega arith) (omega arith)
