-- ===== src/Fs/Path/Tests.antt =====
-- os/fs/fs_directory.c: paths at concrete inputs.
use hrishikos.Base.{ℕ, ◌≡◌, refl, arith, List, [], ◌∷◌, some, update}
use hrishikos.Clib.Strings.Compare.{IsString}
use hrishikos.Fs.Path.{path_find_last_delimiter}
use hrishikos.Fs.Path.Delimiter.{IsLastDelimiter, path_find_last_delimiter_lem}

-- The path `/a/b/` at 0x100.
abbrev memory : ℕ → ℕ
memory =
    update (update (update (update (update (λ _. 0) 0x100 47) 0x101 97) 0x102 47) 0x103 98) 0x104 47

abbrev path : List ℕ
path = 47 ∷ 97 ∷ 47 ∷ 98 ∷ 47 ∷ []

memory-IsString : IsString memory 0x100 path
memory-IsString = (
  refl,
  omega arith,
  (refl, omega arith, (refl, omega arith, (refl, omega arith, (refl, omega arith, refl)))),
)

path_find_last_delimiter_example :
    (r : ℕ) × (path_find_last_delimiter 9 memory 0x100 ≡ some r) × IsLastDelimiter memory 0x100 4 r
path_find_last_delimiter_example =
    path_find_last_delimiter_lem 9 memory 0x100 path memory-IsString (omega arith) (omega arith)
      (omega arith)
