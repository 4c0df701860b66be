-- ===== src/Fs/Path/Delimiter.antt =====
-- os/fs/fs_directory.c: `fs_path_find_last_delimiter`.
use hrishikos.Base.{
  ℕ, zero, suc, ◌+◌, ◌-◌, ◌^◌, ◌≤◌, ◌<◌, ◌≡◌, ◌≢◌, ◌⊎◌, refl, arith, ap, some, List, length, ◌==◌,
  if◌then◌else◌, sub64, Bool-cases, inl, inr,
}
use hrishikos.Clib.Strings.Compare.{IsString, strlen_lem}
use hrishikos.Fs.Path.{byte_at, last_delimiter_loop, path_find_last_delimiter, directory_failure}

-- No byte from index `lo` to index `hi` is a delimiter.
abbrev pub NoDelimiter : (ℕ → ℕ) → (path lo hi : ℕ) → Type 0
NoDelimiter m path lo hi = (k : ℕ) → lo ≤ k → k < hi → m (path + k) ≢ 0x2f

-- `r` is the index of the last delimiter among the first `n` bytes, or the failure where there is
-- none.
abbrev pub IsLastDelimiter : (ℕ → ℕ) → (path n r : ℕ) → Type 0
IsLastDelimiter m path n r =
    ((r < n) × (m (path + r) ≡ 0x2f) × NoDelimiter m path (r + 1) n)
    ⊎ ((r ≡ directory_failure) × NoDelimiter m path 0 n)

byte_at_lem : (m : ℕ → ℕ) (path i : ℕ) → path + i < 2 ^ 64 → byte_at m path i ≡ m (path + i)
byte_at_lem m path i small = ap m (omega arith)

loop-IsLastDelimiter :
    (left : ℕ) (m : ℕ → ℕ) (path i n : ℕ)
    → path + n < 2 ^ 64
    → left ≤ n
    → (left ≢ 0 → i + 1 ≡ left)
    → NoDelimiter m path left n
    → IsLastDelimiter m path n (last_delimiter_loop left m path i)
unfolding last_delimiter_loop
loop-IsLastDelimiter zero m path i n small le at none_after = inr (refl, none_after)
loop-IsLastDelimiter (suc left) m path i n small le at none_after =
    let here : i ≡ left = omega (arith, at (omega arith)) in
    elim (Bool-cases (m (path + left) == 0x2f)) [
      | inl found ↦
          rw (here, byte_at_lem m path left (omega arith), found)
            (inl (omega arith, ground (arith, found), λ k l h. none_after k (omega arith) h))
      | inr other ↦
          rw (here, byte_at_lem m path left (omega arith), other)
            (loop-IsLastDelimiter left m path (sub64 left 1) n small (omega arith)
              (λ ne. omega arith) (λ k l h. ground (arith, none_after k, other)))
    ]

-- The length of a path without the delimiter that it may end with.
abbrev pub trimmed : (ℕ → ℕ) → (path n : ℕ) → ℕ
trimmed m path n = if m (path + (n - 1)) == 0x2f then n - 1 else n

-- For a path that is not empty, `fs_path_find_last_delimiter` ends; its result is the index of the
-- last delimiter, one at the very end left out, or 255 where there is none.
pub path_find_last_delimiter_lem :
    (fuel : ℕ) (m : ℕ → ℕ) (path : ℕ) (xs : List ℕ)
    → IsString m path xs
    → length xs < fuel
    → 0 < length xs
    → path + length xs < 2 ^ 64
    → (r : ℕ) × (path_find_last_delimiter fuel m path ≡ some r)
      × IsLastDelimiter m path (trimmed m path (length xs)) r
unfolding path_find_last_delimiter
path_find_last_delimiter_lem fuel m path xs s enough some_bytes small =
    let n = length xs in
    let last : sub64 n 1 ≡ n - 1 = omega arith in
    let run = strlen_lem fuel m path xs s enough in
    elim (Bool-cases (m (path + (n - 1)) == 0x2f)) [
      | inl trailing ↦ (
        last_delimiter_loop (n - 1) m path (sub64 (n - 1) 1),
        rw (run, last, byte_at_lem m path (n - 1) (omega arith), trailing),
        rw trailing (
            loop-IsLastDelimiter (n - 1) m path (sub64 (n - 1) 1) (n - 1) (omega arith)
              (omega arith) (λ ne. omega arith) (λ k l h. absurd (omega arith))),
      )
      | inr plain ↦ (
        last_delimiter_loop n m path (n - 1),
        rw (run, last, byte_at_lem m path (n - 1) (omega arith), plain),
        rw plain (
            loop-IsLastDelimiter n m path (n - 1) n (omega arith) (omega arith) (λ ne. omega arith)
              (λ k l h. absurd (omega arith))),
      )
    ]
