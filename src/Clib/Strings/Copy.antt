-- ===== src/Clib/Strings/Copy.antt =====
-- os/lib/string.c: `memcpy`, `memmove`, `strcpy`; os/lib/ctype.c: the changes of case.
use hrishikos.Base.{
  ℕ, zero, suc, ◌+◌, ◌-◌, ◌≤◌, ◌<◌, ◌≡◌, ◌⊎◌, arith, ◌&&◌, ltb, leb, if◌then◌else◌, update,
}
use hrishikos.Clib.Strings.{copy_up, copy_down, memcpy, memmove}

-- Memory after a copy of `count` bytes that reads the bytes as they were.
abbrev pub copied : (ℕ → ℕ) → (destination source count : ℕ) → ℕ → ℕ
copied m d s count a = if leb d a && ltb a (d + count) then m (s + (a - d)) else m a

copy_up_lem :
    (m : ℕ → ℕ) (d s left i a : ℕ)
    → (d ≤ s) ⊎ (s + i + left ≤ d)
    → copy_up m d s left i a
      ≡ (if leb (d + i) a && ltb a (d + i + left) then m (s + (a - d)) else m a)
unfolding copy_up
copy_up_lem m d s zero i a apart = ground arith
copy_up_lem m d s (suc left) i a apart =
    let m' = update m (d + i) (m (s + i)) in ground (arith, copy_up_lem m' d s left (i + 1) a)

copy_down_lem :
    (m : ℕ → ℕ) (d s count a : ℕ) → s < d → copy_down m d s count a ≡ copied m d s count a
unfolding copy_down
copy_down_lem m d s zero a below = ground arith
copy_down_lem m d s (suc i) a below =
    let m' = update m (d + i) (m (s + i)) in ground (arith, copy_down_lem m' d s i a below)

-- `memmove` copies the bytes as they stood before the call, however the two ranges overlap, and
-- changes no byte outside the destination.
pub memmove_lem : (m : ℕ → ℕ) (d s count a : ℕ) → memmove m d s count a ≡ copied m d s count a
unfolding memmove
memmove_lem m d s count a = ground (arith, copy_up_lem m d s count 0 a, copy_down_lem m d s count a)

-- Where the destination does not start within the source past its first byte, `memcpy` copies the
-- bytes as they stood before the call and changes no byte outside the destination.
pub memcpy_lem :
    (m : ℕ → ℕ) (d s count a : ℕ)
    → (d ≤ s) ⊎ (s + count ≤ d)
    → memcpy m d s count a ≡ copied m d s count a
unfolding memcpy
memcpy_lem m d s count a apart = ground (arith, copy_up_lem m d s count 0 a)
