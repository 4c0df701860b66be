-- ===== src/Clib/File/Loop.antt =====
-- os/lib/file.c: the loop of `file_read` within a block.
use hrishikos.Base.{
  ℕ, zero, suc, ◌+◌, ◌-◌, ◌%◌, ◌^◌, min, ◌≤◌, ◌<◌, ◌≡◌, ◌≢◌, inl, inr, refl, arith, ap, ◌∙◌, ◌&&◌,
  Option, some, ltb, leb, if◌then◌else◌, update, add64, ap₂, eq-cases, ==_ne, if_false,
}
use native.Mathlib.Nat.{mod-eq_of_lt}
use hrishikos.Clib.Bitmap.{Drive}
use hrishikos.Fs.Superblock.{Superblock}
use hrishikos.Fs.Inode.{State, Layout}
use hrishikos.Clib.File.{File, get_byte, next_block, read_loop}

-- `n` bytes of the block, from byte `cursor` on, stand in the buffer from index `i` on.
abbrev pub IsFilled : (block : ℕ → ℕ) (cursor i n : ℕ) (old new : ℕ → ℕ) → Type 0
IsFilled block cursor i n old new =
    (a : ℕ)
    → new a ≡ (if leb i a && ltb a (i + n) then get_byte block (cursor + (a - i)) else old a)

module _ {S : Type 0} (drive : Drive S) (superblock : Superblock) (layout : Layout)
    (garbage : ℕ → ℕ) where
  stay :
      (s : State S) (file : File) (slot : ℕ)
      → file.cursor % superblock.bytes_per_block ≢ 0
      → next_block drive superblock layout garbage s file slot ≡ some (file, s)
  unfolding next_block
  stay s file slot ne = if_false _ (==_ne (file.cursor % superblock.bytes_per_block) 0 ne)

  pub read_step :
      (left : ℕ) (s t : State S) (file loaded : File) (buffer : ℕ → ℕ) (slot i byte cursor : ℕ)
      → next_block drive superblock layout garbage s file slot ≡ some (loaded, t)
      → get_byte loaded.block (loaded.cursor % superblock.bytes_per_block) ≡ byte
      → add64 loaded.cursor 1 ≡ cursor
      → read_loop drive superblock layout garbage (suc left) s file buffer slot i
        ≡ read_loop drive superblock layout garbage left t
            (record loaded { cursor = cursor })
            (update buffer i byte)
            slot
            (i + 1)
  unfolding read_loop
  read_step left s t file loaded buffer slot i byte cursor next here on =
      rw next refl
      ∙ ap₂
          (λ c b.
            read_loop drive superblock layout garbage left t (record loaded { cursor = c })
              (update buffer i b) slot (i + 1))
          on here

  pub read_end :
      (s : State S) (file : File) (buffer : ℕ → ℕ) (slot i : ℕ)
      → read_loop drive superblock layout garbage 0 s file buffer slot i ≡ some (buffer, file, s)
  unfolding read_loop
  read_end s file buffer slot i = refl

  -- The call fills the buffer from the block.
  abbrev pub Fills :
      (block : ℕ → ℕ) (cursor i n : ℕ) → (ℕ → ℕ) → Option ((ℕ → ℕ) × File × State S) → Type 0
  Fills block cursor i n old o =
      (new : ℕ → ℕ) × (file : File) × (s : State S) × (o ≡ some (new, file, s))
      × (file.cursor ≡ cursor + n)
      × IsFilled block cursor i n old new

  pub IsFilled-cons :
      (block : ℕ → ℕ) (cursor i n : ℕ) (old new : ℕ → ℕ)
      → IsFilled block (cursor + 1) (i + 1) n (update old i (get_byte block cursor)) new
      → IsFilled block cursor i (suc n) old new
  IsFilled-cons block cursor i n old new rest a = elim (eq-cases a i) [
    | inl here ↦
        let start : cursor + (a - i) ≡ cursor = omega (arith, here) in
        rest a ∙ rw start (ground (arith, here))
    | inr off ↦ elim (eq-cases (min a i) a) [
      | inl below ↦ rest a ∙ ground (arith, off, below)
      | inr above ↦
          let same : cursor + 1 + (a - (i + 1)) ≡ cursor + (a - i) = omega (arith, off, above) in
          rest a ∙ rw same (ground (arith, off, above))
    ]
  ]

  pub read_loop-Fills :
      (left : ℕ) (s : State S) (file : File) (buffer : ℕ → ℕ) (slot i cursor : ℕ)
      → file.cursor ≡ cursor
      → 0 < cursor
      → cursor + left ≤ superblock.bytes_per_block
      → superblock.bytes_per_block < 2 ^ 63
      → Fills file.block cursor i left buffer
          (read_loop drive superblock layout garbage left s file buffer slot i)
  read_loop-Fills zero s file buffer slot i cursor at positive fits small =
      (buffer, file, s, read_end s file buffer slot i, omega (arith, at), λ a. ground arith)
  read_loop-Fills (suc left) s file buffer slot i cursor at positive fits small =
      let inside : file.cursor % superblock.bytes_per_block ≡ cursor =
        mod-eq_of_lt {n = file.cursor} {m = superblock.bytes_per_block} (omega (arith, at, fits))
        ∙ at in
      let byte = get_byte file.block cursor in
      let (new, after, t, run, end, filled) =
        read_loop-Fills left s (record file { cursor = cursor + 1 }) (update buffer i byte) slot
          (i + 1) (cursor + 1) refl (omega arith) (omega (arith, fits)) small in
      (
        new,
        after,
        t,
        read_step left s s file file buffer slot i byte (cursor + 1)
              (stay s file slot (omega (arith, inside, positive)))
              (ap (λ c. get_byte file.block c) inside) (omega (arith, at, fits, small))
            ∙ run,
        omega (arith, end),
        IsFilled-cons file.block cursor i left buffer new filled,
      )
