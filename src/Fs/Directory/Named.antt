-- ===== src/Fs/Directory/Named.antt =====
-- os/fs/fs_directory.c: the names of entries, and a round of `fs_directory_entry_find`.
use hrishikos.Base.{
  ◌>>=◌, ℕ, suc, ◌+◌, ◌-◌, ◌%◌, ◌≤◌, ◌<◌, ◌≡◌, ◌≢◌, ◌⊎◌, inl, inr, refl, arith, ap, ◌∙◌, true,
  Option, some, none, List, length, ◌==◌, ltb, if◌then◌else◌, update, eq-cases, ==_ne, if_true,
  if_false,
}
use hrishikos.Clib.Bitmap.{Drive}
use hrishikos.Clib.Strings.{strcmp}
use hrishikos.Clib.Strings.Compare.{IsString, IsString-shift}
use hrishikos.Fs.Superblock.{Superblock}
use hrishikos.Fs.Inode.{State, Layout}
use hrishikos.Fs.Path.{directory_failure}
use hrishikos.Fs.Directory.{
  DirectoryEntry, EntryLayout, entries_per_block, with_name, find_block_of, find_loop,
}

-- The entry has that name, which leaves room for the zero.
pub record IsNamed (e : DirectoryEntry) (ys : List ℕ) : Type 0 where
  pub size : e.name_length ≡ length ys
  pub room : length ys < 54
  pub bytes : IsString (update e.name (length ys) 0) 0 ys

-- The name that is looked for stands apart from the array at `local`.
pub record IsApart (m : ℕ → ℕ) (name local : ℕ) (xs : List ℕ) : Type 0 where
  pub string : IsString m name xs
  pub apart : (name + length xs < local) ⊎ (local + 54 ≤ name)

pub named-IsString :
    (m : ℕ → ℕ) (local : ℕ) (e : DirectoryEntry) (ys : List ℕ)
    → IsNamed e ys
    → IsString (with_name m local e) local ys
named-IsString m local e ys is =
    let size = is.size in
    IsString-shift (update e.name (length ys) 0) (with_name m local e) 0 local ys
      (λ a h. place a h (omega arith) (omega arith)) is.bytes
  where
    place :
        (a : ℕ)
        → a < length ys + 1
        → local + a - local ≡ a
        → 0 + a ≡ a
        → with_name m local e (local + a) ≡ update e.name (length ys) 0 (0 + a)
    place a h back start = rw (back, start) (ground (arith, h, is.size))

pub apart-IsString :
    (m : ℕ → ℕ) (name local : ℕ) (e : DirectoryEntry) (xs ys : List ℕ)
    → IsApart m name local xs
    → IsNamed e ys
    → IsString (with_name m local e) name xs
apart-IsString m name local e xs ys apart is =
    IsString-shift m (with_name m local e) name name xs
      (λ a h. ground (arith, h, apart.apart, is.size, is.room)) apart.string

-- What the search has found among the entries of the block from `i` up to `n`, named by `names`.
abbrev pub IsFirst :
    (entry : ℕ → DirectoryEntry) (names : ℕ → List ℕ) (xs : List ℕ) (i n : ℕ)
    → DirectoryEntry
    → Type 0
IsFirst entry names xs i n e =
    ((k : ℕ) × (i ≤ k)
      × (k < n)
      × (e ≡ entry k)
      × (names k ≡ xs)
      × ((j : ℕ) → i ≤ j → j < k → names j ≢ xs))
    ⊎ ((e.type ≡ directory_failure) × ((j : ℕ) → i ≤ j → j < n → names j ≢ xs))

module _ {S : Type 0} (drive : Drive S) (superblock : Superblock) (layout : Layout)
    (garbage : ℕ → ℕ) (entries : EntryLayout) where
  pub find_step :
      (left fuel : ℕ) (m : ℕ → ℕ) (name local : ℕ) (s t : State S) (slot i k : ℕ)
      (block loaded : ℕ → ℕ) (e : DirectoryEntry)
      → find_block_of drive superblock layout garbage entries s slot i block ≡ some (loaded, t)
      → i % entries_per_block superblock ≡ k
      → ltb (entries.entry loaded k).name_length 54 ≡ true
      → strcmp fuel (with_name m local (entries.entry loaded k)) name local ≡ some 0
      → find_loop drive superblock layout garbage entries
          (suc left)
          fuel
          m
          name
          local
          s
          slot
          i
          block
          e
        ≡ find_loop drive superblock layout garbage entries left fuel m name local t slot
            (i + 1)
            loaded
            (entries.entry loaded k)
  unfolding find_loop
  find_step left fuel m name local s t slot i k block loaded e next at room differs =
      rw (next, at)
        (ap
          (λ o. o >>= λ equal.
            if equal == 0
            then find_loop drive superblock layout garbage entries left fuel m name local t slot
                (i + 1) loaded (entries.entry loaded k)
            else some (entries.entry loaded k, t))
          (if_true none room ∙ differs))

  pub find_hit :
      (left fuel : ℕ) (m : ℕ → ℕ) (name local : ℕ) (s t : State S) (slot i k : ℕ)
      (block loaded : ℕ → ℕ) (e : DirectoryEntry)
      → find_block_of drive superblock layout garbage entries s slot i block ≡ some (loaded, t)
      → i % entries_per_block superblock ≡ k
      → ltb (entries.entry loaded k).name_length 54 ≡ true
      → strcmp fuel (with_name m local (entries.entry loaded k)) name local ≡ some 1
      → find_loop drive superblock layout garbage entries
          (suc left)
          fuel
          m
          name
          local
          s
          slot
          i
          block
          e
        ≡ some (entries.entry loaded k, t)
  unfolding find_loop
  find_hit left fuel m name local s t slot i k block loaded e next at room equals =
      rw (next, at)
        (ap
          (λ o. o >>= λ equal.
            if equal == 0
            then find_loop drive superblock layout garbage entries left fuel m name local t slot
                (i + 1) loaded (entries.entry loaded k)
            else some (entries.entry loaded k, t))
          (if_true none room ∙ equals))

  pub find_end :
      (fuel : ℕ) (m : ℕ → ℕ) (name local : ℕ) (s : State S) (slot i : ℕ) (block : ℕ → ℕ)
      (e : DirectoryEntry)
      → find_loop drive superblock layout garbage entries 0 fuel m name local s slot i block e
        ≡ some (record e { type = directory_failure }, s)
  unfolding find_loop
  find_end fuel m name local s slot i block e = refl

  pub same_block :
      (s : State S) (slot i : ℕ) (block : ℕ → ℕ)
      → i % entries_per_block superblock ≢ 0
      → find_block_of drive superblock layout garbage entries s slot i block ≡ some (block, s)
  unfolding find_block_of
  same_block s slot i block ne = if_false _ (==_ne (i % entries_per_block superblock) 0 ne)

  abbrev pub Finds :
      (entry : ℕ → DirectoryEntry) (names : ℕ → List ℕ) (xs : List ℕ) (i n : ℕ)
      → Option (DirectoryEntry × State S)
      → Type 0
  Finds entry names xs i n o =
      (e : DirectoryEntry) × (t : State S) × (o ≡ some (e, t)) × IsFirst entry names xs i n e

  pub IsFirst-cons :
      (entry : ℕ → DirectoryEntry) (names : ℕ → List ℕ) (xs : List ℕ) (i n : ℕ) (e : DirectoryEntry)
      → names i ≢ xs
      → IsFirst entry names xs (i + 1) n e
      → IsFirst entry names xs i n e
  IsFirst-cons entry names xs i n e off (inl (k, low, high, is, equal, before)) = inl (
    k,
    omega arith,
    high,
    is,
    equal,
    λ j lo hi. elim (eq-cases j i) [ inl here ↦ rw here off | inr ne ↦ before j (omega arith) hi ],
  )
  IsFirst-cons entry names xs i n e off (inr (failed, all)) = inr (
    failed,
    λ j lo hi. elim (eq-cases j i) [ inl here ↦ rw here off | inr ne ↦ all j (omega arith) hi ],
  )
