-- ===== src/Fs/Directory/Find.antt =====
-- os/fs/fs_directory.c: `fs_directory_entry_find` in a directory of one block.
use hrishikos.Base.{
  ℕ, zero, suc, ◌+◌, ◌%◌, ◌≤◌, ◌<◌, ◌≡◌, inl, inr, refl, arith, ap, sym, subst, ◌∙◌, true, some,
  List, length, ◌==◌, ltb, if_true,
}
use native.Mathlib.Nat.{mod-eq_of_lt, zero-div}
use hrishikos.Clib.Bitmap.{Drive}
use hrishikos.Clib.Strings.Compare.{strcmp_lem}
use hrishikos.Fs.Superblock.{Superblock}
use hrishikos.Fs.Data.{read_block}
use hrishikos.Fs.Inode.{Inode, CacheEntry, State, Layout, set_entry, cache_search, get}
use hrishikos.Fs.Inode.Cache.{entry_at_lem, set_entry_self}
use hrishikos.Fs.Inode.Get.{get_cached}
use hrishikos.Fs.Inode.Blocks.Direct.{get_block_direct}
use hrishikos.Fs.Path.{directory_failure}
use hrishikos.Fs.Directory.{
  DirectoryEntry, EntryLayout, entries_per_block, entry_count, with_name, load_entry_block,
  find_block_of, find_loop, entry_find,
}
use hrishikos.Fs.Directory.Named.{
  IsNamed, IsApart, named-IsString, apart-IsString, IsFirst, find_step, find_hit, find_end,
  same_block, Finds, IsFirst-cons,
}

module _ {S : Type 0} (drive : Drive S) (superblock : Superblock) (layout : Layout)
    (garbage : ℕ → ℕ) (entries : EntryLayout) where
  -- A round of the search.
  round-Finds :
      (left fuel : ℕ) (m : ℕ → ℕ) (name local : ℕ) (s t : State S) (slot i n : ℕ)
      (block loaded : ℕ → ℕ) (e : DirectoryEntry) (names : ℕ → List ℕ) (xs : List ℕ)
      → let entry = entries.entry loaded in
        find_block_of drive superblock layout garbage entries s slot i block ≡ some (loaded, t)
        → i < entries_per_block superblock
        → i < n
        → IsNamed (entry i) (names i)
        → IsApart m name local xs
        → length xs < fuel
        → 54 ≤ fuel
        → Finds drive superblock layout garbage entries entry names xs (i + 1) n (
            find_loop drive superblock layout garbage entries left fuel m name local t slot
              (i + 1)
              loaded
              (entry i))
        → Finds drive superblock layout garbage entries entry names xs i n (
            find_loop drive superblock layout garbage entries
              (suc left)
              fuel
              m
              name
              local
              s
              slot
              i
              block
              e)
  round-Finds left fuel m name local s t slot i n block loaded e names xs next inside below named
        apart enough big (f, u, run, first) =
      let entry = entries.entry loaded in
      let at = mod-eq_of_lt {n = i} {m = entries_per_block superblock} inside in
      let room : ltb (entry i).name_length 54 ≡ true = ground (arith, named.size, named.room) in
      elim (strcmp_lem fuel (with_name m local (entry i)) name local xs (names i)
        (apart-IsString m name local (entry i) xs (names i) apart named)
        (named-IsString m local (entry i) (names i) named) enough (omega (arith, named.room))) [
          | inl (equal, same) ↦ (
            entry i,
            t,
            find_hit drive superblock layout garbage entries left fuel m name local s t slot i i
                block loaded e next at room equal,
            inl (i, omega arith, below, refl, sym same, λ j lo hi. absurd (omega arith)),
          )
          | inr (differs, other) ↦ (
            f,
            u,
            find_step drive superblock layout garbage entries left fuel m name local s t slot i i
                  block loaded e next at room differs
                ∙ run,
            IsFirst-cons drive superblock layout garbage entries entry names xs i n f
                (λ q. other (sym q)) first,
          )
        ]

  loop-Finds :
      (left fuel : ℕ) (m : ℕ → ℕ) (name local : ℕ) (s : State S) (slot i n : ℕ) (block : ℕ → ℕ)
      (e : DirectoryEntry) (names : ℕ → List ℕ) (xs : List ℕ)
      → 0 < i
      → i + left ≡ n
      → n ≤ entries_per_block superblock
      → ((j : ℕ) → j < n → IsNamed (entries.entry block j) (names j))
      → IsApart m name local xs
      → length xs < fuel
      → 54 ≤ fuel
      → Finds drive superblock layout garbage entries (entries.entry block) names xs i n (
          find_loop drive superblock layout garbage entries left fuel m name local s slot i block e)
  loop-Finds zero fuel m name local s slot i n block e names xs positive all fits named apart enough
        big =
      (
        record e { type = directory_failure },
        s,
        find_end drive superblock layout garbage entries fuel m name local s slot i block e,
        inr (refl, λ j lo hi. absurd (omega arith)),
      )
  loop-Finds (suc left) fuel m name local s slot i n block e names xs positive all fits named apart
        enough big =
      let inside : i < entries_per_block superblock = omega arith in
      let at = mod-eq_of_lt {n = i} {m = entries_per_block superblock} inside in
      round-Finds left fuel m name local s s slot i n block block e names xs
        (same_block drive superblock layout garbage entries s slot i block (omega (arith, at)))
        inside (omega arith) (named i (omega arith)) apart enough big
        (loop-Finds left fuel m name local s slot (i + 1) n block (entries.entry block i) names xs
          (omega arith) (omega arith) fits named apart enough big)

  search-Finds :
      (n fuel : ℕ) (m : ℕ → ℕ) (name local : ℕ) (s t : State S) (slot : ℕ) (block loaded : ℕ → ℕ)
      (e : DirectoryEntry) (names : ℕ → List ℕ) (xs : List ℕ)
      → find_block_of drive superblock layout garbage entries s slot 0 block ≡ some (loaded, t)
      → n ≤ entries_per_block superblock
      → ((j : ℕ) → j < n → IsNamed (entries.entry loaded j) (names j))
      → IsApart m name local xs
      → length xs < fuel
      → 54 ≤ fuel
      → Finds drive superblock layout garbage entries
          (entries.entry loaded)
          names
          xs
          0
          n
          (find_loop drive superblock layout garbage entries n fuel m name local s slot 0 block e)
  search-Finds zero fuel m name local s t slot block loaded e names xs next fits named apart enough
        big =
      (
        record e { type = directory_failure },
        s,
        find_end drive superblock layout garbage entries fuel m name local s slot 0 block e,
        inr (refl, λ j lo hi. absurd (omega arith)),
      )
  search-Finds (suc n) fuel m name local s t slot block loaded e names xs next fits named apart
        enough big =
      round-Finds n fuel m name local s t slot 0 (suc n) block loaded e names xs next (omega arith)
        (omega arith) (named 0 (omega arith)) apart enough big
        (loop-Finds n fuel m name local t slot 1 (suc n) loaded (entries.entry loaded 0) names xs
          (omega arith) (omega arith) fits named apart enough big)

  first_load :
      (s : State S) (slot : ℕ) (block : ℕ → ℕ)
      → slot < 128
      → 0 < (s.cache slot).inode.block_count
      → (t : State S) × (find_block_of drive superblock layout garbage entries s slot 0 block
          ≡ some (read_block drive superblock s.disk ((s.cache slot).inode.blocks 0) block, t))
  unfolding find_block_of load_entry_block
  first_load s slot block inside some_block =
      let start : (0 % entries_per_block superblock == 0) ≡ true = ground arith in
      let none_before = zero-div (entries_per_block superblock) in
      (
        set_entry s slot (record (s.cache slot) { reference = 1 }),
        if_true (some (block, s)) start
            ∙ rw
                (
                  none_before,
                  get_block_direct drive superblock garbage s slot 0 inside (omega arith)
                      some_block,
                )
                refl,
      )

  find_run :
      (fuel : ℕ) (m : ℕ → ℕ) (local : ℕ) (s : State S) (fresh : DirectoryEntry)
      (directory_inode name slot n : ℕ) (t : State S)
      → get drive superblock layout garbage s directory_inode ≡ some (slot, t)
      → slot < 128
      → entry_count superblock (t.cache slot).inode.size ≡ n
      → entry_find drive superblock layout garbage entries fuel m local s fresh directory_inode name
        ≡ find_loop drive superblock layout garbage entries n fuel m name local t slot 0 garbage
            fresh
  unfolding entry_find
  find_run fuel m local s fresh directory_inode name slot n t got inside count =
      rw (got, entry_at_lem t slot inside, count) refl

  -- In a directory whose inode is in the cache and whose entries lie in its first block and have names
  -- of less than 54 bytes, `fs_directory_entry_find` succeeds: it returns the first entry with the
  -- name that it is given, or, when no entry has that name, one whose type is the failure.
  pub entry_find-IsFirst :
      (fuel : ℕ) (m : ℕ → ℕ) (local : ℕ) (s : State S) (fresh : DirectoryEntry)
      (directory_inode name slot : ℕ) (names : ℕ → List ℕ) (xs : List ℕ)
      → let inode = (s.cache slot).inode in
        let block = read_block drive superblock s.disk (inode.blocks 0) garbage in
        let n = entry_count superblock inode.size in
        cache_search s directory_inode ≡ some slot
        → slot < 128
        → 0 < inode.block_count
        → n ≤ entries_per_block superblock
        → ((j : ℕ) → j < n → IsNamed (entries.entry block j) (names j))
        → IsApart m name local xs
        → length xs < fuel
        → 54 ≤ fuel
        → (e : DirectoryEntry) × (t : State S) × (entry_find drive superblock layout garbage entries
              fuel m local s fresh directory_inode name
            ≡ some (e, t))
          × IsFirst (entries.entry block) names xs 0 n e
  entry_find-IsFirst fuel m local s fresh directory_inode name slot names xs found inside some_block
        fits named apart enough big =
      let e : CacheEntry = record (s.cache slot) { reference = 1 } in
      let t = set_entry s slot e in
      let same = ap (λ (f : CacheEntry). f.inode) (set_entry_self s slot e) in
      let n = entry_count superblock (s.cache slot).inode.size in
      let block = read_block drive superblock s.disk ((s.cache slot).inode.blocks 0) garbage in
      let run =
        find_run fuel m local s fresh directory_inode name slot n t
          (get_cached drive superblock layout garbage s directory_inode slot found) inside
          (ap (λ (x : Inode). entry_count superblock x.size) same) in
      let (u, load) =
        first_load t slot garbage inside
          (subst (λ (x : Inode). 0 < x.block_count) (sym same) some_block) in
      let next =
        load
        ∙ ap (λ (x : Inode). some (read_block drive superblock s.disk (x.blocks 0) garbage, u))
            same in
      let (f, v, loop, first) =
        search-Finds n fuel m name local t u slot garbage block fresh names xs next fits named apart
          enough big in
      (f, v, run ∙ loop, first)
