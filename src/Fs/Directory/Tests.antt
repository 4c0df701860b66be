-- ===== src/Fs/Directory/Tests.antt =====
-- os/fs/fs_directory.c at concrete inputs: the entries of a directory.
use hrishikos.Base.{
  ℕ, ◌+◌, ◌≤◌, ◌<◌, ◌≡◌, refl, arith, inl, true, false, some, List, [], ◌∷◌, update,
}
use hrishikos.Fs.Data.{read_block}
use hrishikos.Fs.Inode.{State}
use hrishikos.Fs.Inode.Search.{cache_search_first}
use hrishikos.Fs.Inode.Packed.{packed}
use hrishikos.Fs.Inode.Sample.{Store, drive, superblock, zeros, no_inode, last_taken}
use hrishikos.Fs.Directory.{DirectoryEntry, EntryLayout, entries_per_block, entry_count, entry_find}
use hrishikos.Fs.Directory.Named.{IsNamed, IsFirst}
use hrishikos.Fs.Directory.Find.{entry_find-IsFirst}

-- Entry `i` is named by the letter `i`.
abbrev entries : EntryLayout
entries = record {
  entry = λ b i. record { inode = i + 1; type = 0; name_length = 1; name = λ k. 97 + i };
  replace = λ b i e. b;
}

abbrev letter : ℕ → List ℕ
letter i = (97 + i) ∷ []

-- A directory of two entries in the first entry of the cache.
abbrev directory : State Store
directory = record (last_taken 0) {
  cache = λ i. record {
    inode = record no_inode { size = 128; block_count = 1 };
    index = 6;
    reference = 1;
    dirty = false;
    valid = true;
  };
}

two_entries : entry_count superblock 128 ≡ 2
unfolding entry_count entries_per_block
two_entries = refl

two_fit : entry_count superblock 128 ≤ entries_per_block superblock
unfolding entry_count entries_per_block
two_fit = omega arith

-- `"b"` at 0x100.
abbrev bytes : ℕ → ℕ
bytes = update zeros 0x100 98

letter-IsNamed :
    (b : ℕ → ℕ) (j : ℕ) → j < entry_count superblock 128 → IsNamed (entries.entry b j) (letter j)
letter-IsNamed b j below = record {
  size = refl;
  room = omega arith;
  bytes = (refl, omega arith, refl);
}

entry_find_example :
    (e : DirectoryEntry) × (t : State Store) × (entry_find drive superblock packed zeros entries 60
        bytes 0x200 directory
        (entries.entry zeros 0)
        6
        0x100
      ≡ some (e, t))
    × IsFirst
        (entries.entry (read_block drive superblock directory.disk 0 zeros))
        letter
        (98 ∷ [])
        0
        (entry_count superblock 128)
        e
entry_find_example =
    entry_find-IsFirst drive superblock packed zeros entries 60 bytes 0x200 directory
      (entries.entry zeros 0) 6 0x100 0 letter (98 ∷ [])
      (cache_search_first directory 6 (refl, refl)) (omega arith) (omega arith) two_fit
      (letter-IsNamed (read_block drive superblock directory.disk 0 zeros))
      (record { string = (refl, omega arith, refl); apart = inl (omega arith) }) (omega arith)
      (omega arith)
