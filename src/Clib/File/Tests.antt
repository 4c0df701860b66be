-- ===== src/Clib/File/Tests.antt =====
-- os/lib/file.c at concrete inputs.
use hrishikos.Base.{ℕ, ◌≡◌, refl, arith, true, false, some}
use hrishikos.Clib.Bitmap.{failure}
use hrishikos.Fs.Data.{read_block}
use hrishikos.Fs.Inode.{State, cache_search}
use hrishikos.Fs.Inode.Search.{cache_search_first}
use hrishikos.Fs.Inode.Packed.{packed}
use hrishikos.Fs.Inode.Sample.{Store, drive, superblock, zeros, no_inode, last_taken}
use hrishikos.Clib.File.{File, file_read}
use hrishikos.Clib.File.Loop.{IsFilled}
use hrishikos.Clib.File.Read.{IsFresh, file_read-IsFilled}

-- A file of 100 bytes in block 7, which entry 0 of the cache is taken by.
abbrev short : State Store
short = record (last_taken 0) {
  cache = λ i. record {
    inode = record no_inode { size = 100; block_count = 1; blocks = λ k. 7 };
    index = 6;
    reference = 1;
    dirty = false;
    valid = true;
  };
}

abbrev opened : File
opened = record {
  block = zeros;
  block_id = 0;
  block_index = failure;
  dirty = false;
  cursor = 0;
  inode = 6;
  read = true;
  write = false;
}

opened-IsFresh : IsFresh superblock opened (short.cache 0).inode
opened-IsFresh = record {
  cursor = refl;
  block_index = refl;
  dirty = refl;
  read = refl;
  one_block = omega arith;
  fits = omega arith;
  small = omega arith;
}

short_first : cache_search short 6 ≡ some 0
short_first = cache_search_first short 6 (refl, refl)

file_read_example :
    (new : ℕ → ℕ) × (after : File) × (u : State Store) × (file_read drive superblock packed zeros
        short opened zeros 30
      ≡ some (30, new, after, u))
    × (after.cursor ≡ 30)
    × IsFilled (read_block drive superblock short.disk 7 zeros) 0 0 30 zeros new
file_read_example =
    file_read-IsFilled drive superblock packed zeros short opened zeros 0 30 short_first
      (omega arith) opened-IsFresh (omega arith)
