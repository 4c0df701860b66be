-- ===== src/Fs/Data/Tests.antt =====
-- os/fs/fs_data.c at concrete inputs.
use hrishikos.Base.{ℕ, ◌+◌, ◌≡◌, ◌≢◌, ◌⊎◌, refl, arith, inl, inr, false, update}
use hrishikos.Base.Bits.{bit}
use hrishikos.Clib.Bitmap.{Drive, BitmapDisk, failure}
use hrishikos.Clib.Bitmap.Single.{mark}
use hrishikos.Clib.Bitmap.Find.{AllMarked}
use hrishikos.Fs.Data.{alloc_data_block, free_data_block}
use hrishikos.Fs.Data.Alloc.{HasRoom, IsTaken, alloc_data_block_lem, free-alloc_data_block}

-- A drive that ignores what it is told.
abbrev idle : Drive ℕ
idle = record { read = λ s lba buffer count i. buffer i; write = λ s lba buffer size. s + 1 }

-- Block 0 of 16 is used.
abbrev one_used : BitmapDisk
one_used = record {
  block = update (λ _. 0) 0 1;
  dirty = false;
  block_index = 0;
  total_bits = 16;
  used_bits = 1;
  start_sector = 622;
  sectors_per_block = 1;
  block_size = 512;
  block_count = 1;
}

one_used-HasRoom : HasRoom one_used
one_used-HasRoom = record {
  single = record { first = refl; fits = omega arith };
  one_block = refl;
  whole_words = refl;
  small = omega arith;
  room = omega arith;
}

alloc_data_block_example :
    (IsTaken one_used (alloc_data_block idle one_used 0).0 (alloc_data_block idle one_used 0).1
      × ((alloc_data_block idle one_used 0).2 ≡ 0))
    ⊎ (((alloc_data_block idle one_used 0).0 ≡ failure) × AllMarked one_used 0 16)
alloc_data_block_example = alloc_data_block_lem idle one_used 0 one_used-HasRoom

second_free : mark one_used 1 ≡ 0
unfolding bit
second_free = refl

alloc_succeeds : (alloc_data_block idle one_used 0).0 ≢ failure
alloc_succeeds = elim alloc_data_block_example [
  | inl (got, _) ↦ λ e. absurd (omega (arith, e, got.first.2))
  | inr (_, all) ↦
      λ e. absurd (omega (arith, second_free, all 1 (omega arith) (omega arith) (omega arith)))
]

free-alloc_data_block_example :
    (mark
        (free_data_block idle
          (alloc_data_block idle one_used 0).1
          (alloc_data_block idle one_used 0).2
          (alloc_data_block idle one_used 0).0).0
        1
      ≡ mark one_used 1)
    × ((free_data_block idle
          (alloc_data_block idle one_used 0).1
          (alloc_data_block idle one_used 0).2
          (alloc_data_block idle one_used 0).0).0.used_bits
        ≡ 1)
free-alloc_data_block_example =
    free-alloc_data_block idle one_used 0 1 one_used-HasRoom alloc_succeeds
