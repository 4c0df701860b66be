-- ===== src/Clib/Bitmap/Tests.antt =====
-- os/lib/bitmap.c at concrete inputs: one sector on a drive that is a function.
use hrishikos.Base.{
  ℕ, ◌+◌, ◌-◌, ◌*◌, ◌/◌, ◌≡◌, ◌⊎◌, refl, arith, false, update, ltb, if◌then◌else◌, some,
}
use hrishikos.Clib.Bitmap.{Drive, BitmapDisk, find_free_bit, failure}
use hrishikos.Clib.Bitmap.Single.{IsSingle}
use hrishikos.Clib.Bitmap.Find.{AllMarked, FirstUnmarked, find_free_bit-FirstUnmarked}

-- The state is the words of the disk.
abbrev words : Drive (ℕ → ℕ)
words = record {
  read = λ s lba buffer count i. if ltb i (64 * count) then s (64 * lba + i) else buffer i;
  write =
      λ s lba buffer size a. if ltb (a - 64 * lba) (size / 8) then buffer (a - 64 * lba) else s a;
}

abbrev blank : ℕ → ℕ
blank = λ _. 0

-- Bits 0, 1 and 2 of 100 are used.
abbrev three_used : BitmapDisk
three_used = record {
  block = update (λ _. 0) 0 7;
  dirty = false;
  block_index = 0;
  total_bits = 100;
  used_bits = 3;
  start_sector = 310;
  sectors_per_block = 1;
  block_size = 512;
  block_count = 1;
}

three_used-IsSingle : IsSingle three_used
three_used-IsSingle = record { first = refl; fits = omega arith }

find_free_bit_example :
    ((r : ℕ) × (find_free_bit words three_used blank ≡ (r, three_used, blank))
      × FirstUnmarked three_used 0 100 (some r))
    ⊎ (((find_free_bit words three_used blank).0 ≡ failure) × AllMarked three_used 0 100)
find_free_bit_example =
    find_free_bit-FirstUnmarked words three_used blank three_used-IsSingle refl refl (omega arith)
      (omega arith)
