-- ===== src/Fs/Inode/Tests.antt =====
-- os/fs/fs_inode.c at concrete inputs: the cache and the table.
use hrishikos.Base.{ℕ, ◌<◌, ◌≡◌, ◌≢◌, refl, arith, false, none, some}
use hrishikos.Fs.Inode.{State, cache_evict, entry_flush, table_get, get}
use hrishikos.Fs.Inode.Cache.{IsEvicted}
use hrishikos.Fs.Inode.Evict.{cache_evict-IsEvicted, cache_evict_free, cache_evict_overrun}
use hrishikos.Fs.Inode.Search.{IsGot}
use hrishikos.Fs.Inode.Get.{get-IsGot}
use hrishikos.Fs.Inode.Table.{IsStored, table_get-entry_flush}
use hrishikos.Fs.Inode.Packed.{packed}
use hrishikos.Fs.Inode.Sample.{
  Store, drive, drive-ReadsBack, packed-IsLayout_sector, superblock, superblock-IsWhole, no_inode,
  last_taken, none_taken, zeros, last_taken-IsUnique, last_taken-IsRepresentable,
}

cache_evict_example :
    (slot : ℕ) × (t : State Store) × (cache_evict drive superblock packed zeros (last_taken 1)
      ≡ some (slot, t))
    × IsEvicted (last_taken 1) slot t
cache_evict_example =
    cache_evict-IsEvicted drive superblock packed zeros (last_taken 1) (omega arith)

cache_evict_free_example :
    (t : State Store) × (cache_evict drive superblock packed zeros none_taken ≡ some (5, t))
    × (t.clock_hand ≡ 6)
    × IsEvicted none_taken 5 t
cache_evict_free_example =
    cache_evict_free drive superblock packed zeros none_taken (omega arith) refl

cache_evict_overrun_example :
    (t : State Store) × (cache_evict drive superblock packed zeros (last_taken 0) ≡ some (127, t))
    × (t.clock_hand ≡ 128)
    × (cache_evict drive superblock packed zeros t ≡ none)
cache_evict_overrun_example =
    cache_evict_overrun drive superblock packed zeros (last_taken 0) refl refl refl

get_example :
    (slot : ℕ) × (t : State Store) × (get drive superblock packed zeros (last_taken 1) 9
      ≡ some (slot, t))
    × IsGot (last_taken 1) (table_get drive superblock packed zeros (λ lba i. 0) 2 1) 9 slot t
get_example =
    get-IsGot drive superblock packed zeros (last_taken 1) 9 (omega arith) (last_taken-IsUnique 1)

entry_flush_example :
    (t : State Store) × (entry_flush drive superblock packed zeros (last_taken 1) 127 ≡ some t)
    × ((t.cache 127).dirty ≡ false)
    × IsStored (record no_inode { size = 700 }) (table_get drive superblock packed zeros t.disk 1 2)
    × ((j : ℕ)
        → j < 4
        → j ≢ 2
        → IsStored
            (table_get drive superblock packed zeros (λ lba i. 0) 1 j)
            (table_get drive superblock packed zeros t.disk 1 j))
entry_flush_example =
    table_get-entry_flush drive superblock packed zeros (last_taken 1) 127 drive-ReadsBack
      packed-IsLayout_sector superblock-IsWhole (omega arith) (last_taken-IsRepresentable 1 127)
      refl
