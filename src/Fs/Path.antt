-- ===== src/Fs/Path.antt =====
-- os/fs/fs_directory.c: the functions that take a path apart. A path is a string in memory, as in
-- Clib/Strings.antt; an index is a `size_t`, and the index of a byte before the string wraps. `none`
-- is a string that does not end within the fuel.
pub mod Delimiter
mod Tests
use hrishikos.Base.{
  ℕ, zero, suc, ◌+◌, ◌-◌, ◌%◌, ◌^◌, Bool, true, false, Option, none, some, ◌==◌, ltb, if◌then◌else◌,
  u64, add64, sub64, update, ◌>>=◌,
}
use hrishikos.Clib.Strings.{memcpy, strcpy, strlen}

abbrev pub path_delimiter : ℕ
path_delimiter = 0x2f

-- `FS_DIRECTORY_FAILURE`, a `UINT8_MAX`.
abbrev pub directory_failure : ℕ
directory_failure = 255

-- `path[i]`
abbrev pub byte_at : (ℕ → ℕ) → (path i : ℕ) → ℕ
byte_at m path i = m (u64 (path + i))

pub last_delimiter_loop : (left : ℕ) → (ℕ → ℕ) → (path path_index : ℕ) → ℕ
last_delimiter_loop zero m path i = directory_failure
last_delimiter_loop (suc left) m path i =
    let rest = last_delimiter_loop left m path (sub64 i 1) in
    if byte_at m path i == path_delimiter then i else rest

pub path_find_last_delimiter : (fuel : ℕ) → (ℕ → ℕ) → (path : ℕ) → Option ℕ
path_find_last_delimiter fuel m path = do
  n ← strlen fuel m path
  let i = sub64 n 1
  some (
      if byte_at m path i == path_delimiter
      then last_delimiter_loop (sub64 n 1) m path (sub64 i 1)
      else last_delimiter_loop n m path i)

-- The loop of `fs_path_delimiter_count` from index `i` on.
pub delimiter_count_loop : (left : ℕ) → (ℕ → ℕ) → (path i : ℕ) → ℕ
delimiter_count_loop zero m path i = 0
delimiter_count_loop (suc left) m path i =
    let rest = delimiter_count_loop left m path (i + 1) in
    if byte_at m path i == path_delimiter then suc rest else rest

pub path_delimiter_count : (fuel : ℕ) → (ℕ → ℕ) → (path : ℕ) → Option ℕ
path_delimiter_count fuel m path = do n ← strlen fuel m path; some (delimiter_count_loop n m path 0)

-- The result is memory.
pub path_to_name : (fuel : ℕ) → (ℕ → ℕ) → (path buffer : ℕ) → Option (ℕ → ℕ)
path_to_name fuel m path buffer = do
  name_start ← path_find_last_delimiter fuel m path
  n ← strlen fuel m path
  let start = add64 name_start 1
  let rest = sub64 n start
  let name_length = (if byte_at m path (sub64 n 1) == path_delimiter then sub64 rest 1 else rest)
  some (
      if name_start == directory_failure
      then update (memcpy m buffer path n) (u64 (buffer + n)) 0
      else update (memcpy m buffer (u64 (path + start)) name_length) (u64 (buffer + name_length)) 0)

-- The loop of `fs_path_to_parent_path`, and what follows it.
pub parent_path_loop : (left : ℕ) (fuel : ℕ) → (ℕ → ℕ) → (path buffer path_end : ℕ) → Option (ℕ → ℕ)
parent_path_loop zero fuel m path buffer path_end =
    some (if path_end == 0 then update (update m buffer path_delimiter) (u64 (buffer + 1)) 0 else m)
parent_path_loop (suc left) fuel m path buffer path_end = do
  e ← path_find_last_delimiter fuel m buffer
  let cut = update (memcpy m buffer path e) (u64 (buffer + e)) 0
  let rest = parent_path_loop left fuel cut path buffer e
  if e == directory_failure then some (update m buffer 0) else rest

pub path_to_parent_path : (fuel : ℕ) → (ℕ → ℕ) → (path buffer index : ℕ) → Option (ℕ → ℕ)
path_to_parent_path fuel m path buffer index = do
  copied ← strcpy fuel m buffer path
  parent_path_loop (index + 1) fuel copied path buffer directory_failure
