-- ===== src/Fs/Initramfs.antt =====
-- kernel/fs/initramfs.c: the table of files, and reads by offset.
-- A `void*` handle is the number of the file plus one, and 0 is the null pointer. A `name` is the
-- text up to its NUL: reading at its end gives 0. `none` is an access outside of an array.
pub mod Open
pub mod Read
pub mod Service
mod Tests
use larch.Prelude.{
  ℕ, zero, suc, ◌+◌, ◌-◌, ◌%◌, ◌^◌, Bool, ◌&&◌, not, Option, none, some, List, ltb, leb, ◌==◌,
  if◌then◌else◌, ◌>>=◌, length, get_elem?, get_or, set?,
}

-- `file_t`, with `data` as the bytes that it points to.
pub record File : Type 0 where
  pub name : List ℕ
  pub size : ℕ
  pub bytes : List ℕ
  pub type : ℕ

pub record Fs : Type 0 where
  pub files : List File
  pub file_count : ℕ

-- The byte at an index of a NUL-terminated text.
abbrev pub char_at : List ℕ → ℕ → ℕ
char_at s j = get_or s j 0

-- `while (files[i].name[j] && name[j] && files[i].name[j] == name[j]) j++;`
pub match_from : ℕ → List ℕ → List ℕ → ℕ → ℕ
match_from zero stored name j = j
match_from (suc fuel) stored name j =
    let rest = match_from fuel stored name (suc j) in
    if not (char_at stored j == 0)
      && not (char_at name j == 0)
      && (char_at stored j == char_at name j)
    then rest
    else j

-- The texts agree up to both ends. The loop stops at the end of the stored name at the latest.
pub names_equal : List ℕ → List ℕ → Bool
names_equal stored name =
    let j = match_from (suc (length stored)) stored name 0 in
    (char_at stored j == 0) && (char_at name j == 0)

-- The loop of `fs_open` at index `i`, with `file_count - i` rounds left.
pub open_from : List File → List ℕ → ℕ → ℕ → Option ℕ
open_from files name zero i = some 0
open_from files name (suc left) i =
    let rest = open_from files name left (suc i) in
    get_elem? files i >>= λ f. if names_equal f.name name then some (suc i) else rest

pub fs_open : Fs → List ℕ → Option ℕ
fs_open fs name = open_from fs.files name fs.file_count 0

-- `(uint32_t)(uintptr_t)file - 1`
abbrev pub handle_index : ℕ → ℕ
handle_index file = (file + 2 ^ 32 - 1) % 2 ^ 32

-- `for (i = 0; i < to_read; i++) buf[i] = f->data[offset + i];` with `left` rounds left.
pub copy_from : ℕ → ℕ → List ℕ → ℕ → List ℕ → Option (List ℕ)
copy_from zero i bytes offset buf = some buf
copy_from (suc left) i bytes offset buf = do
  b ← get_elem? bytes (offset + i)
  buf' ← set? buf i b
  copy_from left (suc i) bytes offset buf'

-- The sum `offset + to_read` is a `uint32_t`, and wraps.
pub clamp : ℕ → ℕ → ℕ → ℕ
clamp size offset len = if ltb size ((offset + len) % 2 ^ 32) then size - offset else len

-- The number of bytes read, and the buffer after the call.
pub fs_read : Fs → ℕ → ℕ → List ℕ → ℕ → Option (ℕ × List ℕ)
fs_read fs file offset buf len =
    if leb fs.file_count (handle_index file)
    then some (0, buf)
    else get_elem? fs.files (handle_index file) >>= λ f.
        if leb f.size offset
        then some (0, buf)
        else copy_from (clamp f.size offset len) 0 f.bytes offset buf >>= λ buf'.
            some (clamp f.size offset len, buf')

pub fs_size : Fs → ℕ → Option ℕ
fs_size fs file =
    if leb fs.file_count (handle_index file)
    then some 0
    else get_elem? fs.files (handle_index file) >>= λ f. some f.size
