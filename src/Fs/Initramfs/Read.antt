-- ===== src/Fs/Initramfs/Read.antt =====
-- `fs_read` copies a slice of the file, and `offset + to_read` may wrap.
use larch.Prelude.{
  ℕ, zero, suc, ◌+◌, ◌-◌, ◌^◌, ◌≤◌, ◌<◌, min, ◌≡◌, refl, none, some, List, ◌++◌, append_assoc,
  arith, length, get_elem?, take, drop, set, length-set, get_elem?_exists, get_elem?-eq-none,
  set?-eq-set, set?-eq-none, drop-eq-cons, take-set, drop-set, dec_lt, take-append-drop, leb,
  if◌then◌else◌, ◌>>=◌, le→leb_false, le→leb,
}
use larch.Fs.Initramfs.{File, Fs, copy_from, clamp, fs_read, handle_index}

-- The copy is the slice, and the rest of the buffer stays.
pub copy_from_lem :
    (left i offset : ℕ) (bytes buf : List ℕ)
    → offset + i + left ≤ length bytes
    → i + left ≤ length buf
    → copy_from left i bytes offset buf
      ≡ some (take i buf ++ (take left (drop (offset + i) bytes) ++ drop (i + left) buf))
unfolding copy_from
copy_from_lem zero i offset bytes buf h k =
    let e : i + 0 ≡ i = omega arith in rw (e, take-append-drop i buf)
copy_from_lem (suc left) i offset bytes buf h k =
    let (b, eb) = get_elem?_exists bytes (offset + i) (omega arith) in
    let next : offset + suc i ≡ suc (offset + i) = omega arith in
    let end : suc i + left ≡ i + suc left = omega arith in
    rw
      (
        eb,
        set?-eq-set buf i b (omega arith),
        copy_from_lem left (suc i) offset bytes (set buf i b) (omega arith)
            (rw length-set (omega arith)),
        next,
        end,
        take-set buf i b (omega arith),
        drop-set buf i (i + suc left) b (omega arith),
        drop-eq-cons bytes (offset + i) eb,
        append_assoc,
      )
      refl

-- A copy that would pass the end of the data does not succeed.
copy_from-overrun :
    (left i offset : ℕ) (bytes buf : List ℕ)
    → length bytes < offset + i + left
    → offset + i ≤ length bytes
    → copy_from left i bytes offset buf ≡ none
unfolding copy_from
copy_from-overrun zero i offset bytes buf h k = absurd (omega arith)
copy_from-overrun (suc left) i offset bytes buf h k = elim (dec_lt (offset + i) (length bytes)) [
  | no p ↦ rw (get_elem?-eq-none bytes (offset + i) (omega arith))
  | yes p ↦
      let (b, eb) = get_elem?_exists bytes (offset + i) p in
      rw eb (elim (dec_lt i (length buf)) [
        | no q ↦ rw (set?-eq-none buf i b (omega arith))
        | yes q ↦
            rw (set?-eq-set buf i b q) (
              copy_from-overrun left (suc i) offset bytes (set buf i b) (omega arith) (omega arith))
      ])
]

-- Handle `i + 1` names entry `i`.
pub handle_index-suc : (i : ℕ) → i < 2 ^ 32 → handle_index (suc i) ≡ i
handle_index-suc i h = omega arith

copy_from_start :
    (n offset : ℕ) (bytes buf : List ℕ)
    → offset + n ≤ length bytes
    → n ≤ length buf
    → copy_from n 0 bytes offset buf ≡ some (take n (drop offset bytes) ++ drop n buf)
copy_from_start n offset bytes buf h k =
    let start : offset + 0 ≡ offset = omega arith in
    let end : 0 + n ≡ n = omega arith in
    rw (copy_from_lem n 0 offset bytes buf (omega arith) (omega arith), start, end) refl

clamp-min :
    (size offset len : ℕ)
    → offset + len < 2 ^ 32
    → offset < size
    → clamp size offset len ≡ min len (size - offset)
unfolding clamp
clamp-min size offset len small inside = ground arith

clamp_wraps :
    (size offset len : ℕ)
    → offset < size
    → size < 2 ^ 32
    → len < 2 ^ 32
    → 2 ^ 32 ≤ offset + len
    → clamp size offset len ≡ len
unfolding clamp
clamp_wraps size offset len inside small word wraps = ground arith

module _ (fs : Fs) (i : ℕ) (f : File) (buf : List ℕ) (offset len : ℕ) (counted : i < fs.file_count)
    (few : fs.file_count ≤ 32) (at : get_elem? fs.files i ≡ some f) where
  -- The cases of the two guards of `fs_read`, for a handle of the table.
  fs_read-open : fs_read fs (suc i) offset buf len ≡ (
      if leb f.size offset
      then some (0, buf)
      else copy_from (clamp f.size offset len) 0 f.bytes offset buf >>= λ buf'.
          some (clamp f.size offset len, buf'))
  unfolding fs_read
  fs_read-open = rw (handle_index-suc i (omega arith), le→leb_false fs.file_count i counted, at)

  -- For the handle of a file whose data is there, with a buffer of `len` bytes and a sum that does
  -- not wrap, `fs_read` returns the number of bytes between `offset` and the end of the file, at
  -- most `len`, has copied exactly those bytes to the front of the buffer, and leaves the rest of
  -- the buffer as it was.
  pub fs_read_lem :
      f.size ≤ length f.bytes
      → len ≤ length buf
      → offset + len < 2 ^ 32
      → let n = min len (f.size - offset) in
        fs_read fs (suc i) offset buf len ≡ some (n, take n (drop offset f.bytes) ++ drop n buf)
  fs_read_lem present room small = elim (dec_lt offset f.size) [
    | no p ↦
        let nothing : min len (f.size - offset) ≡ 0 = omega arith in
        rw (fs_read-open, le→leb f.size offset (omega arith), nothing) refl
    | yes p ↦
        rw
          (
            fs_read-open,
            le→leb_false f.size offset p,
            clamp-min f.size offset len small p,
            copy_from_start (min len (f.size - offset)) offset f.bytes buf (omega arith)
                (omega arith),
          )
          refl
  ]

  -- When the 32-bit sum of `offset` and `len` wraps, a read that starts inside of a file whose
  -- size is the length of its data runs past the end of the data, whatever the buffer is.
  pub fs_read_wraps :
      f.size ≡ length f.bytes
      → offset < f.size
      → f.size < 2 ^ 32
      → len < 2 ^ 32
      → 2 ^ 32 ≤ offset + len
      → fs_read fs (suc i) offset buf len ≡ none
  fs_read_wraps exact inside small word wraps =
      rw
        (
          fs_read-open,
          le→leb_false f.size offset inside,
          clamp_wraps f.size offset len inside small word wraps,
          copy_from-overrun len 0 offset f.bytes buf (omega arith) (omega arith),
        )
        refl
