-- ===== src/Libc/Memory.antt =====
-- lib/libc/string.c: `memcpy`, `memset` and `strcpy` on a byte memory.
-- The memory is a function of the address; the objects of a call do not pass the end of the
-- address space, so the sums below do not wrap.
pub mod Laws
use larch.Prelude.{
  ℕ, zero, suc, ◌+◌, ◌%◌, ◌^◌, true, false, Option, none, some, ◌==◌, if◌then◌else◌,
}

abbrev pub Memory : Type 0
Memory = ℕ → ℕ

abbrev pub store : Memory → ℕ → ℕ → Memory
store m a v b = if b == a then v else m b

-- `for (i = 0; i < n; i++) d[i] = s[i];` with `left` rounds left.
pub memcpy_from : ℕ → ℕ → ℕ → ℕ → Memory → Memory
memcpy_from zero i dest src m = m
memcpy_from (suc left) i dest src m =
    memcpy_from left (suc i) dest src (store m (dest + i) (m (src + i)))

-- The pointer that is returned, and the memory after the call.
pub memcpy : ℕ → ℕ → ℕ → Memory → ℕ × Memory
unfolding memcpy_from
memcpy dest src n m = (dest, memcpy_from n 0 dest src m)

pub memset_from : ℕ → ℕ → ℕ → ℕ → Memory → Memory
memset_from zero i s c m = m
memset_from (suc left) i s c m = memset_from left (suc i) s c (store m (s + i) (c % 2 ^ 8))

-- The argument `c` is the low part of an `int`, and the cast keeps its low 8 bits.
pub memset : ℕ → ℕ → ℕ → Memory → ℕ × Memory
unfolding memset_from
memset s c n m = (s, memset_from n 0 s c m)

-- `while ((*d++ = *src++));`. The byte is stored before it is tested; `none` is out of fuel.
pub strcpy_from : ℕ → ℕ → ℕ → Memory → Option Memory
strcpy_from zero d src m = none
strcpy_from (suc fuel) d src m = elim (m src == 0) [
  | true ↦ some (store m d (m src))
  | false ↦ strcpy_from fuel (suc d) (suc src) (store m d (m src))
]
