-- ===== src/Libc/Memory/Laws.antt =====
-- What the copies leave in memory, address by address.
use larch.Prelude.{
  ℕ, zero, suc, ◌+◌, ◌-◌, ◌%◌, ◌^◌, ◌≤◌, ◌<◌, ◌≡◌, ◌≢◌, ◌⊎◌, some, arith, ltb, leb, ◌&&◌,
  if◌then◌else◌, ap, ◌∙◌, ne→==,
}
use larch.Libc.Memory.{Memory, store, memcpy_from, memcpy, memset_from, memset, strcpy_from}

-- Two runs of `n` bytes share no byte.
abbrev pub Disjoint : ℕ → ℕ → ℕ → Type 0
Disjoint a b n = (a + n ≤ b) ⊎ (b + n ≤ a)

memcpy_from_lem :
    (left i dest src n : ℕ) (m : Memory) (a : ℕ)
    → i + left ≡ n
    → Disjoint dest src n
    → memcpy_from left i dest src m a
      ≡ (if leb (dest + i) a && ltb a (dest + n) then m (src + (a - dest)) else m a)
unfolding memcpy_from
memcpy_from_lem zero i dest src n m a e d = ground arith
memcpy_from_lem (suc left) i dest src n m a e d =
    ground (arith, memcpy_from_lem left (suc i) dest src n (store m (dest + i) (m (src + i))) a)

-- `memcpy` between disjoint runs of `n` bytes copies them, changes no other address and returns
-- its first argument.
pub memcpy_lem :
    (dest src n : ℕ) (m : Memory) (a : ℕ)
    → Disjoint dest src n
    → let (p, m') = memcpy dest src n m in
      (p ≡ dest) × (m' a ≡ (if leb dest a && ltb a (dest + n) then m (src + (a - dest)) else m a))
unfolding memcpy
memcpy_lem dest src n m a d = ground (arith, memcpy_from_lem n 0 dest src n m a)

memset_from_lem :
    (left i s c n : ℕ) (m : Memory) (a : ℕ)
    → i + left ≡ n
    → memset_from left i s c m a ≡ (if leb (s + i) a && ltb a (s + n) then c % 2 ^ 8 else m a)
unfolding memset_from
memset_from_lem zero i s c n m a e = ground arith
memset_from_lem (suc left) i s c n m a e =
    ground (arith, memset_from_lem left (suc i) s c n (store m (s + i) (c % 2 ^ 8)) a)

-- `memset` sets the `n` bytes to the low byte of `c`, changes no other address and returns its
-- first argument.
pub memset_lem :
    (s c n : ℕ) (m : Memory) (a : ℕ)
    → let (p, m') = memset s c n m in
      (p ≡ s) × (m' a ≡ (if leb s a && ltb a (s + n) then c % 2 ^ 8 else m a))
unfolding memset
memset_lem s c n m a = ground (arith, memset_from_lem n 0 s c n m a)

-- A text of `n` bytes at `p`, with its NUL.
pub record IsTextAt (m : Memory) (p n : ℕ) : Type 0 where
  pub ends : m (p + n) ≡ 0
  pub nonzero : (i : ℕ) → i < n → m (p + i) ≢ 0

-- The text one byte on, after a store outside of it.
IsTextAt-suc :
    (m : Memory) (p n d v : ℕ)
    → IsTextAt m p (suc n)
    → (d < p) ⊎ (p + suc n < d)
    → IsTextAt (store m d v) (suc p) n
IsTextAt-suc m p n d v t out = record {
  ends =
      let e : suc p + n ≡ p + suc n = omega arith in
      rw (e, ne→== (p + suc n) d (omega arith)) t.ends;
  nonzero = λ i h.
      let e : suc p + i ≡ p + suc i = omega arith in
      rw (e, ne→== (p + suc i) d (omega arith)) (t.nonzero (suc i) (omega arith));
}

strcpy_from-suc :
    (fuel d src : ℕ) (m : Memory)
    → m src ≢ 0
    → strcpy_from (suc fuel) d src m ≡ strcpy_from fuel (suc d) (suc src) (store m d (m src))
unfolding strcpy_from
strcpy_from-suc fuel d src m nz = ground arith

-- `strcpy` of a text of `n` bytes to a place that does not overlap it ends within `n + 1` rounds,
-- copies the text with its NUL, and changes no other address.
pub strcpy_lem :
    (n fuel d src : ℕ) (m : Memory)
    → n < fuel
    → IsTextAt m src n
    → Disjoint d src (suc n)
    → (m' : Memory) × (strcpy_from fuel d src m ≡ some m')
      × ((a : ℕ) → m' a ≡ (if leb d a && leb a (d + n) then m (src + (a - d)) else m a))
strcpy_lem n zero d src m f t dis = absurd (omega arith)
strcpy_lem zero (suc fuel) d src m f t dis =
    let e : src + 0 ≡ src = omega arith in
    let z : m src ≡ 0 = rw e at t.ends in
    (
      store m d (m src),
      unfold strcpy_from in ground arith,
      λ a. ground (arith, ap m {x = src + (a - d)} {y = src}),
    )
strcpy_lem (suc n) (suc fuel) d src m f t dis =
    let e : src + 0 ≡ src = omega arith in
    let nz : m src ≢ 0 = rw e at (t.nonzero 0 (omega arith)) in
    let (m', em, pm) =
      strcpy_lem n fuel (suc d) (suc src) (store m d (m src)) (omega arith)
        (IsTextAt-suc m src n d (m src) t (omega arith)) (omega arith) in
    (
      m',
      strcpy_from-suc fuel d src m nz ∙ em,
      λ a. ground (
        arith,
        pm a,
        ap m {x = src + (a - d)} {y = suc src + (a - suc d)},
        ap m {x = src + (a - d)} {y = src},
      ),
    )
