-- ===== src/Fs/Vfs/Files.antt =====
-- A file descriptor keeps the inode that it was opened for.
use larch.Prelude.{
  ℕ, zero, suc, ◌<◌, ◌≡◌, refl, ap, ◌∙◌, inl, inr, Option, none, some, List, [], ◌∷◌, ◌++◌, arith,
  leb, length, get_elem?, Bool-cases, le→leb_false,
}
use larch.Prelude.Int.{ℤ, pos}
use larch.Fs.Vfs.{
  Inode, FilesystemType, Vfs, max_fds, minus_one, vfs_mount, vfs_resolve, vfs_open, vfs_read,
  call_open, call_read,
}

get_elem?-append_left {ℓ} :
    {A : Type ℓ} (xs ys : List A) (i : ℕ) {a : A}
    → get_elem? xs i ≡ some a
    → get_elem? (xs ++ ys) i ≡ some a
get_elem?-append_left [] ys i h = cc
get_elem?-append_left (x ∷ xs) ys zero h = h
get_elem?-append_left (x ∷ xs) ys (suc i) h = get_elem?-append_left xs ys i h

get_elem?-append_last {ℓ} :
    {A : Type ℓ} (xs : List A) (a : A) → get_elem? (xs ++ a ∷ []) (length xs) ≡ some a
get_elem?-append_last [] a = refl
get_elem?-append_last (x ∷ xs) a = get_elem?-append_last xs a

module _ (W : Type 0) where
  -- The state after some more calls of `vfs_mount` and `vfs_open`, in any order, successful or not.
  pub data Later (v : Vfs W) : Vfs W → Type 0 where
    now : Later v v
    mounted :
        {u : Vfs W} (w : W) (source target : List ℕ) (fs : FilesystemType W)
        → Later v u
        → Later v (vfs_mount W u w source target fs).1
    opened :
        {u : Vfs W} (w : W) (path : List ℕ) (flags : ℤ)
        → Later v u
        → Later v (vfs_open W u w path flags).1

  vfs_mount-fds :
      (v : Vfs W) (w : W) (source target : List ℕ) (fs : FilesystemType W)
      → (vfs_mount W v w source target fs).1.fds ≡ v.fds
  unfolding vfs_mount
  vfs_mount-fds v w source target fs = ground arith

  -- What `vfs_open` does, on each branch.
  pub data Opening (v : Vfs W) (w : W) (path : List ℕ) (flags : ℤ) : ℤ × Vfs W × W → Type 0 where
    refused : Opening v w path flags (minus_one, v, w)
    granted :
        (inode : Inode W)
        → vfs_resolve W v path ≡ some inode
        → length v.fds < max_fds
        → Opening v w path flags (
          pos (length v.fds),
          record v { fds = v.fds ++ inode ∷ [] },
          call_open W inode.ops path flags w,
        )

  opening_of :
      (v : Vfs W) (w : W) (path : List ℕ) (flags : ℤ) (found : Option (Inode W))
      → vfs_resolve W v path ≡ found
      → Opening v w path flags (vfs_open W v w path flags)
  unfolding vfs_open
  opening_of v w path flags none e = rw (e, vfs_open) refused
  opening_of v w path flags (some inode) e = elim (Bool-cases (leb max_fds (length v.fds))) [
    | inl full ↦ rw (e, vfs_open, full) refused
    | inr room ↦ rw (e, vfs_open, room) (granted inode e (ground arith))
  ]

  vfs_open-Opening :
      (v : Vfs W) (w : W) (path : List ℕ) (flags : ℤ)
      → Opening v w path flags (vfs_open W v w path flags)
  vfs_open-Opening v w path flags = opening_of v w path flags (vfs_resolve W v path) refl

  fds-kept :
      (v : Vfs W) (w : W) (path : List ℕ) (flags : ℤ) (fd : ℕ) (inode : Inode W) {r : ℤ × Vfs W × W}
      → get_elem? v.fds fd ≡ some inode
      → Opening v w path flags r
      → get_elem? r.1.fds fd ≡ some inode
  fds-kept v w path flags fd inode at refused = at
  fds-kept v w path flags fd inode at (granted other resolved room) =
      get_elem?-append_left v.fds (other ∷ []) fd at

  Later-kept :
      (v : Vfs W) (fd : ℕ) (inode : Inode W) {u : Vfs W}
      → get_elem? v.fds fd ≡ some inode
      → Later v u
      → get_elem? u.fds fd ≡ some inode
  Later-kept v fd inode at now = at
  Later-kept v fd inode at (mounted {u = u} w source target fs l) =
      rw (vfs_mount-fds u w source target fs) (Later-kept v fd inode at l)
  Later-kept v fd inode at (opened {u = u} w path flags l) =
      fds-kept u w path flags fd inode (Later-kept v fd inode at l)
        (vfs_open-Opening u w path flags)

  opens_with :
      (v : Vfs W) (w : W) (path : List ℕ) (flags : ℤ) (inode : Inode W)
      → vfs_resolve W v path ≡ some inode
      → length v.fds < max_fds
      → vfs_open W v w path flags ≡ (
        pos (length v.fds),
        record v { fds = v.fds ++ inode ∷ [] },
        call_open W inode.ops path flags w,
      )
  unfolding vfs_open
  opens_with v w path flags inode resolved room =
      rw (resolved, vfs_open, le→leb_false max_fds (length v.fds) room) refl

  vfs_read-at :
      (v : Vfs W) (w : W) (fd buf size : ℕ) (inode : Inode W)
      → get_elem? v.fds fd ≡ some inode
      → vfs_read W v w (pos fd) buf size ≡ call_read W inode.ops buf size w
  unfolding vfs_read
  vfs_read-at v w fd buf size inode at = rw (at, vfs_read) refl

  -- `vfs_open` of a path that resolves to an inode, with fewer than 256 files open, returns the next
  -- descriptor. After any more mounts and opens `vfs_read` of that descriptor is the inode's own read, at
  -- offset 0 every time, or -1 when it has none.
  pub vfs_read-vfs_open :
      (v : Vfs W) (w : W) (path : List ℕ) (flags : ℤ) (inode : Inode W)
      → vfs_resolve W v path ≡ some inode
      → length v.fds < max_fds
      → ((vfs_open W v w path flags).0 ≡ pos (length v.fds))
        × ((u : Vfs W) (w' : W) (buf size : ℕ)
            → Later (vfs_open W v w path flags).1 u
            → vfs_read W u w' (pos (length v.fds)) buf size ≡ call_read W inode.ops buf size w')
  vfs_read-vfs_open v w path flags inode resolved room =
      let opens = opens_with v w path flags inode resolved room in
      (
        ap (λ r. r.0) opens,
        λ u w' buf size l. vfs_read-at u w' (length v.fds) buf size inode (
            Later-kept (vfs_open W v w path flags).1 (length v.fds) inode
              (ap (λ r. get_elem? r.1.fds (length v.fds)) opens ∙ get_elem?-append_last v.fds inode)
              l),
      )
