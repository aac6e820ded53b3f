-- ===== src/Fs/Vfs.antt =====
-- kernel/fs/vfs.c: the mount table and the table of open files. A file system and an inode carry
-- functions of code that is elsewhere; they act on a world `W` of which nothing else is known. A null
-- pointer, to a function too, is `none`.
pub mod Resolve
pub mod Files
mod Tests
use larch.Prelude.{
  ℕ, zero, suc, ◌+◌, ◌-◌, Bool, true, false, not, ◌&&◌, Option, none, some, List, [], ◌∷◌, ◌++◌,
  ◌==◌, ltb, leb, if◌then◌else◌, length, get_elem?, get_or, drop,
}
use larch.Prelude.Int.{ℤ, pos, negsuc}

abbrev pub max_mounts : ℕ
max_mounts = 16

abbrev pub max_fds : ℕ
max_fds = 256

-- `return -1;`
abbrev pub minus_one : ℤ
minus_one = negsuc 0

-- `for (j = 0; j < len; j++) if (path[j] != mpath[j])` over a mount path that is given by its bytes; a
-- path that is shorter has its NUL there, which is no byte of a mount path.
pub matches : List ℕ → List ℕ → Bool
matches [] path = true
matches (c ∷ mpath) [] = false
matches (c ∷ mpath) (d ∷ path) = d == c && matches mpath path

module _ (W : Type 0) where
  -- `file_ops_t`, of which `open` and `read` are called here. `read` gets the buffer's address, the
  -- size and the offset.
  pub record FileOps : Type 0 where
    pub open_file : Option (List ℕ → ℤ → W → W)
    pub read_file : Option (ℕ → ℕ → ℕ → W → ℤ × W)

  pub record Inode : Type 0 where
    pub ino : ℕ
    pub mode : ℕ
    pub size : ℕ
    pub private_data : ℕ
    pub ops : Option FileOps

  pub record FilesystemType : Type 0 where
    pub name : List ℕ
    pub mount : Option (List ℕ → List ℕ → W → W)
    pub get_inode : Option (List ℕ → Option Inode)

  pub record MountPoint : Type 0 where
    pub path : List ℕ
    pub fs : FilesystemType

  -- The used parts of the two arrays: `mount_count` and `fd_count` are their lengths.
  pub record Vfs : Type 0 where
    pub mounts : List MountPoint
    pub fds : List Inode

  abbrev call_mount : Option (List ℕ → List ℕ → W → W) → (source target : List ℕ) → W → W
  call_mount none source target w = w
  call_mount (some mount) source target w = mount source target w

  pub vfs_mount : Vfs → W → (source target : List ℕ) → FilesystemType → ℤ × Vfs × W
  vfs_mount v w source target fs = if leb max_mounts (length v.mounts) then (minus_one, v, w) else (
    pos 0,
    record v { mounts = v.mounts ++ record { path = target; fs = fs } ∷ [] },
    call_mount fs.mount source target w,
  )

  -- What the loop does at one mount point: `none` goes on to the next one.
  pub try_mount : MountPoint → List ℕ → Option (Option Inode)
  try_mount m path = elim m.fs.get_inode [
    | none ↦ none
    | some get_inode ↦
        if matches m.path path then some (get_inode (drop (length m.path) path)) else none
  ]

  abbrev pub or_else : Option (Option Inode) → Option Inode → Option Inode
  or_else none rest = rest
  or_else (some result) rest = result

  -- The loop from the mount point before `count` down.
  pub resolve_from : List MountPoint → ℕ → List ℕ → Option Inode
  unfolding try_mount
  resolve_from mounts zero path = none
  resolve_from mounts (suc i) path =
      let rest = resolve_from mounts i path in
      elim (get_elem? mounts i) [ none ↦ rest | some m ↦ or_else (try_mount m path) rest ]

  pub vfs_resolve : Vfs → List ℕ → Option Inode
  vfs_resolve v path = resolve_from v.mounts (length v.mounts) path

  abbrev pub call_open : Option FileOps → List ℕ → ℤ → W → W
  call_open none path flags w = w
  call_open (some ops) path flags w = elim ops.open_file [ none ↦ w | some f ↦ f path flags w ]

  pub vfs_open : Vfs → W → List ℕ → ℤ → ℤ × Vfs × W
  vfs_open v w path flags = elim (vfs_resolve v path) [
    | none ↦ (minus_one, v, w)
    | some inode ↦ if leb max_fds (length v.fds) then (minus_one, v, w) else (
      pos (length v.fds),
      record v { fds = v.fds ++ inode ∷ [] },
      call_open inode.ops path flags w,
    )
  ]

  abbrev pub call_read : Option FileOps → (buf size : ℕ) → W → ℤ × W
  call_read none buf size w = (minus_one, w)
  call_read (some ops) buf size w = elim ops.read_file [
    | none ↦ (minus_one, w)
    | some f ↦ f buf size 0 w
  ]

  pub vfs_read : Vfs → W → ℤ → (buf size : ℕ) → ℤ × W
  vfs_read v w (negsuc n) buf size = (minus_one, w)
  vfs_read v w (pos fd) buf size = elim (get_elem? v.fds fd) [
    | none ↦ (minus_one, w)
    | some inode ↦ call_read inode.ops buf size w
  ]
