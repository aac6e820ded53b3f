-- ===== src/Fs/Vfs/Tests.antt =====
-- A root file system, and a second one over `/mnt`.
use larch.Prelude.{ℕ, ◌+◌, ◌≡◌, refl, none, some, [], ◌∷◌, codes}
use larch.Prelude.Int.{pos}
use larch.Fs.Vfs.{
  FileOps, Inode, FilesystemType, Vfs, matches, try_mount, resolve_from, vfs_resolve,
}
use larch.Fs.Vfs.Resolve.{Resolved, vfs_resolve-Resolved}

-- The world counts the calls.
abbrev counting : FileOps ℕ
counting = record {
  open_file = some (λ path flags w. w + 1);
  read_file = some (λ buf size offset w. (pos size, w + 1));
}

abbrev inode_of : ℕ → Inode ℕ
inode_of n = record { ino = n; mode = 0; size = 10; private_data = 0; ops = some counting }

abbrev type_of : ℕ → FilesystemType ℕ
type_of n = record { name = []; mount = none; get_inode = some (λ path. some (inode_of n)) }

abbrev two_mounts : Vfs ℕ
two_mounts = record {
  mounts =
      record { path = codes "/"; fs = type_of 1 }
      ∷ record { path = codes "/mnt"; fs = type_of 2 }
      ∷ [];
  fds = [];
}

vfs_resolve-Resolved_example :
    Resolved ℕ two_mounts.mounts (codes "/mnt/a") (vfs_resolve ℕ two_mounts (codes "/mnt/a"))
vfs_resolve-Resolved_example = vfs_resolve-Resolved ℕ two_mounts (codes "/mnt/a")

resolved : vfs_resolve ℕ two_mounts (codes "/mnt/a") ≡ some (inode_of 2)
unfolding vfs_resolve resolve_from try_mount matches
resolved = refl
