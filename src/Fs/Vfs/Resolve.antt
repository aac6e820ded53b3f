-- ===== src/Fs/Vfs/Resolve.antt =====
-- Which mount point a path is resolved at.
use larch.Prelude.{
  ℕ, zero, suc, ◌≤◌, ◌<◌, ◌≡◌, refl, sym, ap, ◌∙◌, inl, inr, true, Option, none, some, List, [],
  ◌∷◌, ◌++◌, arith, length, get_elem?, get_elem?_exists, lt_of_get_elem?, drop, Bool-cases,
  ℕ_discrete,
}
use larch.Fs.Vfs.{Inode, MountPoint, Vfs, matches, try_mount, or_else, resolve_from, vfs_resolve}

pub matches-append : (mpath rest : List ℕ) → matches mpath (mpath ++ rest) ≡ true
unfolding matches
matches-append [] rest = refl
matches-append (c ∷ mpath) rest = ground (arith, matches-append mpath rest)

drop-append_self : (mpath rest : List ℕ) → drop (length mpath) (mpath ++ rest) ≡ rest
drop-append_self [] rest = refl
drop-append_self (c ∷ mpath) rest = drop-append_self mpath rest

matches-prefix :
    (mpath path : List ℕ) → matches mpath path ≡ true → path ≡ mpath ++ drop (length mpath) path
unfolding matches
matches-prefix [] path h = refl
matches-prefix (c ∷ mpath) [] h = cc
matches-prefix (c ∷ mpath) (d ∷ path) h = ground (arith, matches-prefix mpath path)

module _ (W : Type 0) where
  -- The mount point has a `get_inode`, and the path begins with its path.
  pub record Covers (m : MountPoint W) (path : List ℕ) : Type 0 where
    pub get_inode : List ℕ → Option (Inode W)
    pub rest : List ℕ
    pub provides : m.fs.get_inode ≡ some get_inode
    pub prefix : path ≡ m.path ++ rest

  -- The result of resolving a path: that of the newest mount point which covers it, for the part of
  -- the path behind that mount point's, or null.
  pub data Resolved (mounts : List (MountPoint W)) (path : List ℕ) : Option (Inode W) → Type 0 where
    uncovered :
        ((j : ℕ) (m : MountPoint W) → get_elem? mounts j ≡ some m → ¬ Covers m path)
        → Resolved mounts path none
    newest :
        (i : ℕ) (m : MountPoint W)
        → get_elem? mounts i ≡ some m
        → (c : Covers m path)
        → ((j : ℕ) (m' : MountPoint W) → i < j → get_elem? mounts j ≡ some m' → ¬ Covers m' path)
        → Resolved mounts path (c.get_inode c.rest)

  -- What the loop does at a mount point.
  pub data Tried (m : MountPoint W) (path : List ℕ) : Type 0 where
    covers : (c : Covers m path) → try_mount W m path ≡ some (c.get_inode c.rest) → Tried m path
    goes_on : ¬ Covers m path → try_mount W m path ≡ none → Tried m path

  provided-Tried :
      (m : MountPoint W) (path : List ℕ) (get_inode : Option (List ℕ → Option (Inode W)))
      → m.fs.get_inode ≡ get_inode
      → Tried m path
  unfolding try_mount
  provided-Tried m path none e = goes_on (λ c. cc (c.provides)) (rw e refl)
  provided-Tried m path (some get_inode) e = elim (Bool-cases (matches m.path path)) [
    | inl fits ↦
        covers
          (record {
            get_inode = get_inode;
            rest = drop (length m.path) path;
            provides = e;
            prefix = matches-prefix m.path path fits;
          })
          (rw (e, fits) refl)
    | inr differs ↦
        goes_on (λ c. cc (ap (matches m.path) c.prefix, matches-append m.path c.rest, differs))
          (rw (e, differs) refl)
  ]

  pub try_mount-Tried : (m : MountPoint W) (path : List ℕ) → Tried m path
  try_mount-Tried m path = provided-Tried m path m.fs.get_inode refl

  abbrev NoneFrom : (mounts : List (MountPoint W)) (path : List ℕ) (i : ℕ) → Type 0
  NoneFrom mounts path i =
      (j : ℕ) (m : MountPoint W) → i ≤ j → get_elem? mounts j ≡ some m → ¬ Covers m path

  NoneFrom-pred :
      (mounts : List (MountPoint W)) (path : List ℕ) (i : ℕ) (m : MountPoint W)
      → get_elem? mounts i ≡ some m
      → ¬ Covers m path
      → NoneFrom mounts path (suc i)
      → NoneFrom mounts path i
  NoneFrom-pred mounts path i m at out above j m' le at' c = elim (ℕ_discrete j i) [
    | yes same ↦ out (rw (some_injective m' m (sym at' ∙ (ap (get_elem? mounts) same ∙ at))) at c)
    | no differ ↦ above j m' (omega arith) at' c
  ]
    where
      some_injective : (a b : MountPoint W) → some a ≡ some b → a ≡ b
      some_injective a b e = cc

  resolve_from-suc :
      (mounts : List (MountPoint W)) (path : List ℕ) (i : ℕ) (m : MountPoint W)
      → get_elem? mounts i ≡ some m
      → resolve_from W mounts (suc i) path
        ≡ or_else W (try_mount W m path) (resolve_from W mounts i path)
  unfolding resolve_from try_mount
  resolve_from-suc mounts path i m at = rw (at, resolve_from) refl

  resolve_from-Resolved :
      (mounts : List (MountPoint W)) (path : List ℕ) (i : ℕ)
      → i ≤ length mounts
      → NoneFrom mounts path i
      → Resolved mounts path (resolve_from W mounts i path)
  resolve_from-Resolved mounts path zero le above =
      unfold resolve_from in uncovered (λ j m at. above j m (omega arith) at)
  resolve_from-Resolved mounts path (suc i) le above =
      let (m, at) = get_elem?_exists mounts i (omega arith) in
      elim (try_mount-Tried m path) [
        | covers c e ↦
            rw (resolve_from-suc mounts path i m at, e)
              (newest i m at c (λ j m' lt. above j m' (omega arith)))
        | goes_on out e ↦
            rw (resolve_from-suc mounts path i m at, e)
              (resolve_from-Resolved mounts path i (omega arith)
                (NoneFrom-pred mounts path i m at out above))
      ]

  -- `vfs_resolve` hands the path to the newest mount point that has a `get_inode` and whose path the
  -- given path begins with, without that beginning, and returns what it returns, null included; with no
  -- such mount point the result is null.
  pub vfs_resolve-Resolved :
      (v : Vfs W) (path : List ℕ) → Resolved v.mounts path (vfs_resolve W v path)
  unfolding vfs_resolve
  vfs_resolve-Resolved v path =
      resolve_from-Resolved v.mounts path (length v.mounts) (omega arith)
        (λ j m le at. absurd (omega (arith, lt_of_get_elem? v.mounts j at)))
