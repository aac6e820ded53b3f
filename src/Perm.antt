-- ===== src/Perm.antt =====
-- `check_permission` and `set_permission` of security/perm/permissions.c.
pub mod Classes
mod Tests
use larch.Prelude.{
  ℕ, zero, suc, ◌/◌, ◌^◌, Bool, true, false, ◌&&◌, not, Option, none, some, List, [], ◌∷◌, bit_and,
  ◌==◌, if◌then◌else◌, ◌>>=◌, get_elem?,
}

pub record FilePerms : Type 0 where
  pub uid : ℕ
  pub gid : ℕ
  pub mode : ℕ

-- `groups` is the array of 32 words, of which `group_count` are in use.
pub record UserCred : Type 0 where
  pub uid : ℕ
  pub gid : ℕ
  pub groups : List ℕ
  pub group_count : ℕ

abbrev pub perm_read : ℕ
perm_read = 1

abbrev pub perm_write : ℕ
perm_write = 2

abbrev pub perm_exec : ℕ
perm_exec = 4

-- The loop over the groups, with `count` of them left at index `i`; `none` reads past the array.
pub in_group_from : (groups : List ℕ) (gid i count : ℕ) → Option Bool
in_group_from groups gid i zero = some false
in_group_from groups gid i (suc count) =
    let rest = in_group_from groups gid (suc i) count in
    get_elem? groups i >>= (λ g. if g == gid then some true else rest)

-- The three permission bits that apply to a user other than root.
pub applied_perm : FilePerms → UserCred → Option ℕ
unfolding in_group_from
applied_perm file user =
    let by_group = in_group_from user.groups file.gid 0 user.group_count >>= (λ in_group.
      some (if in_group then bit_and (file.mode / 2 ^ 3) 7 else bit_and file.mode 7)) in
    if user.uid == file.uid then some (bit_and (file.mode / 2 ^ 6) 7) else by_group

-- `access_type == PERM_X && (perm & bit)` in the three returns.
pub granted : (perm access_type : ℕ) → Bool
granted perm access_type =
    if (access_type == perm_read) && not (bit_and perm 4 == 0)
    then true
    else (if (access_type == perm_write) && not (bit_and perm 2 == 0)
        then true
        else (access_type == perm_exec) && not (bit_and perm 1 == 0))

pub check_permission : FilePerms → UserCred → ℕ → Option Bool
unfolding applied_perm granted
check_permission file user access_type =
    let by_mode = applied_perm file user >>= (λ perm. some (granted perm access_type)) in
    if user.uid == 0 then some true else by_mode

pub set_permission : FilePerms → (uid gid mode : ℕ) → FilePerms
set_permission file uid gid mode = record file { uid = uid; gid = gid; mode = mode }
