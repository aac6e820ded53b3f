-- ===== src/Perm/Classes.antt =====
-- The permission that the mode grants to the owner, to the group and to everyone else.
use larch.Prelude.{
  ℕ, zero, suc, ◌+◌, ◌/◌, ◌%◌, ◌^◌, ◌≤◌, ◌<◌, ◌≡◌, refl, ◌∙◌, ap, ◌≢◌, Bool, true, false, some,
  List, arith, ◌==◌, ◌>>=◌, get_elem?, length, eq→==, ne→==, get_elem?_exists, ℕ_discrete,
}
use larch.Prelude.Bits.{bit_and_mask, bit_and_shift}
use larch.Perm.{
  FilePerms, UserCred, perm_read, perm_write, perm_exec, in_group_from, applied_perm, granted,
  check_permission,
}

pub data Class : Type 0 where
  owner : Class
  group : Class
  other : Class

pub data Access : Type 0 where
  read : Access
  write : Access
  exec : Access

-- The number of `access_type`, and the bit of a triad that grants it.
unfoldable pub access_code : Access → ℕ
access_code read = perm_read
access_code write = perm_write
access_code exec = perm_exec

unfoldable pub access_bit : Access → ℕ
access_bit read = 2
access_bit write = 1
access_bit exec = 0

-- Where the triad of a class begins in the mode.
unfoldable pub triad : Class → ℕ
triad owner = 6
triad group = 3
triad other = 0

unfoldable pub has_bit : (mode k : ℕ) → Bool
has_bit mode k = mode / 2 ^ k % 2 == 1

-- The class of a user for a file.
pub data ClassOf (file : FilePerms) (user : UserCred) : Class → Type 0 where
  is_owner : user.uid ≡ file.uid → ClassOf file user owner
  is_group :
      user.uid ≢ file.uid
      → (i : ℕ) → i < user.group_count
      → get_elem? user.groups i ≡ some file.gid
      → ClassOf file user group
  is_other :
      user.uid ≢ file.uid
      → ((i : ℕ) → i < user.group_count → get_elem? user.groups i ≢ some file.gid)
      → ClassOf file user other

in_group_from-true :
    (groups : List ℕ) (gid i count j : ℕ)
    → i + count ≤ length groups
    → i ≤ j
    → j < i + count
    → get_elem? groups j ≡ some gid
    → in_group_from groups gid i count ≡ some true
unfolding in_group_from
in_group_from-true groups gid i zero j fits lo hi e = absurd (omega arith)
in_group_from-true groups gid i (suc count) j fits lo hi e =
    let (g, at) = get_elem?_exists groups i (omega arith) in
    elim (ℕ_discrete i j) [
      | yes same ↦ ground (arith, at, ap (get_elem? groups) same ∙ e)
      | no differ ↦
          rw
            (
              at,
              ◌>>=◌,
              in_group_from-true groups gid (suc i) count j (omega arith) (omega arith)
                  (omega arith) e,
            )
            (ground arith)
    ]

in_group_from-false :
    (groups : List ℕ) (gid i count : ℕ)
    → i + count ≤ length groups
    → ((j : ℕ) → j < i + count → get_elem? groups j ≢ some gid)
    → in_group_from groups gid i count ≡ some false
unfolding in_group_from
in_group_from-false groups gid i zero fits h = refl
in_group_from-false groups gid i (suc count) fits h =
    let (g, at) = get_elem?_exists groups i (omega arith) in
    elim (ℕ_discrete g gid) [
      | yes same ↦ absurd (h i (omega arith) (at ∙ ap some same))
      | no differ ↦
          rw (at, ◌>>=◌, ne→== g gid differ)
            (in_group_from-false groups gid (suc i) count (omega arith) (λ j lt. h j (omega arith)))
    ]

-- The three bits that apply are the triad of the class.
applied_perm_lem :
    (file : FilePerms) (user : UserCred) (c : Class)
    → user.group_count ≤ length user.groups
    → ClassOf file user c
    → applied_perm file user ≡ some (file.mode / 2 ^ triad c % 8)
unfolding applied_perm triad
applied_perm_lem file user owner fits (is_owner e) =
    rw (eq→== user.uid file.uid e, bit_and_mask 3 (file.mode / 2 ^ 6)) refl
applied_perm_lem file user group fits (is_group ne i lt at) =
    rw
      (
        ne→== user.uid file.uid ne,
        in_group_from-true user.groups file.gid 0 user.group_count i (omega arith) (omega arith)
            (omega arith) at,
        ◌>>=◌,
        bit_and_mask 3 (file.mode / 2 ^ 3),
      )
      refl
applied_perm_lem file user other fits (is_other ne none_of) =
    rw
      (
        ne→== user.uid file.uid ne,
        in_group_from-false user.groups file.gid 0 user.group_count (omega arith)
            (λ j l. none_of j (omega arith)),
        ◌>>=◌,
        bit_and_mask 3 file.mode,
      )
      (ground arith)

granted_lem : (perm : ℕ) (a : Access) → granted perm (access_code a) ≡ has_bit perm (access_bit a)
unfolding granted access_code access_bit has_bit
granted_lem perm read = ground (arith, bit_and_shift 2 perm 1, bit_and_mask 1 (perm / 2 ^ 2))
granted_lem perm write = ground (arith, bit_and_shift 1 perm 1, bit_and_mask 1 (perm / 2 ^ 1))
granted_lem perm exec = ground (arith, bit_and_mask 1 perm)

has_bit-triad :
    (mode : ℕ) (c : Class) (a : Access)
    → has_bit (mode / 2 ^ triad c % 8) (access_bit a) ≡ has_bit mode (triad c + access_bit a)
unfolding has_bit triad access_bit
has_bit-triad mode owner read = ground arith
has_bit-triad mode owner write = ground arith
has_bit-triad mode owner exec = ground arith
has_bit-triad mode group read = ground arith
has_bit-triad mode group write = ground arith
has_bit-triad mode group exec = ground arith
has_bit-triad mode other read = ground arith
has_bit-triad mode other write = ground arith
has_bit-triad mode other exec = ground arith

-- A user other than root, whose group count is within the array, may read, write or execute a file
-- exactly when the mode has that bit in the triad of the user's class: the owner's triad for the owner,
-- the group's for a member of the group who is not the owner, and the last one for everyone else.
pub check_permission_lem :
    (file : FilePerms) (user : UserCred) (c : Class) (a : Access)
    → user.uid ≢ 0
    → user.group_count ≤ length user.groups
    → ClassOf file user c
    → check_permission file user (access_code a) ≡ some (has_bit file.mode (triad c + access_bit a))
unfolding check_permission
check_permission_lem file user c a ne fits is =
    rw
      (
        ne→== user.uid 0 ne,
        applied_perm_lem file user c fits is,
        ◌>>=◌,
        granted_lem (file.mode / 2 ^ triad c % 8) a,
        has_bit-triad file.mode c a,
      )
      refl

-- Root is allowed every access, whatever the file and the access type are.
pub check_permission-root :
    (file : FilePerms) (user : UserCred) (access_type : ℕ)
    → user.uid ≡ 0
    → check_permission file user access_type ≡ some true
unfolding check_permission
check_permission-root file user access_type e = rw (eq→== user.uid 0 e) refl

-- An access type that is none of the three flags, a combination such as read and write among them,
-- is refused to everyone but root, whatever the mode grants, when the group count is within the
-- array.
pub check_permission-unknown :
    (file : FilePerms) (user : UserCred) (c : Class) (access_type : ℕ)
    → user.uid ≢ 0
    → user.group_count ≤ length user.groups
    → ClassOf file user c
    → ((a : Access) → access_type ≢ access_code a)
    → check_permission file user access_type ≡ some false
unfolding check_permission granted access_code
check_permission-unknown file user c access_type ne fits is unknown =
    rw
      (
        ne→== user.uid 0 ne,
        applied_perm_lem file user c fits is,
        ◌>>=◌,
        ne→== access_type perm_read (unknown read),
        ne→== access_type perm_write (unknown write),
        ne→== access_type perm_exec (unknown exec),
      )
      refl
