-- ===== src/Perm/Tests.antt =====
-- The theorems of the permissions on a file of mode 640.
use larch.Prelude.{◌≡◌, ◌≢◌, refl, some, ◌∷◌, replicate, arith}
use larch.Perm.{FilePerms, UserCred, check_permission}
use larch.Perm.Classes.{
  Access, read, write, exec, group, ClassOf, is_group, access_code, access_bit, triad, has_bit,
  check_permission_lem,
}

abbrev report : FilePerms
report = record { uid = 1000; gid = 50; mode = 0x1A0 }

abbrev member : UserCred
member = record { uid = 1001; gid = 100; groups = 7 ∷ 50 ∷ replicate 30 0; group_count = 2 }

member-ClassOf : ClassOf report member group
member-ClassOf = is_group (omega arith) 1 (omega arith) refl

check_permission_lem_example : check_permission report member 1 ≡ some (has_bit 0x1A0 5)
unfolding access_code triad access_bit
check_permission_lem_example =
    check_permission_lem report member group read (omega arith) (omega arith) member-ClassOf

combined : (a : Access) → 3 ≢ access_code a
unfolding access_code
combined read = omega arith
combined write = omega arith
combined exec = omega arith
