-- ===== src/Common/Roles.antt =====
-- libs/common/src/auth: the roles, and who may assign which.
use nestjs_saas.Prelude.{ℕ, Bool, true, false, nat_eq, not, if◌then◌else◌, ◌≡◌, ◌↔◌, arith}

pub data Role : Type 0 where
  super_admin org_admin instructor learner : Role

abbrev pub role_index : Role → ℕ
role_index super_admin = 0
role_index org_admin = 1
role_index instructor = 2
role_index learner = 3

-- `a === b`
abbrev pub role_eq : Role → Role → Bool
role_eq a b = nat_eq (role_index a) (role_index b)

unfoldable pub can_assign_role : Role → Role → Bool
can_assign_role actor target_role =
    if role_eq actor super_admin
    then true
    else if role_eq actor org_admin
    then not (role_eq target_role super_admin)
    else false

pub role_eq_iff : (a b : Role) → (role_eq a b ≡ true) ↔ (a ≡ b)
role_eq_iff a b = ground arith
