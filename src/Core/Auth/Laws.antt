-- ===== src/Core/Auth/Laws.antt =====
-- The role of an account is the highest that one of its groups gives.
use seapath_webui.Common.{
  Text, codes, ◌==◌, ◌≡◌, ◌≢◌, refl, true, false, ◌&&◌, Bool, none, some, arith,
}
use seapath_webui.Core.Auth.{
  Role, admin, operator, viewer, can, Accounts, RoleSettings, is_member, role_for, first_role,
}

-- The group that stands for a role.
abbrev pub group_of : RoleSettings → Role → Text
group_of settings admin = settings.admin_group
group_of settings operator = settings.operator_group
group_of settings viewer = settings.viewer_group

abbrev pub is_root_login : RoleSettings → Text → Bool
is_root_login settings username = settings.allow_root_login && username == codes "root"

module _ (accounts : Accounts) (settings : RoleSettings) (username : Text)
    (ordinary : is_root_login settings username ≡ false) where
  -- An account that is not let in as root has the role `role` only if it is in the group of `role`,
  -- and `role` can do whatever the role of each other group of the account can.
  pub role_for_highest :
      (role : Role)
      → role_for accounts settings username ≡ some role
      → (is_member accounts username (group_of settings role) ≡ true)
        × ((other : Role)
            → is_member accounts username (group_of settings other) ≡ true
            → can role other ≡ true)
  unfolding role_for can first_role
  role_for_highest admin h = (ground arith, λ other m. highest other m)
    where
      highest :
          (other : Role)
          → is_member accounts username (group_of settings other) ≡ true
          → can admin other ≡ true
      highest admin m = refl
      highest operator m = refl
      highest viewer m = refl
  role_for_highest operator h = (ground arith, λ other m. highest other m)
    where
      highest :
          (other : Role)
          → is_member accounts username (group_of settings other) ≡ true
          → can operator other ≡ true
      highest admin m = ground arith
      highest operator m = refl
      highest viewer m = refl
  role_for_highest viewer h = (ground arith, λ other m. highest other m)
    where
      highest :
          (other : Role)
          → is_member accounts username (group_of settings other) ≡ true
          → can viewer other ≡ true
      highest admin m = ground arith
      highest operator m = ground arith
      highest viewer m = refl

  -- An account that is in one of the three groups is not left without a role.
  pub role_for-ne-none :
      (role : Role)
      → is_member accounts username (group_of settings role) ≡ true
      → role_for accounts settings username ≢ none
  unfolding role_for first_role
  role_for-ne-none admin m = ground arith
  role_for-ne-none operator m = ground arith
  role_for-ne-none viewer m = ground arith
