-- ===== src/Core/Auth.antt =====
-- app/core/auth.py: roles, their order, and the role that Unix groups give an account.
pub mod Laws
use seapath_webui.Common.{
  Text, codes, ◌==◌, ℕ, leb, Bool, true, false, ◌&&◌, ◌||◌, Option, none, some, List, [], ◌∷◌,
  nat_eq, if◌then◌else◌,
}
use seapath_webui.Common.Names.{mem}

pub data Role : Type 0 where
  admin operator viewer : Role

unfoldable pub rank : Role → ℕ
rank viewer = 0
rank operator = 1
rank admin = 2

unfoldable pub can : Role → Role → Bool
unfolding rank
can role required = leb (rank required) (rank role)

pub record User : Type 0 where
  pub username : Text
  pub role : Role

-- An entry of the group file: `gr_mem` and `gr_gid`.
pub record GroupEntry : Type 0 where
  pub members : List Text
  pub gid : ℕ

-- What `grp.getgrnam` and the group of `pwd.getpwnam` answer, `none` for a KeyError.
pub record Accounts : Type 0 where
  pub getgrnam : Text → Option GroupEntry
  pub primary_gid : Text → Option ℕ

pub record RoleSettings : Type 0 where
  pub allow_root_login : Bool
  pub admin_group : Text
  pub operator_group : Text
  pub viewer_group : Text

same_gid : Option ℕ → ℕ → Bool
same_gid none gid = false
same_gid (some own) gid = nat_eq own gid

listed : Accounts → Text → Option GroupEntry → Bool
unfolding same_gid mem
listed accounts username none = false
listed accounts username (some entry) =
    mem username entry.members || same_gid (accounts.primary_gid username) entry.gid

unfoldable pub is_member : Accounts → Text → Text → Bool
unfolding listed
is_member accounts username group = listed accounts username (accounts.getgrnam group)

-- The loop over the three groups.
first_role : Accounts → Text → List (Text × Role) → Option Role
first_role accounts username [] = none
first_role accounts username ((group, role) ∷ rest) =
    let next = first_role accounts username rest in
    if is_member accounts username group then some role else next

unfoldable pub role_for : Accounts → RoleSettings → Text → Option Role
unfolding first_role
role_for accounts settings username =
    if settings.allow_root_login && username == codes "root"
    then some admin
    else first_role accounts username (
        (settings.admin_group, admin)
        ∷ (settings.operator_group, operator)
        ∷ (settings.viewer_group, viewer)
        ∷ [])
