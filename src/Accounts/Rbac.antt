-- ===== src/Accounts/Rbac.antt =====
-- crates/rivetlink-server/src/auth/rbac.rs and `AuthUser` of auth/middleware.rs: roles and the
-- permissions they grant. The `HashSet` is a list, of which only membership is read.
use rivet_link.Prelude.{
  ◌≡◌, refl, Bool, true, false, ◌||◌, String, List, [], ◌∷◌, ◌++◌, if◌then◌else◌, arith,
}
use rivet_link.Prelude.Result.{Result, ok, err}
use rivet_link.Protocol.{Uuid}
use rivet_link.Accounts.Errors.{ServerError, forbidden}
use Prim.Native.String.{◌++◌ as append}
use text.Mathlib.Text.{◌==◌}

pub data Permission : Type 0 where
  devices_list devices_register sessions_list sessions_create audit_read org_admin : Permission

abbrev pub as_str : Permission → String
as_str devices_list = "devices:list"
as_str devices_register = "devices:register"
as_str sessions_list = "sessions:list"
as_str sessions_create = "sessions:create"
as_str audit_read = "audit:read"
as_str org_admin = "org:admin"

abbrev pub permission_eq : Permission → Permission → Bool
permission_eq a b = as_str a == as_str b

abbrev pub of_role : String → List Permission
of_role role =
    if role == "owner"
    then devices_list ∷ devices_register ∷ sessions_list ∷ sessions_create ∷ audit_read ∷ org_admin
      ∷ []
    else if role == "admin"
    then devices_list ∷ devices_register ∷ sessions_list ∷ sessions_create ∷ audit_read ∷ []
    else if role == "operator"
    then devices_list ∷ devices_register ∷ sessions_list ∷ sessions_create ∷ []
    else if role == "viewer"
    then devices_list ∷ sessions_list ∷ []
    else []

unfoldable pub permissions_for_roles : List String → List Permission
permissions_for_roles [] = []
permissions_for_roles (role ∷ roles) = of_role role ++ permissions_for_roles roles

abbrev pub contains : List Permission → Permission → Bool
contains [] p = false
contains (q ∷ qs) p = permission_eq q p || contains qs p

pub record AuthUser : Type 0 where
  pub user_id : Uuid
  pub org_id : Uuid
  pub roles : List String

unfoldable pub has_permission : AuthUser → Permission → Bool
has_permission user perm = contains (permissions_for_roles user.roles) perm

unfoldable pub require : AuthUser → Permission → Result ServerError Bool
require user perm =
    if has_permission user perm
    then ok true
    else err (forbidden (append "missing permission: " (as_str perm)))

-- Some role of the list passes the test.
abbrev pub any_role : (String → Bool) → List String → Bool
any_role test [] = false
any_role test (r ∷ rs) = test r || any_role test rs

abbrev pub grants : Permission → String → Bool
grants devices_list r = r == "owner" || (r == "admin" || (r == "operator" || r == "viewer"))
grants sessions_list r = r == "owner" || (r == "admin" || (r == "operator" || r == "viewer"))
grants devices_register r = r == "owner" || (r == "admin" || r == "operator")
grants sessions_create r = r == "owner" || (r == "admin" || r == "operator")
grants audit_read r = r == "owner" || r == "admin"
grants org_admin r = r == "owner"

contains-append :
    (p : Permission) (xs ys : List Permission)
    → contains (xs ++ ys) p ≡ (contains xs p || contains ys p)
contains-append p [] ys = refl
contains-append p (x ∷ xs) ys = ground (arith, contains-append p xs ys)

of_role-grants : (p : Permission) (r : String) → contains (of_role r) p ≡ grants p r
of_role-grants devices_list r = ground arith
of_role-grants devices_register r = ground arith
of_role-grants sessions_list r = ground arith
of_role-grants sessions_create r = ground arith
of_role-grants audit_read r = ground arith
of_role-grants org_admin r = ground arith

-- A user holds a permission exactly when one of the user's roles is of those that grant it.
pub has_permission_lem :
    (user : AuthUser) (p : Permission) → has_permission user p ≡ any_role (grants p) user.roles
unfolding has_permission permissions_for_roles
has_permission_lem user p = go user.roles
  where
    go : (rs : List String) → contains (permissions_for_roles rs) p ≡ any_role (grants p) rs
    go [] = refl
    go (r ∷ rs) =
        rw (contains-append p (of_role r) (permissions_for_roles rs), of_role-grants p r, go rs)
          refl
