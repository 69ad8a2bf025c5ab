-- ===== src/Workplace/Roles.antt =====
-- `Role` of workplace.rs: its wire spelling, and who may assign what.
use capsi.Base.{
  Text, codes, trim, to_ascii_lowercase, text_eq, Option, none, some, Bool, true, false, List, [],
  ◌∷◌, retain, if◌then◌else◌,
}
use capsi.Workplace.State.{Role, owner, admin, manager, member}

-- `Role::from_wire`: case and outer spaces are ignored.
unfoldable pub from_wire : Text → Option Role
unfolding trim to_ascii_lowercase text_eq
from_wire value =
    let word = to_ascii_lowercase (trim value) in
    if text_eq word (codes "owner")
    then some owner
    else if text_eq word (codes "admin")
    then some admin
    else if text_eq word (codes "manager")
    then some manager
    else if text_eq word (codes "member")
    then some member
    else none

-- `Role::as_wire`.
unfoldable pub as_wire : Role → Text
as_wire owner = codes "Owner"
as_wire admin = codes "Admin"
as_wire manager = codes "Manager"
as_wire member = codes "Member"

-- `Role::can_assign`.
unfoldable pub can_assign : Role → Role → Bool
can_assign owner admin = true
can_assign owner manager = true
can_assign owner member = true
can_assign owner owner = false
can_assign admin manager = true
can_assign admin member = true
can_assign admin owner = false
can_assign admin admin = false
can_assign manager _ = false
can_assign member _ = false

-- `Role::assignable_roles`.
unfoldable pub assignable_roles : Role → List Role
unfolding can_assign
assignable_roles actor = retain (λ r. can_assign actor r) (admin ∷ manager ∷ member ∷ [])

-- The derived `PartialEq`.
abbrev pub role_eq : Role → Role → Bool
role_eq owner owner = true
role_eq admin admin = true
role_eq manager manager = true
role_eq member member = true
role_eq _ _ = false
