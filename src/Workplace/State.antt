-- ===== src/Workplace/State.antt =====
-- The data of crates/capsi-core/src/workplace.rs: roles, permissions, and the records that are
-- kept and synchronized.
use capsi.Base.{Text, ℤ, Option, List, Bool}

pub data Role : Type 0 where
  owner admin manager member : Role

pub data Permission : Type 0 where
  manage_workspace manage_members manage_groups manage_departments : Permission
  send_broadcasts send_messages transfer_files : Permission

pub record Member : Type 0 where
  pub device_id : Text
  pub display_name : Text
  pub role : Role
  pub department_id : Option Text

pub record Group : Type 0 where
  pub id : Text
  pub name : Text
  pub description : Text
  pub member_ids : List Text

pub record Department : Type 0 where
  pub id : Text
  pub name : Text
  pub member_ids : List Text

pub record Broadcast : Type 0 where
  pub id : Text
  pub title : Text
  pub body : Text
  pub author_device_id : Text
  pub department_id : Option Text
  pub created_at : ℤ

pub record WorkplaceMessage : Type 0 where
  pub id : Text
  pub group_id : Text
  pub sender_device_id : Text
  pub body : Text
  pub sent_at : ℤ

-- What one device sends to another.
pub record WorkspaceState : Type 0 where
  pub id : Text
  pub name : Text
  pub created_at : ℤ
  pub updated_at : ℤ
  pub owner_device_id : Text
  pub members : List Member
  pub groups : List Group
  pub departments : List Department
  pub broadcasts : List Broadcast
  pub messages : List WorkplaceMessage
  pub deleted : Bool
