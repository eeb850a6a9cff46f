-- ===== src/Space/Row.antt =====
-- The rows of app/models/space.py, and the columns of `vault_items` that Spaces read. A UUID is the
-- number that it encodes, an instant a number of microseconds.
use recall_ai.Base.{ℕ, String, Bool, Option, List}

pub data SpaceRole : Type 0 where
  viewer editor owner : SpaceRole

pub data Visibility : Type 0 where
  private unlisted public : Visibility

-- Without the columns that only the overview and the connection count of a Space use.
pub record Space : Type 0 where
  pub id : ℕ
  pub user_id : ℕ
  pub name : String
  pub slug : String
  pub description : Option String
  pub visibility : Visibility
  pub icon : Option String
  pub emoji : Option String
  pub accent : Option String
  pub pinned : Bool
  pub updated_at : ℕ
  pub deleted_at : Option ℕ

pub record SpaceItem : Type 0 where
  pub space_id : ℕ
  pub vault_item_id : ℕ
  pub added_by : ℕ
  pub added_at : ℕ

-- `role` is text in the table.
pub record SpaceMember : Type 0 where
  pub space_id : ℕ
  pub user_id : ℕ
  pub role : String
  pub invited_by : Option ℕ

pub record SpaceInvite : Type 0 where
  pub id : ℕ
  pub space_id : ℕ
  pub role : String
  pub token_hash : String
  pub created_by : ℕ
  pub expires_at : ℕ
  pub accepted_at : Option ℕ
  pub accepted_by : Option ℕ

pub record VaultItem : Type 0 where
  pub id : ℕ
  pub user_id : ℕ
  pub deleted_at : Option ℕ

pub record Db : Type 0 where
  pub spaces : List Space
  pub items : List SpaceItem
  pub members : List SpaceMember
  pub invites : List SpaceInvite
  pub vault : List VaultItem
