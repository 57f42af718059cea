-- ===== src/Accounts/Schema.antt =====
-- The rows of apps/backend/prisma/schema.prisma that hold accounts. Keys are numbers in place of
-- UUIDs; e-mail addresses, tokens, secrets, their hashes and IP addresses are only compared or handed
-- on, and are numbers too.
use sentinel_desk.Prelude.{ℕ, Bool, true, false, Option, List, [], ◌∷◌, Text}
use sentinel_desk.Schema.{RoleName, customer, agent, senior_agent, manager, admin}

pub data UserStatus : Type 0 where
  pending_verification invited active suspended deactivated : UserStatus

-- `a === b` of two statuses, and of two roles.
abbrev pub user_status_eq : UserStatus → UserStatus → Bool
user_status_eq pending_verification pending_verification = true
user_status_eq invited invited = true
user_status_eq active active = true
user_status_eq suspended suspended = true
user_status_eq deactivated deactivated = true
user_status_eq _ _ = false

abbrev pub role_eq : RoleName → RoleName → Bool
role_eq customer customer = true
role_eq agent agent = true
role_eq senior_agent senior_agent = true
role_eq manager manager = true
role_eq admin admin = true
role_eq _ _ = false

pub record Organization : Type 0 where
  pub id : ℕ
  pub name : Text
  pub slug : Text
  pub logo_url : Option Text
  pub primary_color : Text
  pub timezone : Text

-- A role, with the keys of the permissions that its `RolePermission` rows give it.
pub record Role : Type 0 where
  pub id : ℕ
  pub name : RoleName
  pub label : Text
  pub permissions : List Text

pub record User : Type 0 where
  pub id : ℕ
  pub organization_id : ℕ
  pub email : ℕ
  pub password_hash : Option ℕ
  pub first_name : Text
  pub last_name : Text
  pub avatar_url : Option Text
  pub title : Option Text
  pub phone : Option Text
  pub status : UserStatus
  pub role_id : ℕ
  pub timezone : Text
  pub last_login_at : Option ℕ
  pub created_at : ℕ

pub record Session : Type 0 where
  pub id : ℕ
  pub user_id : ℕ
  pub refresh_token_hash : ℕ
  pub user_agent : Option Text
  pub ip_address : Option ℕ
  pub is_remember_me : Bool
  pub last_used_at : ℕ
  pub expires_at : ℕ
  pub revoked_at : Option ℕ
  pub created_at : ℕ

-- One shape for `EmailVerificationToken`, `PasswordResetToken` and `InviteToken`, the secrets that
-- a link in a mail carries.
pub record LinkToken : Type 0 where
  pub id : ℕ
  pub user_id : ℕ
  pub token_hash : ℕ
  pub expires_at : ℕ
  pub consumed_at : Option ℕ

pub record ApiKey : Type 0 where
  pub id : ℕ
  pub organization_id : ℕ
  pub created_by_id : ℕ
  pub name : Text
  pub key_hash : ℕ
  pub last_used_at : Option ℕ
  pub created_at : ℕ

pub data AccountAction : Type 0 where
  auth_signup auth_signup_customer auth_invite_accepted auth_login : AccountAction
  auth_email_verified auth_password_reset user_invited user_updated : AccountAction

-- An entry of the audit log about a user.
pub record AccountAudit : Type 0 where
  pub organization_id : ℕ
  pub actor_user_id : ℕ
  pub action : AccountAction
  pub entity_id : ℕ

-- What `MailService` is asked to send.
pub data Mail : Type 0 where
  verification_email password_reset_email : (to : ℕ) (first_name : Text) (token : ℕ) → Mail
  invite_email :
      (to : ℕ) (inviter_first_name inviter_last_name organization_name role_label : Text)
      (token : ℕ)
      → Mail

-- `@default("UTC")`
abbrev pub utc_name : Text
utc_name = b'U' ∷ b'T' ∷ b'C' ∷ []
