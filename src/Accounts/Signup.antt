-- ===== src/Accounts/Signup.antt =====
-- New organizations and new customers (apps/backend/src/auth/auth.service.ts: signup, signupCustomer).
use sentinel_desk.Prelude.{
  ℕ, zero, suc, ◌*◌, Bool, Option, none, some, [], ◌∷◌, ◌++◌, Text, or_throw, is_some, not_found,
  internal_error, unknown_portal, role_not_seeded, slug_not_found_yet,
}
use sentinel_desk.Schema.{admin, customer}
use sentinel_desk.Helpers.Slug.{slugify, random_suffix}
use sentinel_desk.Helpers.Probe.{probe}
use sentinel_desk.Accounts.Schema.{
  Organization, User, pending_verification, auth_signup, auth_signup_customer, utc_name,
}
use sentinel_desk.Accounts.Store.{
  AuthDb, AuthEnv, Action, ◌>>=◌, ◌>>◌, read, write, draw_secret, draw_key, check_key_free,
  find_by_slug, find_role_by_name, insert_user, record_audit,
}
use sentinel_desk.Accounts.Links.{issue_email_verification}
use sentinel_desk.Accounts.Members.{check_email_free}

pub record SignupDto : Type 0 where
  pub organization_name : Text
  pub first_name : Text
  pub last_name : Text
  pub email : ℕ
  pub password : ℕ

pub record SignupCustomerDto : Type 0 where
  pub organization_slug : Text
  pub first_name : Text
  pub last_name : Text
  pub email : ℕ
  pub password : ℕ

-- `slugify(name) || 'workspace'`
abbrev pub workspace : Text
workspace = b'w' ∷ b'o' ∷ b'r' ∷ b'k' ∷ b's' ∷ b'p' ∷ b'a' ∷ b'c' ∷ b'e' ∷ []

abbrev pub or_workspace : Text → Text
or_workspace [] = workspace
or_workspace (c ∷ s) = c ∷ s

abbrev pub slug_base : Text → Text
slug_base name = or_workspace (slugify name)

-- What the loop tries: the base, then the base with five random characters.
abbrev pub slug_candidate : AuthEnv → Text → ℕ → Text
slug_candidate env base zero = base
slug_candidate env base (suc k) = base ++ b'-' ∷ random_suffix env.random_index (5 * k) 5

abbrev pub slug_taken : AuthDb → Text → Bool
slug_taken db slug = is_some (find_by_slug slug db.organizations)

-- The loop, for so many rounds.
unfoldable pub free_slug : AuthEnv → ℕ → Text → AuthDb → Option Text
unfolding slugify
free_slug env rounds name db = probe (slug_taken db) (slug_candidate env (slug_base name)) rounds 0

abbrev pub new_organization : Text → Text → ℕ → Organization
new_organization name slug key = record {
  id = key;
  name = name;
  slug = slug;
  logo_url = none;
  primary_color = b'#' ∷ b'6' ∷ b'3' ∷ b'6' ∷ b'6' ∷ b'F' ∷ b'1' ∷ [];
  timezone = utc_name;
}

abbrev pub registered_user : AuthEnv → ℕ → ℕ → ℕ → Text → Text → ℕ → ℕ → User
registered_user env organization_id email hash first_name last_name role_id key = record {
  id = key;
  organization_id = organization_id;
  email = email;
  password_hash = some hash;
  first_name = first_name;
  last_name = last_name;
  avatar_url = none;
  title = none;
  phone = none;
  status = pending_verification;
  role_id = role_id;
  timezone = utc_name;
  last_login_at = none;
  created_at = env.now;
}

-- `signup`; the answer is a fixed message. The keys of both rows are drawn, and the user's is looked up,
-- before the first write, since the transaction leaves nothing behind when it fails.
unfoldable pub signup : AuthEnv → ℕ → SignupDto → Action (Unit {0})
unfolding free_slug draw_secret draw_key insert_user record_audit issue_email_verification
signup env rounds dto = do
  read (check_email_free dto.email)
  slug ← read (λ db.
      or_throw (free_slug env rounds dto.organization_name db) (internal_error slug_not_found_yet))
  role ← read (λ db. or_throw (find_role_by_name admin db.roles) (internal_error role_not_seeded))
  salt ← draw_secret env
  organization_id ← draw_key env
  key ← draw_key env
  read (check_key_free key)
  write (λ db. record db {
    organizations =
        db.organizations ++ (new_organization dto.organization_name slug organization_id ∷ []);
  })
  let user : User =
      registered_user env organization_id dto.email (env.hash_password dto.password salt)
        dto.first_name dto.last_name role.id key
  write (insert_user user)
  issue_email_verification env user
  write (record_audit organization_id user.id auth_signup user.id)

-- `signupCustomer`
unfoldable pub signup_customer : AuthEnv → SignupCustomerDto → Action (Unit {0})
unfolding draw_secret draw_key insert_user record_audit issue_email_verification
signup_customer env dto = do
  organization ← read (λ db.
      or_throw (find_by_slug dto.organization_slug db.organizations) (not_found unknown_portal))
  read (check_email_free dto.email)
  role ←
      read (λ db. or_throw (find_role_by_name customer db.roles) (internal_error role_not_seeded))
  salt ← draw_secret env
  key ← draw_key env
  read (check_key_free key)
  let user : User =
      registered_user env organization.id dto.email (env.hash_password dto.password salt)
        dto.first_name dto.last_name role.id key
  write (insert_user user)
  issue_email_verification env user
  write (record_audit organization.id user.id auth_signup_customer user.id)
