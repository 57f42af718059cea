-- ===== src/Tests/AccountWorld.antt =====
-- An organization with an administrator, an agent who has two sessions, and a customer who has been
-- suspended; an environment whose hashes and tokens are plain arithmetic.
use sentinel_desk.Prelude.{ℕ, ◌+◌, ◌*◌, ◌%◌, false, none, some, List, [], ◌∷◌, ok, ◌==◌}
use sentinel_desk.Schema.{
  AuthenticatedUser, RoleName, customer, agent, senior_agent, manager, admin,
}
use sentinel_desk.Accounts.Schema.{
  User, UserStatus, active, suspended, Session, LinkToken, Organization, Role, utc_name,
}
use sentinel_desk.Accounts.Store.{AuthDb, AuthEnv, JwtAccessPayload}
use sentinel_desk.Accounts.Tokens.{RequestMeta}
use sentinel_desk.Accounts.Calls.{Call, logs_out_others, updates_member, refreshes}

abbrev pub payload_of : ℕ → JwtAccessPayload
payload_of session = record {
  sub = 20;
  org_id = 1;
  role = agent;
  permissions = [];
  session_id = session;
}

abbrev pub at : ℕ → AuthEnv
at now = record {
  now = now;
  uuid = λ n. n + 1000;
  random_bytes = λ n. n + 100;
  random_index = λ k. k;
  hash_token = λ t. t + 1;
  hash_password = λ p salt. p * 10;
  compare_password = λ p h. p * 10 == h;
  sign_access = λ p ttl t. ok (t * 1000 + p.session_id);
  sign_refresh = λ p ttl t. ok (t * 1000 + p.session_id);
  verify_access = λ token t. some (payload_of (token % 1000));
  verify_refresh = λ token t. some (record { sub = 20; session_id = token % 1000 });
  api_key_session = λ n. n;
  jwt = record {
    access_expires_in = b'1' ∷ b'5' ∷ b'm' ∷ [];
    refresh_expires_in = b'7' ∷ b'd' ∷ [];
    refresh_expires_in_remember_me = b'3' ∷ b'0' ∷ b'd' ∷ [];
  };
}

abbrev pub browser : RequestMeta
browser = record { ip = some 9; user_agent = none }

abbrev pub account : ℕ → ℕ → UserStatus → User
account id role status = record {
  id = id;
  organization_id = 1;
  email = id + 500;
  password_hash = some (id * 10);
  first_name = [];
  last_name = [];
  avatar_url = none;
  title = none;
  phone = none;
  status = status;
  role_id = role;
  timezone = utc_name;
  last_login_at = none;
  created_at = 0;
}

-- A session whose current refresh token was signed one second after the epoch.
abbrev pub signed_in : ℕ → ℕ → Session
signed_in id user = record {
  id = id;
  user_id = user;
  refresh_token_hash = 1000 + id + 1;
  user_agent = none;
  ip_address = none;
  is_remember_me = false;
  last_used_at = 0;
  expires_at = 900000;
  revoked_at = none;
  created_at = 0;
}

abbrev pub role_row : ℕ → RoleName → Role
role_row id name = record { id = id; name = name; label = []; permissions = [] }

abbrev pub acme : Organization
acme = record {
  id = 1;
  name = [];
  slug = b'a' ∷ b'c' ∷ b'm' ∷ b'e' ∷ [];
  logo_url = none;
  primary_color = [];
  timezone = utc_name;
}

abbrev pub reset_link : LinkToken
reset_link = record {
  id = 7;
  user_id = 20;
  token_hash = 301;
  expires_at = 9000;
  consumed_at = none;
}

abbrev pub accounts : AuthDb
accounts = record {
  organizations = acme ∷ [];
  roles =
      role_row 1 customer
      ∷ role_row 2 agent
      ∷ role_row 3 senior_agent
      ∷ role_row 4 manager
      ∷ role_row 5 admin
      ∷ [];
  users = account 10 5 active ∷ account 20 2 active ∷ account 30 1 suspended ∷ [];
  sessions =
      signed_in 1 20
      ∷ signed_in 2 20
      ∷ record (signed_in 3 30) { revoked_at = some 50 }
      ∷ signed_in 4 10
      ∷ [];
  verification_tokens = [];
  reset_tokens = reset_link ∷ [];
  invite_tokens = [];
  api_keys = [];
  audit_logs = [];
  mails = [];
  keys_drawn = 0;
  secrets_drawn = 0;
}

abbrev pub chief : AuthenticatedUser
chief = record { id = 10; organization_id = 1; role = admin; permissions = []; session_id = 4 }

abbrev pub worker : AuthenticatedUser
worker = record { id = 20; organization_id = 1; role = agent; permissions = []; session_id = 1 }

-- The agent refreshes, signs out elsewhere; then the administrator suspends the customer again.
abbrev pub some_calls : List (AuthEnv × Call)
some_calls =
    (at 60, refreshes 1001 browser)
    ∷ (at 70, logs_out_others worker)
    ∷ (at 80, updates_member chief 30 (record { role = none; status = some suspended }))
    ∷ []
