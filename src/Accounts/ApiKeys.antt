-- ===== src/Accounts/ApiKeys.antt =====
-- API keys (apps/backend/src/api-keys/api-keys.service.ts). The clear prefix of a key, which is kept for
-- display, is not a column here.
use sentinel_desk.Prelude.{
  ℕ, not, Option, none, some, [], ◌∷◌, ◌++◌, Text, Result, ok, err, find, modify, select, or_throw,
  not_found, internal_error, constraint_violated, key_not_found, ◌==◌, if◌then◌else◌,
}
use sentinel_desk.Schema.{AuthenticatedUser}
use sentinel_desk.Accounts.Schema.{ApiKey}
use sentinel_desk.Accounts.Store.{
  AuthEnv, Action, ◌>>=◌, ◌>>◌, lift, read, write, draw_secret, draw_key, find_user, role_of,
}
use sentinel_desk.Accounts.Tokens.{get_permissions_for_role}

abbrev pub check_own_key : ℕ → Option ApiKey → Result ApiKey
check_own_key organization_id none = err (not_found key_not_found)
check_own_key organization_id (some k) =
    if not (k.organization_id == organization_id) then err (not_found key_not_found) else ok k

-- `create`: the key itself is answered, its hash is stored.
unfoldable pub create_key : AuthEnv → AuthenticatedUser → Text → Action (ApiKey × ℕ)
unfolding draw_secret draw_key
create_key env user name = do
  raw_key ← draw_secret env
  key ← draw_key env
  let row : ApiKey = record {
    id = key;
    organization_id = user.organization_id;
    created_by_id = user.id;
    name = name;
    key_hash = env.hash_token raw_key;
    last_used_at = none;
    created_at = env.now;
  }
  write (λ db. record db { api_keys = db.api_keys ++ (row ∷ []) })
  lift (ok (row, raw_key))

-- `remove`
unfoldable pub remove_key : AuthenticatedUser → ℕ → Action (Unit {0})
remove_key user id = do
  read (λ db. check_own_key user.organization_id (find (λ k. k.id) id db.api_keys))
  write (λ db. record db { api_keys = select (λ k. not (k.id == id)) db.api_keys })

abbrev pub as_creator : AuthEnv → ApiKey → Action (Option AuthenticatedUser)
as_creator env key = do
  user ← read (λ db. or_throw (find_user key.created_by_id db) (internal_error constraint_violated))
  role ← read (role_of user)
  permissions ← read (λ db. ok (get_permissions_for_role user.role_id db))
  lift (
      ok (
        some (record {
          id = user.id;
          organization_id = key.organization_id;
          role = role.name;
          permissions = permissions;
          session_id = env.api_key_session key.id;
        })))

abbrev pub use_key : AuthEnv → Option ApiKey → Action (Option AuthenticatedUser)
use_key env none db = (ok none, db)
use_key env (some key) db = as_creator env key (record db {
  api_keys = modify (λ k. k.id) key.id (λ k. record k { last_used_at = some env.now }) db.api_keys;
})

-- `validateKey`
unfoldable pub validate_key : AuthEnv → ℕ → Action (Option AuthenticatedUser)
validate_key env raw_key db =
    use_key env (find (λ k. k.key_hash) (env.hash_token raw_key) db.api_keys) db
