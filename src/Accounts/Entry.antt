-- ===== src/Accounts/Entry.antt =====
-- Who gets in by a password, and who stays in (apps/backend/src/auth/auth.service.ts: login,
-- logoutAllOtherSessions, listSessions).
use sentinel_desk.Prelude.{
  ℕ, Bool, true, ◌&&◌, ◌≡◌, ◌≢◌, ◌∙◌, ap, refl, inl, inr, Option, none, some, List, [], ◌∷◌, ok,
  err, HttpError, unauthorized, bad_credentials, is_none, select, ◌==◌, ltb, arith, Bool-cases,
  Option-cases,
}
use sentinel_desk.Accounts.Schema.{
  User, Session, UserStatus, active, pending_verification, invited, suspended, deactivated,
}
use sentinel_desk.Accounts.Store.{
  AuthDb, AuthEnv, ◌>>=◌, FullUser, find_by_email, draw_secret, draw_key,
}
use sentinel_desk.Accounts.Tokens.{
  RequestMeta, AuthTokenResult, TokenPair, hand_out, issue_session, revoke_matching,
  revoke_sessions,
}
use sentinel_desk.Accounts.Outcomes.{
  Yields, Yields-ok, Yields-anything, bind-Yields, read-Yields, lift-Yields, write-Yields,
}
use sentinel_desk.Accounts.Sessions.{
  LoginDto, login, check_password, may_log_in, is_other_session, logout_all_other_sessions,
  list_sessions,
}

-- The user is the one that signed in.
abbrev pub IsFor : ℕ → AuthTokenResult → AuthDb → Type 0
IsFor id r after = r.user.id ≡ id

hand_out-IsFor :
    (env : AuthEnv) (full : FullUser) (pair : TokenPair) (expires : ℕ) (db : AuthDb)
    → Yields (IsFor full.user.id) (hand_out env full pair expires db)
unfolding hand_out
hand_out-IsFor env full pair expires db =
    bind-Yields _ (λ _ _. Unit {0}) _ _ db tt
      (λ csrf after _. lift-Yields _ _ _ after (λ access _. refl))

issue_session-IsFor :
    (env : AuthEnv) (full : FullUser) (meta : RequestMeta) (remember_me : Bool) (db : AuthDb)
    → Yields (IsFor full.user.id) (issue_session env full meta remember_me db)
unfolding issue_session draw_secret draw_key
issue_session-IsFor env full meta remember_me db = lift-Yields _ _ _ db (λ expires _.
    bind-Yields _ (λ _ _. Unit {0}) _ _ db tt
      (λ placeholder after _.
        bind-Yields _ (λ _ _. Unit {0}) _ _ after tt
          (λ key after _. write-Yields _ _ _ after (
            bind-Yields _ (λ _ _. Unit {0}) _ _ _ (Yields-anything _)
              (λ pair after _.
                write-Yields _ _ _ after (hand_out-IsFor env full pair expires _))))))

-- What a login that is answered was.
pub record IsLogin (env : AuthEnv) (dto : LoginDto) (db : AuthDb) (r : AuthTokenResult)
    : Type 0 where
  pub user : User
  pub hash : ℕ
  pub found : find_by_email dto.email db ≡ some user
  pub has_password : user.password_hash ≡ some hash
  pub right_password : env.compare_password dto.password hash ≡ true
  pub is_active : user.status ≡ active
  pub answered : r.user.id ≡ user.id

check_password-ok :
    (env : AuthEnv) (password : ℕ) (o : Option User) (u : User)
    → check_password env password o ≡ ok u
    → (hash : ℕ) × (o ≡ some u)
      × (u.password_hash ≡ some hash)
      × (env.compare_password password hash ≡ true)
check_password-ok env password none u h = cc
check_password-ok env password (some v) u h = elim (Option-cases v.password_hash) [
  | inl e ↦ ground arith
  | inr (hash, e) ↦ (hash, ground arith, ground arith, ground arith)
]

may_log_in-active :
    (status : UserStatus) {a : Unit {0}} → may_log_in status ≡ ok a → status ≡ active
may_log_in-active pending_verification h = cc
may_log_in-active invited h = cc
may_log_in-active active h = refl
may_log_in-active suspended h = cc
may_log_in-active deactivated h = cc

login-Yields :
    (env : AuthEnv) (dto : LoginDto) (meta : RequestMeta) (db : AuthDb)
    → Yields (λ r after. IsLogin env dto db r) (login env dto meta db)
unfolding login
login-Yields env dto meta db = read-Yields _ _ _ db (λ user checked. read-Yields _ _ _ db (λ role _.
    read-Yields _ _ _ db (λ organization _. lift-Yields _ _ _ db (λ _ may. write-Yields _ _ _ db (
      bind-Yields _ (IsFor user.id) _ _ _
        (issue_session-IsFor env (record { user = user; role = role; organization = organization })
          meta dto.remember_me _)
        (λ r after is_for. write-Yields _ _ _ after (
          let (hash, found, has, right) = check_password-ok env dto.password _ user checked in
          let done : IsLogin env dto db r = record {
            user = user;
            hash = hash;
            found = found;
            has_password = has;
            right_password = right;
            is_active = may_log_in-active user.status may;
            answered = is_for;
          } in
          done)))))))

check_password-err :
    (env : AuthEnv) (password : ℕ) (o : Option User) (e : HttpError)
    → check_password env password o ≡ err e
    → e ≡ unauthorized bad_credentials
check_password-err env password none e h = ground arith
check_password-err env password (some v) e h = elim (Option-cases v.password_hash) [
  | inl missing ↦ ground arith
  | inr (hash, there) ↦ ground arith
]

login-refused :
    (env : AuthEnv) (dto : LoginDto) (meta : RequestMeta) (db : AuthDb)
    → check_password env dto.password (find_by_email dto.email db)
      ≡ err (unauthorized bad_credentials)
    → login env dto meta db ≡ (err (unauthorized bad_credentials), db)
unfolding login ◌>>=◌
login-refused env dto meta db h = rw (h, login) refl

-- A login that is answered was for the account with the address, which is active and has a password
-- that the given one matches, and the answer names that user. An unknown address, an account
-- without a password, and a wrong password all have the same answer, and change nothing.
pub login-IsLogin :
    (env : AuthEnv) (dto : LoginDto) (meta : RequestMeta) (db : AuthDb)
    → ((r : AuthTokenResult) → (login env dto meta db).0 ≡ ok r → IsLogin env dto db r)
      × ((e : HttpError)
          → check_password env dto.password (find_by_email dto.email db) ≡ err e
          → login env dto meta db ≡ (err (unauthorized bad_credentials), db))
login-IsLogin env dto meta db = (
  λ r h. Yields-ok (λ r after. IsLogin env dto db r) _ _ r (login-Yields env dto meta db) h,
  λ e h.
      login-refused env dto meta db
        (h ∙ ap err (check_password-err env dto.password (find_by_email dto.email db) e h)),
)

-- What `listSessions` shows.
abbrev pub is_listed_for : ℕ → ℕ → Session → Bool
is_listed_for now user_id s = s.user_id == user_id && is_none s.revoked_at && ltb now s.expires_at

listed_own :
    (now user_id current : ℕ) (ss : List Session)
    → select (is_listed_for now user_id) (revoke_matching (is_other_session user_id current) now ss)
      ≡ select (λ s. s.id == current) (select (is_listed_for now user_id) ss)
listed_own now user_id current [] = refl
listed_own now user_id current (s ∷ ss) =
    let later = listed_own now user_id current ss in
    elim (Bool-cases (s.user_id == user_id)) [
      | inr foreign ↦ rw foreign (rw foreign later)
      | inl own ↦ elim (Bool-cases (s.id == current)) [
        | inl here ↦ ground (arith, later)
        | inr there ↦ ground (arith, later)
      ]
    ]

listed_other :
    (now user_id current other : ℕ) (ss : List Session)
    → other ≢ user_id
    → select (is_listed_for now other) (revoke_matching (is_other_session user_id current) now ss)
      ≡ select (is_listed_for now other) ss
listed_other now user_id current other [] ne = refl
listed_other now user_id current other (s ∷ ss) ne =
    let later = listed_other now user_id current other ss ne in
    elim (Bool-cases (s.user_id == other)) [
      | inl e ↦ ground (arith, later)
      | inr e ↦ ground (arith, later)
    ]

-- After a user has signed out of all other sessions, the sessions that are listed for him are those
-- that were listed before and have the current key, and the lists of all other users are as before.
pub logout_all_other_sessions-list_sessions :
    (env : AuthEnv) (user_id current other : ℕ) (db : AuthDb)
    → other ≢ user_id
    → (list_sessions env user_id (logout_all_other_sessions env user_id current db).1
        ≡ select (λ s. s.id == current) (list_sessions env user_id db))
      × (list_sessions env other (logout_all_other_sessions env user_id current db).1
          ≡ list_sessions env other db)
unfolding list_sessions logout_all_other_sessions revoke_sessions
logout_all_other_sessions-list_sessions env user_id current other db ne = (
  listed_own env.now user_id current db.sessions,
  listed_other env.now user_id current other db.sessions ne,
)
