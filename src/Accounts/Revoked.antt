-- ===== src/Accounts/Revoked.antt =====
-- A session that is over stays over, and whom the check on every request lets in
-- (apps/backend/src/auth/auth.service.ts: refresh; apps/backend/src/auth/strategies/jwt.strategy.ts).
use sentinel_desk.Prelude.{
  ℕ, Bool, true, false, ◌&&◌, ◌||◌, ◌≡◌, ◌∙◌, ap, sym, subst, refl, inl, inr, Option, none, some,
  List, [], ◌∷◌, ◌++◌, ok, err, HttpError, unauthorized, session_over, is_some, is_none, find,
  modify, find-modify_self, find-modify_ne, arith, ◌==◌, ltb, if◌then◌else◌, Bool-cases,
  Option-cases, Result-cases, All-find,
}
use mathlib.Core.Option
use sentinel_desk.Schema.{AuthenticatedUser}
use sentinel_desk.Accounts.Schema.{User, Session}
use sentinel_desk.Accounts.Store.{
  AuthDb, AuthEnv, find_user, find_session, JwtAccessPayload, JwtRefreshPayload, ◌>>=◌,
}
use sentinel_desk.Accounts.Tokens.{RequestMeta, revoke_matching}
use sentinel_desk.Accounts.Sessions.{refresh, validate, check_session, as_named, as_checked}
use sentinel_desk.Accounts.Calls.{Call, run_calls}
use sentinel_desk.Accounts.Effects.{
  is_active, KeepsSession, Effect, quiet, opened, session_written, sessions_revoked, user_written,
  user_suspended, user_added, followed_by,
}
use sentinel_desk.Accounts.Effects.Handle.{perform-Effect}
use sentinel_desk.Accounts.Runs.{
  is_settled, IsSettled, same_key_or_not, Effect-IsSettled, run_calls-IsSettled,
}

-- The session with this key exists and was revoked.
abbrev pub is_over : Option Session → Bool
is_over none = false
is_over (some s) = is_some s.revoked_at

over-map :
    (f : Session → Session)
    → KeepsSession f
    → (o : Option Session) → is_over o ≡ true
    → is_over (Option.map f o) ≡ true
over-map f keeps none h = cc
over-map f keeps (some s) h = keeps.still_revoked s h

over-modify :
    (j k : ℕ) (f : Session → Session) (ss : List Session)
    → KeepsSession f
    → is_over (find (λ s. s.id) j ss) ≡ true
    → is_over (find (λ s. s.id) j (modify (λ s. s.id) k f ss)) ≡ true
over-modify j k f ss keeps h = elim (same_key_or_not j k) [
  | inl e ↦
      subst (λ i. is_over (find (λ s. s.id) i (modify (λ s. s.id) k f ss)) ≡ true) (sym e)
        (ap is_over (find-modify_self (λ s. s.id) k f ss keeps.same_id)
          ∙ over-map f keeps (find (λ s. s.id) k ss)
              (subst (λ i. is_over (find (λ s. s.id) i ss) ≡ true) e h))
  | inr ne ↦ ap is_over (find-modify_ne (λ s. s.id) k j f ss keeps.same_id ne) ∙ h
]

abbrev pub first_hit : Bool → Session → Option Session → Option Session
first_hit b s later = if b then some s else later

over-append :
    (j : ℕ) (ss : List Session) (t : Session)
    → is_over (find (λ s. s.id) j ss) ≡ true
    → is_over (find (λ s. s.id) j (ss ++ t ∷ [])) ≡ true
over-append j [] t h = cc
over-append j (s ∷ ss) t h = elim (Bool-cases (s.id == j)) [
  | inl e ↦ rw e (subst (λ b. is_over (first_hit b s (find (λ s. s.id) j ss)) ≡ true) e h)
  | inr e ↦
      rw e (
        over-append j ss t
          (subst (λ b. is_over (first_hit b s (find (λ s. s.id) j ss)) ≡ true) e h))
]

over-revoke :
    (j : ℕ) (p : Session → Bool) (now : ℕ) (ss : List Session)
    → is_over (find (λ s. s.id) j ss) ≡ true
    → is_over (find (λ s. s.id) j (revoke_matching p now ss)) ≡ true
over-revoke j p now [] h = cc
over-revoke j p now (s ∷ ss) h = elim (Bool-cases (s.id == j)) [
  | inl e ↦ elim (Bool-cases (p s && is_none s.revoked_at)) [
    | inl hit ↦ rw hit (rw e refl)
    | inr miss ↦
        rw miss (rw e (subst (λ b. is_over (first_hit b s (find (λ s. s.id) j ss)) ≡ true) e h))
  ]
  | inr e ↦
      let later =
        over-revoke j p now ss
          (subst (λ b. is_over (first_hit b s (find (λ s. s.id) j ss)) ≡ true) e h) in
      elim (Bool-cases (p s && is_none s.revoked_at)) [
        | inl hit ↦ rw hit (rw e later)
        | inr miss ↦ rw miss (rw e later)
      ]
]

Effect-is_over :
    (id : ℕ) (a b : AuthDb)
    → Effect a b
    → is_over (find_session id a) ≡ true
    → is_over (find_session id b) ≡ true
Effect-is_over id a b (quiet us ss) h = rw ss h
Effect-is_over id a b (opened s live us ss) h = rw ss (over-append id a.sessions s h)
Effect-is_over id a b (session_written k f keeps us ss) h =
    rw ss (over-modify id k f a.sessions keeps h)
Effect-is_over id a b (sessions_revoked p now us ss) h = rw ss (over-revoke id p now a.sessions h)
Effect-is_over id a b (user_written k f keeps us ss) h = rw ss h
Effect-is_over id a b (user_suspended k f now same_id us ss) h =
    rw ss (over-revoke id (λ s. s.user_id == k) now a.sessions h)
Effect-is_over id a b (user_added u free us ss) h = rw ss h
Effect-is_over id a c (followed_by {b = b} e f) h =
    Effect-is_over id b c f (Effect-is_over id a b e h)

pub run_calls-is_over :
    (calls : List (AuthEnv × Call)) (id : ℕ) (db : AuthDb)
    → IsSettled db
    → is_over (find_session id db) ≡ true
    → is_over (find_session id (run_calls calls db)) ≡ true
unfolding run_calls
run_calls-is_over [] id db settled h = h
run_calls-is_over ((env, call) ∷ rest) id db settled h =
    run_calls-is_over rest id _
      (Effect-IsSettled db _ (perform-Effect env call db settled.0) settled)
      (Effect-is_over id db _ (perform-Effect env call db settled.0) h)

check_session-over :
    (now : ℕ) (o : Option Session)
    → is_over o ≡ true
    → check_session now o ≡ err (unauthorized session_over)
check_session-over now none h = cc
check_session-over now (some s) h = rw h refl

pub refresh-over :
    (env : AuthEnv) (token : ℕ) (meta : RequestMeta) (db : AuthDb) (payload : JwtRefreshPayload)
    → env.verify_refresh token env.now ≡ some payload
    → check_session env.now (find_session payload.session_id db) ≡ err (unauthorized session_over)
    → refresh env token meta db ≡ (err (unauthorized session_over), db)
unfolding refresh ◌>>=◌
refresh-over env token meta db payload verified gone =
    rw (verified, refresh) (rw (gone, refresh) refl)

-- Once a session is revoked, then after any calls, at any instant: no access token for it is let
-- in, and a refresh token for it is refused and changes nothing.
pub run_calls-refused :
    (calls : List (AuthEnv × Call)) (db : AuthDb) (env : AuthEnv) (payload : JwtAccessPayload)
    (token : ℕ) (refresh_payload : JwtRefreshPayload) (meta : RequestMeta)
    → IsSettled db
    → is_over (find_session payload.session_id db) ≡ true
    → env.verify_refresh token env.now ≡ some refresh_payload
    → refresh_payload.session_id ≡ payload.session_id
    → (validate env payload (run_calls calls db) ≡ err (unauthorized session_over))
      × (refresh env token meta (run_calls calls db)
          ≡ (err (unauthorized session_over), run_calls calls db))
unfolding validate
run_calls-refused calls db env payload token refresh_payload meta settled over verified same =
    let after = run_calls calls db in
    let gone : check_session env.now (find_session payload.session_id after)
        ≡ err (unauthorized session_over) =
      check_session-over env.now _ (run_calls-is_over calls payload.session_id db settled over) in
    (
      ap (as_checked payload) gone,
      refresh-over env token meta after refresh_payload verified (
          subst
            (λ i. check_session env.now (find_session i after) ≡ err (unauthorized session_over))
            (sym same) gone),
    )

pub check_session-ok :
    (now : ℕ) (o : Option Session) (s : Session)
    → check_session now o ≡ ok s
    → (o ≡ some s) × (s.revoked_at ≡ none) × (ltb s.expires_at now ≡ false)
check_session-ok now none s h = cc
check_session-ok now (some t) s h = elim (Option-cases t.revoked_at) [
  | inl live ↦ ground arith
  | inr (r, over) ↦ ground arith
]

pub not_ok : {A : Type 0} {e : HttpError} {a : A} → ¬ (err e ≡ ok a)
not_ok h = cc

as_named-ok :
    (payload : JwtAccessPayload) (s : Session) (user : AuthenticatedUser)
    → as_named payload s ≡ ok user
    → s.user_id ≡ user.id
as_named-ok payload s user h = ground arith

-- The owner of a session that is not revoked.
owner-is_active :
    (users : List User) (s : Session)
    → is_settled users s ≡ true
    → s.revoked_at ≡ none
    → is_active (find (λ u. u.id) s.user_id users) ≡ true
owner-is_active users s settled live =
    subst (λ (r : Option ℕ). (is_some r || is_active (find (λ u. u.id) s.user_id users)) ≡ true)
      live settled

-- After any calls, an access token that is let in has a session of its user that is not revoked,
-- has not expired, and belongs to a user who is active.
pub validate-is_active :
    (calls : List (AuthEnv × Call)) (db : AuthDb) (env : AuthEnv) (payload : JwtAccessPayload)
    (user : AuthenticatedUser)
    → IsSettled db
    → validate env payload (run_calls calls db) ≡ ok user
    → (s : Session) × (find_session payload.session_id (run_calls calls db) ≡ some s)
      × (s.user_id ≡ user.id)
      × (s.revoked_at ≡ none)
      × (ltb s.expires_at env.now ≡ false)
      × (is_active (find_user user.id (run_calls calls db)) ≡ true)
unfolding validate
validate-is_active calls db env payload user settled h =
    let after = run_calls calls db in
    elim (Result-cases (check_session env.now (find_session payload.session_id after))) [
      | inl (e, failed) ↦ absurd (not_ok (ap (as_checked payload) (sym failed) ∙ h))
      | inr (s, passed) ↦
          let (found, live, lasting) = check_session-ok env.now _ s passed in
          let owner : s.user_id ≡ user.id =
            as_named-ok payload s user (ap (as_checked payload) (sym passed) ∙ h) in
          (
            s,
            found,
            owner,
            live,
            lasting,
            subst (λ i. is_active (find_user i after) ≡ true) owner
                (owner-is_active after.users s
                  (All-find (λ s. s.id) _ payload.session_id after.sessions s
                    (run_calls-IsSettled calls db settled).1 found)
                  live),
          )
    ]
