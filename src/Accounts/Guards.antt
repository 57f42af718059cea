-- ===== src/Accounts/Guards.antt =====
-- The guards that a request to a ticket passes (apps/backend/src/app.module.ts gives the order:
-- common/guards/jwt-auth.guard.ts, roles.guard.ts, permissions.guard.ts, csrf.guard.ts). The
-- throttler, which counts requests, is not modelled; the ticket routes ask for no permission.
use sentinel_desk.Prelude.{
  ℕ, Bool, true, false, not, ◌&&◌, ◌||◌, Option, none, some, List, Text, text_eq, all, any, Result,
  ok, err, unauthorized, forbidden, bad_api_key, unauthenticated, bad_csrf, insufficient_role,
  opt_eq, is_none, if◌then◌else◌,
}
use sentinel_desk.Schema.{AuthenticatedUser, is_staff}
use sentinel_desk.Store.{Db, Env}
use sentinel_desk.Tickets.Access.{TicketDetail}
use sentinel_desk.Tickets.Endpoints.{Request, shows, needs_staff, dispatch}
use sentinel_desk.Accounts.Store.{AuthDb, AuthEnv, Action, JwtAccessPayload}
use sentinel_desk.Accounts.Sessions.{validate}
use sentinel_desk.Accounts.ApiKeys.{validate_key}

-- What the guards read of a request: a key in `Authorization: Bearer sk_live_...`, the cookies
-- `sd_access` and `sd_csrf`, and the header `x-csrf-token`.
pub record Credentials : Type 0 where
  pub bearer_key : Option ℕ
  pub access_cookie : Option ℕ
  pub csrf_cookie : Option ℕ
  pub csrf_header : Option ℕ

abbrev pub known_key : Result (Option AuthenticatedUser) → Result AuthenticatedUser
known_key (err e) = err e
known_key (ok none) = err (unauthorized bad_api_key)
known_key (ok (some user)) = ok user

-- `AuthGuard('jwt')`: the cookie's token is verified, then `JwtStrategy.validate` looks at the session.
abbrev pub by_token : AuthEnv → AuthDb → Option JwtAccessPayload → Result AuthenticatedUser
by_token env db none = err (unauthorized unauthenticated)
by_token env db (some payload) = validate env payload db

abbrev pub by_cookie : AuthEnv → Option ℕ → AuthDb → Result AuthenticatedUser
by_cookie env none db = err (unauthorized unauthenticated)
by_cookie env (some token) db = by_token env db (env.verify_access token env.now)

abbrev pub by_key : AuthEnv → ℕ → Action AuthenticatedUser
by_key env raw_key db = (known_key (validate_key env raw_key db).0, (validate_key env raw_key db).1)

abbrev pub by_credentials : AuthEnv → Option ℕ → Option ℕ → Action AuthenticatedUser
by_credentials env (some raw_key) cookie db = by_key env raw_key db
by_credentials env none cookie db = (by_cookie env cookie db, db)

-- `JwtAuthGuard.canActivate` of a route that is not public.
unfoldable pub authenticate : AuthEnv → Credentials → Action AuthenticatedUser
authenticate env credentials = by_credentials env credentials.bearer_key credentials.access_cookie

-- `CsrfGuard.canActivate` of a route with `@RequireCsrf()`.
abbrev pub has_csrf : Credentials → Bool
has_csrf credentials = not (
    is_none credentials.csrf_cookie
    || is_none credentials.csrf_header
    || not (opt_eq credentials.csrf_cookie credentials.csrf_header))

-- `PermissionsGuard.canActivate`
abbrev pub has_permissions : List Text → AuthenticatedUser → Bool
has_permissions required user = all (λ key. any (text_eq key) user.permissions) required

-- The ticket routes that carry `@RequireCsrf()`.
abbrev pub needs_csrf : Request → Bool
needs_csrf (shows _) = false
needs_csrf _ = true

-- The guards after authentication, and the handler.
unfoldable pub admit :
    Env → Credentials → AuthenticatedUser → Request → Db → Result TicketDetail × Db
unfolding dispatch
admit env credentials user request db =
    if needs_staff request && not (is_staff user)
    then (err (forbidden insufficient_role), db)
    else if needs_csrf request && not (has_csrf credentials)
    then (err (forbidden bad_csrf), db)
    else dispatch env user request db

abbrev pub admit_if :
    Env → Credentials → Result AuthenticatedUser → Request → Db → Result TicketDetail × Db
admit_if env credentials (err e) request db = (err e, db)
admit_if env credentials (ok user) request db = admit env credentials user request db

-- A request to a ticket, from its credentials to its answer.
unfoldable pub serve_request :
    AuthEnv → Env → Credentials → Request → AuthDb → Db → Result TicketDetail × AuthDb × Db
unfolding authenticate admit
serve_request auth env credentials request accounts db =
    let (user, after) = authenticate auth credentials accounts in
    let (answer, desk) = admit_if env credentials user request db in (answer, after, desk)
