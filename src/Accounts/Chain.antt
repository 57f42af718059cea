-- ===== src/Accounts/Chain.antt =====
-- The guards and the ticket endpoints together (apps/backend/src/common/guards,
-- apps/backend/src/tickets/tickets.controller.ts).
use sentinel_desk.Prelude.{
  ℕ, false, not, ◌&&◌, ◌≡◌, ◌⊎◌, refl, inl, inr, Option, none, some, List, Result, ok, err,
  Bool-cases, is_none, opt_eq, ◌||◌, arith,
}
use sentinel_desk.Schema.{AuthenticatedUser, is_staff}
use sentinel_desk.Store.{Db, Env}
use sentinel_desk.Tickets.Endpoints.{Request, shows, needs_staff, handle}
use sentinel_desk.Accounts.Store.{AuthDb, AuthEnv}
use sentinel_desk.Accounts.Calls.{Call, run_calls}
use sentinel_desk.Accounts.Runs.{IsSettled}
use sentinel_desk.Accounts.Bearers.{IsAuthentic, by_credentials-IsAuthentic}
use sentinel_desk.Accounts.Guards.{
  Credentials, by_credentials, authenticate, has_csrf, needs_csrf, admit, admit_if, serve_request,
}

-- The header repeats the CSRF cookie, which every route but the one that only shows asks for.
abbrev pub RepeatsCookie : Request → Credentials → Type 0
RepeatsCookie (shows _) credentials = Unit
RepeatsCookie _ credentials =
    (token : ℕ) × (credentials.csrf_cookie ≡ some token) × (credentials.csrf_header ≡ some token)

-- What a request does to the desk.
abbrev pub IsServed : Env → Credentials → AuthenticatedUser → Request → Db → Db → Type 0
IsServed env credentials user request db after =
    (after ≡ (handle env user request db).1) × RepeatsCookie request credentials

same_token :
    (cookie header : Option ℕ)
    → (is_none cookie || is_none header || not (opt_eq cookie header)) ≡ false
    → (token : ℕ) × (cookie ≡ some token) × (header ≡ some token)
same_token none header h = cc
same_token (some c) none h = cc
same_token (some c) (some d) h = (c, refl, ground arith)

csrf-RepeatsCookie :
    (request : Request) (credentials : Credentials)
    → (needs_csrf request && not (has_csrf credentials)) ≡ false
    → RepeatsCookie request credentials
csrf-RepeatsCookie (shows _) credentials h = tt
csrf-RepeatsCookie _ credentials h =
    same_token credentials.csrf_cookie credentials.csrf_header (ground arith)

admit-IsServed :
    (env : Env) (credentials : Credentials) (user : AuthenticatedUser) (request : Request) (db : Db)
    → ((admit env credentials user request db).1 ≡ db)
      ⊎ IsServed env credentials user request db (admit env credentials user request db).1
unfolding admit handle
admit-IsServed env credentials user request db =
    elim (Bool-cases (needs_staff request && not (is_staff user))) [
      | inl low ↦ inl (rw (low, admit) refl)
      | inr high ↦ elim (Bool-cases (needs_csrf request && not (has_csrf credentials))) [
        | inl forged ↦ inl (rw (high, forged, admit) refl)
        | inr genuine ↦ inr (
            rw (high, genuine, admit, handle)
              (refl, csrf-RepeatsCookie request credentials genuine))
      ]
    ]

admit_if-IsServed :
    (env : Env) (credentials : Credentials) (r : Result AuthenticatedUser) (request : Request)
    (db : Db)
    → ((admit_if env credentials r request db).1 ≡ db)
      ⊎ (user : AuthenticatedUser) × (r ≡ ok user)
        × IsServed env credentials user request db (admit_if env credentials r request db).1
admit_if-IsServed env credentials (err e) request db = inl refl
admit_if-IsServed env credentials (ok user) request db =
    elim (admit-IsServed env credentials user request db) [
      | inl kept ↦ inl kept
      | inr served ↦ inr (user, refl, served)
    ]

-- After any account calls, a request to a ticket either leaves the desk as it is, or it was let in
-- for a user and does exactly what the endpoint does for that user. If it bears an API key, its hash
-- is stored, and the user is the key's creator, with the key's organization and the creator's role
-- and permissions of now. Else its cookie is a token that verifies, the user is the one that the
-- token names with the organization, role and permissions in it, the token's session is his, is not
-- revoked and has not expired, and his account is active. On every route but the one that shows a
-- ticket, the header repeats the CSRF cookie.
pub serve_request-IsServed :
    (calls : List (AuthEnv × Call)) (auth : AuthEnv) (env : Env) (credentials : Credentials)
    (request : Request) (accounts : AuthDb) (db : Db)
    → IsSettled accounts
    → ((serve_request auth env credentials request (run_calls calls accounts) db).2 ≡ db)
      ⊎ (user : AuthenticatedUser) × IsAuthentic auth credentials.bearer_key
          credentials.access_cookie
          (run_calls calls accounts)
          user
        × IsServed env credentials user request db
            (serve_request auth env credentials request (run_calls calls accounts) db).2
unfolding serve_request authenticate
serve_request-IsServed calls auth env credentials request accounts db settled =
    let after = run_calls calls accounts in
    let who = by_credentials auth credentials.bearer_key credentials.access_cookie after in
    elim (admit_if-IsServed env credentials who.0 request db) [
      | inl kept ↦ inl kept
      | inr (user, let_in, served) ↦ inr (
        user,
        by_credentials-IsAuthentic calls auth credentials.bearer_key credentials.access_cookie
            accounts user settled let_in,
        served,
      )
    ]
