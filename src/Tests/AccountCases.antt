-- ===== src/Tests/AccountCases.antt =====
-- Concrete runs of the account calls.
use sentinel_desk.Prelude.{
  ℕ, zero, suc, ◌<◌, ◌*◌, ◌≡◌, ◌≢◌, ◌⊎◌, refl, true, false, none, some, [], ◌∷◌, Text, text_eq, All,
  arith, ok, err, unauthorized, token_reused, session_over, link_invalid, bad_credentials,
  HttpError, ltb, select, ◌==◌,
}
use sentinel_desk.Schema.{AuthenticatedUser, manager, admin, senior_agent}
use sentinel_desk.Helpers.Slug.{slugify, IsSlug, slugify-IsSlug}
use sentinel_desk.Helpers.Characters.{is_space}
use sentinel_desk.Helpers.Duration.{
  add_duration, parse_duration_ms, written, parse_duration_ms_written,
}
use sentinel_desk.Accounts.Schema.{User, Session, suspended}
use sentinel_desk.Accounts.Store.{
  ◌>>=◌, draw_secret, draw_key, insert_user, update_user, update_session, record_audit, send_mail,
  find_session, find_user, find_by_email, JwtRefreshPayload,
}
use sentinel_desk.Accounts.Tokens.{
  AuthTokenResult, sign_token_pair, hand_out, rotate_session, revoke_sessions,
}
use sentinel_desk.Accounts.Links.{issue_email_verification, reset_password}
use sentinel_desk.Accounts.Sessions.{
  LoginDto, login, refresh, validate, logout_all_other_sessions, list_sessions, check_password,
}
use sentinel_desk.Accounts.Signup.{SignupDto, signup, free_slug, slug_candidate, slug_base}
use sentinel_desk.Accounts.Members.{
  UpdateMemberDto, update_member, if_suspended, InviteUserDto, invite_user,
}
use sentinel_desk.Accounts.Calls.{perform, run_calls}
use sentinel_desk.Accounts.Effects.{is_active}
use sentinel_desk.Accounts.Runs.{IsSettled, run_calls-IsSettled}
use sentinel_desk.Accounts.Revoked.{is_over, run_calls-refused, validate-is_active}
use sentinel_desk.Accounts.Replay.{refresh-replayed}
use sentinel_desk.Accounts.Reset.{reset_password-reset_password}
use sentinel_desk.Accounts.Grants.{
  IsUpdated, update_member-IsUpdated, IsInvited, invite_user-IsInvited,
}
use sentinel_desk.Accounts.Entry.{IsLogin, login-IsLogin, logout_all_other_sessions-list_sessions}
use sentinel_desk.Accounts.Portals.{IsSignedUp, signup-IsSignedUp, free_slug-finds}
use sentinel_desk.Accounts.Guards.{Credentials, serve_request}
use sentinel_desk.Accounts.Bearers.{IsAuthentic}
use sentinel_desk.Accounts.Chain.{IsServed, serve_request-IsServed}
use sentinel_desk.Tickets.Endpoints.{shows}
use sentinel_desk.Tests.World.{desk, desk_env}
use sentinel_desk.Tests.AccountWorld.{at, browser, accounts, payload_of, worker, some_calls}

accounts-IsSettled : IsSettled accounts
accounts-IsSettled = ((refl, (refl, (refl, tt))), (refl, (refl, (refl, (refl, tt)))))

run_calls-IsSettled_example : IsSettled (run_calls some_calls accounts)
run_calls-IsSettled_example = run_calls-IsSettled some_calls accounts accounts-IsSettled

run_calls-refused_example :
    (validate (at 90) (payload_of 3) (run_calls some_calls accounts)
      ≡ err (unauthorized session_over))
    × (refresh (at 90) 5003 browser (run_calls some_calls accounts)
        ≡ (err (unauthorized session_over), run_calls some_calls accounts))
run_calls-refused_example =
    run_calls-refused some_calls accounts (at 90) (payload_of 3) 5003
      (record { sub = 20; session_id = 3 }) browser accounts-IsSettled refl refl refl

refresh-replayed_example :
    (payload : JwtRefreshPayload) × ((at 60).verify_refresh 1001 60 ≡ some payload)
    × (((refresh (at 65) 1001 browser (refresh (at 60) 1001 browser accounts).1).0
            ≡ err (unauthorized token_reused))
          × (is_over (
                find_session payload.session_id
                  (refresh (at 65) 1001 browser (refresh (at 60) 1001 browser accounts).1).1)
              ≡ true)
        ⊎ (refresh (at 65) 1001 browser (refresh (at 60) 1001 browser accounts).1
            ≡ (err (unauthorized session_over), (refresh (at 60) 1001 browser accounts).1)))
unfolding refresh rotate_session sign_token_pair hand_out draw_secret update_session add_duration
    parse_duration_ms is_space ◌>>=◌
refresh-replayed_example =
    refresh-replayed (at 60) (at 65) 1001 browser browser accounts _ refl refl (omega arith)

reset_password-reset_password_example :
    reset_password (at 200) 300 88 (reset_password (at 100) 300 77 accounts).1
    ≡ (err (unauthorized link_invalid), (reset_password (at 100) 300 77 accounts).1)
unfolding reset_password draw_secret update_user revoke_sessions record_audit ◌>>=◌
reset_password-reset_password_example =
    reset_password-reset_password (at 100) (at 200) 300 77 88 accounts (refl, tt) refl refl

abbrev suspension : UpdateMemberDto
suspension = record { role = some manager; status = some suspended }

update_member-IsUpdated_example :
    IsUpdated 10 admin 1 20 suspension accounts
      (update_member (at 100) 10 admin 1 20 suspension accounts).1
unfolding update_member update_user if_suspended revoke_sessions record_audit ◌>>=◌
update_member-IsUpdated_example =
    update_member-IsUpdated (at 100) 10 admin 1 20 suspension accounts refl

abbrev newcomer : InviteUserDto
newcomer = record { email = 600; first_name = []; last_name = []; role = senior_agent }

invite_user-IsInvited_example :
    (user : User) × IsInvited
      (at 100)
      1
      admin
      newcomer
      accounts
      user
      (invite_user (at 100) 10 1 admin newcomer accounts).1
unfolding invite_user draw_key draw_secret insert_user send_mail record_audit ◌>>=◌
invite_user-IsInvited_example =
    (_, invite_user-IsInvited (at 100) 10 1 admin newcomer accounts _ refl)

abbrev attempt : LoginDto
attempt = record { email = 520; password = 20; remember_me = true }

login-IsLogin_example :
    ((r : AuthTokenResult)
      → (login (at 100) attempt browser accounts).0 ≡ ok r
      → IsLogin (at 100) attempt accounts r)
    × ((e : HttpError)
        → check_password (at 100) 20 (find_by_email 520 accounts) ≡ err e
        → login (at 100) attempt browser accounts ≡ (err (unauthorized bad_credentials), accounts))
login-IsLogin_example = login-IsLogin (at 100) attempt browser accounts

logout_all_other_sessions-list_sessions_example :
    (list_sessions (at 100) 20 (logout_all_other_sessions (at 100) 20 1 accounts).1
      ≡ select (λ s. s.id == 1) (list_sessions (at 100) 20 accounts))
    × (list_sessions (at 100) 10 (logout_all_other_sessions (at 100) 20 1 accounts).1
        ≡ list_sessions (at 100) 10 accounts)
logout_all_other_sessions-list_sessions_example =
    logout_all_other_sessions-list_sessions (at 100) 20 1 10 accounts (omega arith)

validate-is_active_example :
    (s : Session) × (find_session 1 (run_calls some_calls accounts) ≡ some s)
    × (s.user_id ≡ 20)
    × (s.revoked_at ≡ none)
    × (ltb s.expires_at 90 ≡ false)
    × (is_active (find_user 20 (run_calls some_calls accounts)) ≡ true)
unfolding run_calls perform validate refresh rotate_session sign_token_pair hand_out draw_secret
    update_session add_duration parse_duration_ms is_space ◌>>=◌ logout_all_other_sessions
    update_member update_user if_suspended revoke_sessions record_audit
validate-is_active_example =
    validate-is_active some_calls accounts (at 90) (payload_of 1) worker accounts-IsSettled refl

abbrev founder : SignupDto
founder = record {
  organization_name = b'A' ∷ b'c' ∷ b'm' ∷ b'e' ∷ [];
  first_name = [];
  last_name = [];
  email = 700;
  password = 1;
}

signup-IsSignedUp_example :
    IsSignedUp (at 100) founder accounts (signup (at 100) 2 founder accounts).1
unfolding signup free_slug slugify is_space draw_key draw_secret insert_user
    issue_email_verification send_mail record_audit ◌>>=◌
signup-IsSignedUp_example = signup-IsSignedUp (at 100) 2 founder accounts refl

two_differ :
    (i j : ℕ)
    → i < j
    → j < 2
    → slug_candidate (at 100) (slug_base founder.organization_name) i
      ≢ slug_candidate (at 100) (slug_base founder.organization_name) j
unfolding slugify is_space
two_differ zero (suc zero) lt bound e = cc
two_differ zero zero lt bound e = omega (arith, lt)
two_differ zero (suc (suc j)) lt bound e = omega (arith, bound)
two_differ (suc i) j lt bound e = omega (arith, lt, bound)

free_slug-finds_example :
    (slug : Text) × (free_slug (at 100) 2 founder.organization_name accounts ≡ some slug)
    × All (λ o. text_eq o.slug slug ≡ false) accounts.organizations
free_slug-finds_example =
    free_slug-finds (at 100) 2 founder.organization_name accounts (omega arith) two_differ

slugify-IsSlug_example : IsSlug (slugify (b'-' ∷ b'A' ∷ 32 ∷ 33 ∷ b'-' ∷ b'b' ∷ []))
slugify-IsSlug_example = slugify-IsSlug (b'-' ∷ b'A' ∷ 32 ∷ 33 ∷ b'-' ∷ b'b' ∷ [])

parse_duration_ms_written_example :
    parse_duration_ms (written 15 b'm' (32 ∷ []) []) ≡ ok (15 * 60000)
unfolding is_space
parse_duration_ms_written_example =
    parse_duration_ms_written 15 b'm' 60000 (32 ∷ []) [] refl (refl, tt) tt

-- A request of the agent's browser.
abbrev cookies : Credentials
cookies = record {
  bearer_key = none;
  access_cookie = some 60001;
  csrf_cookie = some 5;
  csrf_header = some 5;
}

serve_request-IsServed_example :
    ((serve_request (at 90) (desk_env 90) cookies (shows 1) (run_calls some_calls accounts) desk).2
      ≡ desk)
    ⊎ (user : AuthenticatedUser) × IsAuthentic
        (at 90)
        none
        cookies.access_cookie
        (run_calls some_calls accounts)
        user
      × IsServed
          (desk_env 90)
          cookies
          user
          (shows 1)
          desk
          (serve_request
            (at 90)
            (desk_env 90)
            cookies
            (shows 1)
            (run_calls some_calls accounts)
            desk).2
serve_request-IsServed_example =
    serve_request-IsServed some_calls (at 90) (desk_env 90) cookies (shows 1) accounts desk
      accounts-IsSettled
