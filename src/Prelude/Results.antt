-- ===== src/Prelude/Results.antt =====
-- The outcome of a call: a value, or the exception that it throws.
use mathlib.Core.Path.{◌≡◌, refl}
use mathlib.Core.Logic.{◌⊎◌, inl, inr}
use mathlib.Core.Bool.{Bool, true, false}
use mathlib.Core.Option.{Option, none, some}

-- Nest's exception classes, and the plain `Error` (`internal_error`), each with what its message says.
pub data Message : Type 0 where
  ticket_not_found bad_requester foreign_requester staff_only_fields no_longer_editable : Message
  not_reopenable only_requester_rates not_ratable already_rated : Message
  customer_internal_note bad_assignee merge_into_itself already_merged : Message
  foreign_comments unknown_tag constraint_violated scan_window_exceeded : Message
  insufficient_role invalid_duration : Message
  email_taken unknown_portal role_not_seeded slug_not_found_yet : Message
  link_invalid bad_credentials unverified not_yet_accepted inactive : Message
  bad_refresh_token session_over session_mismatch token_reused foreign_session : Message
  role_not_grantable own_membership user_not_found status_not_settable : Message
  key_not_found bad_api_key unauthenticated bad_csrf missing_permission : Message

pub data HttpError : Type 0 where
  not_found forbidden bad_request internal_error unauthorized conflict : Message → HttpError

pub data Result {ℓ} (A : Type ℓ) : Type ℓ where
  ok : A → Result A
  err : HttpError → Result A

infixl 5 ◌>>=◌ ◌>>◌
abbrev pub ◌>>=◌ {ℓ κ} : {A : Type ℓ} {B : Type κ} → Result A → (A → Result B) → Result B
ok a >>= f = f a
err e >>= f = err e

abbrev pub ◌>>◌ {ℓ κ} : {A : Type ℓ} {B : Type κ} → Result A → Result B → Result B
m >> k = m >>= λ _. k

-- `if (c) throw e`
abbrev pub throw_if : Bool → HttpError → Result (Unit {0})
throw_if true e = err e
throw_if false e = ok tt

-- `if (!row) throw e`
abbrev pub or_throw {ℓ} : {A : Type ℓ} → Option A → HttpError → Result A
or_throw none e = err e
or_throw (some a) _ = ok a

pub Result-cases {ℓ} :
    {A : Type ℓ} (r : Result A) → ((e : HttpError) × (r ≡ err e)) ⊎ ((a : A) × (r ≡ ok a))
Result-cases (err e) = inl (e, refl)
Result-cases (ok a) = inr (a, refl)
