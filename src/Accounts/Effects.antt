-- ===== src/Accounts/Effects.antt =====
-- What a call may do to the users' statuses and to the sessions, as a relation between the tables
-- before and after (apps/backend/src/auth/auth.service.ts, apps/backend/src/users/users.service.ts).
pub mod Tokens
pub mod Calls
pub mod Handle
use sentinel_desk.Prelude.{
  ℕ, Bool, true, false, ◌≡◌, refl, inl, inr, Option, none, some, List, [], ◌∷◌, ◌++◌, Result, ok,
  err, is_some, modify, map, IsDistinct, ◌==◌, Result-cases,
}
use sentinel_desk.Accounts.Schema.{User, Session, user_status_eq, active}
use sentinel_desk.Accounts.Store.{AuthDb, Action, ◌>>=◌, after_call, lift, read, write, find_user}
use sentinel_desk.Accounts.Tokens.{revoke_matching}

abbrev pub is_active : Option User → Bool
is_active none = false
is_active (some u) = user_status_eq u.status active

-- No two users have the same key.
abbrev pub IsKeyed : AuthDb → Type 0
IsKeyed db = IsDistinct (map (λ u. u.id) db.users)

-- What a write of a session keeps: whose it is, and that it is over once it is.
pub record KeepsSession (f : Session → Session) : Type 0 where
  pub same_id : (s : Session) → (f s).id ≡ s.id
  pub same_owner : (s : Session) → (f s).user_id ≡ s.user_id
  pub still_revoked : (s : Session) → is_some s.revoked_at ≡ true → is_some (f s).revoked_at ≡ true

-- What a write of a user keeps: who it is, and that the account is active.
pub record KeepsActive (f : User → User) : Type 0 where
  pub same_id : (u : User) → (f u).id ≡ u.id
  pub still_active : (u : User) → is_active (some u) ≡ true → is_active (some (f u)) ≡ true

pub data Effect : AuthDb → AuthDb → Type 0 where
  quiet : {a b : AuthDb} → b.users ≡ a.users → b.sessions ≡ a.sessions → Effect a b
  opened :
      {a b : AuthDb} (s : Session)
      → is_active (find_user s.user_id a) ≡ true
      → b.users ≡ a.users
      → b.sessions ≡ a.sessions ++ (s ∷ [])
      → Effect a b
  session_written :
      {a b : AuthDb} (id : ℕ) (f : Session → Session)
      → KeepsSession f
      → b.users ≡ a.users
      → b.sessions ≡ modify (λ s. s.id) id f a.sessions
      → Effect a b
  sessions_revoked :
      {a b : AuthDb} (p : Session → Bool) (now : ℕ)
      → b.users ≡ a.users
      → b.sessions ≡ revoke_matching p now a.sessions
      → Effect a b
  user_written :
      {a b : AuthDb} (id : ℕ) (f : User → User)
      → KeepsActive f
      → b.users ≡ modify (λ u. u.id) id f a.users
      → b.sessions ≡ a.sessions
      → Effect a b
  user_suspended :
      {a b : AuthDb} (id : ℕ) (f : User → User) (now : ℕ)
      → ((u : User) → (f u).id ≡ u.id)
      → b.users ≡ modify (λ u. u.id) id f a.users
      → b.sessions ≡ revoke_matching (λ s. s.user_id == id) now a.sessions
      → Effect a b
  user_added :
      {a b : AuthDb} (u : User)
      → find_user u.id a ≡ none
      → b.users ≡ a.users ++ (u ∷ [])
      → b.sessions ≡ a.sessions
      → Effect a b
  followed_by : {a b c : AuthDb} → Effect a b → Effect b c → Effect a c

abbrev pub same : {db : AuthDb} → Effect db db
same {db} = quiet refl refl

-- An action that does one of these to whatever it starts from.
abbrev pub HasEffect : {A : Type 0} → Action A → Type 0
HasEffect m = (db : AuthDb) → Effect db (m db).1

pub after_call-Effect :
    {A B : Type 0} (r : Result A) (k : A → Action B) (db : AuthDb)
    → ((a : A) → r ≡ ok a → Effect db (k a db).1)
    → Effect db (after_call r k db).1
after_call-Effect (err e) k db h = same
after_call-Effect (ok a) k db h = h a refl

pub bind-Effect :
    {A B : Type 0} (m : Action A) (k : A → Action B) (db : AuthDb)
    → Effect db (m db).1
    → ((a : A) → (m db).0 ≡ ok a → Effect (m db).1 (k a (m db).1).1)
    → Effect db ((m >>= k) db).1
unfolding ◌>>=◌
bind-Effect m k db hm hk = followed_by hm (after_call-Effect (m db).0 k (m db).1 hk)

pub bind-HasEffect :
    {A B : Type 0} (m : Action A) (k : A → Action B)
    → HasEffect m
    → ((a : A) → HasEffect (k a))
    → HasEffect (m >>= k)
bind-HasEffect m k hm hk db = bind-Effect m k db (hm db) (λ a _. hk a (m db).1)

pub read-Effect :
    {A B : Type 0} (query : AuthDb → Result A) (k : A → Action B) (db : AuthDb)
    → ((a : A) → query db ≡ ok a → Effect db (k a db).1)
    → Effect db ((read query >>= k) db).1
unfolding ◌>>=◌
read-Effect query k db h = after_call-Effect (query db) k db h

-- After a query, with what it has found.
pub read-HasEffect :
    {A B : Type 0} (query : AuthDb → Result A) (k : A → Action B)
    → ((a : A) (db : AuthDb) → query db ≡ ok a → Effect db (k a db).1)
    → HasEffect (read query >>= k)
unfolding ◌>>=◌
read-HasEffect query k h db = after_call-Effect (query db) k db (λ a e. h a db e)

pub lift-HasEffect :
    {A B : Type 0} (r : Result A) (k : A → Action B)
    → ((a : A) → r ≡ ok a → HasEffect (k a))
    → HasEffect (lift r >>= k)
unfolding ◌>>=◌
lift-HasEffect r k h db = after_call-Effect r k db (λ a e. h a e db)
