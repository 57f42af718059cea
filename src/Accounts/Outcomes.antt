-- ===== src/Accounts/Outcomes.antt =====
-- What holds whenever a call answers: postconditions, with a rule for each way of composing calls
-- (apps/backend/src/auth/auth.service.ts).
use sentinel_desk.Prelude.{
  ◌≡◌, refl, ap, subst, Option, none, some, HttpError, or_throw, Result, ok, err,
}
use sentinel_desk.Accounts.Store.{AuthDb, Action, ◌>>=◌, after_call, lift, read, write}

abbrev pub or_else : {A : Type 0} → A → Result A → A
or_else d (ok a) = a
or_else d (err e) = d

pub ok_injective : {A : Type 0} {a b : A} → ok a ≡ ok b → a ≡ b
ok_injective {a = a} h = ap (or_else a) h

pub or_throw-some :
    {A : Type 0} (o : Option A) (e : HttpError) (a : A) → or_throw o e ≡ ok a → o ≡ some a
or_throw-some none e a h = cc
or_throw-some (some b) e a h = ap some (ok_injective h)

module _ {A : Type 0} (Q : A → AuthDb → Type 0) where
  -- If there is an answer, it and the tables that are left satisfy `Q`.
  abbrev pub Answers : Result A → AuthDb → Type 0
  Answers (ok a) db = Q a db
  Answers (err e) db = Unit

  abbrev pub Yields : Result A × AuthDb → Type 0
  Yields r = Answers r.0 r.1

  pub Yields-ok : (r : Result A) (db : AuthDb) (a : A) → Answers r db → r ≡ ok a → Q a db
  Yields-ok (ok b) db a q h = subst (λ c. Q c db) (ok_injective h) q
  Yields-ok (err e) db a q h = cc

module _ {A B : Type 0} (Q : B → AuthDb → Type 0) where
  pub after_call-Yields :
      (r : Result A) (k : A → Action B) (db : AuthDb)
      → ((a : A) → r ≡ ok a → Yields Q (k a db))
      → Yields Q (after_call r k db)
  after_call-Yields (ok a) k db h = h a refl
  after_call-Yields (err e) k db h = tt

  pub bind-Yields :
      (P : A → AuthDb → Type 0) (m : Action A) (k : A → Action B) (db : AuthDb)
      → Yields P (m db)
      → ((a : A) (after : AuthDb) → P a after → Yields Q (k a after))
      → Yields Q ((m >>= k) db)
  unfolding ◌>>=◌
  bind-Yields P m k db hm hk =
      after_call-Yields (m db).0 k (m db).1
        (λ a e. hk a (m db).1 (Yields-ok P (m db).0 (m db).1 a hm e))

  pub read-Yields :
      (query : AuthDb → Result A) (k : A → Action B) (db : AuthDb)
      → ((a : A) → query db ≡ ok a → Yields Q (k a db))
      → Yields Q ((read query >>= k) db)
  unfolding ◌>>=◌
  read-Yields query k db h = after_call-Yields (query db) k db h

  pub lift-Yields :
      (r : Result A) (k : A → Action B) (db : AuthDb)
      → ((a : A) → r ≡ ok a → Yields Q (k a db))
      → Yields Q ((lift r >>= k) db)
  unfolding ◌>>=◌
  lift-Yields r k db h = after_call-Yields r k db h

pub write-Yields :
    {B : Type 0} (Q : B → AuthDb → Type 0) (f : AuthDb → AuthDb) (k : Unit {0} → Action B)
    (db : AuthDb)
    → Yields Q (k tt (f db))
    → Yields Q ((write f >>= k) db)
unfolding ◌>>=◌
write-Yields Q f k db h = h

pub Yields-map :
    {A : Type 0} (P Q : A → AuthDb → Type 0) (r : Result A × AuthDb)
    → Yields P r
    → ((a : A) (db : AuthDb) → P a db → Q a db)
    → Yields Q r
Yields-map P Q (ok a, db) p h = h a db p
Yields-map P Q (err e, db) p h = tt

pub Yields-anything : {A : Type 0} (r : Result A × AuthDb) → Yields (λ _ _. Unit {0}) r
Yields-anything (ok a, db) = tt
Yields-anything (err e, db) = tt
