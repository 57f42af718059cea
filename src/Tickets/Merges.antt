-- ===== src/Tickets/Merges.antt =====
-- Two merges, one after the other (apps/backend/src/tickets/tickets.service.ts: merge).
use mathlib.Core.Option
use sentinel_desk.Prelude.{
  ℕ, ◌≡◌, ◌≢◌, refl, sym, ◌∙◌, ap, none, some, arith, find-modify_self, find-modify_ne, ok,
}
use sentinel_desk.Schema.{AuthenticatedUser, Ticket, closed}
use sentinel_desk.Store.{
  Db, Env, find_ticket, update_ticket, write_history, audit, broadcast_ticket_changed, serve,
}
use sentinel_desk.Tickets.Access.{get_ticket_or_throw}
use sentinel_desk.Tickets.Links.{check_merge, write_merge, merge, merged_ticket}
use sentinel_desk.Tickets.Effects.{get_ticket_or_throw-ok, get_ticket_or_throw-found}
use sentinel_desk.Tickets.Effects.Rows.{touched}

check_merge-fresh :
    (user : AuthenticatedUser) (a b : ℕ) (db : Db) (s t : Ticket)
    → a ≢ b
    → get_ticket_or_throw user a db ≡ ok s
    → get_ticket_or_throw user b db ≡ ok t
    → s.merged_into_id ≡ none
    → check_merge user a b db ≡ ok (record { source = s; target = t })
unfolding check_merge
check_merge-fresh user a b db s t apart fs ft fresh = ground arith

-- A merge of an accessible ticket that was not merged yet into another one writes that row alone.
find_ticket-merge :
    (env : Env) (user : AuthenticatedUser) (a b : ℕ) (db : Db) (s t : Ticket)
    → a ≢ b
    → get_ticket_or_throw user a db ≡ ok s
    → get_ticket_or_throw user b db ≡ ok t
    → s.merged_into_id ≡ none
    → (find_ticket a (merge env user a b db).1 ≡ some (touched env.now (merged_ticket env.now b) s))
      × (find_ticket b (merge env user a b db).1 ≡ some t)
unfolding merge write_merge merged_ticket update_ticket write_history audit broadcast_ticket_changed
find_ticket-merge env user a b db s t apart fs ft fresh =
    let (here, _, _) = get_ticket_or_throw-ok user a db s fs in
    let (there, _, key) = get_ticket_or_throw-ok user b db t ft in
    rw (check_merge-fresh user a b db s t apart fs ft fresh, serve)
      (
        find-modify_self (λ u. u.id) a (touched env.now (merged_ticket env.now t.id)) db.tickets
              (λ u. refl)
            ∙ ap (Option.map (touched env.now (merged_ticket env.now t.id))) here
            ∙ ap (λ k. some (touched env.now (merged_ticket env.now k) s)) key,
        find-modify_ne (λ u. u.id) a b (touched env.now (merged_ticket env.now t.id)) db.tickets
              (λ u. refl) (λ e. apart (sym e))
            ∙ there,
      )

-- The ticket of a key is closed since an instant, and merged into another.
abbrev pub IsMergedInto : ℕ → ℕ → ℕ → Db → Type 0
IsMergedInto target at id db =
    (row : Ticket) × (find_ticket id db ≡ some row)
    × (row.status ≡ closed)
    × (row.closed_at ≡ some at)
    × (row.merged_into_id ≡ some target)

-- Of two different accessible tickets that were not merged yet, each can be merged into the other,
-- one after the other: nothing looks at whether the target was merged itself. Then both are found,
-- with the status CLOSED, closed at the instant of their own merge, and each records that it was
-- merged into the other.
pub merge-merge :
    (env later : Env) (user : AuthenticatedUser) (a b : ℕ) (db : Db) (s t : Ticket)
    → a ≢ b
    → get_ticket_or_throw user a db ≡ ok s
    → get_ticket_or_throw user b db ≡ ok t
    → s.merged_into_id ≡ none
    → t.merged_into_id ≡ none
    → IsMergedInto b env.now a (merge later user b a (merge env user a b db).1).1
      × IsMergedInto a later.now b (merge later user b a (merge env user a b db).1).1
unfolding merged_ticket
merge-merge env later user a b db s t apart fs ft fresh fresh' =
    let db1 = (merge env user a b db).1 in
    let (p, q) = find_ticket-merge env user a b db s t apart fs ft fresh in
    let (_, may, _) = get_ticket_or_throw-ok user a db s fs in
    let (_, may', _) = get_ticket_or_throw-ok user b db t ft in
    let (x, y) =
      find_ticket-merge later user b a db1 t (touched env.now (merged_ticket env.now b) s)
        (λ e. apart (sym e)) (get_ticket_or_throw-found user b db1 t q may')
        (get_ticket_or_throw-found user a db1 (touched env.now (merged_ticket env.now b) s) p may)
        fresh' in
    (
      (touched env.now (merged_ticket env.now b) s, y, refl, refl, refl),
      (touched later.now (merged_ticket later.now a) t, x, refl, refl, refl),
    )
