-- ===== src/Tickets/Clock.antt =====
-- Pausing and resuming the SLA clock (apps/backend/src/sla/sla.service.ts: pause, resume).
use mathlib.Core.Option
use sentinel_desk.Prelude.{
  ℕ, ◌+◌, ◌≤◌, ◌≡◌, refl, ap, ◌∙◌, inl, inr, Bool, true, false, Option, none, some, arith, find,
  find-modify_self, is_none, Option-cases,
}
use sentinel_desk.Schema.{Ticket}
use sentinel_desk.Store.{Db, Env, find_ticket}
use sentinel_desk.Sla.Service.{pause, resume, resumed_ticket, shift_due}
use sentinel_desk.Tickets.Effects.Rows.{paused_row, resumed_row}
use sentinel_desk.Tickets.Effects.Frames.{tickets-pause, tickets-resume}

-- A due date that is shifted by a pause leaves as much time as there was when the pause began.
abbrev pub LeavesAsMuch : Bool → Option ℕ → Option ℕ → ℕ → ℕ → Type 0
LeavesAsMuch true (some due) (some due') from now = due' + from ≡ due + now
LeavesAsMuch true (some due) none from now = ⊥
LeavesAsMuch true none due' from now = due' ≡ none
LeavesAsMuch false due due' from now = due' ≡ due

pub shift_due-LeavesAsMuch :
    (pending : Bool) (due : Option ℕ) (from now : ℕ)
    → from ≤ now
    → LeavesAsMuch pending due (shift_due pending due now from) from now
shift_due-LeavesAsMuch true (some due) from now h = omega arith
shift_due-LeavesAsMuch true none from now h = refl
shift_due-LeavesAsMuch false due from now h = refl

pub id-paused_row : (now : ℕ) (t : Ticket) → (paused_row now t).id ≡ t.id
id-paused_row now t = ground arith

pub id-resumed_row : (now : ℕ) (t : Ticket) → (resumed_row now t).id ≡ t.id
unfolding resumed_ticket
id-resumed_row now t = elim (Option-cases t.sla_paused_at) [
  | inl e ↦ rw e refl
  | inr (at, e) ↦ rw e refl
]

find_ticket-pause :
    (env : Env) (id actor : ℕ) (db : Db) (t : Ticket)
    → find_ticket id db ≡ some t
    → find_ticket id (pause env id actor db) ≡ some (paused_row env.now t)
find_ticket-pause env id actor db t found =
    ap (find (λ u. u.id) id) (tickets-pause env id actor db t found)
    ∙ find-modify_self (λ u. u.id) id (paused_row env.now) db.tickets (λ a. id-paused_row env.now a)
    ∙ ap (Option.map (paused_row env.now)) found

find_ticket-resume :
    (env : Env) (id actor : ℕ) (db : Db) (t : Ticket)
    → find_ticket id db ≡ some t
    → find_ticket id (resume env id actor db) ≡ some (resumed_row env.now t)
unfolding resumed_ticket
find_ticket-resume env id actor db t found =
    ap (find (λ u. u.id) id) (tickets-resume env id actor db t found)
    ∙ find-modify_self (λ u. u.id) id (resumed_row env.now) db.tickets
        (λ a. id-resumed_row env.now a)
    ∙ ap (Option.map (resumed_row env.now)) found

resumed_row-paused_row :
    (now later : ℕ) (t : Ticket)
    → t.sla_paused_at ≡ none
    → resumed_row later (paused_row now t)
      ≡ record (resumed_ticket later now t) { updated_at = later }
unfolding resumed_ticket
resumed_row-paused_row now later t running = rw running refl

-- Pausing a running ticket and resuming it later, in requests of their own, leaves the clock
-- running, and each due date that is still pending leaves as much time as it did when the pause
-- began; due dates that were met stay.
pub resume-pause :
    (env later : Env) (id actor : ℕ) (db : Db) (t : Ticket)
    → find_ticket id db ≡ some t
    → t.sla_paused_at ≡ none
    → env.now ≤ later.now
    → (u : Ticket) × (find_ticket id (resume later id actor (pause env id actor db)) ≡ some u)
      × (u.sla_paused_at ≡ none)
      × LeavesAsMuch
          (is_none t.first_response_at)
          t.response_due_at
          u.response_due_at
          env.now
          later.now
      × LeavesAsMuch
          (is_none t.resolved_at)
          t.resolution_due_at
          u.resolution_due_at
          env.now
          later.now
unfolding resumed_ticket
resume-pause env later id actor db t found running order = (
  record (resumed_ticket later.now env.now t) { updated_at = later.now },
  find_ticket-resume later id actor (pause env id actor db) (paused_row env.now t)
        (find_ticket-pause env id actor db t found)
      ∙ ap some (resumed_row-paused_row env.now later.now t running),
  refl,
  shift_due-LeavesAsMuch (is_none t.first_response_at) t.response_due_at env.now later.now order,
  shift_due-LeavesAsMuch (is_none t.resolved_at) t.resolution_due_at env.now later.now order,
)
