-- ===== src/Tickets/Effects/Frames.antt =====
-- The table of tickets after the loops and branches of the handlers of
-- apps/backend/src/tickets/tickets.service.ts.
use sentinel_desk.Prelude.{
  ℕ, ◌≡◌, refl, sym, ◌∙◌, inl, inr, some, List, [], ◌∷◌, arith, find, modify, modify_congr,
  modify_self, Option-cases, Result, ok, err, Result-cases,
}
use sentinel_desk.Schema.{comment_new, AuthenticatedUser, Ticket, Comment}
use sentinel_desk.Store.{
  Db, Env, broadcast_ticket_changed, find_ticket, update_ticket, insert_comment, insert_attachment,
  insert_ticket_tag, write_history, notify, audit, trigger, emit, proceed,
}
use sentinel_desk.Sla.Service.{pause, resume}
use sentinel_desk.Tickets.Create.{UploadedFile, save_attachments, insert_ticket_tags}
use sentinel_desk.Tickets.Reply.{Reply, notify_all, announce, report_reply}
use sentinel_desk.Tickets.Links.{copy_comments}
use sentinel_desk.Tickets.Update.{
  Change, SlaTransition, stays, pauses, resumes, run_transition, write_change_history,
  report_change,
}
use sentinel_desk.Tickets.Effects.Rows.{paused_row, resumed_row, transition_row}

pub tickets-save_attachments :
    (env : Env) (id : ℕ) (files : List UploadedFile) (db : Db)
    → (save_attachments env id files db).1.tickets ≡ db.tickets
unfolding save_attachments insert_attachment
tickets-save_attachments env id [] db = refl
tickets-save_attachments env id (f ∷ fs) db = elim (Result-cases (env.upload id f.originalname)) [
  | inl (e, rejected) ↦ rw (rejected, save_attachments) refl
  | inr (url, put) ↦ rw (put, save_attachments) (tickets-save_attachments env id fs _)
]

pub tickets-proceed :
    (r : Result (Unit {0})) (db : Db) (f : Db → Db)
    → ((d : Db) → (f d).tickets ≡ d.tickets)
    → (proceed r db f).1.tickets ≡ db.tickets
tickets-proceed (err e) db f keeps = refl
tickets-proceed (ok a) db f keeps = keeps db

pub tickets-insert_ticket_tags :
    (id : ℕ) (tags : List ℕ) (db : Db) → (insert_ticket_tags id tags db).tickets ≡ db.tickets
unfolding insert_ticket_tags insert_ticket_tag
tickets-insert_ticket_tags id [] db = refl
tickets-insert_ticket_tags id (t ∷ ts) db = tickets-insert_ticket_tags id ts _

pub tickets-notify_all :
    (user : AuthenticatedUser) (reply : Reply) (ids : List ℕ) (db : Db)
    → (notify_all user reply ids db).tickets ≡ db.tickets
unfolding notify_all notify
tickets-notify_all user reply [] db = refl
tickets-notify_all user reply (id ∷ ids) db = tickets-notify_all user reply ids _

pub tickets-copy_comments :
    (env : Env) (id : ℕ) (cs : List Comment) (db : Db)
    → (copy_comments env id cs db).tickets ≡ db.tickets
unfolding copy_comments insert_comment
tickets-copy_comments env id [] db = refl
tickets-copy_comments env id (c ∷ cs) db = tickets-copy_comments env id cs _

pub tickets-announce :
    (user : AuthenticatedUser) (id : ℕ) (reply : Reply) (ids : List ℕ) (c : Comment) (db : Db)
    → (announce user id reply ids c db).tickets ≡ db.tickets
unfolding announce emit
tickets-announce user id reply ids c db =
    ground (arith, tickets-notify_all user reply ids (emit (comment_new id c) db))

pub tickets-report_reply :
    (user : AuthenticatedUser) (id : ℕ) (reply : Reply) (ids : List ℕ) (c : Comment) (db : Db)
    → (report_reply user id reply ids c db).tickets ≡ db.tickets
unfolding report_reply broadcast_ticket_changed emit
tickets-report_reply user id reply ids c db = tickets-announce user id reply ids c db

pub tickets-write_change_history :
    (now actor id : ℕ) (change : Change) (db : Db)
    → (write_change_history now actor id change db).tickets ≡ db.tickets
unfolding write_change_history write_history
tickets-write_change_history now actor id change db = ground arith

pub tickets-report_change :
    (user : AuthenticatedUser) (id : ℕ) (change : Change) (db : Db)
    → (report_change user id change db).tickets ≡ db.tickets
unfolding report_change audit trigger
tickets-report_change user id change db = ground arith

-- A row that is written as it stands.
unchanged :
    (id : ℕ) (f : Ticket → Ticket) (ts : List Ticket) (t : Ticket)
    → find (λ u. u.id) id ts ≡ some t
    → f t ≡ t
    → ts ≡ modify (λ u. u.id) id f ts
unchanged id f ts t found e =
    sym (modify_self (λ u. u.id) id ts) ∙ modify_congr (λ u. u.id) id (λ u. u) f ts t found (sym e)

pub tickets-pause :
    (env : Env) (id actor : ℕ) (db : Db) (t : Ticket)
    → find_ticket id db ≡ some t
    → (pause env id actor db).tickets ≡ modify (λ u. u.id) id (paused_row env.now) db.tickets
unfolding pause update_ticket write_history
tickets-pause env id actor db t found = elim (Option-cases t.sla_paused_at) [
  | inl e ↦
      rw (found, e, pause)
        (modify_congr (λ u. u.id) id _ (paused_row env.now) db.tickets t found (ground arith))
  | inr (at, e) ↦
      rw (found, e, pause) (unchanged id (paused_row env.now) db.tickets t found (ground arith))
]

pub tickets-resume :
    (env : Env) (id actor : ℕ) (db : Db) (t : Ticket)
    → find_ticket id db ≡ some t
    → (resume env id actor db).tickets ≡ modify (λ u. u.id) id (resumed_row env.now) db.tickets
unfolding resume update_ticket write_history
tickets-resume env id actor db t found = elim (Option-cases t.sla_paused_at) [
  | inl e ↦
      rw (found, e, resume) (unchanged id (resumed_row env.now) db.tickets t found (ground arith))
  | inr (at, e) ↦
      rw (found, e, resume)
        (modify_congr (λ u. u.id) id _ (resumed_row env.now) db.tickets t found (ground arith))
]

pub tickets-run_transition :
    (env : Env) (id actor : ℕ) (tr : SlaTransition) (db : Db) (t : Ticket)
    → find_ticket id db ≡ some t
    → (run_transition env id actor tr db).tickets
      ≡ modify (λ u. u.id) id (transition_row tr env.now) db.tickets
unfolding run_transition
tickets-run_transition env id actor stays db t found = sym (modify_self (λ u. u.id) id db.tickets)
tickets-run_transition env id actor pauses db t found = tickets-pause env id actor db t found
tickets-run_transition env id actor resumes db t found = tickets-resume env id actor db t found
