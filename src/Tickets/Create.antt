-- ===== src/Tickets/Create.antt =====
-- New tickets (apps/backend/src/tickets/tickets.service.ts: create,
-- saveAttachments).
use sentinel_desk.Prelude.{
  ℕ, ◌+◌, Bool, true, false, not, ◌&&◌, Option, none, some, List, [], ◌∷◌, Text, Result, ok, err,
  ◌>>=◌, ◌>>◌, or_throw, throw_if, forbidden, bad_request, internal_error, bad_requester,
  foreign_requester, constraint_violated, ◌==◌, is_some, or_default, includes,
}
use sentinel_desk.Schema.{
  AuthenticatedUser, is_staff, Ticket, opened, TicketPriority, medium, Comment, public, created,
  no_metadata, ticket_created, on_created, ticket_created_org, enrich_ticket,
}
use sentinel_desk.Store.{
  Db, Env, find_member, find_organization, find_tag, insert_ticket, insert_comment,
  insert_attachment, insert_ticket_tag, write_history, take_ticket_number, emit, audit, trigger,
  serve_rejecting, proceed,
}
use sentinel_desk.Sla.Service.{DueDates, compute_due_dates_for_new_ticket}
use sentinel_desk.Tickets.Access.{TicketDetail, find_one}

pub record CreateTicketDto : Type 0 where
  pub subject : Text
  pub body : Text
  pub priority : Option TicketPriority
  pub requester_id : Option ℕ
  pub tag_ids : List ℕ

-- What of an uploaded file is kept.
pub record UploadedFile : Type 0 where
  pub originalname : Text
  pub size : ℕ
  pub mimetype : Text

-- `saveAttachments`: the first file that the storage rejects ends the loop, and what was saved before
-- it stays.
unfoldable pub save_attachments : Env → ℕ → List UploadedFile → Db → Result (Unit {0}) × Db
save_attachments env comment_id [] db = (ok tt, db)
save_attachments env comment_id (f ∷ fs) db = elim (env.upload comment_id f.originalname) [
  | err e ↦ (err e, db)
  | ok file_url ↦ save_attachments env comment_id fs (
      insert_attachment
        (record {
          comment_id = comment_id;
          file_name = f.originalname;
          file_url = file_url;
          file_size = f.size;
          mime_type = f.mimetype;
        })
        db)
]

-- Whom the ticket is for: the caller, or whom a member of the staff files it for.
unfoldable pub requester_of : AuthenticatedUser → Option ℕ → Db → Result ℕ
requester_of user none db = ok user.id
requester_of user (some requester_id) db = do
  throw_if (not (is_staff user)) (forbidden foreign_requester)
  requester ← or_throw (find_member requester_id db) (bad_request bad_requester)
  throw_if (not (requester.organization_id == user.organization_id)) (bad_request bad_requester)
  ok requester_id

-- The foreign and primary keys of `ticket_tags` hold: the tags are there, none of them twice. An
-- insert that breaks them fails, and the transaction with it.
abbrev pub tag_rows_fit : List ℕ → Db → Bool
tag_rows_fit [] db = true
tag_rows_fit (t ∷ ts) db = is_some (find_tag t db) && not (includes t ts) && tag_rows_fit ts db

-- What `create` has settled when it starts to write.
pub record Draft : Type 0 where
  pub requester_id : ℕ
  pub priority : TicketPriority
  pub due_dates : DueDates
  pub number : ℕ

unfoldable pub check_create : Env → AuthenticatedUser → CreateTicketDto → Db → Result Draft
unfolding requester_of
check_create env user dto db = do
  requester_id ← requester_of user dto.requester_id db
  let priority = or_default dto.priority medium
  due_dates ← compute_due_dates_for_new_ticket env user.organization_id priority env.now db
  organization ←
      or_throw (find_organization user.organization_id db) (internal_error constraint_violated)
  throw_if (not (tag_rows_fit dto.tag_ids db)) (internal_error constraint_violated)
  ok (record {
    requester_id = requester_id;
    priority = priority;
    due_dates = due_dates;
    number = organization.next_ticket_number;
  })

-- A row with the schema's defaults in the columns that `ticket.create` leaves out.
abbrev pub new_ticket :
    Env → ℕ → AuthenticatedUser → ℕ → Text → TicketPriority → ℕ → DueDates → Ticket
new_ticket env id user number subject priority requester_id due_dates = record {
  id = id;
  organization_id = user.organization_id;
  number = number;
  subject = subject;
  status = opened;
  priority = priority;
  requester_id = requester_id;
  assignee_id = none;
  merged_into_id = none;
  split_from_id = none;
  reopened_count = 0;
  first_response_at = none;
  resolved_at = none;
  closed_at = none;
  sla_policy_id = due_dates.sla_policy_id;
  response_due_at = due_dates.response_due_at;
  resolution_due_at = due_dates.resolution_due_at;
  response_breached = false;
  resolution_breached = false;
  sla_paused_at = none;
  sla_escalated_at = none;
  csat_rating = none;
  csat_comment = none;
  csat_rated_at = none;
  ai_suggested_priority = none;
  ai_suggested_tags = [];
  created_at = env.now;
  updated_at = env.now;
}

unfoldable pub insert_ticket_tags : ℕ → List ℕ → Db → Db
insert_ticket_tags ticket_id [] db = db
insert_ticket_tags ticket_id (t ∷ ts) db =
    insert_ticket_tags ticket_id ts
      (insert_ticket_tag (record { ticket_id = ticket_id; tag_id = t }) db)

-- The key that the next inserted row gets.
abbrev pub next_key : Env → Db → ℕ
next_key env db = env.uuid db.keys_drawn

-- The key of the first comment, drawn after the ticket's.
abbrev pub next_comment_key : Env → Db → ℕ
next_comment_key env db = env.uuid (db.keys_drawn + 1)

abbrev pub first_comment : Env → AuthenticatedUser → CreateTicketDto → Db → Comment
first_comment env user dto db = record {
  id = next_comment_key env db;
  ticket_id = next_key env db;
  author_id = user.id;
  visibility = public;
  body = env.sanitize_rich_text dto.body;
  created_at = env.now;
}

-- The transaction.
unfoldable pub write_draft : Env → AuthenticatedUser → CreateTicketDto → Draft → Db → Db
unfolding insert_ticket_tags
write_draft env user dto draft db =
    let id = next_key env db in
    let ticket =
      new_ticket env id user draft.number dto.subject draft.priority draft.requester_id
        draft.due_dates in
    let db1 =
      insert_ticket_tags id dto.tag_ids
        (insert_ticket ticket (take_ticket_number user.organization_id db)) in
    write_history env.now id (some user.id) created no_metadata
      (insert_comment (first_comment env user dto db) db1)

-- What a created ticket sets off.
unfoldable pub report_create : AuthenticatedUser → CreateTicketDto → Draft → ℕ → Db → Db
report_create user dto draft id db =
    let db1 = emit (enrich_ticket id) (emit (ticket_created_org user.organization_id id) db) in
    trigger user.organization_id on_created id
      (audit user.organization_id user.id (ticket_created draft.number dto.subject) id db1)

unfoldable pub write_create :
    Env
    → AuthenticatedUser
    → CreateTicketDto
    → List UploadedFile
    → Draft
    → Db
    → Result (Unit {0}) × Db
unfolding write_draft save_attachments report_create
write_create env user dto files draft db =
    let saved =
      save_attachments env (next_comment_key env db) files (write_draft env user dto draft db) in
    proceed saved.0 saved.1 (report_create user dto draft (next_key env db))

unfoldable pub create :
    Env → AuthenticatedUser → CreateTicketDto → List UploadedFile → Db → Result TicketDetail × Db
unfolding check_create write_create
create env user dto files db =
    serve_rejecting (check_create env user dto) (write_create env user dto files)
      (λ _. find_one user (next_key env db)) db
