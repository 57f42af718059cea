-- ===== src/Tickets/Reply.antt =====
-- Replies and internal notes (apps/backend/src/tickets/tickets.service.ts: addComment).
use sentinel_desk.Prelude.{
  ℕ, Bool, true, false, not, ◌&&◌, ◌||◌, Option, none, some, List, [], ◌∷◌, map, Text, Result, ok,
  ◌>>=◌, ◌>>◌, or_throw, throw_if, forbidden, internal_error, customer_internal_note,
  constraint_violated, ◌==◌, opt_eq, is_none, select, if◌then◌else◌,
}
use sentinel_desk.Schema.{
  AuthenticatedUser, is_staff, Ticket, CommentVisibility, public, internal, is_internal, Comment,
  Member, note_added, comment_added, reopened, no_metadata, comment_new, ticket_reply, new_reply,
  replied_to, Notification, enrich_comment,
}
use sentinel_desk.Store.{
  Db, Env, find_member, update_ticket, insert_comment, write_history, emit,
  broadcast_ticket_changed, notify, serve_rejecting, proceed,
}
use sentinel_desk.Tickets.Access.{get_ticket_or_throw, TicketDetail, find_one}
use sentinel_desk.Tickets.Create.{UploadedFile, save_attachments, next_key}
use sentinel_desk.Tickets.Lifecycle.{is_finished, reopened_ticket}

pub record CreateCommentDto : Type 0 where
  pub body : Text
  pub visibility : Option CommentVisibility

-- `staff && dto.visibility ? dto.visibility : PUBLIC`
abbrev pub visibility_of : Bool → Option CommentVisibility → CommentVisibility
visibility_of true (some v) = v
visibility_of true none = public
visibility_of false _ = public

abbrev pub asks_internal : Option CommentVisibility → Bool
asks_internal (some internal) = true
asks_internal _ = false

-- What `addComment` has settled when it starts to write.
pub record Reply : Type 0 where
  pub ticket : Ticket
  pub visibility : CommentVisibility
  pub auto_reopen : Bool
  pub is_first_staff_reply : Bool
  pub author : Member

unfoldable pub check_add_comment : AuthenticatedUser → ℕ → CreateCommentDto → Db → Result Reply
check_add_comment user ticket_id dto db = do
  ticket ← get_ticket_or_throw user ticket_id db
  let staff = is_staff user
  let visibility = visibility_of staff dto.visibility
  throw_if (not staff && asks_internal dto.visibility) (forbidden customer_internal_note)
  author ← or_throw (find_member user.id db) (internal_error constraint_violated)
  ok (record {
    ticket = ticket;
    visibility = visibility;
    auto_reopen = not staff && is_finished ticket.status && not (is_internal visibility);
    is_first_staff_reply =
        staff
        && not (is_internal visibility)
        && is_none ticket.first_response_at
        && not (ticket.requester_id == user.id);
    author = author;
  })

-- `ticketData`: the update is left out where it would be empty.
unfoldable pub replied_ticket : ℕ → Reply → Ticket → Ticket
replied_ticket now reply t =
    let t1 = if reply.is_first_staff_reply then record t { first_response_at = some now } else t in
    if reply.auto_reopen then reopened_ticket t1 else t1

unfoldable pub write_reply_ticket : Env → AuthenticatedUser → ℕ → Reply → Db → Db
write_reply_ticket env user ticket_id reply db =
    let db1 =
      if reply.is_first_staff_reply || reply.auto_reopen
      then update_ticket env.now ticket_id (replied_ticket env.now reply) db
      else db in
    if reply.auto_reopen
    then write_history env.now ticket_id (some user.id) reopened no_metadata db1
    else db1

-- The requester hears of the staff's replies, and the assignee of the customer's.
abbrev pub recipient_of : AuthenticatedUser → Ticket → Option ℕ
recipient_of user ticket = if is_staff user then some ticket.requester_id else ticket.assignee_id

-- Whom a public reply notifies: its recipient, then the watchers who are neither that nor the author.
unfoldable pub reply_audience : AuthenticatedUser → Ticket → Db → List ℕ
reply_audience user ticket db =
    let recipient = recipient_of user ticket in
    let watcher_ids =
      select (λ id. not (id == user.id) && not (opt_eq (some id) recipient))
        (map (λ w. w.user_id) (select (λ w. w.ticket_id == ticket.id) db.watchers)) in
    elim recipient [
      | none ↦ watcher_ids
      | some r ↦ if r == user.id then watcher_ids else r ∷ watcher_ids
    ]

abbrev pub reply_notification : AuthenticatedUser → Reply → ℕ → Notification
reply_notification user reply user_id = record {
  organization_id = user.organization_id;
  user_id = user_id;
  type = ticket_reply;
  title = new_reply reply.ticket.number;
  body = replied_to reply.author.first_name reply.author.last_name reply.ticket.subject;
  ticket_id = reply.ticket.id;
}

unfoldable pub notify_all : AuthenticatedUser → Reply → List ℕ → Db → Db
notify_all user reply [] db = db
notify_all user reply (id ∷ ids) db =
    notify_all user reply ids (notify (reply_notification user reply id) db)

-- What a public comment sets off: the push of the comment, notifications, and for a customer's
-- comment the reading of its sentiment.
unfoldable pub announce : AuthenticatedUser → ℕ → Reply → List ℕ → Comment → Db → Db
unfolding notify_all
announce user ticket_id reply audience comment db =
    if is_internal reply.visibility
    then db
    else let db1 = notify_all user reply audience (emit (comment_new ticket_id comment) db) in
      if is_staff user then db1 else emit (enrich_comment comment.id) db1

abbrev pub reply_comment : Env → AuthenticatedUser → ℕ → CreateCommentDto → Reply → Db → Comment
reply_comment env user ticket_id dto reply db = record {
  id = next_key env db;
  ticket_id = ticket_id;
  author_id = user.id;
  visibility = reply.visibility;
  body = env.sanitize_rich_text dto.body;
  created_at = env.now;
}

-- What follows the uploads.
unfoldable pub report_reply : AuthenticatedUser → ℕ → Reply → List ℕ → Comment → Db → Db
unfolding announce
report_reply user ticket_id reply audience comment db =
    broadcast_ticket_changed user.organization_id ticket_id
      (announce user ticket_id reply audience comment db)

-- The transaction.
unfoldable pub write_reply : Env → AuthenticatedUser → ℕ → CreateCommentDto → Reply → Db → Db
unfolding write_reply_ticket
write_reply env user ticket_id dto reply db =
    let action = if is_internal reply.visibility then note_added else comment_added in
    write_reply_ticket env user ticket_id reply (
      write_history env.now ticket_id (some user.id) action no_metadata
        (insert_comment (reply_comment env user ticket_id dto reply db) db))

unfoldable pub write_add_comment :
    Env
    → AuthenticatedUser
    → ℕ
    → CreateCommentDto
    → List UploadedFile
    → Reply
    → Db
    → Result (Unit {0}) × Db
unfolding write_reply save_attachments report_reply
write_add_comment env user ticket_id dto files reply db =
    let comment = reply_comment env user ticket_id dto reply db in
    let saved =
      save_attachments env comment.id files (write_reply env user ticket_id dto reply db) in
    proceed saved.0 saved.1
      (report_reply user ticket_id reply (reply_audience user reply.ticket db) comment)

unfoldable pub add_comment :
    Env
    → AuthenticatedUser
    → ℕ
    → CreateCommentDto
    → List UploadedFile
    → Db
    → Result TicketDetail × Db
unfolding check_add_comment write_add_comment
add_comment env user ticket_id dto files db =
    serve_rejecting (check_add_comment user ticket_id dto)
      (write_add_comment env user ticket_id dto files) (λ _. find_one user ticket_id) db
