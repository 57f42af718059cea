-- ===== src/Tickets/Links.antt =====
-- Tickets that become one or several (apps/backend/src/tickets/tickets.service.ts: merge, split).
use sentinel_desk.Prelude.{
  ℕ, not, some, List, [], ◌∷◌, Text, Result, ok, ◌>>=◌, ◌>>◌, or_throw, throw_if, bad_request,
  internal_error, merge_into_itself, already_merged, foreign_comments, constraint_violated, ◌==◌,
  length, is_some, select, includes,
}
use sentinel_desk.Schema.{
  AuthenticatedUser, Ticket, closed, Comment, merged, merged_from, split, created, no_metadata,
  into_ticket, from_ticket, new_ticket as to_new_ticket, ticket_merged, ticket_split,
  ticket_created_org,
}
use sentinel_desk.Store.{
  Db, Env, find_organization, update_ticket, insert_ticket, insert_comment, write_history,
  take_ticket_number, emit, broadcast_ticket_changed, audit, serve,
}
use sentinel_desk.Sla.Service.{DueDates, compute_due_dates_for_new_ticket}
use sentinel_desk.Tickets.Access.{get_ticket_or_throw, TicketDetail, find_one, comments_of}
use sentinel_desk.Tickets.Create.{new_ticket, next_key}

-- The ticket that is merged, and the one that it is merged into.
pub record Merger : Type 0 where
  pub source : Ticket
  pub target : Ticket

unfoldable pub check_merge : AuthenticatedUser → ℕ → ℕ → Db → Result Merger
check_merge user ticket_id into_ticket_id db = do
  throw_if (ticket_id == into_ticket_id) (bad_request merge_into_itself)
  source ← get_ticket_or_throw user ticket_id db
  target ← get_ticket_or_throw user into_ticket_id db
  throw_if (is_some source.merged_into_id) (bad_request already_merged)
  ok (record { source = source; target = target })

unfoldable pub merged_ticket : ℕ → ℕ → Ticket → Ticket
merged_ticket now target_id t = record t {
  merged_into_id = some target_id;
  status = closed;
  closed_at = some now;
}

unfoldable pub write_merge : Env → AuthenticatedUser → ℕ → Merger → Db → Db
write_merge env user ticket_id m db =
    let db1 = update_ticket env.now ticket_id (merged_ticket env.now m.target.id) db in
    let db2 =
      write_history env.now m.target.id (some user.id) merged_from
        (from_ticket m.source.id m.source.number)
        (write_history env.now ticket_id (some user.id) merged
          (into_ticket m.target.id m.target.number) db1) in
    let db3 =
      audit user.organization_id user.id (ticket_merged m.target.id m.target.number) ticket_id
        db2 in
    broadcast_ticket_changed user.organization_id m.target.id
      (broadcast_ticket_changed user.organization_id ticket_id db3)

unfoldable pub merge : Env → AuthenticatedUser → ℕ → ℕ → Db → Result TicketDetail × Db
unfolding check_merge write_merge
merge env user ticket_id into_ticket_id db =
    serve (check_merge user ticket_id into_ticket_id) (write_merge env user ticket_id)
      (λ _. find_one user ticket_id) db

pub record SplitTicketDto : Type 0 where
  pub subject : Text
  pub comment_ids : List ℕ

-- What `split` has settled when it starts to write.
pub record Extract : Type 0 where
  pub source : Ticket
  pub comments_to_copy : List Comment
  pub due_dates : DueDates
  pub number : ℕ

-- `source.comments.filter((c) => dto.commentIds.includes(c.id))`
abbrev pub chosen_comments : List ℕ → List Comment → List Comment
chosen_comments ids = select (λ c. includes c.id ids)

unfoldable pub check_split : Env → AuthenticatedUser → ℕ → SplitTicketDto → Db → Result Extract
check_split env user ticket_id dto db = do
  source ← get_ticket_or_throw user ticket_id db
  let comments_to_copy = chosen_comments dto.comment_ids (comments_of ticket_id db)
  throw_if (not (length comments_to_copy == length dto.comment_ids)) (bad_request foreign_comments)
  due_dates ← compute_due_dates_for_new_ticket env user.organization_id source.priority env.now db
  organization ←
      or_throw (find_organization user.organization_id db) (internal_error constraint_violated)
  ok (record {
    source = source;
    comments_to_copy = comments_to_copy;
    due_dates = due_dates;
    number = organization.next_ticket_number;
  })

-- A copy keeps the author, the visibility, the body and the time, under a key of its own.
abbrev pub copied_comment : ℕ → ℕ → Comment → Comment
copied_comment id ticket_id c = record c { id = id; ticket_id = ticket_id }

unfoldable pub copy_comments : Env → ℕ → List Comment → Db → Db
copy_comments env ticket_id [] db = db
copy_comments env ticket_id (c ∷ cs) db =
    copy_comments env ticket_id cs
      (insert_comment (copied_comment (next_key env db) ticket_id c) db)

abbrev pub split_off : Env → ℕ → AuthenticatedUser → Text → Extract → Ticket
split_off env id user subject x =
    let t =
      new_ticket env id user x.number subject x.source.priority x.source.requester_id x.due_dates in
    record t { assignee_id = x.source.assignee_id; split_from_id = some x.source.id }

unfoldable pub write_split : Env → AuthenticatedUser → ℕ → SplitTicketDto → Extract → Db → Db
unfolding copy_comments
write_split env user ticket_id dto x db =
    let id = next_key env db in
    let db1 = copy_comments env id x.comments_to_copy (
      insert_ticket (split_off env id user dto.subject x)
        (take_ticket_number user.organization_id db)) in
    let db2 =
      write_history env.now x.source.id (some user.id) split (to_new_ticket id x.number)
        (write_history env.now id (some user.id) created no_metadata db1) in
    let db3 =
      audit user.organization_id user.id (ticket_split id dto.comment_ids) ticket_id
        (emit (ticket_created_org user.organization_id id) db2) in
    broadcast_ticket_changed user.organization_id ticket_id db3

unfoldable pub split_ticket :
    Env → AuthenticatedUser → ℕ → SplitTicketDto → Db → Result TicketDetail × Db
unfolding check_split write_split
split_ticket env user ticket_id dto db =
    serve (check_split env user ticket_id dto) (write_split env user ticket_id dto)
      (λ _. find_one user (next_key env db)) db
