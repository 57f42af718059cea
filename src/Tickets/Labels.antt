-- ===== src/Tickets/Labels.antt =====
-- A ticket's tags and watchers (apps/backend/src/tickets/tickets.service.ts: addTag, removeTag,
-- watch, unwatch).
use mathlib.Core.Option
use sentinel_desk.Prelude.{
  ℕ, Bool, not, ◌&&◌, some, [], ◌∷◌, ◌++◌, Result, ok, ◌>>=◌, ◌>>◌, or_throw, throw_if, bad_request,
  unknown_tag, ◌==◌, select, any, if◌then◌else◌,
}
use sentinel_desk.Schema.{
  AuthenticatedUser, Ticket, Tag, tag_added, tag_removed, tag_change, TicketTag, TicketWatcher,
}
use sentinel_desk.Store.{
  Db, Env, find_tag, insert_ticket_tag, write_history, broadcast_ticket_changed, serve,
}
use sentinel_desk.Tickets.Access.{get_ticket_or_throw, TicketDetail, find_one}

unfoldable pub check_add_tag : AuthenticatedUser → ℕ → ℕ → Db → Result Tag
check_add_tag user ticket_id tag_id db = do
  get_ticket_or_throw user ticket_id db
  tag ← or_throw (find_tag tag_id db) (bad_request unknown_tag)
  throw_if (not (tag.organization_id == user.organization_id)) (bad_request unknown_tag)
  ok tag

abbrev pub is_tag_row : ℕ → ℕ → TicketTag → Bool
is_tag_row ticket_id tag_id r = r.ticket_id == ticket_id && r.tag_id == tag_id

-- `ticketTag.upsert` with nothing to update.
unfoldable pub upsert_ticket_tag : ℕ → ℕ → Db → Db
upsert_ticket_tag ticket_id tag_id db =
    if any (is_tag_row ticket_id tag_id) db.ticket_tags
    then db
    else insert_ticket_tag (record { ticket_id = ticket_id; tag_id = tag_id }) db

unfoldable pub write_add_tag : Env → AuthenticatedUser → ℕ → ℕ → Tag → Db → Db
write_add_tag env user ticket_id tag_id tag db =
    broadcast_ticket_changed user.organization_id ticket_id (
      write_history env.now ticket_id (some user.id) tag_added (tag_change tag_id (some tag.name))
        (upsert_ticket_tag ticket_id tag_id db))

unfoldable pub add_tag : Env → AuthenticatedUser → ℕ → ℕ → Db → Result TicketDetail × Db
unfolding check_add_tag write_add_tag
add_tag env user ticket_id tag_id db =
    serve (check_add_tag user ticket_id tag_id) (write_add_tag env user ticket_id tag_id)
      (λ _. find_one user ticket_id) db

-- `ticketTag.deleteMany`
unfoldable pub delete_ticket_tags : ℕ → ℕ → Db → Db
delete_ticket_tags ticket_id tag_id db = record db {
  ticket_tags = select (λ r. not (is_tag_row ticket_id tag_id r)) db.ticket_tags;
}

-- The tag is looked up for its name alone, whichever organization it belongs to.
unfoldable pub write_remove_tag : Env → AuthenticatedUser → ℕ → ℕ → Ticket → Db → Db
write_remove_tag env user ticket_id tag_id ticket db =
    broadcast_ticket_changed user.organization_id ticket_id (
      write_history env.now ticket_id (some user.id) tag_removed
        (tag_change tag_id (Option.map (λ t. t.name) (find_tag tag_id db)))
        (delete_ticket_tags ticket_id tag_id db))

unfoldable pub remove_tag : Env → AuthenticatedUser → ℕ → ℕ → Db → Result TicketDetail × Db
unfolding write_remove_tag
remove_tag env user ticket_id tag_id db =
    serve (get_ticket_or_throw user ticket_id) (write_remove_tag env user ticket_id tag_id)
      (λ _. find_one user ticket_id) db

abbrev pub is_watch_row : ℕ → ℕ → TicketWatcher → Bool
is_watch_row ticket_id user_id w = w.ticket_id == ticket_id && w.user_id == user_id

-- `ticketWatcher.upsert` with nothing to update.
unfoldable pub write_watch : ℕ → ℕ → Db → Db
write_watch ticket_id user_id db =
    if any (is_watch_row ticket_id user_id) db.watchers then db else record db {
      watchers = db.watchers ++ (record { ticket_id = ticket_id; user_id = user_id } ∷ []);
    }

unfoldable pub watch : AuthenticatedUser → ℕ → Db → Result TicketDetail × Db
unfolding write_watch
watch user ticket_id db =
    serve (get_ticket_or_throw user ticket_id) (λ _. write_watch ticket_id user.id)
      (λ _. find_one user ticket_id) db

unfoldable pub write_unwatch : ℕ → ℕ → Db → Db
write_unwatch ticket_id user_id db = record db {
  watchers = select (λ w. not (is_watch_row ticket_id user_id w)) db.watchers;
}

unfoldable pub unwatch : AuthenticatedUser → ℕ → Db → Result TicketDetail × Db
unfolding write_unwatch
unwatch user ticket_id db =
    serve (get_ticket_or_throw user ticket_id) (λ _. write_unwatch ticket_id user.id)
      (λ _. find_one user ticket_id) db
