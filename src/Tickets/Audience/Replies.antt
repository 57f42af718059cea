-- ===== src/Tickets/Audience/Replies.antt =====
-- The notifications of a public reply (apps/backend/src/tickets/tickets.service.ts: addComment).
use mathlib.Core.List.{append_assoc, append-nil}
use sentinel_desk.Prelude.{
  ℕ, Bool, false, not, ◌&&◌, ◌||◌, ◌≡◌, ◌⊎◌, ◌∙◌, ap, sym, refl, inl, inr, none, some, List, [],
  ◌∷◌, ◌++◌, map, arith, ◌==◌, opt_eq, any, includes, IsDistinct, All, Result, ok, err, HttpError,
  Result-cases, Bool-cases, subst, if◌then◌else◌, or_default,
}
use sentinel_desk.Schema.{
  AuthenticatedUser, is_staff, Ticket, public, is_internal, Comment, Notification, ticket_reply,
  new_reply, comment_new,
}
use sentinel_desk.Store.{
  Db, Env, find_ticket, emit, notify, broadcast_ticket_changed, serve, proceed, unless_rejected,
}
use sentinel_desk.Tickets.Access.{TicketDetail}
use sentinel_desk.Tickets.Create.{UploadedFile, save_attachments}
use sentinel_desk.Tickets.Labels.{is_watch_row}
use sentinel_desk.Tickets.Reply.{
  CreateCommentDto, Reply, check_add_comment, write_add_comment, write_reply, reply_audience,
  reply_comment, reply_notification, notify_all, announce, report_reply, add_comment,
}
use sentinel_desk.Tickets.Effects.{get_ticket_or_throw-ok}
use sentinel_desk.Tickets.Effects.Checks.{check_add_comment-ok}
use sentinel_desk.Tickets.Audience.{
  watchers_of, includes-reply_audience, reply_audience-IsDistinct, outbox-save_attachments,
  write_reply-quiet,
}

refused : {A : Type 0} {e : HttpError} {a : A} → ¬ (err e ≡ ok a)
refused h = cc

some_same : {t u : Ticket} → some t ≡ some u → t ≡ u
some_same {t = t} h = ap (λ o. or_default o t) h

-- Whom a reply is addressed to: a staff reply to the requester, a customer's to the assignee.
abbrev pub is_addressed : AuthenticatedUser → Ticket → ℕ → Bool
is_addressed user t k = if is_staff user then k == t.requester_id else opt_eq (some k) t.assignee_id

abbrev pub IsReplyOn : AuthenticatedUser → Ticket → Notification → Type 0
IsReplyOn user t n =
    (n.organization_id ≡ user.organization_id)
    × (n.ticket_id ≡ t.id)
    × (n.type ≡ ticket_reply)
    × (n.title ≡ new_reply t.number)

-- The users that are told by a list of notifications, in its order.
abbrev pub told : List Notification → List ℕ
told ns = map (λ n. n.user_id) ns

notifications-notify_all :
    (user : AuthenticatedUser) (reply : Reply) (ids : List ℕ) (db : Db)
    → (notify_all user reply ids db).notifications
      ≡ db.notifications ++ map (reply_notification user reply) ids
unfolding notify_all notify emit
notifications-notify_all user reply [] db = sym (append-nil _)
notifications-notify_all user reply (id ∷ ids) db =
    notifications-notify_all user reply ids (notify (reply_notification user reply id) db)
    ∙ append_assoc db.notifications (reply_notification user reply id ∷ [])
        (map (reply_notification user reply) ids)

notifications-report_reply :
    (user : AuthenticatedUser) (id : ℕ) (reply : Reply) (ids : List ℕ) (c : Comment) (db : Db)
    → is_internal reply.visibility ≡ false
    → (report_reply user id reply ids c db).notifications
      ≡ db.notifications ++ map (reply_notification user reply) ids
unfolding report_reply announce broadcast_ticket_changed emit
notifications-report_reply user id reply ids c db h =
    let told_all = notifications-notify_all user reply ids (emit (comment_new id c) db) in
    elim (Bool-cases (is_staff user)) [
      | inl staff ↦ rw (h, staff) told_all
      | inr other ↦ rw (h, other) told_all
    ]

proceed-done :
    (r : Result (Unit {0})) (db : Db) (f : Db → Db) {a : Unit {0}}
    → (proceed r db f).0 ≡ ok a
    → (proceed r db f).1 ≡ f db
proceed-done (err e) db f h = cc
proceed-done (ok a) db f h = refl

notifications-write_add_comment :
    (env : Env) (user : AuthenticatedUser) (id : ℕ) (dto : CreateCommentDto)
    (files : List UploadedFile) (reply : Reply) (db : Db) {a : Unit {0}}
    → is_internal reply.visibility ≡ false
    → (write_add_comment env user id dto files reply db).0 ≡ ok a
    → (write_add_comment env user id dto files reply db).1.notifications
      ≡ db.notifications
        ++ map (reply_notification user reply) (reply_audience user reply.ticket db)
unfolding write_add_comment
notifications-write_add_comment env user id dto files reply db h done =
    let c = reply_comment env user id dto reply db in
    let written = write_reply env user id dto reply db in
    let saved = save_attachments env c.id files written in
    let ids = reply_audience user reply.ticket db in
    ap (λ (x : Db). x.notifications)
      (proceed-done saved.0 saved.1 (report_reply user id reply ids c) done)
    ∙ notifications-report_reply user id reply ids c saved.1 h
    ∙ ap (λ ns. ns ++ map (reply_notification user reply) ids)
        ((outbox-save_attachments env c.id files written).1
          ∙ (write_reply-quiet env user id dto reply db).1)

-- Not an internal note.
abbrev pub IsPublicReply : CreateCommentDto → Type 0
IsPublicReply dto = (dto.visibility ≡ none) ⊎ (dto.visibility ≡ some public)

check_add_comment-public :
    (user : AuthenticatedUser) (id : ℕ) (dto : CreateCommentDto) (db : Db) (reply : Reply)
    → IsPublicReply dto
    → check_add_comment user id dto db ≡ ok reply
    → is_internal reply.visibility ≡ false
unfolding check_add_comment
check_add_comment-public user id dto db reply h e = ground arith

-- What an answered reply leaves of notifications, with what was checked before.
abbrev pub Announced :
    Env → AuthenticatedUser → ℕ → CreateCommentDto → List UploadedFile → Db → Type 0
Announced env user id dto files db =
    (reply : Reply) × (find_ticket id db ≡ some reply.ticket)
    × ((add_comment env user id dto files db).1.notifications
        ≡ db.notifications
          ++ map (reply_notification user reply) (reply_audience user reply.ticket db))

add_comment-Announced :
    (env : Env) (user : AuthenticatedUser) (id : ℕ) (dto : CreateCommentDto)
    (files : List UploadedFile) (db : Db) (d : TicketDetail)
    → IsPublicReply dto
    → (add_comment env user id dto files db).0 ≡ ok d
    → Announced env user id dto files db
unfolding add_comment
add_comment-Announced env user id dto files db d h answered =
    elim (Result-cases (check_add_comment user id dto db)) [
      | inl (e, p) ↦ absurd (refused (rw (p, serve) at answered))
      | inr (reply, p) ↦
          let read = check_add_comment-ok user id dto db reply p in
          let (found, _, _) = get_ticket_or_throw-ok user id db reply.ticket read in
          elim (Result-cases (write_add_comment env user id dto files reply db).0) [
            | inl (e, q) ↦ absurd (refused (rw (p, q, serve, unless_rejected) at answered))
            | inr (done, q) ↦ (
              reply,
              found,
              rw (p, serve)
                  (notifications-write_add_comment env user id dto files reply db
                    (check_add_comment-public user id dto db reply h p) q),
            )
          ]
    ]

told-reply_notification :
    (user : AuthenticatedUser) (reply : Reply) (ids : List ℕ)
    → told (map (reply_notification user reply) ids) ≡ ids
told-reply_notification user reply [] = refl
told-reply_notification user reply (id ∷ ids) =
    ap (λ l. id ∷ l) (told-reply_notification user reply ids)

reply_notification-IsReplyOn :
    (user : AuthenticatedUser) (reply : Reply) (ids : List ℕ)
    → All (IsReplyOn user reply.ticket) (map (reply_notification user reply) ids)
reply_notification-IsReplyOn user reply [] = tt
reply_notification-IsReplyOn user reply (id ∷ ids) =
    ((refl, refl, refl, refl), reply_notification-IsReplyOn user reply ids)

audience_member :
    (user : AuthenticatedUser) (t : Ticket) (db : Db) (k : ℕ)
    → includes k (reply_audience user t db)
      ≡ not (k == user.id) && (is_addressed user t k || any (is_watch_row t.id k) db.watchers)
audience_member user t db k =
    let members = includes-reply_audience user t db k in
    elim (Bool-cases (is_staff user)) [
      | inl staff ↦ rw staff (members ∙ rw staff refl)
      | inr other ↦ rw other (members ∙ rw other refl)
    ]

-- A public reply that is answered adds notifications at the end of the table, each about the ticket
-- that was replied to. The users they go to are exactly these: the requester, if a member of the
-- staff replies, else the assignee, and everyone who watches the ticket, less the author.
pub add_comment-notifies :
    (env : Env) (user : AuthenticatedUser) (id : ℕ) (dto : CreateCommentDto)
    (files : List UploadedFile) (db : Db) (d : TicketDetail)
    → IsPublicReply dto
    → (add_comment env user id dto files db).0 ≡ ok d
    → (t : Ticket) × (find_ticket id db ≡ some t)
      × (new : List Notification) × ((add_comment env user id dto files db).1.notifications
          ≡ db.notifications ++ new)
      × All (IsReplyOn user t) new
      × ((k : ℕ)
          → includes k (told new)
            ≡ not (k == user.id)
              && (is_addressed user t k || any (is_watch_row t.id k) db.watchers))
add_comment-notifies env user id dto files db d h answered =
    let (reply, found, added) = add_comment-Announced env user id dto files db d h answered in
    let ids = reply_audience user reply.ticket db in
    (
      reply.ticket,
      found,
      map (reply_notification user reply) ids,
      added,
      reply_notification-IsReplyOn user reply ids,
      λ k.
          ap (includes k) (told-reply_notification user reply ids)
          ∙ audience_member user reply.ticket db k,
    )

-- Where no one watches the ticket twice, the notifications that a public reply adds, if it is
-- answered, go to no one twice.
pub add_comment-IsDistinct :
    (env : Env) (user : AuthenticatedUser) (id : ℕ) (dto : CreateCommentDto)
    (files : List UploadedFile) (db : Db) (d : TicketDetail) (t : Ticket)
    → IsPublicReply dto
    → find_ticket id db ≡ some t
    → IsDistinct (watchers_of t db.watchers)
    → (add_comment env user id dto files db).0 ≡ ok d
    → (new : List Notification) × ((add_comment env user id dto files db).1.notifications
        ≡ db.notifications ++ new)
      × IsDistinct (told new)
add_comment-IsDistinct env user id dto files db d t h here once answered =
    let (reply, found, added) = add_comment-Announced env user id dto files db d h answered in
    let ids = reply_audience user reply.ticket db in
    let same = some_same (sym here ∙ found) in
    (
      map (reply_notification user reply) ids,
      added,
      subst IsDistinct (sym (told-reply_notification user reply ids)) (
          reply_audience-IsDistinct user reply.ticket db
            (subst (λ u. IsDistinct (watchers_of u db.watchers)) same once)),
    )
