-- ===== src/Tickets/Audience.antt =====
-- Who hears of a comment (apps/backend/src/tickets/tickets.service.ts: addComment).
pub mod Replies
use sentinel_desk.Prelude.{
  ℕ, ◌≡◌, ◌⊎◌, refl, ◌∙◌, ap, inl, inr, Bool, true, not, ◌&&◌, ◌||◌, some, List, [], ◌∷◌, ◌++◌, map,
  arith, ◌==◌, opt_eq, any, includes, IsDistinct, select, Bool-cases, Option-cases, ok,
  Result-cases, ==_iff, subst, err, Result,
}
use mathlib.Core.List.{append_assoc}
use sentinel_desk.Schema.{
  Comment, Signal, AuthenticatedUser, Ticket, TicketWatcher, internal, is_internal, note_added,
  no_metadata, ticket_updated_room, ticket_updated_org,
}
use sentinel_desk.Store.{
  proceed, Db, Env, emit, broadcast_ticket_changed, insert_comment, write_history, update_ticket,
  insert_attachment, serve,
}
use sentinel_desk.Tickets.Create.{UploadedFile, save_attachments}
use sentinel_desk.Tickets.Labels.{is_watch_row}
use sentinel_desk.Tickets.Reply.{
  recipient_of, reply_audience, CreateCommentDto, Reply, check_add_comment, write_add_comment,
  write_reply_ticket, write_reply, report_reply, announce, add_comment, reply_comment,
}

abbrev pub watchers_of : Ticket → List TicketWatcher → List ℕ
watchers_of t ws = map (λ w. w.user_id) (select (λ w. w.ticket_id == t.id) ws)

includes-select :
    (p : ℕ → Bool) (k : ℕ) (ids : List ℕ) → includes k (select p ids) ≡ p k && includes k ids
includes-select p k [] = ground arith
includes-select p k (i ∷ ids) = elim (Bool-cases (k == i)) [
  | inl e ↦ ground (arith, includes-select p k ids, ap p ((==_iff k i).0 e))
  | inr e ↦ ground (arith, includes-select p k ids)
]

includes-watchers_of :
    (k : ℕ) (t : Ticket) (ws : List TicketWatcher)
    → includes k (watchers_of t ws) ≡ any (is_watch_row t.id k) ws
includes-watchers_of k t [] = refl
includes-watchers_of k t (w ∷ ws) = ground (arith, includes-watchers_of k t ws)

-- Who is in the audience of a public reply.
pub includes-reply_audience :
    (user : AuthenticatedUser) (t : Ticket) (db : Db) (k : ℕ)
    → includes k (reply_audience user t db)
      ≡ not (k == user.id)
        && (opt_eq (some k) (recipient_of user t) || any (is_watch_row t.id k) db.watchers)
unfolding reply_audience
includes-reply_audience user t db k =
    let mine =
      includes-select (λ id. not (id == user.id) && not (opt_eq (some id) (recipient_of user t))) k
        (watchers_of t db.watchers) in
    elim (Option-cases (recipient_of user t)) [
      | inl e ↦ ground (arith, mine, includes-watchers_of k t db.watchers)
      | inr (r, e) ↦ ground (arith, mine, includes-watchers_of k t db.watchers)
    ]

IsDistinct-select : (p : ℕ → Bool) (ids : List ℕ) → IsDistinct ids → IsDistinct (select p ids)
IsDistinct-select p [] h = tt
IsDistinct-select p (i ∷ ids) h = elim (Bool-cases (p i)) [
  | inl e ↦ rw e (includes-select p i ids ∙ rw (h.0, e) refl, IsDistinct-select p ids h.1)
  | inr e ↦ rw e (IsDistinct-select p ids h.1)
]

-- Where no one watches the ticket twice, no one is in the audience twice.
pub reply_audience-IsDistinct :
    (user : AuthenticatedUser) (t : Ticket) (db : Db)
    → IsDistinct (watchers_of t db.watchers)
    → IsDistinct (reply_audience user t db)
unfolding reply_audience
reply_audience-IsDistinct user t db h =
    let p : ℕ → Bool = λ id. not (id == user.id) && not (opt_eq (some id) (recipient_of user t)) in
    let rest = IsDistinct-select p (watchers_of t db.watchers) h in
    elim (Option-cases (recipient_of user t)) [
      | inl e ↦ ground (arith, rest)
      | inr (r, e) ↦ ground (arith, rest, includes-select p r (watchers_of t db.watchers))
    ]

pub outbox-save_attachments :
    (env : Env) (id : ℕ) (files : List UploadedFile) (db : Db)
    → ((save_attachments env id files db).1.outbox ≡ db.outbox)
      × ((save_attachments env id files db).1.notifications ≡ db.notifications)
unfolding save_attachments insert_attachment
outbox-save_attachments env id [] db = (refl, refl)
outbox-save_attachments env id (f ∷ fs) db = elim (Result-cases (env.upload id f.originalname)) [
  | inl (e, rejected) ↦ rw (rejected, save_attachments) (refl, refl)
  | inr (url, put) ↦ rw (put, save_attachments) (outbox-save_attachments env id fs _)
]

outbox-write_reply_ticket :
    (env : Env) (user : AuthenticatedUser) (id : ℕ) (reply : Reply) (db : Db)
    → ((write_reply_ticket env user id reply db).outbox ≡ db.outbox)
      × ((write_reply_ticket env user id reply db).notifications ≡ db.notifications)
unfolding write_reply_ticket update_ticket write_history
outbox-write_reply_ticket env user id reply db = ground arith

check_add_comment-internal :
    (user : AuthenticatedUser) (id : ℕ) (dto : CreateCommentDto) (db : Db) (reply : Reply)
    → dto.visibility ≡ some internal
    → check_add_comment user id dto db ≡ ok reply
    → is_internal reply.visibility ≡ true
unfolding check_add_comment
check_add_comment-internal user id dto db reply h e = ground arith

pub write_reply-quiet :
    (env : Env) (user : AuthenticatedUser) (id : ℕ) (dto : CreateCommentDto) (reply : Reply)
    (db : Db)
    → ((write_reply env user id dto reply db).outbox ≡ db.outbox)
      × ((write_reply env user id dto reply db).notifications ≡ db.notifications)
unfolding write_reply insert_comment write_history
write_reply-quiet env user id dto reply db = outbox-write_reply_ticket env user id reply _

-- What leaves the process at a note: nothing, or the word that the ticket has changed.
proceed-note :
    (r : Result (Unit {0})) (user : AuthenticatedUser) (id : ℕ) (reply : Reply) (ids : List ℕ)
    (c : Comment) (db : Db)
    → is_internal reply.visibility ≡ true
    → ((proceed r db (report_reply user id reply ids c)).1.notifications ≡ db.notifications)
      × (((proceed r db (report_reply user id reply ids c)).1.outbox ≡ db.outbox)
          ⊎ ((proceed r db (report_reply user id reply ids c)).1.outbox
              ≡ db.outbox
                ++ ticket_updated_room id id ∷ ticket_updated_org user.organization_id id ∷ []))
unfolding report_reply announce broadcast_ticket_changed emit
proceed-note (err e) user id reply ids c db h = (refl, inl refl)
proceed-note (ok a) user id reply ids c db h = rw h (
  refl,
  inr (
      append_assoc db.outbox (ticket_updated_room id id ∷ [])
        (ticket_updated_org user.organization_id id ∷ [])),
)

write_add_comment-internal :
    (env : Env) (user : AuthenticatedUser) (id : ℕ) (dto : CreateCommentDto)
    (files : List UploadedFile) (reply : Reply) (db : Db)
    → is_internal reply.visibility ≡ true
    → ((write_add_comment env user id dto files reply db).1.notifications ≡ db.notifications)
      × (((write_add_comment env user id dto files reply db).1.outbox ≡ db.outbox)
          ⊎ ((write_add_comment env user id dto files reply db).1.outbox
              ≡ db.outbox
                ++ ticket_updated_room id id ∷ ticket_updated_org user.organization_id id ∷ []))
unfolding write_add_comment
write_add_comment-internal env user id dto files reply db h =
    let comment = reply_comment env user id dto reply db in
    let written = write_reply env user id dto reply db in
    let saved = save_attachments env comment.id files written in
    let (o1, n1) = outbox-save_attachments env comment.id files written in
    let (o2, n2) = write_reply-quiet env user id dto reply db in
    let (n3, o3) =
      proceed-note saved.0 user id reply (reply_audience user reply.ticket db) comment saved.1 h in
    (
      n3 ∙ n1 ∙ n2,
      subst
          (λ (l : List Signal).
            ((write_add_comment env user id dto files reply db).1.outbox ≡ l)
            ⊎ ((write_add_comment env user id dto files reply db).1.outbox
                ≡ l ++ ticket_updated_room id id ∷ ticket_updated_org user.organization_id id ∷ []))
          (o1 ∙ o2) o3,
    )

-- An internal note notifies no one and pushes no comment: what leaves the process is at most the
-- word that the ticket has changed, and nothing where the note is refused
-- or the upload of a file of it is rejected.
pub add_comment-internal :
    (env : Env) (user : AuthenticatedUser) (id : ℕ) (dto : CreateCommentDto)
    (files : List UploadedFile) (db : Db)
    → dto.visibility ≡ some internal
    → ((add_comment env user id dto files db).1.notifications ≡ db.notifications)
      × (((add_comment env user id dto files db).1.outbox ≡ db.outbox)
          ⊎ ((add_comment env user id dto files db).1.outbox
              ≡ db.outbox
                ++ ticket_updated_room id id ∷ ticket_updated_org user.organization_id id ∷ []))
unfolding add_comment
add_comment-internal env user id dto files db h =
    elim (Result-cases (check_add_comment user id dto db)) [
      | inl (e, p) ↦ rw (p, serve) (refl, inl refl)
      | inr (reply, p) ↦
          rw (p, serve)
            (write_add_comment-internal env user id dto files reply db
              (check_add_comment-internal user id dto db reply h p))
    ]
