-- ===== src/Tests/TicketCases.antt =====
-- The ticket endpoints on a concrete desk.
use sentinel_desk.Prelude.{
  or_default, inl, ℕ, ◌≡◌, ◌⊎◌, refl, true, false, not, ◌&&◌, ◌||◌, none, some, List, [], ◌∷◌, ◌++◌,
  map, arith, ◌==◌, any, includes, IsDistinct, All, ok, err, bad_request, foreign_comments,
  not_reopenable, is_none, if◌then◌else◌,
}
use sentinel_desk.Schema.{
  Notification, Ticket, opened, on_hold, pending, resolved, internal, ticket_updated_room,
  ticket_updated_org,
}
use sentinel_desk.Store.{
  Db, Env, broadcast_ticket_changed, notify, update_ticket, write_history, insert_comment,
  find_ticket,
}
use sentinel_desk.Sla.Service.{pause, resume, DueDates, compute_due_dates_for_new_ticket}
use sentinel_desk.Sla.Sweep.{
  is_response_candidate, is_resolution_candidate, is_escalation_candidate,
}
use sentinel_desk.Tickets.Access.{
  TicketDetail, to_ticket_detail, find_one, comments_of, get_ticket_or_throw,
}
use sentinel_desk.Tickets.Update.{update}
use sentinel_desk.Tickets.Lifecycle.{reopen}
use sentinel_desk.Tickets.Reply.{
  CreateCommentDto, check_add_comment, write_add_comment, report_reply, replied_ticket, add_comment,
  reply_audience,
}
use sentinel_desk.Tickets.Labels.{is_watch_row}
use sentinel_desk.Tickets.Links.{merge, SplitTicketDto, check_split, chosen_comments}
use sentinel_desk.Tickets.Endpoints.{
  Request, updates, reopens, comments, handle, Event, request, tick, run,
}
use sentinel_desk.Tickets.Effects.{Effect, IsSound, hidden}
use sentinel_desk.Tickets.Effects.Handle.{handle-Effect, handle-hidden}
use sentinel_desk.Tickets.Clock.{LeavesAsMuch, resume-pause}
use sentinel_desk.Tickets.Runs.{Extends, identity, run-IsSound, run-Extends}
use sentinel_desk.Tickets.Customers.{CustomerEffect, handle-CustomerEffect}
use sentinel_desk.Tickets.Audience.Replies.{
  IsReplyOn, told, is_addressed, add_comment-notifies, add_comment-IsDistinct,
}
use sentinel_desk.Tickets.Audience.{watchers_of, add_comment-internal}
use sentinel_desk.Tickets.Selection.{ids_of, is_selection, check_split-is_selection}
use sentinel_desk.Tickets.Forgotten.{only_status, reopen-update}
use sentinel_desk.Tickets.Workflow.{update-update}
use sentinel_desk.Tickets.Merges.{IsMergedInto, merge-merge}
use sentinel_desk.Tests.World.{desk, desk_env, ann, bob, running, waiting}

abbrev at_noon : Env
at_noon = desk_env 43200000

abbrev at_one : Env
at_one = desk_env 46800000

-- Ann answers on her ticket, and Bob puts it on hold.
abbrev remarks : Request
remarks = comments 1 (record { body = []; visibility = none }) []

abbrev holds : Request
holds = updates 1 (only_status pending)

handle-hidden_example :
    hidden ann (handle at_noon ann remarks desk).1.tickets ≡ hidden ann desk.tickets
handle-hidden_example = handle-hidden at_noon ann desk remarks

handle-Effect_example : Effect bob desk (handle at_noon bob holds desk).1.tickets
handle-Effect_example = handle-Effect at_noon bob desk holds

abbrev shown : TicketDetail
shown = to_ticket_detail running ann desk

handle-CustomerEffect_example :
    CustomerEffect ann desk (handle at_noon ann (reopens 3) desk).1.tickets
handle-CustomerEffect_example = handle-CustomerEffect at_noon ann desk refl (reopens 3)

desk-IsSound : All IsSound desk.tickets
desk-IsSound = ground arith

-- Ann answers, the sweep runs, Bob puts the ticket on hold, and Ann reopens another one.
abbrev a_day : List Event
a_day =
    request at_noon ann remarks
    ∷ tick 43260000
    ∷ request at_one bob holds
    ∷ request at_one ann (reopens 3)
    ∷ []

run-IsSound_example : All IsSound (run a_day desk).tickets
run-IsSound_example = run-IsSound a_day desk desk-IsSound

run-Extends_example : Extends (map identity desk.tickets) (map identity (run a_day desk).tickets)
run-Extends_example = run-Extends a_day desk

resume-pause_example :
    (u : Ticket) × (find_ticket 1 (resume at_one 1 10 (pause at_noon 1 10 desk)) ≡ some u)
    × (u.sla_paused_at ≡ none)
    × LeavesAsMuch
        (is_none running.first_response_at)
        running.response_due_at
        u.response_due_at
        43200000
        46800000
    × LeavesAsMuch
        (is_none running.resolved_at)
        running.resolution_due_at
        u.resolution_due_at
        43200000
        46800000
resume-pause_example = resume-pause at_noon at_one 1 10 desk running refl refl (omega arith)

-- Ann, whose ticket it is and who watches it, hears of Bob's reply once.
bobs_audience : reply_audience bob running desk ≡ 20 ∷ 30 ∷ []
unfolding reply_audience
bobs_audience = refl

running_watched : IsDistinct (watchers_of running desk.watchers)
running_watched = ground arith

abbrev answer : CreateCommentDto
answer = record { body = []; visibility = none }

abbrev answered : Db
answered = (add_comment at_noon bob 1 answer [] desk).1

-- What Bob is shown after his reply.
abbrev answer_shown : TicketDetail
answer_shown = to_ticket_detail (or_default (find_ticket 1 answered) running) bob answered

bob_is_answered : (add_comment at_noon bob 1 answer [] desk).0 ≡ ok answer_shown
unfolding add_comment check_add_comment get_ticket_or_throw write_add_comment find_one
    to_ticket_detail report_reply broadcast_ticket_changed reply_audience notify update_ticket
    write_history insert_comment replied_ticket
bob_is_answered = refl

add_comment-notifies_example :
    (t : Ticket) × (find_ticket 1 desk ≡ some t)
    × (new : List Notification) × (answered.notifications ≡ desk.notifications ++ new)
    × All (IsReplyOn bob t) new
    × ((k : ℕ)
        → includes k (told new)
          ≡ not (k == bob.id) && (is_addressed bob t k || any (is_watch_row t.id k) desk.watchers))
add_comment-notifies_example =
    add_comment-notifies at_noon bob 1 answer [] desk answer_shown (inl refl) bob_is_answered

add_comment-IsDistinct_example :
    (new : List Notification) × (answered.notifications ≡ desk.notifications ++ new)
    × IsDistinct (told new)
add_comment-IsDistinct_example =
    add_comment-IsDistinct at_noon bob 1 answer [] desk answer_shown running (inl refl) refl
      running_watched bob_is_answered

abbrev note : CreateCommentDto
note = record { body = []; visibility = some internal }

add_comment-internal_example :
    ((add_comment at_noon bob 1 note [] desk).1.notifications ≡ desk.notifications)
    × (((add_comment at_noon bob 1 note [] desk).1.outbox ≡ desk.outbox)
        ⊎ ((add_comment at_noon bob 1 note [] desk).1.outbox
            ≡ desk.outbox ++ ticket_updated_room 1 1 ∷ ticket_updated_org 1 1 ∷ []))
add_comment-internal_example = add_comment-internal at_noon bob 1 note [] desk refl

-- Two remarks of the ticket, and one of another ticket.
abbrev good_split : SplitTicketDto
good_split = record { subject = []; comment_ids = 102 ∷ 100 ∷ [] }

abbrev bad_split : SplitTicketDto
bad_split = record { subject = []; comment_ids = 102 ∷ 103 ∷ [] }

abbrev undated : DueDates
undated = record { sla_policy_id = some 5; response_due_at = none; resolution_due_at = none }

remarks_apart : IsDistinct (ids_of (comments_of 1 desk))
remarks_apart = ground arith

bob_finds :
    (id : ℕ) (t : Ticket)
    → find_ticket id desk ≡ some t
    → t.organization_id ≡ 1
    → get_ticket_or_throw bob id desk ≡ ok t
unfolding get_ticket_or_throw
bob_finds id t e o = ground arith

undated_due :
    compute_due_dates_for_new_ticket at_noon bob.organization_id running.priority at_noon.now desk
    ≡ ok undated
unfolding compute_due_dates_for_new_ticket
undated_due = refl

check_split-is_selection_example : check_split at_noon bob 1 good_split desk ≡ (
    if is_selection good_split.comment_ids (comments_of 1 desk)
    then ok (record {
      source = running;
      comments_to_copy = chosen_comments good_split.comment_ids (comments_of 1 desk);
      due_dates = undated;
      number = 5;
    })
    else err (bad_request foreign_comments))
check_split-is_selection_example =
    check_split-is_selection at_noon bob 1 good_split desk running undated
      (record { id = 1; next_ticket_number = 5 }) (bob_finds 1 running refl refl) remarks_apart
      undated_due refl

good_is_selection : is_selection good_split.comment_ids (comments_of 1 desk) ≡ true
good_is_selection = refl

bad_is_none : is_selection bad_split.comment_ids (comments_of 1 desk) ≡ false
bad_is_none = refl

reopen-update_example :
    (u : Ticket) × (find_ticket 2
        (reopen at_one bob 2 (update at_noon bob 2 (only_status resolved) desk).1).1
      ≡ some u)
    × (u.status ≡ opened)
    × (u.sla_paused_at ≡ some 500)
    × (is_response_candidate 99 u ≡ false)
    × (is_resolution_candidate 99 u ≡ false)
    × (is_escalation_candidate u ≡ false)
reopen-update_example =
    reopen-update at_noon at_one bob 2 desk waiting resolved 500 99 refl
      (bob_finds 2 waiting refl refl) refl refl refl

merge-merge_example :
    IsMergedInto 2 at_noon.now 1 (merge at_one bob 2 1 (merge at_noon bob 1 2 desk).1).1
    × IsMergedInto 1 at_one.now 2 (merge at_one bob 2 1 (merge at_noon bob 1 2 desk).1).1
merge-merge_example =
    merge-merge at_noon at_one bob 1 2 desk running waiting (omega arith)
      (bob_finds 1 running refl refl) (bob_finds 2 waiting refl refl) refl refl

-- The object storage rejects every file.
abbrev storage_down : Env
storage_down = record at_noon { upload = λ id name. err (bad_request not_reopenable) }

abbrev with_a_file : Request
with_a_file =
    comments 1 (record { body = []; visibility = none })
      (record { originalname = []; size = 1; mimetype = [] } ∷ [])

update-update_example :
    (u : Ticket) × (find_ticket 1
        (update at_one bob 1
          (only_status opened)
          (update at_noon bob 1 (only_status on_hold) desk).1).1
      ≡ some u)
    × (u.status ≡ opened)
    × (u.sla_paused_at ≡ none)
    × LeavesAsMuch
        (is_none running.first_response_at)
        running.response_due_at
        u.response_due_at
        43200000
        46800000
    × LeavesAsMuch
        (is_none running.resolved_at)
        running.resolution_due_at
        u.resolution_due_at
        43200000
        46800000
update-update_example =
    update-update at_noon at_one bob 1 desk running on_hold refl (bob_finds 1 running refl refl)
      refl refl refl (omega arith)
