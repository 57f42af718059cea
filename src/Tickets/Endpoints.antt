-- ===== src/Tickets/Endpoints.antt =====
-- The routes that change or show one ticket (apps/backend/src/tickets/tickets.controller.ts), behind
-- the role guard (apps/backend/src/common/guards/roles.guard.ts), and runs of the whole desk.
use sentinel_desk.Prelude.{
  ℕ, Bool, true, false, not, ◌&&◌, List, [], ◌∷◌, Result, err, forbidden, insufficient_role,
  if◌then◌else◌,
}
use sentinel_desk.Schema.{AuthenticatedUser, is_staff}
use sentinel_desk.Store.{Db, Env}
use sentinel_desk.Sla.Sweep.{sweep}
use sentinel_desk.Tickets.Access.{TicketDetail, find_one}
use sentinel_desk.Tickets.Create.{CreateTicketDto, UploadedFile, create}
use sentinel_desk.Tickets.Update.{UpdateTicketDto, update}
use sentinel_desk.Tickets.Lifecycle.{reopen, RateCsatDto, rate_csat}
use sentinel_desk.Tickets.Reply.{CreateCommentDto, add_comment}
use sentinel_desk.Tickets.Routing.{assign, unassign, EscalateTicketDto, escalate}
use sentinel_desk.Tickets.Labels.{add_tag, remove_tag, watch, unwatch}
use sentinel_desk.Tickets.Links.{merge, SplitTicketDto, split_ticket}

pub data Request : Type 0 where
  creates : CreateTicketDto → List UploadedFile → Request
  shows : ℕ → Request
  updates : ℕ → UpdateTicketDto → Request
  reopens : ℕ → Request
  rates : ℕ → RateCsatDto → Request
  comments : ℕ → CreateCommentDto → List UploadedFile → Request
  assigns transfers : ℕ → ℕ → Request
  unassigns : ℕ → Request
  escalates : ℕ → EscalateTicketDto → Request
  merges : ℕ → ℕ → Request
  splits : ℕ → SplitTicketDto → Request
  adds_tag removes_tag : ℕ → ℕ → Request
  watches unwatches : ℕ → Request

-- The routes that carry `@Roles(...STAFF_ROLES)`.
abbrev pub needs_staff : Request → Bool
needs_staff (assigns _ _) = true
needs_staff (transfers _ _) = true
needs_staff (unassigns _) = true
needs_staff (escalates _ _) = true
needs_staff (merges _ _) = true
needs_staff (splits _ _) = true
needs_staff (adds_tag _ _) = true
needs_staff (removes_tag _ _) = true
needs_staff _ = false

unfoldable pub dispatch : Env → AuthenticatedUser → Request → Db → Result TicketDetail × Db
dispatch env user (creates dto files) db = create env user dto files db
dispatch env user (shows id) db = (find_one user id db, db)
dispatch env user (updates id dto) db = update env user id dto db
dispatch env user (reopens id) db = reopen env user id db
dispatch env user (rates id dto) db = rate_csat env user id dto db
dispatch env user (comments id dto files) db = add_comment env user id dto files db
dispatch env user (assigns id to) db = assign env user id to db
dispatch env user (transfers id to) db = assign env user id to db
dispatch env user (unassigns id) db = unassign env user id db
dispatch env user (escalates id dto) db = escalate env user id dto db
dispatch env user (merges id into) db = merge env user id into db
dispatch env user (splits id dto) db = split_ticket env user id dto db
dispatch env user (adds_tag id tag) db = add_tag env user id tag db
dispatch env user (removes_tag id tag) db = remove_tag env user id tag db
dispatch env user (watches id) db = watch user id db
dispatch env user (unwatches id) db = unwatch user id db

unfoldable pub handle : Env → AuthenticatedUser → Request → Db → Result TicketDetail × Db
unfolding dispatch
handle env user request db =
    if needs_staff request && not (is_staff user)
    then (err (forbidden insufficient_role), db)
    else dispatch env user request db

-- What happens to the desk: a request of a user, or the sweep at some instant.
pub data Event : Type 0 where
  request : Env → AuthenticatedUser → Request → Event
  tick : ℕ → Event

unfoldable pub step : Event → Db → Db
unfolding handle
step (request env user r) db = (handle env user r db).1
step (tick now) db = sweep now db

unfoldable pub run : List Event → Db → Db
run [] db = db
run (e ∷ es) db = run es (step e db)
