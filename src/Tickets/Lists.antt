-- ===== src/Tickets/Lists.antt =====
-- The list of tickets and its export (apps/backend/src/tickets/tickets.service.ts: buildTicketWhere,
-- exportCsv, findAll, toTicketSummary).
use sentinel_desk.Prelude.{
  ℕ, zero, suc, ◌+◌, ◌-◌, ◌*◌, ◌/◌, max, Bool, true, false, ◌&&◌, ◌||◌, Option, none, some, List,
  [], ◌∷◌, ◌++◌, map, Text, length, select, any, is_none, or_default, opt_eq, ◌==◌, if◌then◌else◌,
}
use sentinel_desk.Schema.{
  AuthenticatedUser, is_staff, Ticket, TicketStatus, opened, pending, on_hold, resolved, closed,
  TicketPriority, low, medium, high, urgent, Tag, Member, status_eq, priority_eq,
}
use sentinel_desk.Store.{Db, find_member}
use sentinel_desk.Helpers.Decimal.{to_text}
use sentinel_desk.Tickets.Access.{comments_of, tags_of}
use sentinel_desk.Tickets.Csv.{to_csv}

pub data Assignee : Type 0 where
  me unassigned : Assignee
  member : ℕ → Assignee

pub data SortBy : Type 0 where
  by_created_at by_updated_at by_priority : SortBy

pub data SortOrder : Type 0 where
  asc desc : SortOrder

pub record QueryTicketsDto : Type 0 where
  pub status : Option (List TicketStatus)
  pub priority : Option (List TicketPriority)
  pub assignee : Option Assignee
  pub tag_id : Option ℕ
  pub search : Option Text
  pub page : Option ℕ
  pub page_size : Option ℕ
  pub sort_by : Option SortBy
  pub sort_order : Option SortOrder

-- What the database and the runtime do in one request: `contains` without regard to case, the order
-- in which this request's query gets its rows (two queries need not agree on rows that the sort column
-- does not tell apart), `toISOString`.
pub record ListEnv : Type 0 where
  pub contains : Text → Text → Bool
  pub order_by : SortBy → SortOrder → List Ticket → List Ticket
  pub to_iso_string : ℕ → Text

-- A filter of a list applies if it is there and not empty.
abbrev pub is_in : {A : Type 0} → (A → A → Bool) → Option (List A) → A → Bool
is_in eq none a = true
is_in eq (some []) a = true
is_in eq (some (x ∷ xs)) a = any (eq a) (x ∷ xs)

abbrev pub has_tag : Option ℕ → Ticket → Db → Bool
has_tag none t db = true
has_tag (some tag) t db = any (λ r. r.ticket_id == t.id && r.tag_id == tag) db.ticket_tags

abbrev pub has_assignee : AuthenticatedUser → Option Assignee → Ticket → Bool
has_assignee user none t = true
has_assignee user (some me) t = opt_eq t.assignee_id (some user.id)
has_assignee user (some unassigned) t = is_none t.assignee_id
has_assignee user (some (member id)) t = opt_eq t.assignee_id (some id)

-- An empty search is none.
abbrev pub has_text : ListEnv → Option Text → Ticket → Db → Bool
has_text env none t db = true
has_text env (some []) t db = true
has_text env (some (c ∷ s)) t db =
    env.contains t.subject (c ∷ s) || any (λ m. env.contains m.body (c ∷ s)) (comments_of t.id db)

-- `buildTicketWhere`, as the test of a row.
unfoldable pub build_ticket_where :
    ListEnv → AuthenticatedUser → QueryTicketsDto → Db → Ticket → Bool
build_ticket_where env user query db t =
    t.organization_id == user.organization_id
    && (is_staff user || t.requester_id == user.id)
    && is_in status_eq query.status t.status
    && is_in priority_eq query.priority t.priority
    && has_tag query.tag_id t db
    && has_assignee user query.assignee t
    && has_text env query.search t db

pub record TicketSummary : Type 0 where
  pub id : ℕ
  pub number : ℕ
  pub subject : Text
  pub status : TicketStatus
  pub priority : TicketPriority
  pub requester : ℕ
  pub assignee : Option ℕ
  pub tags : List Tag
  pub comment_count : ℕ
  pub created_at : ℕ
  pub updated_at : ℕ
  pub first_response_at : Option ℕ
  pub resolved_at : Option ℕ
  pub response_due_at : Option ℕ
  pub resolution_due_at : Option ℕ
  pub response_breached : Bool
  pub resolution_breached : Bool
  pub sla_paused_at : Option ℕ
  pub ai_suggested_priority : Option TicketPriority
  pub ai_suggested_tags : List Text

-- `toTicketSummary`
abbrev pub to_ticket_summary : Db → Bool → Ticket → TicketSummary
to_ticket_summary db staff ticket = record {
  id = ticket.id;
  number = ticket.number;
  subject = ticket.subject;
  status = ticket.status;
  priority = ticket.priority;
  requester = ticket.requester_id;
  assignee = ticket.assignee_id;
  tags = tags_of ticket.id db;
  comment_count = length (comments_of ticket.id db);
  created_at = ticket.created_at;
  updated_at = ticket.updated_at;
  first_response_at = ticket.first_response_at;
  resolved_at = ticket.resolved_at;
  response_due_at = ticket.response_due_at;
  resolution_due_at = ticket.resolution_due_at;
  response_breached = ticket.response_breached;
  resolution_breached = ticket.resolution_breached;
  sla_paused_at = ticket.sla_paused_at;
  ai_suggested_priority = if staff then ticket.ai_suggested_priority else none;
  ai_suggested_tags = if staff then ticket.ai_suggested_tags else [];
}

abbrev pub take {ℓ} : {A : Type ℓ} → ℕ → List A → List A
take zero xs = []
take (suc n) [] = []
take (suc n) (x ∷ xs) = x ∷ take n xs

abbrev pub drop {ℓ} : {A : Type ℓ} → ℕ → List A → List A
drop zero xs = xs
drop (suc n) [] = []
drop (suc n) (x ∷ xs) = drop n xs

pub record TicketPage : Type 0 where
  pub items : List TicketSummary
  pub page : ℕ
  pub page_size : ℕ
  pub total : ℕ
  pub total_pages : ℕ

-- The rows that a query selects, in the order that it asks for.
abbrev pub selected : ListEnv → AuthenticatedUser → QueryTicketsDto → Db → List Ticket
selected env user query db = select (build_ticket_where env user query db) db.tickets

-- `Math.max(1, Math.ceil(total / pageSize))`
abbrev pub page_count : ℕ → ℕ → ℕ
page_count total page_size = max 1 ((total + (page_size - 1)) / page_size)

-- `findAll`: one request, with the order in which its own query gets the rows. There is no second sort
-- key, so that rows with the same value may stand in another order at the next request.
unfoldable pub find_all : ListEnv → AuthenticatedUser → QueryTicketsDto → Db → TicketPage
unfolding build_ticket_where
find_all env user query db =
    let page = or_default query.page 1 in
    let page_size = or_default query.page_size 25 in
    let ordered =
      env.order_by (or_default query.sort_by by_updated_at) (or_default query.sort_order desc)
        (selected env user query db) in
    let total = length (selected env user query db) in
    record {
      items =
          map (to_ticket_summary db (is_staff user))
            (take page_size (drop ((page - 1) * page_size) ordered));
      page = page;
      page_size = page_size;
      total = total;
      total_pages = page_count total page_size;
    }

-- The names of the enums, as `String` gives them.
abbrev pub status_name : TicketStatus → Text
status_name opened = b'O' ∷ b'P' ∷ b'E' ∷ b'N' ∷ []
status_name pending = b'P' ∷ b'E' ∷ b'N' ∷ b'D' ∷ b'I' ∷ b'N' ∷ b'G' ∷ []
status_name on_hold = b'O' ∷ b'N' ∷ b'_' ∷ b'H' ∷ b'O' ∷ b'L' ∷ b'D' ∷ []
status_name resolved = b'R' ∷ b'E' ∷ b'S' ∷ b'O' ∷ b'L' ∷ b'V' ∷ b'E' ∷ b'D' ∷ []
status_name closed = b'C' ∷ b'L' ∷ b'O' ∷ b'S' ∷ b'E' ∷ b'D' ∷ []

abbrev pub priority_name : TicketPriority → Text
priority_name low = b'L' ∷ b'O' ∷ b'W' ∷ []
priority_name medium = b'M' ∷ b'E' ∷ b'D' ∷ b'I' ∷ b'U' ∷ b'M' ∷ []
priority_name high = b'H' ∷ b'I' ∷ b'G' ∷ b'H' ∷ []
priority_name urgent = b'U' ∷ b'R' ∷ b'G' ∷ b'E' ∷ b'N' ∷ b'T' ∷ []

abbrev pub truth_name : Bool → Text
truth_name true = b't' ∷ b'r' ∷ b'u' ∷ b'e' ∷ []
truth_name false = b'f' ∷ b'a' ∷ b'l' ∷ b's' ∷ b'e' ∷ []

-- `${firstName} ${lastName}`; a user that is named by a key is never missing.
abbrev pub full_name : Option Member → Text
full_name none = []
full_name (some m) = m.first_name ++ 32 ∷ m.last_name

abbrev pub name_of : Option ℕ → Db → Text
name_of none db = []
name_of (some id) db = full_name (find_member id db)

-- `names.join('; ')`
abbrev pub join_names : List Tag → Text
join_names [] = []
join_names (t ∷ []) = t.name
join_names (t ∷ u ∷ ts) = t.name ++ b';' ∷ 32 ∷ join_names (u ∷ ts)

abbrev breached : Text
breached = b'B' ∷ b'r' ∷ b'e' ∷ b'a' ∷ b'c' ∷ b'h' ∷ b'e' ∷ b'd' ∷ []

abbrev pub csv_header : List Text
csv_header =
    (b'N' ∷ b'u' ∷ b'm' ∷ b'b' ∷ b'e' ∷ b'r' ∷ [])
    ∷ (b'S' ∷ b'u' ∷ b'b' ∷ b'j' ∷ b'e' ∷ b'c' ∷ b't' ∷ [])
    ∷ (b'S' ∷ b't' ∷ b'a' ∷ b't' ∷ b'u' ∷ b's' ∷ [])
    ∷ (b'P' ∷ b'r' ∷ b'i' ∷ b'o' ∷ b'r' ∷ b'i' ∷ b't' ∷ b'y' ∷ [])
    ∷ (b'R' ∷ b'e' ∷ b'q' ∷ b'u' ∷ b'e' ∷ b's' ∷ b't' ∷ b'e' ∷ b'r' ∷ [])
    ∷ (b'A' ∷ b's' ∷ b's' ∷ b'i' ∷ b'g' ∷ b'n' ∷ b'e' ∷ b'e' ∷ [])
    ∷ (b'T' ∷ b'a' ∷ b'g' ∷ b's' ∷ [])
    ∷ (b'C' ∷ b'o' ∷ b'm' ∷ b'm' ∷ b'e' ∷ b'n' ∷ b't' ∷ b's' ∷ [])
    ∷ (b'C' ∷ b'r' ∷ b'e' ∷ b'a' ∷ b't' ∷ b'e' ∷ b'd' ∷ [])
    ∷ (b'U' ∷ b'p' ∷ b'd' ∷ b'a' ∷ b't' ∷ b'e' ∷ b'd' ∷ [])
    ∷ (b'R' ∷ b'e' ∷ b's' ∷ b'p' ∷ b'o' ∷ b'n' ∷ b's' ∷ b'e' ∷ breached)
    ∷ (b'R' ∷ b'e' ∷ b's' ∷ b'o' ∷ b'l' ∷ b'u' ∷ b't' ∷ b'i' ∷ b'o' ∷ b'n' ∷ breached)
    ∷ []

-- The cells of a ticket's row, before they are escaped.
abbrev pub csv_row : ListEnv → Db → Ticket → List Text
csv_row env db t =
    to_text t.number
    ∷ t.subject
    ∷ status_name t.status
    ∷ priority_name t.priority
    ∷ name_of (some t.requester_id) db
    ∷ name_of t.assignee_id db
    ∷ join_names (tags_of t.id db)
    ∷ to_text (length (comments_of t.id db))
    ∷ env.to_iso_string t.created_at
    ∷ env.to_iso_string t.updated_at
    ∷ truth_name t.response_breached
    ∷ truth_name t.resolution_breached
    ∷ []

abbrev pub max_exported : ℕ
max_exported = 5000

-- `exportCsv`
unfoldable pub export_csv : ListEnv → AuthenticatedUser → QueryTicketsDto → Db → Text
unfolding build_ticket_where to_csv to_text
export_csv env user query db = to_csv (
    csv_header
    ∷ map (csv_row env db)
        (take max_exported (env.order_by by_updated_at desc (selected env user query db))))
