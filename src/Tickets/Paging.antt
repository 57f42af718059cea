-- ===== src/Tickets/Paging.antt =====
-- What the list of tickets and its export show (apps/backend/src/tickets/tickets.service.ts: findAll,
-- exportCsv).
use mathlib.Core.List.{map-append}
use native.Mathlib.Nat.{mul-le-mul_right}
use native.Mathlib.Omega.{div_fact, mod_fact}
use sentinel_desk.Prelude.{
  ℕ, zero, suc, ◌+◌, ◌-◌, ◌*◌, ◌/◌, ◌≤◌, ◌≡◌, ◌∙◌, ap, sym, subst, refl, inl, inr, true, false,
  none, some, List, [], ◌∷◌, ◌++◌, map, length, select, All, or_default, max, arith, Bool-cases,
}
use sentinel_desk.Schema.{AuthenticatedUser, is_staff, Ticket}
use sentinel_desk.Store.{Db}
use sentinel_desk.Tickets.Csv.{before, read_csv, HaveFields, read_csv-to_csv}
use sentinel_desk.Tickets.Lists.{
  ListEnv, QueryTicketsDto, SortBy, SortOrder, by_updated_at, desc, TicketSummary,
  to_ticket_summary, take, drop, page_count, selected, build_ticket_where, find_all, csv_header,
  csv_row, max_exported, export_csv,
}

map-HaveFields : (env : ListEnv) (db : Db) (ts : List Ticket) → HaveFields (map (csv_row env db) ts)
map-HaveFields env db [] = tt
map-HaveFields env db (t ∷ ts) = map-HaveFields env db ts

-- A reader of comma-separated values gets from an export the header and, in the export's order, the
-- cells of each exported ticket, of which there are at most 5000, whatever characters the subjects,
-- names and tags have.
pub read_csv-export_csv :
    (env : ListEnv) (user : AuthenticatedUser) (query : QueryTicketsDto) (db : Db)
    → read_csv (export_csv env user query db) before
      ≡ csv_header
        ∷ map
            (csv_row env db)
            (take max_exported (env.order_by by_updated_at desc (selected env user query db)))
unfolding export_csv
read_csv-export_csv env user query db = read_csv-to_csv csv_header _ (
    map-HaveFields env db
      (take max_exported (env.order_by by_updated_at desc (selected env user query db))))

-- What is relied on of `orderBy`: it selects the same rows.
pub record IsOrdering (env : ListEnv) : Type 1 where
  pub same_length :
      (by : SortBy) (order : SortOrder) (ts : List Ticket)
      → length (env.order_by by order ts) ≡ length ts
  pub same_rows :
      (P : Ticket → Type 0) (by : SortBy) (order : SortOrder) (ts : List Ticket)
      → All P ts
      → All P (env.order_by by order ts)

abbrev pub at_page : QueryTicketsDto → ℕ → QueryTicketsDto
at_page query page = record query { page = some page }

-- The items of the first pages, one after the other, each page from a query of its own.
abbrev pub pages : (ℕ → ListEnv) → AuthenticatedUser → QueryTicketsDto → Db → ℕ → List TicketSummary
pages queries user query db zero = []
pages queries user query db (suc n) =
    pages queries user query db n
    ++ (find_all (queries (suc n)) user (at_page query (suc n)) db).items

module _ {A : Type 0} where
  abbrev the_empty : List A
  the_empty = []

  take_nil : (n : ℕ) → take n the_empty ≡ the_empty
  take_nil zero = refl
  take_nil (suc n) = refl

  take-take : (m n k : ℕ) (xs : List A) → k ≡ m + n → take m xs ++ take n (drop m xs) ≡ take k xs
  take-take zero n k xs e = ap (λ i. take i xs) (omega (arith, e))
  take-take (suc m) n zero xs e = absurd (omega (arith, e))
  take-take (suc m) n (suc k) [] e = take_nil n
  take-take (suc m) n (suc k) (x ∷ xs) e = ap (λ ys. x ∷ ys) (take-take m n k xs (omega (arith, e)))

  take_all : (n : ℕ) (xs : List A) → length xs ≤ n → take n xs ≡ xs
  take_all zero [] h = refl
  take_all zero (x ∷ xs) h = absurd (omega (arith, h))
  take_all (suc n) [] h = refl
  take_all (suc n) (x ∷ xs) h = ap (λ ys. x ∷ ys) (take_all n xs (omega (arith, h)))

  take-All : (P : A → Type 0) (n : ℕ) (xs : List A) → All P xs → All P (take n xs)
  take-All P zero xs h = tt
  take-All P (suc n) [] h = tt
  take-All P (suc n) (x ∷ xs) h = (h.0, take-All P n xs h.1)

  drop-All : (P : A → Type 0) (n : ℕ) (xs : List A) → All P xs → All P (drop n xs)
  drop-All P zero xs h = h
  drop-All P (suc n) [] h = tt
  drop-All P (suc n) (x ∷ xs) h = drop-All P n xs h.1

-- A page more than full pages are enough for the rest.
ceil_enough : (total k : ℕ) → total ≤ (total + k) / suc k * suc k
ceil_enough total k = omega (arith, div_fact (total + k) k, mod_fact (total + k) k)

max_right : (a b : ℕ) → b ≤ max a b
max_right a b = omega arith

-- The selected tickets in the order that the query asks for, and the size of its pages.
abbrev pub ordered : ListEnv → AuthenticatedUser → QueryTicketsDto → Db → List Ticket
ordered env user query db =
    env.order_by (or_default query.sort_by by_updated_at) (or_default query.sort_order desc)
      (selected env user query db)

abbrev pub size_of : QueryTicketsDto → ℕ
size_of query = or_default query.page_size 25

-- Every query for a page gets the selected tickets in the same order. Of PostgreSQL this holds where
-- the column that is sorted by has no value twice among them; where it has, as among the tickets of
-- one priority, two queries may order these rows differently.
abbrev pub IsStable : (ℕ → ListEnv) → AuthenticatedUser → QueryTicketsDto → Db → Type 0
IsStable queries user query db =
    (i j : ℕ) → ordered (queries i) user query db ≡ ordered (queries j) user query db

items_at :
    (env : ListEnv) (user : AuthenticatedUser) (query : QueryTicketsDto) (db : Db) (n : ℕ)
    → (find_all env user (at_page query (suc n)) db).items
      ≡ map
          (to_ticket_summary db (is_staff user))
          (take (size_of query) (drop (n * size_of query) (ordered env user query db)))
unfolding find_all
items_at env user query db n =
    ap
      (λ (i : ℕ).
        map (to_ticket_summary db (is_staff user))
          (take (size_of query) (drop (i * size_of query) (ordered env user query db))))
      (omega arith)

next_multiple : (n s : ℕ) → suc n * s ≡ n * s + s
next_multiple n s = omega arith

no_pages : (s : ℕ) → 0 ≡ 0 * s
no_pages s = omega arith

pages-take :
    (queries : ℕ → ListEnv) (user : AuthenticatedUser) (query : QueryTicketsDto) (db : Db) (n : ℕ)
    → IsStable queries user query db
    → pages queries user query db n
      ≡ map
          (to_ticket_summary db (is_staff user))
          (take (n * size_of query) (ordered (queries 1) user query db))
pages-take queries user query db zero stable =
    ap
      (λ (i : ℕ).
        map (to_ticket_summary db (is_staff user)) (take i (ordered (queries 1) user query db)))
      (no_pages (size_of query))
pages-take queries user query db (suc n) stable =
    let summary = to_ticket_summary db (is_staff user) in
    let s = size_of query in
    let rows = ordered (queries 1) user query db in
    ap (λ xs. xs ++ (find_all (queries (suc n)) user (at_page query (suc n)) db).items)
      (pages-take queries user query db n stable)
    ∙ ap (λ xs. map summary (take (n * s) rows) ++ xs)
        (items_at (queries (suc n)) user query db n
          ∙ ap (λ ts. map summary (take s (drop (n * s) ts))) (stable (suc n) 1))
    ∙ sym (map-append summary (take (n * s) rows) (take s (drop (n * s) rows)))
    ∙ ap (map summary) (take-take (n * s) s (suc n * s) rows (next_multiple n s))

before_suc : (k : ℕ) → k ≡ suc k - 1
before_suc k = omega arith

enough_pages : (total s : ℕ) → 1 ≤ s → total ≤ page_count total s * s
enough_pages total zero h = absurd (omega (arith, h))
enough_pages total (suc k) h =
    let count = (total + (suc k - 1)) / suc k in
    let whole : total ≤ count * suc k =
      subst (λ (j : ℕ). total ≤ (total + j) / suc k * suc k) (before_suc k) (ceil_enough total k) in
    let more : count * suc k ≤ max 1 count * suc k = mul-le-mul_right (suc k) (max_right 1 count) in
    omega (arith, whole, more)

-- If every query for a page gets the selected tickets in the same order, which the database promises
-- only where the sort column has no value twice among them, and pages have at least one item, then
-- the pages from the first to the one that the first's `totalPages` numbers, each from a query of its
-- own, are one after the other the summaries of the selected tickets in that order.
pub find_all-pages :
    (queries : ℕ → ListEnv) (user : AuthenticatedUser) (query : QueryTicketsDto) (db : Db)
    → IsOrdering (queries 1)
    → IsStable queries user query db
    → 1 ≤ size_of query
    → pages queries user query db (find_all (queries 1) user (at_page query 1) db).total_pages
      ≡ map (to_ticket_summary db (is_staff user)) (ordered (queries 1) user query db)
unfolding find_all
find_all-pages queries user query db ordering stable positive =
    let env = queries 1 in
    let total = length (selected env user query db) in
    let count = page_count total (size_of query) in
    pages-take queries user query db count stable
    ∙ ap (map (to_ticket_summary db (is_staff user))) (
        take_all (count * size_of query) (ordered env user query db) (
          subst (λ l. l ≤ count * size_of query)
            (sym (
              ordering.same_length (or_default query.sort_by by_updated_at)
                (or_default query.sort_order desc) (selected env user query db)))
            (enough_pages total (size_of query) positive)))

-- What a customer may see in a list.
abbrev pub IsOwnSummary : AuthenticatedUser → TicketSummary → Type 0
IsOwnSummary user s =
    (s.requester ≡ user.id) × (s.ai_suggested_priority ≡ none) × (s.ai_suggested_tags ≡ [])

own_row :
    (env : ListEnv) (user : AuthenticatedUser) (query : QueryTicketsDto) (db : Db) (t : Ticket)
    → is_staff user ≡ false
    → build_ticket_where env user query db t ≡ true
    → t.requester_id ≡ user.id
unfolding build_ticket_where
own_row env user query db t customer h = ground arith

own_rows :
    (env : ListEnv) (user : AuthenticatedUser) (query : QueryTicketsDto) (db : Db)
    (ts : List Ticket)
    → is_staff user ≡ false
    → All (λ t. t.requester_id ≡ user.id) (select (build_ticket_where env user query db) ts)
own_rows env user query db [] customer = tt
own_rows env user query db (t ∷ ts) customer =
    elim (Bool-cases (build_ticket_where env user query db t)) [
      | inl e ↦
          rw e (own_row env user query db t customer e, own_rows env user query db ts customer)
      | inr e ↦ rw e (own_rows env user query db ts customer)
    ]

own_summaries :
    (user : AuthenticatedUser) (db : Db) (ts : List Ticket)
    → is_staff user ≡ false
    → All (λ t. t.requester_id ≡ user.id) ts
    → All (IsOwnSummary user) (map (to_ticket_summary db (is_staff user)) ts)
own_summaries user db [] customer h = tt
own_summaries user db (t ∷ ts) customer h =
    ((h.0, rw customer refl, rw customer refl), own_summaries user db ts customer h.1)

-- Whatever a customer asks for, the list has tickets of that customer only, without the suggested
-- priority and tags.
pub find_all-IsOwnSummary :
    (env : ListEnv) (user : AuthenticatedUser) (query : QueryTicketsDto) (db : Db)
    → IsOrdering env
    → is_staff user ≡ false
    → All (IsOwnSummary user) (find_all env user query db).items
unfolding find_all
find_all-IsOwnSummary env user query db ordering customer = own_summaries user db _ customer (
    take-All _ (size_of query) _ (
      drop-All _ _ (ordered env user query db) (
        ordering.same_rows (λ t. t.requester_id ≡ user.id) _ _ (selected env user query db)
          (own_rows env user query db db.tickets customer))))
