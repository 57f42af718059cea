-- ===== src/Tests/ListCases.antt =====
-- The list of tickets and its export on the concrete desk.
use sentinel_desk.Prelude.{◌≡◌, refl, true, none, some, [], ◌∷◌, map, All, arith}
use sentinel_desk.Schema.{is_staff, opened, pending}
use sentinel_desk.Tickets.Csv.{before, read_csv}
use sentinel_desk.Tickets.Lists.{
  ListEnv, QueryTicketsDto, to_ticket_summary, take, selected, find_all, csv_header, csv_row,
  max_exported, export_csv,
}
use sentinel_desk.Tickets.Paging.{
  IsOrdering, IsOwnSummary, pages, at_page, ordered, read_csv-export_csv, find_all-pages,
  find_all-IsOwnSummary,
}
use sentinel_desk.Tests.World.{ann, bob, desk}

-- Rows in the order of the table, and every text found.
abbrev in_table_order : ListEnv
in_table_order = record {
  contains = λ s t. true;
  order_by = λ by order ts. ts;
  to_iso_string = λ t. b'T' ∷ [];
}

in_table_order-IsOrdering : IsOrdering in_table_order
in_table_order-IsOrdering = record {
  same_length = λ by order ts. refl;
  same_rows = λ P by order ts h. h;
}

abbrev waiting_or_open : QueryTicketsDto
waiting_or_open = record {
  status = some (opened ∷ pending ∷ []);
  priority = none;
  assignee = none;
  tag_id = none;
  search = none;
  page = none;
  page_size = some 2;
  sort_by = none;
  sort_order = none;
}

read_csv-export_csv_example :
    read_csv (export_csv in_table_order bob waiting_or_open desk) before
    ≡ csv_header
      ∷ map
          (csv_row in_table_order desk)
          (take max_exported (selected in_table_order bob waiting_or_open desk))
read_csv-export_csv_example = read_csv-export_csv in_table_order bob waiting_or_open desk

find_all-pages_example :
    pages
      (λ _. in_table_order)
      bob
      waiting_or_open
      desk
      (find_all in_table_order bob (at_page waiting_or_open 1) desk).total_pages
    ≡ map (to_ticket_summary desk (is_staff bob)) (ordered in_table_order bob waiting_or_open desk)
find_all-pages_example =
    find_all-pages (λ _. in_table_order) bob waiting_or_open desk in_table_order-IsOrdering
      (λ i j. refl) (omega arith)

find_all-IsOwnSummary_example :
    All (IsOwnSummary ann) (find_all in_table_order ann waiting_or_open desk).items
find_all-IsOwnSummary_example =
    find_all-IsOwnSummary in_table_order ann waiting_or_open desk in_table_order-IsOrdering refl
