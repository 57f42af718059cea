-- ===== src/Tickets/Selection.antt =====
-- Which comments may be split off a ticket (apps/backend/src/tickets/tickets.service.ts: split).
use sentinel_desk.Prelude.{
  ℕ, ◌+◌, ◌≤◌, ◌≡◌, refl, sym, ◌∙◌, ap, inl, inr, Bool, true, false, not, ◌&&◌, some, List, [], ◌∷◌,
  map, arith, ◌==◌, ==_iff, includes, IsDistinct, length, if◌then◌else◌, Bool-cases, ok, err,
  bad_request, foreign_comments,
}
use sentinel_desk.Schema.{AuthenticatedUser, Comment, Ticket, Organization}
use sentinel_desk.Store.{Db, Env, find_organization}
use sentinel_desk.Sla.Service.{DueDates, compute_due_dates_for_new_ticket}
use sentinel_desk.Tickets.Access.{get_ticket_or_throw, comments_of}
use sentinel_desk.Tickets.Links.{SplitTicketDto, chosen_comments, check_split}

abbrev pub ids_of : List Comment → List ℕ
ids_of cs = map (λ c. c.id) cs

abbrev bit : Bool → ℕ
bit true = 1
bit false = 0

chosen-absent :
    (i : ℕ) (ids : List ℕ) (cs : List Comment)
    → includes i (ids_of cs) ≡ false
    → chosen_comments (i ∷ ids) cs ≡ chosen_comments ids cs
chosen-absent i ids [] h = refl
chosen-absent i ids (c ∷ cs) h = ground (arith, chosen-absent i ids cs)

-- One more key chooses one more comment, where it is one and was not chosen already.
length-chosen :
    (i : ℕ) (ids : List ℕ) (cs : List Comment)
    → IsDistinct (ids_of cs)
    → length (chosen_comments (i ∷ ids) cs)
      ≡ bit (includes i (ids_of cs) && not (includes i ids)) + length (chosen_comments ids cs)
length-chosen i ids [] h = omega arith
length-chosen i ids (c ∷ cs) h = elim (Bool-cases (c.id == i)) [
  | inl e ↦
      let same = (==_iff c.id i).0 e in
      let gone = ap (λ k. includes k (ids_of cs)) (sym same) ∙ h.0 in
      ground (
        arith,
        chosen-absent i ids cs gone,
        ap (λ k. includes k ids) same,
        ap length (chosen-absent i ids cs gone),
      )
  | inr e ↦ ground (arith, length-chosen i ids cs h.1)
]

chosen-none : (cs : List Comment) → chosen_comments [] cs ≡ []
chosen-none [] = refl
chosen-none (c ∷ cs) = chosen-none cs

length-chosen_le :
    (ids : List ℕ) (cs : List Comment)
    → IsDistinct (ids_of cs)
    → length (chosen_comments ids cs) ≤ length ids
length-chosen_le [] cs h = omega (arith, ap length (chosen-none cs))
length-chosen_le (i ∷ ids) cs h =
    ground (arith, length-chosen i ids cs h, length-chosen_le ids cs h)

-- Every key of the list is that of a comment, and none is there twice.
abbrev pub is_selection : List ℕ → List Comment → Bool
is_selection [] cs = true
is_selection (i ∷ ids) cs = includes i (ids_of cs) && not (includes i ids) && is_selection ids cs

length-is_selection :
    (ids : List ℕ) (cs : List Comment)
    → IsDistinct (ids_of cs)
    → (length (chosen_comments ids cs) == length ids) ≡ is_selection ids cs
length-is_selection [] cs h = rw (chosen-none cs) refl
length-is_selection (i ∷ ids) cs h =
    ground
      (arith, length-chosen i ids cs h, length-chosen_le ids cs h, length-is_selection ids cs h)

-- Where the ticket may be accessed, its comments have keys of their own, and the due dates and the
-- organization are there, the check of a split lets it through exactly where every listed key is
-- that of a comment of the ticket and none is listed twice; else it answers a bad request.
pub check_split-is_selection :
    (env : Env) (user : AuthenticatedUser) (id : ℕ) (dto : SplitTicketDto) (db : Db) (t : Ticket)
    (dates : DueDates) (o : Organization)
    → get_ticket_or_throw user id db ≡ ok t
    → IsDistinct (ids_of (comments_of id db))
    → compute_due_dates_for_new_ticket env user.organization_id t.priority env.now db ≡ ok dates
    → find_organization user.organization_id db ≡ some o
    → check_split env user id dto db ≡ (
        if is_selection dto.comment_ids (comments_of id db)
        then ok (record {
          source = t;
          comments_to_copy = chosen_comments dto.comment_ids (comments_of id db);
          due_dates = dates;
          number = o.next_ticket_number;
        })
        else err (bad_request foreign_comments))
unfolding check_split
check_split-is_selection env user id dto db t dates o found apart due there =
    let same = length-is_selection dto.comment_ids (comments_of id db) apart in ground (arith, same)
