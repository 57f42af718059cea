-- ===== src/Tickets/Csv.antt =====
-- Text in comma-separated values (apps/backend/src/tickets/tickets.service.ts: the `escape` of exportCsv
-- and the joins around it), and a reader of such text after RFC 4180, with rows ended by line feeds.
use sentinel_desk.Prelude.{
  ℕ, ◌≡◌, ◌∙◌, ap, sym, refl, inl, inr, ◌⊎◌, Bool, false, ◌||◌, List, [], ◌∷◌, ◌++◌, map, Text, any,
  ◌==◌, if◌then◌else◌, Bool-cases, arith,
}
use mathlib.Core.List.{append_assoc, append-nil}

-- `/[",\n]/`
abbrev pub is_special : ℕ → Bool
is_special c = c == b'"' || c == b',' || c == 10

-- `str.replace(/"/g, '""')`
abbrev pub double_quotes : Text → Text
double_quotes [] = []
double_quotes (c ∷ s) =
    let rest = double_quotes s in if c == b'"' then b'"' ∷ b'"' ∷ rest else c ∷ rest

-- `escape`
unfoldable pub escape : Text → Text
escape s = if any is_special s then b'"' ∷ (double_quotes s ++ b'"' ∷ []) else s

-- `xs.join(sep)` with a separator of one character.
abbrev pub join : ℕ → List Text → Text
join sep [] = []
join sep (s ∷ []) = s
join sep (s ∷ t ∷ ss) = s ++ sep ∷ join sep (t ∷ ss)

abbrev pub csv_line : List Text → Text
csv_line fields = join b',' (map escape fields)

unfoldable pub to_csv : List (List Text) → Text
unfolding escape
to_csv rows = join 10 (map csv_line rows)

-- Where a reader stands: before a field, in a plain one, in a quoted one, after a quote in it.
pub data Place : Type 0 where
  before plain quoted closing : Place

abbrev pub Rows : Type 0
Rows = List (List Text)

abbrev pub push : ℕ → Rows → Rows
push c [] = ((c ∷ []) ∷ []) ∷ []
push c ([] ∷ rows) = ((c ∷ []) ∷ []) ∷ rows
push c ((f ∷ fs) ∷ rows) = ((c ∷ f) ∷ fs) ∷ rows

abbrev pub new_field : Rows → Rows
new_field [] = ([] ∷ []) ∷ []
new_field (fs ∷ rows) = ([] ∷ fs) ∷ rows

abbrev pub new_row : Rows → Rows
new_row rows = ([] ∷ []) ∷ rows

abbrev pub read_plain : ℕ → (Place → Rows) → Rows
read_plain c rest =
    if c == b','
    then new_field (rest before)
    else if c == 10
    then new_row (rest before)
    else push c (rest plain)

abbrev pub read_character : ℕ → (Place → Rows) → Place → Rows
read_character c rest before = if c == b'"' then rest quoted else read_plain c rest
read_character c rest plain = read_plain c rest
read_character c rest quoted = if c == b'"' then rest closing else push c (rest quoted)
read_character c rest closing = if c == b'"' then push c (rest quoted) else read_plain c rest

-- The rows and fields of a text.
unfoldable pub read_csv : Text → Place → Rows
read_csv [] place = new_row []
read_csv (c ∷ s) place = read_character c (read_csv s) place

-- What is read after a field ends: nothing, another field, or another row.
abbrev pub EndsField : Text → Type 0
EndsField [] = Unit
EndsField (c ∷ t) = (c ≡ b',') ⊎ (c ≡ 10)

abbrev pub prepend : Text → Rows → Rows
prepend [] rows = rows
prepend (c ∷ s) rows = push c (prepend s rows)

ends_before : (t : Text) → EndsField t → read_csv t before ≡ read_csv t plain
unfolding read_csv
ends_before [] h = refl
ends_before (c ∷ t) (inl e) = rw e refl
ends_before (c ∷ t) (inr e) = rw e refl

ends_closing : (t : Text) → EndsField t → read_csv t closing ≡ read_csv t plain
unfolding read_csv
ends_closing [] h = refl
ends_closing (c ∷ t) (inl e) = rw e refl
ends_closing (c ∷ t) (inr e) = rw e refl

plain_character :
    (c : ℕ) (rest : Place → Rows) → is_special c ≡ false → read_plain c rest ≡ push c (rest plain)
plain_character c rest h = ground arith

not_special :
    (c : ℕ) (s : Text)
    → any is_special (c ∷ s) ≡ false
    → (is_special c ≡ false) × (any is_special s ≡ false)
not_special c s h = ground arith

read_plain_text :
    (s t : Text) → any is_special s ≡ false → read_csv (s ++ t) plain ≡ prepend s (read_csv t plain)
unfolding read_csv
read_plain_text [] t h = refl
read_plain_text (c ∷ s) t h =
    let (here, later) = not_special c s h in
    plain_character c (read_csv (s ++ t)) here ∙ ap (push c) (read_plain_text s t later)

no_quote : (c : ℕ) → is_special c ≡ false → (c == b'"') ≡ false
no_quote c h = ground arith

read_before_text :
    (s t : Text)
    → EndsField t
    → any is_special s ≡ false
    → read_csv (s ++ t) before ≡ prepend s (read_csv t plain)
unfolding read_csv
read_before_text [] t ends h = ends_before t ends
read_before_text (c ∷ s) t ends h =
    rw (no_quote c (not_special c s h).0) (read_plain_text (c ∷ s) t h)

read_quoted_text :
    (s t : Text) → read_csv (double_quotes s ++ b'"' ∷ t) quoted ≡ prepend s (read_csv t closing)
unfolding read_csv
read_quoted_text [] t = refl
read_quoted_text (c ∷ s) t = elim (Bool-cases (c == b'"')) [
  | inl e ↦ ground (arith, read_quoted_text s t)
  | inr e ↦ rw e (rw e (ap (push c) (read_quoted_text s t)))
]

read_quoted_field :
    (s t : Text)
    → EndsField t
    → read_csv (b'"' ∷ ((double_quotes s ++ b'"' ∷ []) ++ t)) before ≡ prepend s (read_csv t plain)
unfolding read_csv
read_quoted_field s t ends =
    ap (λ (u : Text). read_csv u quoted) (append_assoc (double_quotes s) (b'"' ∷ []) t)
    ∙ read_quoted_text s t
    ∙ ap (prepend s) (ends_closing t ends)

read_field :
    (s t : Text) → EndsField t → read_csv (escape s ++ t) before ≡ prepend s (read_csv t plain)
unfolding escape
read_field s t ends = elim (Bool-cases (any is_special s)) [
  | inl e ↦ rw (e, escape) (read_quoted_field s t ends)
  | inr e ↦ rw (e, escape) (read_before_text s t ends e)
]

-- What is read after a row ends: nothing, or another row.
abbrev pub EndsRow : Text → Type 0
EndsRow [] = Unit
EndsRow (c ∷ t) = c ≡ 10

ends_field : (t : Text) → EndsRow t → EndsField t
ends_field [] h = tt
ends_field (c ∷ t) h = inr h

abbrev pub prepend_row : Text → List Text → Rows → Rows
prepend_row f [] rows = prepend f rows
prepend_row f (g ∷ fs) rows = prepend f (new_field (prepend_row g fs rows))

comma_between : (u : Text) → read_csv (b',' ∷ u) plain ≡ new_field (read_csv u before)
unfolding read_csv
comma_between u = refl

read_row :
    (f : Text) (fs : List Text) (t : Text)
    → EndsRow t
    → read_csv (csv_line (f ∷ fs) ++ t) before ≡ prepend_row f fs (read_csv t plain)
read_row f [] t ends = read_field f t (ends_field t ends)
read_row f (g ∷ fs) t ends =
    ap (λ (u : Text). read_csv u before) (append_assoc (escape f) (b',' ∷ csv_line (g ∷ fs)) t)
    ∙ read_field f (b',' ∷ (csv_line (g ∷ fs) ++ t)) (inl refl)
    ∙ ap (prepend f) (comma_between (csv_line (g ∷ fs) ++ t) ∙ ap new_field (read_row g fs t ends))

prepend-row :
    (f g : Text) (fs : List Text) (rows : Rows)
    → prepend f ((g ∷ fs) ∷ rows) ≡ ((f ++ g) ∷ fs) ∷ rows
prepend-row [] g fs rows = refl
prepend-row (c ∷ f) g fs rows = ap (push c) (prepend-row f g fs rows)

prepend_row-new_row :
    (f : Text) (fs : List Text) (rows : Rows) → prepend_row f fs (new_row rows) ≡ (f ∷ fs) ∷ rows
prepend_row-new_row f [] rows =
    prepend-row f [] [] rows ∙ ap (λ (g : Text). (g ∷ []) ∷ rows) (append-nil f)
prepend_row-new_row f (g ∷ fs) rows =
    ap (λ rs. prepend f (new_field rs)) (prepend_row-new_row g fs rows)
    ∙ prepend-row f [] (g ∷ fs) rows
    ∙ ap (λ (h : Text). (h ∷ g ∷ fs) ∷ rows) (append-nil f)

end_of_text : read_csv [] plain ≡ new_row []
unfolding read_csv
end_of_text = refl

line_feed : (u : Text) → read_csv (10 ∷ u) plain ≡ new_row (read_csv u before)
unfolding read_csv
line_feed u = refl

-- Rows with at least one field.
abbrev pub HaveFields : Rows → Type 0
HaveFields [] = Unit
HaveFields ([] ∷ rows) = ⊥
HaveFields ((f ∷ fs) ∷ rows) = HaveFields rows

-- A text of at least one row, each with at least one field, is read back as it was written, whatever
-- characters the fields have.
pub read_csv-to_csv :
    (row : List Text) (rows : Rows)
    → HaveFields (row ∷ rows)
    → read_csv (to_csv (row ∷ rows)) before ≡ row ∷ rows
unfolding to_csv
read_csv-to_csv [] rows h = absurd h
read_csv-to_csv (f ∷ fs) [] h =
    ap (λ (u : Text). read_csv u before) (sym (append-nil (csv_line (f ∷ fs))))
    ∙ read_row f fs [] tt
    ∙ ap (prepend_row f fs) end_of_text
    ∙ prepend_row-new_row f fs []
read_csv-to_csv (f ∷ fs) (next ∷ rows) h =
    read_row f fs (10 ∷ to_csv (next ∷ rows)) refl
    ∙ ap (prepend_row f fs)
        (line_feed (to_csv (next ∷ rows)) ∙ ap new_row (read_csv-to_csv next rows h))
    ∙ prepend_row-new_row f fs (next ∷ rows)
