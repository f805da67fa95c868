-- ===== src/ArchiveDemo/Listing.antt =====
-- demo_archive.py reads the listing of `message-store list` (message-store/main.cpp).
use mathlib.Core.List.{append_assoc, append-nil}
use cs4455_epic.Base.{
  ℕ, ◌≡◌, refl, ap, sym, ◌∙◌, arith, false, some, List, [], ◌∷◌, ◌++◌, map, All, All-append,
  All-mono,
}
use cs4455_epic.Base.Text.{Str, is_space, lstrip, strip}
use cs4455_epic.Errors.{ok}
use cs4455_epic.Py.{State}
use cs4455_epic.ArchiveDemo.Lines.{IsWithin, IsInner, strip-line, splitlines-inner, split_tab-inner}
use cs4455_epic.ArchiveDemo.{
  Archive, Row, is_break, last_line, splitlines, split_tab, row_of, message_line, print_messages,
}

-- The fields have no tabs or line breaks, the first one begins and the last one ends with a
-- character that is no white space.
pub record IsPlain (r : Row) : Type 0 where
  pub first : ℕ
  pub behind : Str
  pub before : Str
  pub last : ℕ
  pub begins : r.msg_id ≡ first ∷ behind
  pub ends : r.created ≡ before ++ (last ∷ [])
  pub first_there : is_space first ≡ false
  pub last_there : is_space last ≡ false
  pub id_inner : All IsInner r.msg_id
  pub sender_inner : All IsInner r.sender
  pub created_inner : All IsInner r.created

-- What `message-store list` writes for a row, and for all rows.
unfoldable pub line_of : Row → Str
line_of r = r.msg_id ++ (9 ∷ (r.sender ++ (9 ∷ r.created)))

unfoldable pub listing : List Row → Str
unfolding line_of
listing [] = []
listing (r ∷ rows) = line_of r ++ (10 ∷ listing rows)

-- It, without the last line break.
joined : Row → List Row → Str
unfolding line_of
joined r [] = line_of r
joined r (q ∷ rows) = line_of r ++ (10 ∷ joined q rows)

listing-joined : (r : Row) (rows : List Row) → listing (r ∷ rows) ≡ joined r rows ++ (10 ∷ [])
unfolding listing joined
listing-joined r [] = refl
listing-joined r (q ∷ rows) =
    ground (arith, listing-joined q rows, append_assoc (line_of r) (10 ∷ joined q rows) (10 ∷ []))

module _ (r : Row) (plain : IsPlain r) where
  -- A line is split into its fields.
  split_tab-line : row_of (split_tab [] (line_of r)) ≡ ok r
  unfolding line_of row_of split_tab
  split_tab-line =
      let rest = r.sender ++ (9 ∷ r.created) in
      let id = split_tab-inner r.msg_id [] (9 ∷ rest) plain.id_inner in
      let sender = split_tab-inner r.sender [] (9 ∷ r.created) plain.sender_inner in
      let created = split_tab-inner r.created [] [] plain.created_inner in
      let last = ap (split_tab []) (sym (append-nil r.created)) ∙ created in
      ap row_of (id ∙ ap (λ l. r.msg_id ∷ l) (sender ∙ ap (λ (l : List Str). r.sender ∷ l) last))

  line_begins : line_of r ≡ plain.first ∷ (plain.behind ++ (9 ∷ (r.sender ++ (9 ∷ r.created))))
  unfolding line_of
  line_begins = ap (λ l. l ++ (9 ∷ (r.sender ++ (9 ∷ r.created)))) plain.begins

  line_ends : (l : Str) × (line_of r ≡ l ++ (plain.last ∷ []))
  unfolding line_of
  line_ends =
      let l = r.msg_id ++ (9 ∷ (r.sender ++ (9 ∷ plain.before))) in
      (
        l,
        ap (λ e. r.msg_id ++ (9 ∷ (r.sender ++ (9 ∷ e)))) plain.ends
            ∙ ap (λ e. r.msg_id ++ (9 ∷ e))
                (sym (append_assoc r.sender (9 ∷ plain.before) (plain.last ∷ [])))
            ∙ sym (append_assoc r.msg_id (9 ∷ (r.sender ++ (9 ∷ plain.before))) (plain.last ∷ [])),
      )

  line-IsWithin : All IsWithin (line_of r)
  unfolding line_of is_break
  line-IsWithin =
      let weak : (c : ℕ) → IsInner c → IsWithin c = λ c h. h.0 in
      let created = All-mono IsInner IsWithin weak r.created plain.created_inner in
      let sender = All-mono IsInner IsWithin weak r.sender plain.sender_inner in
      let id = All-mono IsInner IsWithin weak r.msg_id plain.id_inner in
      let tail = All-append IsWithin r.sender (9 ∷ r.created) sender (refl, created) in
      All-append IsWithin r.msg_id (9 ∷ (r.sender ++ (9 ∷ r.created))) id (refl, tail)

  -- The line is read up to the line break, which ends it.
  splitlines-line :
      (rest : Str)
      → splitlines false [] (line_of r ++ (10 ∷ rest)) ≡ line_of r ∷ splitlines false [] rest
  unfolding splitlines is_break
  splitlines-line rest = splitlines-inner (line_of r) [] (10 ∷ rest) line-IsWithin

  splitlines-last : splitlines false [] (line_of r) ≡ line_of r ∷ []
  unfolding splitlines last_line
  splitlines-last =
      ap (splitlines false []) (sym (append-nil (line_of r)))
      ∙ splitlines-inner (line_of r) [] [] line-IsWithin
      ∙ ap last_line line_begins
      ∙ ap (λ l. l ∷ []) (sym line_begins)

splitlines-joined :
    (r : Row) (rows : List Row)
    → All IsPlain (r ∷ rows)
    → splitlines false [] (joined r rows) ≡ map line_of (r ∷ rows)
unfolding joined
splitlines-joined r [] plain = splitlines-last r plain.0
splitlines-joined r (q ∷ rows) plain =
    splitlines-line r plain.0 (joined q rows)
    ∙ ap (λ l. line_of r ∷ l) (splitlines-joined q rows plain.1)

joined_begins :
    (r : Row) (rows : List Row) (plain : IsPlain r)
    → (behind : Str) × (joined r rows ≡ plain.first ∷ behind)
unfolding joined
joined_begins r [] plain = (_, line_begins r plain)
joined_begins r (q ∷ rows) plain = (_, ap (λ l. l ++ (10 ∷ joined q rows)) (line_begins r plain))

joined_ends :
    (r : Row) (rows : List Row)
    → All IsPlain (r ∷ rows)
    → (before : Str) × (last : ℕ) × (joined r rows ≡ before ++ (last ∷ []))
      × (is_space last ≡ false)
unfolding joined
joined_ends r [] plain =
    let (before, ends) = line_ends r plain.0 in (before, plain.0.last, ends, plain.0.last_there)
joined_ends r (q ∷ rows) plain =
    let (before, last, ends, there) = joined_ends q rows plain.1 in
    (
      line_of r ++ (10 ∷ before),
      last,
      ap (λ l. line_of r ++ (10 ∷ l)) ends
          ∙ sym (append_assoc (line_of r) (10 ∷ before) (last ∷ [])),
      there,
    )

-- The lines of a listing are those of its rows.
lines_of_listing :
    (rows : List Row)
    → All IsPlain rows
    → splitlines false [] (strip (listing rows)) ≡ map line_of rows
unfolding listing
lines_of_listing [] plain =
    unfold strip in unfold lstrip in unfold splitlines in unfold last_line in refl
lines_of_listing (r ∷ rows) plain =
    let (behind, begins) = joined_begins r rows plain.0 in
    let (before, last, ends, there) = joined_ends r rows plain in
    ap (λ l. splitlines false [] (strip l)) (listing-joined r rows)
    ∙ ap (splitlines false []) (
        strip-line (joined r rows) (record {
          first = plain.0.first;
          behind = behind;
          before = before;
          last = last;
          begins = begins;
          ends = ends;
          first_there = plain.0.first_there;
          last_there = there;
        }))
    ∙ splitlines-joined r rows plain

module _ (A : Archive) (archive key_hex : Str) (body_of : Row → Str) where
  print_messages-lines :
      (rows : List Row) (s : State)
      → All IsPlain rows
      → All (λ r. A.get archive key_hex r.msg_id ≡ some (body_of r)) rows
      → print_messages A archive key_hex (map line_of rows) s
        ≡ (ok (map (λ r. message_line r (body_of r)) rows), s)
  unfolding print_messages
  print_messages-lines [] s plain there = refl
  print_messages-lines (r ∷ rows) s plain there =
      ground (arith, split_tab-line r plain.0, there.0, print_messages-lines rows s plain.1 there.1)

  -- Where the fields of the rows have no tabs and no line breaks, every id begins and every time
  -- ends with a character that is no white space, and the binary has a text for every id: what the
  -- binary lists for the rows makes the script print one line for each row, in order, with the row's
  -- fields and its text, and nothing else is changed.
  pub print_messages-listing :
      (rows : List Row) (s : State)
      → All IsPlain rows
      → All (λ r. A.get archive key_hex r.msg_id ≡ some (body_of r)) rows
      → print_messages A archive key_hex (splitlines false [] (strip (listing rows))) s
        ≡ (ok (map (λ r. message_line r (body_of r)) rows), s)
  print_messages-listing rows s plain there =
      ap (λ l. print_messages A archive key_hex l s) (lines_of_listing rows plain)
      ∙ print_messages-lines rows s plain there
