-- ===== src/CsvSource/RoundTrip.antt =====
-- What the writer prints, `parse_csv` reads back.
use log_generator.CsvSource.{
  FilePath, Reader, first_reader, read_byte, follows, parse_from, parse_csv,
}
use log_generator.CsvSource.Printer.{
  LineEnding, lf, cr, crlf, line_ending, close_field, print_fields, print_row, print_more,
  print_rows, IsText, IsRow,
}
use log_generator.Prelude.Result.{Result, ok, ◌>>=◌}
use log_generator.Prelude.{
  ℕ, ◌≡◌, ◌≢◌, refl, sym, ap, ◌∙◌, Bool, true, false, List, [], ◌∷◌, ◌++◌, append_assoc, append-nil,
  ◌==◌, Bytes, All, arith, if-holds, ==_iff,
}

-- A reader in a quoted field, and one behind it.
abbrev inside : List (List Bytes) → List Bytes → Bytes → Reader
inside rows row field = record {
  rows = rows;
  row = row;
  field = field;
  quoted = true;
  quote_closed = false;
  row_started = true;
}

abbrev behind : List (List Bytes) → List Bytes → Bytes → Reader
behind rows row field = record {
  rows = rows;
  row = row;
  field = field;
  quoted = false;
  quote_closed = true;
  row_started = true;
}

abbrev between : List (List Bytes) → Reader
between rows = record first_reader { rows = rows }

read_byte-text :
    (file : FilePath) (rows : List (List Bytes)) (row : List Bytes) (field : Bytes) (c : ℕ)
    (rest : Bytes)
    → c ≢ 0
    → c ≢ 13
    → (c == 34) ≡ false
    → read_byte file (inside rows row field) c rest ≡ ok (false, inside rows row (field ++ c ∷ []))
unfolding read_byte
read_byte-text file rows row field c rest a b h = ground arith

parse_from-close_field :
    (file : FilePath) (rows : List (List Bytes)) (row : List Bytes) (field text after : Bytes)
    → IsText text
    → follows 34 after ≡ false
    → parse_from file false (inside rows row field) (close_field text after)
      ≡ parse_from file false (behind rows row (field ++ text)) after
unfolding parse_from close_field
parse_from-close_field file rows row field [] after h n = rw (n, append-nil) refl
parse_from-close_field file rows row field (c ∷ cs) after h n =
    if-holds
      (λ t.
        parse_from file false (inside rows row field) t
        ≡ parse_from file false (behind rows row (field ++ c ∷ cs)) after)
      (c == 34)
      (λ q.
        parse_from-close_field file rows row (field ++ 34 ∷ []) cs after h.1 n
        ∙ ap (λ t. parse_from file false (behind rows row t) after)
            (append_assoc field (34 ∷ []) cs
              ∙ ap (λ k. field ++ k ∷ cs) (omega (arith, (==_iff c 34).0 q))))
      (λ q.
        ap (λ t. t >>= λ next. parse_from file next.0 next.1 (close_field cs after))
          (read_byte-text file rows row field c (close_field cs after) h.0.0 h.0.1 q)
        ∙ parse_from-close_field file rows row (field ++ c ∷ []) cs after h.1 n
        ∙ ap (λ t. parse_from file false (behind rows row t) after)
            (append_assoc field (c ∷ []) cs))

follows-print_fields :
    (fs : List Bytes) (after : Bytes)
    → follows 34 after ≡ false
    → follows 34 (print_fields fs after) ≡ false
unfolding print_fields follows
follows-print_fields [] after h = h
follows-print_fields (f ∷ fs) after h = refl

-- The other fields of a row.
parse_from-print_fields :
    (file : FilePath) (rows : List (List Bytes)) (row : List Bytes) (field : Bytes)
    (fs : List Bytes) (after : Bytes) (result : Result (List (List Bytes)))
    → All IsText fs
    → follows 34 after ≡ false
    → ((row' : List Bytes) (field' : Bytes)
        → row' ++ field' ∷ [] ≡ row ++ field ∷ fs
        → parse_from file false (behind rows row' field') after ≡ result)
    → parse_from file false (behind rows row field) (print_fields fs after) ≡ result
unfolding print_fields
parse_from-print_fields file rows row field [] after result h n then_after =
    then_after row field refl
parse_from-print_fields file rows row field (f ∷ fs) after result h n then_after =
    comma
    ∙ parse_from-close_field file rows (row ++ field ∷ []) [] f (print_fields fs after) h.0
        (follows-print_fields fs after n)
    ∙ parse_from-print_fields file rows (row ++ field ∷ []) f fs after result h.1 n
        (λ row' field' e. then_after row' field' (e ∙ append_assoc row (field ∷ []) (f ∷ fs)))
  where
    comma :
        parse_from file false
          (behind rows row field)
          (b',' ∷ 34 ∷ close_field f (print_fields fs after))
        ≡ parse_from file false
            (inside rows (row ++ field ∷ []) [])
            (close_field f (print_fields fs after))
    comma = unfold parse_from in refl

follows-print_more :
    (e : LineEnding) (last : Bool) (rows : List (List Bytes))
    → follows 34 (print_more e last rows) ≡ false
unfolding print_more line_ending follows
follows-print_more lf true [] = refl
follows-print_more lf false [] = refl
follows-print_more lf last (r ∷ rs) = refl
follows-print_more cr true [] = refl
follows-print_more cr false [] = refl
follows-print_more cr last (r ∷ rs) = refl
follows-print_more crlf true [] = refl
follows-print_more crlf false [] = refl
follows-print_more crlf last (r ∷ rs) = refl

parse_from-line_ending :
    (file : FilePath) (rows : List (List Bytes)) (row : List Bytes) (field : Bytes) (e : LineEnding)
    (rest : Bytes)
    → follows 10 rest ≡ false
    → parse_from file false (behind rows row field) (line_ending e ++ rest)
      ≡ parse_from file false (between (rows ++ (row ++ field ∷ []) ∷ [])) rest
unfolding parse_from line_ending
parse_from-line_ending file rows row field lf rest n = refl
parse_from-line_ending file rows row field cr rest n = rw n refl
parse_from-line_ending file rows row field crlf rest n = refl

-- A row, if the reader goes on as `then_more` says.
parse_from-print_row :
    (file : FilePath) (rows : List (List Bytes)) (f : Bytes) (fs : List Bytes) (e : LineEnding)
    (last : Bool) (more : List (List Bytes))
    → All IsText (f ∷ fs)
    → ((row' : List Bytes) (field' : Bytes)
        → parse_from file false (behind rows row' field') (print_more e last more)
          ≡ ok (rows ++ (row' ++ field' ∷ []) ∷ more))
    → parse_from file false (between rows) (print_row (f ∷ fs) (print_more e last more))
      ≡ ok (rows ++ (f ∷ fs) ∷ more)
unfolding print_row
parse_from-print_row file rows f fs e last more h then_more =
    let after = print_more e last more in
    let quiet = follows-print_more e last more in
    quote
    ∙ parse_from-close_field file rows [] [] f (print_fields fs after) h.0
        (follows-print_fields fs after quiet)
    ∙ parse_from-print_fields file rows [] f fs after (ok (rows ++ (f ∷ fs) ∷ more)) h.1 quiet
        (λ row' field' p. then_more row' field' ∙ ap (λ r. ok (rows ++ r ∷ more)) p)
  where
    quote :
        parse_from file false
          (between rows)
          (34 ∷ close_field f (print_fields fs (print_more e last more)))
        ≡ parse_from file false
            (inside rows [] [])
            (close_field f (print_fields fs (print_more e last more)))
    quote = unfold parse_from in refl

-- The rows behind a row whose last field has been closed.
parse_from-print_more :
    (file : FilePath) (rows : List (List Bytes)) (row : List Bytes) (field : Bytes) (e : LineEnding)
    (last : Bool) (more : List (List Bytes))
    → All IsRow more
    → parse_from file false (behind rows row field) (print_more e last more)
      ≡ ok (rows ++ (row ++ field ∷ []) ∷ more)
unfolding print_more
parse_from-print_more file rows row field e false [] h = unfold parse_from in refl
parse_from-print_more file rows row field e true [] h =
    ap (parse_from file false (behind rows row field)) (sym (append-nil (line_ending e)))
    ∙ parse_from-line_ending file rows row field e [] (unfold follows in refl)
    ∙ unfold parse_from in refl
parse_from-print_more file rows row field e last ([] ∷ more) h = cc h.0.0
parse_from-print_more file rows row field e last ((f ∷ fs) ∷ more) h =
    let done = rows ++ (row ++ field ∷ []) ∷ [] in
    let after = print_more e last more in
    parse_from-line_ending file rows row field e (print_row (f ∷ fs) after)
      (unfold print_row follows in refl)
    ∙ parse_from-print_row file done f fs e last more h.0.1
        (λ row' field'. parse_from-print_more file done row' field' e last more h.1)
    ∙ ap ok (append_assoc rows ((row ++ field ∷ []) ∷ []) ((f ∷ fs) ∷ more))

-- What is printed with every field quoted is read back, whatever the line ending and with one behind
-- the last row or not, if every row has a field and no field holds a NUL or a carriage return.
pub parse_csv-print_rows :
    (file : FilePath) (e : LineEnding) (last : Bool) (rows : List (List Bytes))
    → All IsRow rows
    → parse_csv file (print_rows e last rows) ≡ ok rows
unfolding parse_csv print_rows
parse_csv-print_rows file e last [] h = unfold parse_from in refl
parse_csv-print_rows file e last ([] ∷ more) h = cc h.0.0
parse_csv-print_rows file e last ((f ∷ fs) ∷ more) h =
    parse_from-print_row file [] f fs e last more h.0.1
      (λ row' field'. parse_from-print_more file [] row' field' e last more h.1)
