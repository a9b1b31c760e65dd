-- ===== src/WalUtils/Parsed.antt =====
-- wal_utils/wal_utils.c: the entries that parseTimeLineHistory returns, and the lines it accepts.
use pg_plugins.Base.{
  ℕ, ◌*◌, ◌^◌, ◌%◌, ◌<◌, ◌≡◌, refl, ap, ◌∙◌, Bool, true, false, ◌&&◌, List, [], ◌∷◌, ◌++◌, map,
  arith, append_assoc, append-nil, Bytes, ltb, Bool-cases, inl, inr, if◌then◌else◌,
}
use Prim.Native.Nat.{bit_or}
use mathlib.Core.Path.{subst}
use pg_plugins.Base.Result.{Result, ok, err, is_ok}
use pg_plugins.WalUtils.History.{
  Entry, Scanner, HistoryError, Parsing, lines_of, is_skipped, parse_line, parse_lines,
  parse_time_line_history,
}

-- From a timeline and a position on: the timelines increase, and each entry begins at the end of
-- the one before.
abbrev pub Chained : ℕ → ℕ → List Entry → Type 0
Chained lasttli prevend [] = Unit
Chained lasttli prevend (e ∷ es) = (lasttli < e.tli) × (e.begin ≡ prevend) × Chained e.tli e.end es

-- The timeline and the switch point of a line's fields.
abbrev pub values_of : List ℕ → ℕ × ℕ
values_of (tli ∷ hi ∷ lo ∷ _) = (tli, bit_or (hi * 2 ^ 32 % 2 ^ 64) lo)
values_of _ = (0, 0)

abbrev pub end_points : List Entry → List (ℕ × ℕ)
end_points = map (λ e. (e.tli, e.end))

module _ (sc : Scanner) where
  -- The fields of the lines with content.
  abbrev pub content : List Bytes → List (List ℕ)
  content [] = []
  content (l ∷ ls) = if is_skipped sc l then content ls else sc.sscanf l ∷ content ls

  abbrev Adds : Parsing → List Bytes → Parsing → Type 0
  Adds st lines st' =
      (new : List Entry) × (st'.entries ≡ st.entries ++ new)
      × Chained st.lasttli st.prevend new
      × (end_points new ≡ map values_of (content lines))

  abbrev AddsOne : Parsing → Bytes → Parsing → Type 0
  AddsOne st line st' =
      (e : Entry) × (st'.entries ≡ st.entries ++ e ∷ [])
      × (st.lasttli < e.tli)
      × (e.begin ≡ st.prevend)
      × (st'.lasttli ≡ e.tli)
      × (st'.prevend ≡ e.end)
      × ((e.tli, e.end) ≡ values_of (sc.sscanf line))

  parse_line-skipped :
      (st : Parsing) (line : Bytes) (st' : Parsing)
      → is_skipped sc line ≡ true
      → parse_line sc st line ≡ ok st'
      → st' ≡ st
  unfolding parse_line
  parse_line-skipped st line st' s e = ground arith

  parse_line-adds :
      (st : Parsing) (line : Bytes) (st' : Parsing)
      → is_skipped sc line ≡ false
      → parse_line sc st line ≡ ok st'
      → AddsOne st line st'
  unfolding parse_line
  parse_line-adds st line st' s e = go (sc.sscanf line) refl
    where
      go : (fields : List ℕ) → sc.sscanf line ≡ fields → AddsOne st line st'
      go (tli ∷ hi ∷ lo ∷ []) same =
          let end : ℕ = bit_or (hi * 2 ^ 32 % 2 ^ 64) lo in
          (
            record { tli = tli; begin = st.prevend; end = end },
            ground arith,
            ground arith,
            refl,
            ground arith,
            ground arith,
            ground arith,
          )
      go _ same = absurd (ground arith)

  parse_lines_lem :
      (st : Parsing) (lines : List Bytes) (st' : Parsing)
      → parse_lines sc st lines ≡ ok st'
      → Adds st lines st'
  unfolding parse_lines
  parse_lines_lem st [] st' e = ([], rw append-nil (ground arith), tt, refl)
  parse_lines_lem st (line ∷ lines) st' e =
      go (λ m. parse_lines_lem m lines st') (parse_line sc st line) refl
    where
      go :
          ((m : Parsing) → parse_lines sc m lines ≡ ok st' → Adds m lines st')
          → (r : Result HistoryError Parsing) → parse_line sc st line ≡ r
          → Adds st (line ∷ lines) st'
      go rest (err x) e' = absurd (ground arith)
      go rest (ok m) e' =
          let (new, a, c, v) = rest m (ground arith) in
          elim (Bool-cases (is_skipped sc line)) [
            | inl skipped ↦
                let same = parse_line-skipped st line m skipped e' in
                (
                  new,
                  a ∙ ap (λ (p : Parsing). p.entries ++ new) same,
                  subst (λ (p : Parsing). Chained p.lasttli p.prevend new) same c,
                  rw skipped v,
                )
            | inr kept ↦
                let (e1, a1, t, b, t1, b1, v1) = parse_line-adds st line m kept e' in
                (
                  e1 ∷ new,
                  rw (a, a1) (append_assoc st.entries (e1 ∷ []) new),
                  (
                    t,
                    b,
                    subst (λ k. Chained k e1.end new) t1
                        (subst (λ p. Chained m.lasttli p new) b1 c),
                  ),
                  rw (kept, v1, v),
                )
          ]

  -- The entries of a history are those of its lines with content, in order: their timelines and
  -- switch points are the fields read. The timelines increase, the first entry begins at
  -- InvalidXLogRecPtr and each other at the end of the one before.
  pub history_entries :
      (buffer : Bytes) (entries : List Entry)
      → parse_time_line_history sc buffer ≡ ok entries
      → (end_points entries ≡ map values_of (content (lines_of buffer))) × Chained 0 0 entries
  unfolding parse_time_line_history
  history_entries buffer entries e =
      go (parse_lines sc (record { lasttli = 0; prevend = 0; entries = [] }) (lines_of buffer)) refl
    where
      go :
          (r : Result HistoryError Parsing)
          → parse_lines sc (record { lasttli = 0; prevend = 0; entries = [] }) (lines_of buffer) ≡ r
          → (end_points entries ≡ map values_of (content (lines_of buffer))) × Chained 0 0 entries
      go (err x) same = absurd (ground arith)
      go (ok st) same =
          let (new, a, c, v) = parse_lines_lem _ (lines_of buffer) st same in
          let all : entries ≡ new = ground arith in rw all (v, c)

  -- The lines of fields that are accepted behind a timeline.
  abbrev pub are_valid_fields : ℕ → List (List ℕ) → Bool
  are_valid_fields lasttli [] = true
  are_valid_fields lasttli ((tli ∷ hi ∷ lo ∷ []) ∷ lines) =
      ltb lasttli tli && are_valid_fields tli lines
  are_valid_fields lasttli (_ ∷ lines) = false

  parse_lines_accepts :
      (st : Parsing) (lines : List Bytes)
      → is_ok (parse_lines sc st lines) ≡ are_valid_fields st.lasttli (content lines)
  unfolding parse_lines parse_line
  parse_lines_accepts st [] = refl
  parse_lines_accepts st (line ∷ lines) = elim (Bool-cases (is_skipped sc line)) [
    | inl skipped ↦ ground (arith, skipped, parse_lines_accepts st lines)
    | inr kept ↦ go (λ m. parse_lines_accepts m lines) (sc.sscanf line) refl kept
  ]
    where
      go :
          ((m : Parsing)
            → is_ok (parse_lines sc m lines) ≡ are_valid_fields m.lasttli (content lines))
          → (fields : List ℕ) → sc.sscanf line ≡ fields
          → is_skipped sc line ≡ false
          → is_ok (parse_lines sc st (line ∷ lines))
            ≡ are_valid_fields st.lasttli (content (line ∷ lines))
      go rest (tli ∷ hi ∷ lo ∷ []) same kept =
          let end : ℕ = bit_or (hi * 2 ^ 32 % 2 ^ 64) lo in
          ground (
            arith,
            rest (record {
              lasttli = tli;
              prevend = end;
              entries = st.entries ++ record { tli = tli; begin = st.prevend; end = end } ∷ [];
            }),
          )
      go rest _ same kept = ground arith

  -- A history is parsed exactly where each line with content has three fields, and the timelines
  -- increase from above 0.
  pub history_accepts :
      (buffer : Bytes)
      → is_ok (parse_time_line_history sc buffer) ≡ are_valid_fields 0 (content (lines_of buffer))
  unfolding parse_time_line_history
  history_accepts buffer =
      ends (parse_lines sc _ (lines_of buffer)) ∙ parse_lines_accepts _ (lines_of buffer)
    where
      ends :
          (r : Result HistoryError Parsing)
          → is_ok {A = List Entry} (elim r [ ok st ↦ ok st.entries | err e ↦ err e ]) ≡ is_ok r
      ends (ok st) = refl
      ends (err e) = refl
