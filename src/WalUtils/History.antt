-- ===== src/WalUtils/History.antt =====
-- wal_utils/wal_utils.c: parseTimeLineHistory and the rows of archive_parse_history. The buffer is a
-- C string, so it has no NUL.
use pg_plugins.Base.{
  ℕ, ◌*◌, ◌^◌, ◌%◌, Bool, true, Option, none, some, List, [], ◌∷◌, ◌++◌, map, Bytes, leb, ◌==◌,
  if◌then◌else◌,
}
use Prim.Native.Nat.{bit_or}
use pg_plugins.Base.Int.{ℤ, int32}
use pg_plugins.Base.Result.{Result, ok, err}

-- TimeLineHistoryEntry
pub record Entry : Type 0 where
  pub tli : ℕ
  pub begin : ℕ
  pub end : ℕ

-- The calls of the C library: isspace, and the fields that sscanf reads with "%u\t%X/%X".
pub record Scanner : Type 0 where
  pub isspace : ℕ → Bool
  pub sscanf : Bytes → List ℕ

-- The errors, with the line that has them.
pub data HistoryError : Type 0 where
  no_timeline_id no_switchpoint not_increasing : Bytes → HistoryError

-- The local variables of the loop.
pub record Parsing : Type 0 where
  pub lasttli : ℕ
  pub prevend : ℕ
  pub entries : List Entry

abbrev cons_line : ℕ → List Bytes → List Bytes
cons_line c [] = (c ∷ []) ∷ []
cons_line c (line ∷ lines) = (c ∷ line) ∷ lines

-- What `fline` is in each round: the last line ends with the buffer.
unfoldable pub lines_of : Bytes → List Bytes
lines_of [] = [] ∷ []
lines_of (c ∷ s) = let rest = lines_of s in if c == b'\n' then [] ∷ rest else cons_line c rest

module _ (sc : Scanner) where
  -- "skip leading whitespace and check for # comment"
  unfoldable pub is_skipped : Bytes → Bool
  is_skipped [] = true
  is_skipped (c ∷ s) = let rest = is_skipped s in if sc.isspace c then rest else c == b'#'

  -- The checks on a line with three fields, and its entry.
  unfoldable pub add_entry : Parsing → Bytes → ℕ → ℕ → ℕ → Result HistoryError Parsing
  add_entry st fline tli switchpoint_hi switchpoint_lo =
      let end : ℕ = bit_or (switchpoint_hi * 2 ^ 32 % 2 ^ 64) switchpoint_lo in
      if leb tli st.lasttli
      then err (not_increasing fline)
      else ok (record {
        lasttli = tli;
        prevend = end;
        entries = st.entries ++ record { tli = tli; begin = st.prevend; end = end } ∷ [];
      })

  -- The tests on the number of fields.
  unfoldable pub parse_fields : Parsing → Bytes → List ℕ → Result HistoryError Parsing
  unfolding add_entry
  parse_fields st fline [] = err (no_timeline_id fline)
  parse_fields st fline (tli ∷ hi ∷ lo ∷ []) = add_entry st fline tli hi lo
  parse_fields st fline _ = err (no_switchpoint fline)

  -- One round of the loop.
  unfoldable pub parse_line : Parsing → Bytes → Result HistoryError Parsing
  unfolding parse_fields
  parse_line st fline = if is_skipped fline then ok st else parse_fields st fline (sc.sscanf fline)

  unfoldable pub parse_lines : Parsing → List Bytes → Result HistoryError Parsing
  parse_lines st [] = ok st
  parse_lines st (fline ∷ flines) = elim (parse_line st fline) [
    | ok st' ↦ parse_lines st' flines
    | err e ↦ err e
  ]

  unfoldable pub parse_time_line_history : Bytes → Result HistoryError (List Entry)
  parse_time_line_history buffer =
      elim (parse_lines (record { lasttli = 0; prevend = 0; entries = [] }) (lines_of buffer)) [
        | ok st ↦ ok st.entries
        | err e ↦ err e
      ]

  -- A row: the timeline as an int32, and the two positions, null where they are InvalidXLogRecPtr.
  abbrev pub lsn_column : ℕ → Option ℕ
  lsn_column lsn = if lsn == 0 then none else some lsn

  unfoldable pub history_row : Entry → ℤ × Option ℕ × Option ℕ
  history_row e = (int32 e.tli, lsn_column e.begin, lsn_column e.end)

  unfoldable pub archive_parse_history :
      Bytes → Result HistoryError (List (ℤ × Option ℕ × Option ℕ))
  archive_parse_history history_buf = elim (parse_time_line_history history_buf) [
    | ok entries ↦ ok (map history_row entries)
    | err e ↦ err e
  ]
