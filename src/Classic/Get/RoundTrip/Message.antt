-- ===== src/Classic/Get/RoundTrip/Message.antt =====
-- plugins/format/classic/classic-get.c: a heartbeat that is stored is read.
use Prim.Native.Nat.{◌^◌}
use mathlib.Core.List.{map}
use librequiemdb.Base.{
  ℕ, zero, suc, ◌<◌, ◌%◌, true, List, [], ◌∷◌, ◌++◌, ◌≡◌, ◌∙◌, refl, ap, Option, none, some, Bytes,
  length, All, arith,
}
use librequiemdb.Base.Decimal.{decimal, print_d}
use librequiemdb.Error.{Result, ok}
use librequiemdb.Field.{field_to_uint32}
use librequiemdb.Field.Decimal.{fields-decimal}
use librequiemdb.Field.Signed.{field_to_int32-print_d}
use librequiemdb.Message.{Time, AdditionalData, Message, Heartbeat, heartbeat_message}
use librequiemdb.Time.{timestamp_text}
use librequiemdb.Time.RoundTrip.{time_from_timestamp-timestamp_text}
use librequiemdb.Plugin.{Plugin}
use librequiemdb.Strings.{Strings, Appends}
use librequiemdb.Sql.{Sql}
use librequiemdb.Reading.{Reading, ret, read, select, of_parent, in_order}
use librequiemdb.Reading.Tables.{
  Cells, Tables, Gives, RowsAt, ret-Gives, bind-Gives, field-Gives, read-bind, read-fetch,
  fetch_row-end, fetch_row-row, ask-none-Gives, ask-some-Gives,
}
use librequiemdb.Reading.Tables.Rows.{first-Gives, fetch-RowsAt}
use librequiemdb.Classic.Get.{heartbeat_row, get_heartbeat, classic_get_heartbeat}
use librequiemdb.Classic.Get.Common.{Outside, get_timestamp, get_data, time_of, usec_of}
use librequiemdb.Classic.Get.Detail.{
  time_of_row, get_create_time, get_analyzer_time, additional_data_row, next_data, next_row,
  data_rows, get_additional_data,
}
use librequiemdb.Classic.Get.Stored.{
  Listed, TimeParts, TimeHeld, IsStringData, HeartbeatHeld, time_cells, heartbeat_cells,
  additional_data_cells,
}
use librequiemdb.Classic.Get.RoundTrip.{
  get_string-Gives, get_enum-Gives, get_uint32-Gives, get_analyzer-Gives,
}

module _ (p : Plugin) (str : Strings) (more : Appends str) (db : Bytes → List Cells)
    (tables : Tables p db) (o : Outside) where
  open p use {World, Res, Row}
  open tables use {cells, IsOpen, left}

  below : (k : ℕ) → k < 2 ^ 32 → k % 2 ^ 32 ≡ k
  below k h = omega arith

  wide : (k : ℕ) → k < 2 ^ 32 → k < 2 ^ 64
  wide k h = omega arith

  time_of-Gives :
      (q : Bytes) (t : Time) (h : TimeParts o db q t)
      → Gives p str more db tables
          (time_of o (timestamp_text h.tm) t.usec (print_d t.gmt_offset))
          (some t)
  time_of-Gives q t h = rw (field_to_int32-print_d o.old t.gmt_offset h.gmt_offset) (
      rw (time_from_timestamp-timestamp_text o.clock t h.tm h.gmtime h.timegm h.is_tm h.year h.mon)
        (ret-Gives p str more db tables (some t)))

  usec_of-Gives :
      (q : Bytes) (t : Time) (h : TimeParts o db q t)
      → Gives p str more db tables
          (usec_of o
            (λ u. time_of o (timestamp_text h.tm) u (print_d t.gmt_offset))
            (field_to_uint32 0 (decimal t.usec)))
          (some t)
  usec_of-Gives q t h =
      rw ((fields-decimal 0 t.usec (wide t.usec h.usec)).1 ∙ ap ok (below t.usec h.usec))
        (time_of-Gives q t h)

  get_timestamp-Gives :
      (q : Bytes) (t : Time) (h : TimeParts o db q t) (res : Res) (row : Row)
      → cells row ≡ time_cells h.tm t
      → Gives p str more db tables (get_timestamp o res row 0 1 (some 2)) (some t)
  unfolding get_timestamp
  get_timestamp-Gives q t h res row e =
      field-Gives p str more db tables res row 0 _ (time_cells h.tm t) (some t) e (
        field-Gives p str more db tables res row 1 _ (time_cells h.tm t) (some t) e (
          field-Gives p str more db tables res row 2 _ (time_cells h.tm t) (some t) e
            (usec_of-Gives q t h)))

  time_of_row-Gives :
      (q : Bytes) (t : Option Time)
      → TimeHeld o db q t
      → Gives p str more db tables (time_of_row o q) t
  time_of_row-Gives q none h = ask-none-Gives p str more db tables q _ none h refl
  time_of_row-Gives q (some t) h =
      first-Gives p str more db tables q (λ res row. get_timestamp o res row 0 1 (some 2))
        (time_cells h.tm t) (some t) h.held (get_timestamp-Gives q t h)

  data-Gives :
      (d : AdditionalData) (res : Res) (row : Row)
      → IsStringData o db d
      → cells row ≡ additional_data_cells d
      → Gives p str more db tables (additional_data_row o res row) (d, true)
  unfolding get_data
  data-Gives d res row h e =
      bind-Gives p str more db tables _ _ d.type (d, true)
        (get_enum-Gives p str more db tables o _ _ _ d.type e refl h.type)
        (bind-Gives p str more db tables _ _ d.meaning (d, true)
          (get_string-Gives p str more db tables o _ _ d.meaning e refl h.meaning)
          (field-Gives p str more db tables res row 2 _ (additional_data_cells d) (d, true) e
            (bind-Gives p str more db tables _ _ d.data_of (d, true)
              (rw h.is_string (rw h.content (ret-Gives p str more db tables d.data_of)))
              (ret-Gives p str more db tables (d, true)))))

  data_rows-RowsAt :
      (res : Res) (n : ℕ) (xs : List AdditionalData) (s : Sql World)
      → All (IsStringData o db) xs
      → length (map additional_data_cells xs) < n
      → s.connected ≡ true
      → IsOpen res s.world
      → left res s.world ≡ map additional_data_cells xs
      → RowsAt p str more db tables res (data_rows o n res) xs s
  unfolding data_rows read
  data_rows-RowsAt res zero xs s all small on i e = absurd (omega arith)
  data_rows-RowsAt res (suc n) [] s all small on i e = record {
    end = s;
    gives =
        read-fetch p str more db tables res (next_row o res (data_rows o n res)) s (ok none, s)
          (fetch_row-end p str more db tables res s e);
    open' = on;
    unmoved = λ r h ne. (h, refl);
  }
  data_rows-RowsAt res (suc n) (d ∷ ds) s (here, later) small on i e =
      let (row, w, h1, h2, h3, h4, h5) = tables.of_row res s.world _ _ i e in
      let rest : Reading Res Row (List AdditionalData) = data_rows o n res in
      let s1 : Sql World = record s { world = w } in
      let x = data-Gives d res row here h2 s1 on in
      let (o2, e2) = x.unmoved res h3 in
      let y = data_rows-RowsAt res n ds x.end later (omega arith) x.open' o2 (e2 ∙ h4) in
      record {
        end = y.end;
        gives =
            read-fetch p str more db tables res (next_row o res rest) s (ok (some row), s1)
              (fetch_row-row p str more db tables res s row w h1)
            ∙ read-bind p str more db tables (additional_data_row o res row) (next_data o rest) s1
                x.end (d, true) x.gives
            ∙ read-bind p str more db tables rest (λ more'. ret (d ∷ more')) x.end y.end ds y.gives;
        open' = y.open';
        unmoved = λ r h ne.
            let (z1, f1) = h5 r h ne in
            let (z2, f2) = x.unmoved r z1 in let (z3, f3) = y.unmoved r z2 ne in (z3, f3 ∙ f2 ∙ f1);
      }

  get_additional_data-Gives :
      (message_ident parent_type : ℕ) (xs : List AdditionalData)
      → Listed o db
          (select "type, meaning, data" "Requiem_AdditionalData"
            ++ (of_parent parent_type message_ident ++ in_order))
          additional_data_cells
          (IsStringData o db)
          xs
      → Gives p str more db tables (get_additional_data o message_ident parent_type) xs
  unfolding get_additional_data
  get_additional_data-Gives message_ident parent_type [] h =
      ask-none-Gives p str more db tables _ _ [] h.held refl
  get_additional_data-Gives message_ident parent_type (d ∷ ds) h =
      ask-some-Gives p str more db tables _ _ (d ∷ ds) (additional_data_cells d)
        (map additional_data_cells ds) h.held
        (λ res s on i e. data_rows-RowsAt res o.fuel (d ∷ ds) s h.each h.fits on i e)

  heartbeat_row-Gives :
      (ident : ℕ) (h : Heartbeat) (res : Res) (row : Row)
      → HeartbeatHeld o db ident h
      → cells row ≡ heartbeat_cells h
      → Gives p str more db tables (heartbeat_row o res row) (h.messageid, h.heartbeat_interval)
  heartbeat_row-Gives ident h res row x e =
      bind-Gives p str more db tables _ _ h.messageid (h.messageid, h.heartbeat_interval)
        (get_string-Gives p str more db tables o _ _ h.messageid e refl x.messageid)
        (bind-Gives p str more db tables _ _ h.heartbeat_interval
          (h.messageid, h.heartbeat_interval)
          (get_uint32-Gives p str more db tables o _ _ h.heartbeat_interval e refl
            x.heartbeat_interval)
          (ret-Gives p str more db tables (h.messageid, h.heartbeat_interval)))

  get_heartbeat-Gives :
      (ident : ℕ) (h : Heartbeat)
      → HeartbeatHeld o db ident h
      → Gives p str more db tables (get_heartbeat o ident) (h.messageid, h.heartbeat_interval)
  unfolding get_heartbeat
  get_heartbeat-Gives ident h x =
      ask-some-Gives p str more db tables _ _ (h.messageid, h.heartbeat_interval)
        (heartbeat_cells h) [] x.held
        (λ res s on i e.
          fetch-RowsAt p str more db tables res _ (heartbeat_cells h) [] _ s on i e
            (λ row c. heartbeat_row-Gives ident h res row x c))

  get_create_time-Gives :
      (ident : ℕ) (t : Option Time)
      → TimeHeld o db (select "time, gmtoff, usec" "Requiem_CreateTime" ++ of_parent b'H' ident) t
      → Gives p str more db tables (get_create_time o ident b'H') t
  unfolding get_create_time
  get_create_time-Gives ident t h = time_of_row-Gives _ t h

  get_analyzer_time-Gives :
      (ident : ℕ) (t : Option Time)
      → TimeHeld o db (select "time, gmtoff, usec" "Requiem_AnalyzerTime" ++ of_parent b'H' ident) t
      → Gives p str more db tables (get_analyzer_time o ident b'H') t
  unfolding get_analyzer_time
  get_analyzer_time-Gives ident t h = time_of_row-Gives _ t h

  classic_get_heartbeat-Gives :
      (ident : ℕ) (h : Heartbeat)
      → HeartbeatHeld o db ident h
      → Gives p str more db tables (classic_get_heartbeat o ident) (heartbeat_message (some h))
  unfolding classic_get_heartbeat
  classic_get_heartbeat-Gives ident h x =
      bind-Gives p str more db tables _ _ (h.messageid, h.heartbeat_interval) _
        (get_heartbeat-Gives ident h x)
        (bind-Gives p str more db tables _ _ h.analyzers _
          (get_analyzer-Gives p str more db tables o ident b'H' h.analyzers x.analyzers)
          (bind-Gives p str more db tables _ _ h.create_time _
            (get_create_time-Gives ident h.create_time x.create_time)
            (bind-Gives p str more db tables _ _ h.analyzer_time _
              (get_analyzer_time-Gives ident h.analyzer_time x.analyzer_time)
              (bind-Gives p str more db tables _ _ h.additional_data _
                (get_additional_data-Gives ident b'H' h.additional_data x.additional_data)
                (ret-Gives p str more db tables (heartbeat_message (some h)))))))

  -- While memory lasts, over an open connection to a database that answers each query with the
  -- rows of a table, fewer than 2 ^ 31, and one without rows with no result or with one that
  -- counts 0: where the rows that the queries name hold the fields of a heartbeat, its analyzers
  -- with their nodes and processes, its times and its additional data, the reading ends and gives
  -- this heartbeat. Numbers have 32 bits, the texts of enumerations are known, the broken-down
  -- form of each time is in range and is one that `gmtime` gives and `timegm` takes back, no
  -- string is without content, the loops have rounds for their rows, the index of a process is
  -- below 128, and the additional data are strings.
  pub classic_get_heartbeat-stored :
      (ident : ℕ) (h : Heartbeat) (s : Sql World)
      → HeartbeatHeld o db ident h
      → s.connected ≡ true
      → (read p str (classic_get_heartbeat o ident) s).0 ≡ some (ok (heartbeat_message (some h)))
  classic_get_heartbeat-stored ident h s x on =
      let g = classic_get_heartbeat-Gives ident h x s on in
      ap (λ (r : Option (Result Message) × Sql World). r.0) g.gives
