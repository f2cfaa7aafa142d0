-- ===== src/Classic/Get/RoundTrip.antt =====
-- plugins/format/classic/classic-get.c: what is stored is read.
pub mod Message
use Prim.Native.Nat.{◌^◌}
use mathlib.Core.List.{map}
use librequiemdb.Base.{
  ℕ, ◌+◌, ◌<◌, ◌%◌, List, [], ◌∷◌, ◌++◌, ◌≡◌, ◌∙◌, refl, sym, subst, ap, Option, none, some, Bytes,
  codes, length, All, arith,
}
use librequiemdb.Base.Decimal.{decimal, print_d}
use librequiemdb.Error.{Result, ok, err}
use librequiemdb.Field.{field_to_uint32}
use librequiemdb.Field.Decimal.{fields-decimal}
use librequiemdb.Message.{Text, Enum, Address, Node, Process, Analyzer}
use librequiemdb.Plugin.{Plugin}
use librequiemdb.Strings.{Strings, Appends}
use librequiemdb.Reading.{Reading, ret, lift, as_char, ◌>>=◌}
use librequiemdb.Reading.Tables.{Cells, cell, Tables, Gives, ret-Gives, bind-Gives, field-Gives}
use librequiemdb.Reading.Tables.Rows.{Fits, many-Gives, many_indexed-Gives, one-Gives}
use librequiemdb.Classic.Get.Common.{
  Outside, Enumeration, address_category, node_category, get_string, get_enum, get_uint32, text_of,
  enum_of, number_of,
}
use librequiemdb.Classic.Get.Node.{
  address_row, get_address, node_row, get_node, get_process_arg, get_process_env, process_row,
  get_process,
}
use librequiemdb.Classic.Get.Source.{analyzer_row, get_analyzer}
use librequiemdb.Classic.Get.Stored.{
  text_cell, number_cell, IsFull, IsUint32, IsNamed, IsAddress, Listed, NodeParts, NodeHeld,
  ProcessParts, ProcessHeld, AnalyzerParts, AnalyzersHeld, AllFrom, address_cells, node_cells,
  process_cells, analyzer_cells,
}

module _ (p : Plugin) (str : Strings) (more : Appends str) (db : Bytes → List Cells)
    (tables : Tables p db) (o : Outside) where
  open p use {World, Res, Row}
  open tables use {cells}

  step :
      {A B : Type 0} {m : Reading Res Row A} (k : A → Reading Res Row B) {a : A} {b : B}
      → Gives p str more db tables m a
      → Gives p str more db tables (k a) b
      → Gives p str more db tables (m >>= k) b
  step k h next = bind-Gives p str more db tables _ k _ _ h next

  pub get_string-Gives :
      (res : Res) {row : Row} (i : ℕ) {c : Cells} (t : Text)
      → cells row ≡ c
      → cell i c ≡ text_cell t
      → IsFull t
      → Gives p str more db tables (get_string o res row i) t
  unfolding get_string
  get_string-Gives res {row} i {c} t e h full =
      field-Gives p str more db tables res row i _ c t e
        (subst (λ v. Gives p str more db tables (ret (text_of v)) t) (sym h) (shown t full))
    where
      shown : (t : Text) → IsFull t → Gives p str more db tables (ret (text_of (text_cell t))) t
      shown none f = ret-Gives p str more db tables none
      shown (some none) f = absurd f
      shown (some (some v)) f = ret-Gives p str more db tables (some (some v))

  pub get_enum-Gives :
      (n : Enumeration) (res : Res) {row : Row} (i : ℕ) {c : Cells} (t : Enum)
      → cells row ≡ c
      → cell i c ≡ t
      → IsNamed o n t
      → Gives p str more db tables (get_enum o n res row i) t
  unfolding get_enum
  get_enum-Gives n res {row} i {c} t e h named =
      field-Gives p str more db tables res row i _ c t e (
        subst (λ v. Gives p str more db tables (ret v) t) (sym (ap (enum_of o n) h ∙ named))
          (ret-Gives p str more db tables t))

  pub get_uint32-Gives :
      (res : Res) {row : Row} (i : ℕ) {c : Cells} (n : Option ℕ)
      → cells row ≡ c
      → cell i c ≡ number_cell n
      → IsUint32 n
      → Gives p str more db tables (get_uint32 o res row i) n
  unfolding get_uint32
  get_uint32-Gives res {row} i {c} n e h small =
      field-Gives p str more db tables res row i _ c n e (
        subst (λ v. Gives p str more db tables (number_of o (field_to_uint32 0) v) n) (sym h)
          (shown n small))
    where
      below : (k : ℕ) → k < 2 ^ 32 → k % 2 ^ 32 ≡ k
      below k h = omega arith

      wide : (k : ℕ) → k < 2 ^ 32 → k < 2 ^ 64
      wide k h = omega arith

      shown :
          (n : Option ℕ)
          → IsUint32 n
          → Gives p str more db tables (number_of o (field_to_uint32 0) (number_cell n)) n
      shown none small = ret-Gives p str more db tables none
      shown (some k) small =
          rw ((fields-decimal 0 k (wide k small)).1 ∙ ap ok (below k small))
            (ret-Gives p str more db tables (some k))

  address_row-Gives :
      (res : Res) (row : Row) (x : Address)
      → IsAddress o x
      → cells row ≡ address_cells x
      → Gives p str more db tables (address_row o res row) x
  address_row-Gives res row x h e = step _ (get_string-Gives _ _ x.ident e refl h.ident) (
      step _ (get_enum-Gives _ _ _ x.category e refl h.category) (
        step _ (get_string-Gives _ _ x.vlan_name e refl h.vlan_name) (
          step _ (get_uint32-Gives _ _ x.vlan_num e refl h.vlan_num) (
            step _ (get_string-Gives _ _ x.address e refl h.address) (
              step _ (get_string-Gives _ _ x.netmask e refl h.netmask)
                (ret-Gives p str more db tables x))))))

  get_address-Gives :
      (message_ident parent_type i : ℕ) (n : Node)
      → NodeParts o db message_ident parent_type i n
      → Gives p str more db tables (get_address o message_ident parent_type i) n.addresses
  unfolding get_address
  get_address-Gives message_ident parent_type i n h =
      many-Gives p str more db tables o.fuel _ (address_row o) address_cells (IsAddress o)
        n.addresses h.addresses.held h.addresses.fits h.addresses.each address_row-Gives

  node_row-Gives :
      (message_ident parent_type i : ℕ) (res : Res) (row : Row) (x : Node)
      → NodeParts o db message_ident parent_type i x
      → cells row ≡ node_cells x
      → Gives p str more db tables (node_row o message_ident parent_type i res row) x
  node_row-Gives message_ident parent_type i res row x h e =
      step _ (get_string-Gives _ _ x.ident e refl h.ident) (
        step _ (get_enum-Gives _ _ _ x.category e refl h.category) (
          step _ (get_string-Gives _ _ x.location e refl h.location) (
            step _ (get_string-Gives _ _ x.name e refl h.name) (
              step _ (get_address-Gives message_ident parent_type i x h)
                (ret-Gives p str more db tables x)))))

  pub get_node-Gives :
      (message_ident parent_type i : ℕ) (n : Option Node)
      → NodeHeld o db message_ident parent_type i n
      → Gives p str more db tables (get_node o message_ident parent_type i) n
  unfolding get_node
  get_node-Gives message_ident parent_type i n h =
      one-Gives p str more db tables _ (node_row o message_ident parent_type i) node_cells
        (NodeParts o db message_ident parent_type i) n h.held h.parts
        (node_row-Gives message_ident parent_type i)

  string_row-Gives :
      (res : Res) (row : Row) (t : Text)
      → IsFull t
      → cells row ≡ text_cell t ∷ []
      → Gives p str more db tables (get_string o res row 0) t
  string_row-Gives res row t full e = get_string-Gives _ _ t e refl full

  char_index : (i : ℕ) → i < 128 → as_char i ≡ i
  char_index i h = ground arith

  get_process_arg-Gives :
      (message_ident parent_type i : ℕ) (x : Process)
      → ProcessParts o db message_ident parent_type i x
      → Gives p str more db tables (get_process_arg o message_ident parent_type i) x.args
  unfolding get_process_arg
  get_process_arg-Gives message_ident parent_type i x h = rw (char_index i h.small) (
      many-Gives p str more db tables o.fuel _ (λ res row. get_string o res row 0)
        (λ t. text_cell t ∷ []) IsFull x.args h.args.held h.args.fits h.args.each string_row-Gives)

  get_process_env-Gives :
      (message_ident parent_type i : ℕ) (x : Process)
      → ProcessParts o db message_ident parent_type i x
      → Gives p str more db tables (get_process_env o message_ident parent_type i) x.envs
  unfolding get_process_env
  get_process_env-Gives message_ident parent_type i x h =
      many-Gives p str more db tables o.fuel _ (λ res row. get_string o res row 0)
        (λ t. text_cell t ∷ []) IsFull x.envs h.envs.held h.envs.fits h.envs.each string_row-Gives

  process_row-Gives :
      (message_ident parent_type i : ℕ) (res : Res) (row : Row) (x : Process)
      → ProcessParts o db message_ident parent_type i x
      → cells row ≡ process_cells x
      → Gives p str more db tables (process_row o message_ident parent_type i res row) x
  process_row-Gives message_ident parent_type i res row x h e =
      step _ (get_string-Gives _ _ x.ident e refl h.ident) (
        step _ (get_string-Gives _ _ x.name e refl h.name) (
          step _ (get_uint32-Gives _ _ x.pid e refl h.pid) (
            step _ (get_string-Gives _ _ x.path e refl h.path) (
              step _ (get_process_arg-Gives message_ident parent_type i x h) (
                step _ (get_process_env-Gives message_ident parent_type i x h)
                  (ret-Gives p str more db tables x))))))

  pub get_process-Gives :
      (message_ident parent_type i : ℕ) (x : Option Process)
      → ProcessHeld o db message_ident parent_type i x
      → Gives p str more db tables (get_process o message_ident parent_type i) x
  unfolding get_process
  get_process-Gives message_ident parent_type i x h =
      one-Gives p str more db tables _ (process_row o message_ident parent_type i) process_cells
        (ProcessParts o db message_ident parent_type i) x h.held h.parts
        (process_row-Gives message_ident parent_type i)

  analyzer_row-Gives :
      (message_ident parent_type i : ℕ) (res : Res) (row : Row) (x : Analyzer)
      → AnalyzerParts o db message_ident parent_type i x
      → cells row ≡ analyzer_cells x
      → Gives p str more db tables (analyzer_row o message_ident parent_type res i row) x
  analyzer_row-Gives message_ident parent_type i res row x h e =
      step _ (get_string-Gives _ _ x.analyzerid e refl h.analyzerid) (
        step _ (get_string-Gives _ _ x.name e refl h.name) (
          step _ (get_string-Gives _ _ x.manufacturer e refl h.manufacturer) (
            step _ (get_string-Gives _ _ x.model e refl h.model) (
              step _ (get_string-Gives _ _ x.version e refl h.version) (
                step _ (get_string-Gives _ _ x.class e refl h.class) (
                  step _ (get_string-Gives _ _ x.ostype e refl h.ostype) (
                    step _ (get_string-Gives _ _ x.osversion e refl h.osversion) (
                      step _ (get_node-Gives message_ident parent_type i x.node h.node) (
                        step _ (get_process-Gives message_ident parent_type i x.process h.process)
                          (ret-Gives p str more db tables x))))))))))

  analyzers-Fits :
      (message_ident parent_type i : ℕ) (res : Res) (xs : List Analyzer)
      → AllFrom (AnalyzerParts o db message_ident parent_type) i xs
      → Fits p str more db tables i
          (analyzer_row o message_ident parent_type res)
          (map analyzer_cells xs)
          xs
  analyzers-Fits message_ident parent_type i res [] h = tt
  analyzers-Fits message_ident parent_type i res (x ∷ xs) (h, later) = (
    λ row. analyzer_row-Gives message_ident parent_type i res row x h,
    analyzers-Fits message_ident parent_type (i + 1) res xs later,
  )

  pub get_analyzer-Gives :
      (message_ident parent_type : ℕ) (xs : List Analyzer)
      → AnalyzersHeld o db message_ident parent_type xs
      → Gives p str more db tables (get_analyzer o message_ident parent_type) xs
  unfolding get_analyzer
  get_analyzer-Gives message_ident parent_type xs h =
      many_indexed-Gives p str more db tables o.fuel _ (analyzer_row o message_ident parent_type)
        analyzer_cells xs h.held h.fits
        (λ res. analyzers-Fits message_ident parent_type 0 res xs h.each)
