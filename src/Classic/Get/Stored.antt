-- ===== src/Classic/Get/Stored.antt =====
-- plugins/format/classic/classic-get.c: the rows that hold the parts of a message. The tables are
-- given by the answers to the queries.
use Prim.Native.Nat.{◌^◌}
use mathlib.Core.List.{map}
use librequiemdb.Base.{
  ℕ, ◌+◌, ◌<◌, List, [], ◌∷◌, ◌++◌, ◌≡◌, Option, none, some, Bytes, length, take, All, ◌-◌,
}
use librequiemdb.Base.Decimal.{decimal, print_d}
use librequiemdb.Error.{ok}
use librequiemdb.Message.{
  Text, Enum, Time, Address, Node, Process, Analyzer, AdditionalData, Data, char_string, Heartbeat,
}
use librequiemdb.Time.{Tm, timestamp_text}
use librequiemdb.Time.RoundTrip.{IsTm}
use librequiemdb.Reading.{select, of_parent, at, in_order}
use librequiemdb.Reading.Tables.{Cells}
use librequiemdb.Reading.Tables.Rows.{rows_of, IfSome}
use librequiemdb.Classic.Get.{of_ident}
use librequiemdb.Classic.Get.Common.{
  Outside, Enumeration, string, address_category, node_category, additional_data_type, enum_of,
  char_string_of,
}

abbrev pub text_cell : Text → Option Bytes
text_cell none = none
text_cell (some none) = none
text_cell (some (some s)) = some s

abbrev pub number_cell : Option ℕ → Option Bytes
number_cell none = none
number_cell (some n) = some (decimal n)

-- A string without content is stored like no string.
abbrev pub IsFull : Text → Type 0
IsFull (some none) = ⊥
IsFull _ = Unit

abbrev pub IsUint32 : Option ℕ → Type 0
IsUint32 none = Unit
IsUint32 (some n) = n < 2 ^ 32

abbrev pub address_cells : Address → Cells
address_cells a =
    text_cell a.ident
    ∷ a.category
    ∷ text_cell a.vlan_name
    ∷ number_cell a.vlan_num
    ∷ text_cell a.address
    ∷ text_cell a.netmask
    ∷ []

abbrev pub node_cells : Node → Cells
node_cells n = text_cell n.ident ∷ n.category ∷ text_cell n.location ∷ text_cell n.name ∷ []

abbrev pub process_cells : Process → Cells
process_cells x = text_cell x.ident ∷ text_cell x.name ∷ number_cell x.pid ∷ text_cell x.path ∷ []

abbrev pub analyzer_cells : Analyzer → Cells
analyzer_cells a =
    text_cell a.analyzerid
    ∷ text_cell a.name
    ∷ text_cell a.manufacturer
    ∷ text_cell a.model
    ∷ text_cell a.version
    ∷ text_cell a.class
    ∷ text_cell a.ostype
    ∷ text_cell a.osversion
    ∷ []

abbrev pub heartbeat_cells : Heartbeat → Cells
heartbeat_cells h = text_cell h.messageid ∷ number_cell h.heartbeat_interval ∷ []

-- The content of a string of characters, without the zero at its end.
abbrev pub content_of : Data → Bytes
content_of (char_string b) = take (length b - 1) b
content_of d = []

abbrev pub additional_data_cells : AdditionalData → Cells
additional_data_cells d = d.type ∷ text_cell d.meaning ∷ some (content_of d.data_of) ∷ []

abbrev pub time_cells : Tm → Time → Cells
time_cells tm t =
    some (timestamp_text tm) ∷ some (print_d t.gmt_offset) ∷ some (decimal t.usec) ∷ []

abbrev pub AllFrom : {A : Type 0} → (ℕ → A → Type 0) → ℕ → List A → Type 0
AllFrom P i [] = Unit
AllFrom P i (x ∷ xs) = P i x × AllFrom P (i + 1) xs

module _ (o : Outside) where
  -- The text of an enumeration is one that librequiem knows.
  abbrev pub IsNamed : Enumeration → Enum → Type 0
  IsNamed e t = enum_of o e t ≡ t

  pub record IsAddress (a : Address) : Type 0 where
    pub ident : IsFull a.ident
    pub category : IsNamed address_category a.category
    pub vlan_name : IsFull a.vlan_name
    pub vlan_num : IsUint32 a.vlan_num
    pub address : IsFull a.address
    pub netmask : IsFull a.netmask

module _ (o : Outside) (db : Bytes → List Cells) where
  -- The rows of a list, which the rounds of a loop suffice for.
  pub record Listed {A : Type 0} (q : Bytes) (f : A → Cells) (P : A → Type 0) (xs : List A)
      : Type 0 where
    pub held : db q ≡ map f xs
    pub fits : length (map f xs) < o.fuel
    pub each : All P xs

  pub record NodeParts (message_ident parent_type i : ℕ) (n : Node) : Type 0 where
    pub ident : IsFull n.ident
    pub category : IsNamed o node_category n.category
    pub location : IsFull n.location
    pub name : IsFull n.name
    pub addresses :
        Listed
          (select "ident, category, vlan_name, vlan_num, address, netmask" "Requiem_Address"
            ++ (of_parent parent_type message_ident ++ (at "_parent0_index" i ++ in_order)))
          address_cells
          (IsAddress o)
          n.addresses

  pub record NodeHeld (message_ident parent_type i : ℕ) (n : Option Node) : Type 0 where
    pub held :
        db (
          select "ident, category, location, name" "Requiem_Node"
          ++ (of_parent parent_type message_ident ++ at "_parent0_index" i))
        ≡ rows_of node_cells n
    pub parts : IfSome (NodeParts message_ident parent_type i) n

  -- The index of a process is below 128, since that of its arguments is a `char`.
  pub record ProcessParts (message_ident parent_type i : ℕ) (x : Process) : Type 0 where
    pub ident : IsFull x.ident
    pub name : IsFull x.name
    pub pid : IsUint32 x.pid
    pub path : IsFull x.path
    pub small : i < 128
    pub args :
        Listed
          (select "arg" "Requiem_ProcessArg"
            ++ (of_parent parent_type message_ident ++ (at "_parent0_index" i ++ in_order)))
          (λ t. text_cell t ∷ [])
          IsFull
          x.args
    pub envs :
        Listed
          (select "env" "Requiem_ProcessEnv"
            ++ (of_parent parent_type message_ident ++ (at "_parent0_index" i ++ in_order)))
          (λ t. text_cell t ∷ [])
          IsFull
          x.envs

  pub record ProcessHeld (message_ident parent_type i : ℕ) (x : Option Process) : Type 0 where
    pub held :
        db (
          select "ident, name, pid, path" "Requiem_Process"
          ++ (of_parent parent_type message_ident ++ at "_parent0_index" i))
        ≡ rows_of process_cells x
    pub parts : IfSome (ProcessParts message_ident parent_type i) x

  pub record AnalyzerParts (message_ident parent_type i : ℕ) (a : Analyzer) : Type 0 where
    pub analyzerid : IsFull a.analyzerid
    pub name : IsFull a.name
    pub manufacturer : IsFull a.manufacturer
    pub model : IsFull a.model
    pub version : IsFull a.version
    pub class : IsFull a.class
    pub ostype : IsFull a.ostype
    pub osversion : IsFull a.osversion
    pub node : NodeHeld message_ident parent_type i a.node
    pub process : ProcessHeld message_ident parent_type i a.process

  pub record AnalyzersHeld (message_ident parent_type : ℕ) (xs : List Analyzer) : Type 0 where
    pub held :
        db (
          select "analyzerid, name, manufacturer, model, version, class, ostype, osversion"
            "Requiem_Analyzer"
          ++ (of_parent parent_type message_ident ++ in_order))
        ≡ map analyzer_cells xs
    pub fits : length (map analyzer_cells xs) < o.fuel
    pub each : AllFrom (AnalyzerParts message_ident parent_type) 0 xs

  pub record TimeParts (q : Bytes) (t : Time) : Type 0 where
    pub tm : Tm
    pub held : db q ≡ time_cells tm t ∷ []
    pub gmtime : o.clock.gmtime t.sec ≡ ok tm
    pub timegm : o.clock.timegm tm ≡ t.sec
    pub is_tm : IsTm tm
    pub year : tm.year < 2 ^ 32
    pub mon : tm.mon < 2 ^ 32
    pub gmt_offset : t.gmt_offset < 2 ^ 32
    pub usec : t.usec < 2 ^ 32

  abbrev pub TimeHeld : Bytes → Option Time → Type 0
  TimeHeld q none = db q ≡ []
  TimeHeld q (some t) = TimeParts q t

  -- Data of the type of a string.
  pub record IsStringData (d : AdditionalData) : Type 0 where
    pub type : IsNamed o additional_data_type d.type
    pub is_string : o.data_type d.type ≡ string
    pub meaning : IsFull d.meaning
    pub content : char_string_of (content_of d.data_of) ≡ d.data_of

  pub record HeartbeatHeld (ident : ℕ) (h : Heartbeat) : Type 0 where
    pub messageid : IsFull h.messageid
    pub heartbeat_interval : IsUint32 h.heartbeat_interval
    pub held :
        db (select "messageid, heartbeat_interval" "Requiem_Heartbeat" ++ of_ident ident)
        ≡ heartbeat_cells h ∷ []
    pub analyzers : AnalyzersHeld ident b'H' h.analyzers
    pub create_time :
        TimeHeld
          (select "time, gmtoff, usec" "Requiem_CreateTime" ++ of_parent b'H' ident)
          h.create_time
    pub analyzer_time :
        TimeHeld
          (select "time, gmtoff, usec" "Requiem_AnalyzerTime" ++ of_parent b'H' ident)
          h.analyzer_time
    pub additional_data :
        Listed
          (select "type, meaning, data" "Requiem_AdditionalData"
            ++ (of_parent b'H' ident ++ in_order))
          additional_data_cells
          IsStringData
          h.additional_data
