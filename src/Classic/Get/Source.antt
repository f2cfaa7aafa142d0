-- ===== src/Classic/Get/Source.antt =====
-- plugins/format/classic/classic-get.c: sources, targets and analyzers.
use librequiemdb.Base.{ℕ, ◌++◌, List, [], none}
use librequiemdb.Message.{Source, Target, Analyzer}
use librequiemdb.Reading.{
  Reading, ret, ◌>>=◌, many_indexed, many_then, select, of_message, of_parent, in_order,
}
use librequiemdb.Classic.Get.Common.{Outside, get_string, get_enum, source_spoofed, target_decoy}
use librequiemdb.Classic.Get.Node.{get_node, get_user, get_process}
use librequiemdb.Classic.Get.Service.{get_service}
use librequiemdb.Classic.Get.File.{get_file}

module _ {Res Row : Type 0} (o : Outside) where
  abbrev pub analyzer_row : ℕ → ℕ → Res → ℕ → Row → Reading Res Row Analyzer
  analyzer_row message_ident parent_type res i row = do
    analyzerid ← get_string o res row 0
    name ← get_string o res row 1
    manufacturer ← get_string o res row 2
    model ← get_string o res row 3
    version ← get_string o res row 4
    class ← get_string o res row 5
    ostype ← get_string o res row 6
    osversion ← get_string o res row 7
    node ← get_node o message_ident parent_type i
    process ← get_process o message_ident parent_type i
    ret (record {
      analyzerid = analyzerid;
      name = name;
      manufacturer = manufacturer;
      model = model;
      version = version;
      class = class;
      ostype = ostype;
      osversion = osversion;
      node = node;
      process = process;
    })

  unfoldable pub get_analyzer : ℕ → ℕ → Reading Res Row (List Analyzer)
  unfolding many_indexed
  get_analyzer message_ident parent_type =
      many_indexed o.fuel
        (select "analyzerid, name, manufacturer, model, version, class, ostype, osversion"
            "Requiem_Analyzer"
          ++ (of_parent parent_type message_ident ++ in_order))
        (analyzer_row message_ident parent_type)

  -- The source with what its own row has.
  abbrev pub source_row : Res → Row → Reading Res Row Source
  source_row res row = do
    ident ← get_string o res row 0
    spoofed ← get_enum o source_spoofed res row 1
    interface ← get_string o res row 2
    ret (record {
      ident = ident;
      spoofed = spoofed;
      interface = interface;
      node = none;
      user = none;
      process = none;
      service = none;
    })

  abbrev pub source_parts : ℕ → ℕ → Source → Reading Res Row Source
  source_parts message_ident cnt source = do
    node ← get_node o message_ident b'S' cnt
    user ← get_user o message_ident b'S' cnt
    process ← get_process o message_ident b'S' cnt
    service ← get_service o message_ident b'S' cnt
    ret (record source { node = node; user = user; process = process; service = service })

  unfoldable pub get_source : ℕ → Reading Res Row (List Source)
  unfolding many_then
  get_source message_ident =
      many_then o.fuel
        (select "ident, spoofed, interface" "Requiem_Source"
          ++ (of_message message_ident ++ in_order))
        source_row (source_parts message_ident)

  abbrev pub target_row : Res → Row → Reading Res Row Target
  target_row res row = do
    ident ← get_string o res row 0
    decoy ← get_enum o target_decoy res row 1
    interface ← get_string o res row 2
    ret (record {
      ident = ident;
      decoy = decoy;
      interface = interface;
      node = none;
      user = none;
      process = none;
      service = none;
      files = [];
    })

  abbrev pub target_parts : ℕ → ℕ → Target → Reading Res Row Target
  target_parts message_ident cnt target = do
    node ← get_node o message_ident b'T' cnt
    user ← get_user o message_ident b'T' cnt
    process ← get_process o message_ident b'T' cnt
    service ← get_service o message_ident b'T' cnt
    files ← get_file o message_ident cnt
    ret (record target {
      node = node;
      user = user;
      process = process;
      service = service;
      files = files;
    })

  unfoldable pub get_target : ℕ → Reading Res Row (List Target)
  unfolding many_then
  get_target message_ident =
      many_then o.fuel
        (select "ident, decoy, interface" "Requiem_Target"
          ++ (of_message message_ident ++ in_order))
        target_row (target_parts message_ident)
