-- ===== src/Classic/Insert/Source.antt =====
-- plugins/format/classic/classic-insert.c: sources, targets and analyzers.
use librequiemdb.Base.{ℕ, Bool, false, ◌∷◌, []}
use librequiemdb.Error.{raw}
use librequiemdb.Message.{Source, Target, Analyzer}
use librequiemdb.Time.{Clock}
use librequiemdb.Program.{
  Program, ◌>>=◌, ◌>>◌, escaped, escaped_or, inserted, inserted_or, indexed, present, letter,
  number, index, text,
}
use librequiemdb.Classic.Insert.Common.{get_string}
use librequiemdb.Classic.Insert.Node.{insert_node, insert_user, insert_process}
use librequiemdb.Classic.Insert.Service.{insert_service}
use librequiemdb.Classic.Insert.File.{insert_file}

unfoldable pub insert_source : ℕ → ℕ → Source → Program false (Unit {0})
unfolding ◌>>=◌ get_string insert_node insert_user insert_process insert_service
insert_source message_ident i source = do
  ident ← escaped (get_string source.ident)
  spoofed ← escaped source.spoofed
  interface ← escaped (get_string source.interface)
  inserted "Requiem_Source" "_message_ident, _index, ident, spoofed, interface"
      (number message_ident ∷ index i ∷ text ident ∷ text spoofed ∷ text interface ∷ [])
  present (insert_node b'S' message_ident i) source.node
  present (insert_user b'S' message_ident i) source.user
  present (insert_process b'S' message_ident i) source.process
  present (insert_service b'S' message_ident i) source.service

unfoldable pub insert_target : Clock → ℕ → ℕ → Target → Program false (Unit {0})
unfolding ◌>>=◌ get_string indexed insert_node insert_user insert_process insert_service insert_file
insert_target clock message_ident target_index target = do
  decoy ← escaped target.decoy
  ident ← escaped_or (raw 2) (get_string target.ident)
  interface ← escaped_or (raw 2) (get_string target.interface)
  inserted_or (raw 1) "Requiem_Target" "_message_ident, _index, ident, decoy, interface"
      (number message_ident ∷ index target_index ∷ text ident ∷ text decoy ∷ text interface ∷ [])
  present (insert_node b'T' message_ident target_index) target.node
  present (insert_user b'T' message_ident target_index) target.user
  present (insert_process b'T' message_ident target_index) target.process
  present (insert_service b'T' message_ident target_index) target.service
  indexed (insert_file clock message_ident target_index) target.files

unfoldable pub insert_analyzer : {c : Bool} → ℕ → ℕ → ℕ → Analyzer → Program c (Unit {0})
unfolding ◌>>=◌ get_string insert_node insert_process
insert_analyzer parent_type message_ident analyzer_index analyzer = do
  analyzerid ← escaped (get_string analyzer.analyzerid)
  class ← escaped (get_string analyzer.class)
  name ← escaped (get_string analyzer.name)
  model ← escaped (get_string analyzer.model)
  version ← escaped (get_string analyzer.version)
  manufacturer ← escaped (get_string analyzer.manufacturer)
  ostype ← escaped (get_string analyzer.ostype)
  osversion ← escaped (get_string analyzer.osversion)
  inserted "Requiem_Analyzer"
      "_parent_type, _message_ident, _index, analyzerid, name, manufacturer, model, version, class, ostype, osversion"
      (letter parent_type
        ∷ number message_ident
        ∷ index analyzer_index
        ∷ text analyzerid
        ∷ text name
        ∷ text manufacturer
        ∷ text model
        ∷ text version
        ∷ text class
        ∷ text ostype
        ∷ text osversion
        ∷ [])
  present (insert_node parent_type message_ident analyzer_index) analyzer.node
  present (insert_process parent_type message_ident analyzer_index) analyzer.process
