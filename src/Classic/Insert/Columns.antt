-- ===== src/Classic/Insert/Columns.antt =====
-- classic-insert.c: the values of its insertions against the columns that they name.
pub mod Rows
use librequiemdb.Base.{
  ℕ, Bool, true, false, List, [], ◌∷◌, refl, Option, none, some, ◌≡◌, Bytes, codes,
}
use librequiemdb.Error.{Error, raw}
use librequiemdb.Message.{
  Address, Node, UserId, User, Process, WebService, SnmpService, Service, ServiceType,
  default_service, web_service, snmp_service, unknown_service, Inode, Linkage, FileAccess, Checksum,
  File, Source, Target, Analyzer, Reference, Classification, AdditionalData, Data, byte,
  byte_string, char_string, char_data, other_data, Time, Text, Impact, Action, Confidence,
  Assessment, OverflowAlert, Alertident, ToolAlert, CorrelationAlert, AlertType, default_alert,
  tool_alert, overflow_alert, correlation_alert, unknown_alert, Alert, Heartbeat,
}
use librequiemdb.Time.{Clock, time_to_timestamp}
use librequiemdb.Program.{Program, ◌>>=◌, ◌>>◌, each, indexed, present}
use librequiemdb.Program.Typed.{
  IsTyped, all_suit, column_names, bind-IsTyped, then-IsTyped, lift-IsTyped, each-IsTyped,
  indexed-IsTyped, present-IsTyped,
}
use librequiemdb.Classic.Insert.Common.{get_data, timestamp}
use librequiemdb.Classic.Insert.Node.{
  insert_address, insert_node, insert_user_id, insert_user, insert_process_arg, insert_process_env,
  insert_process,
}
use librequiemdb.Classic.Insert.Service.{
  insert_snmp_service, insert_web_service_arg, insert_web_service, insert_service_type,
  insert_service,
}
use librequiemdb.Classic.Insert.File.{
  insert_inode, insert_linkage, insert_file_access_permission, insert_file_access, insert_checksum,
  insert_file,
}
use librequiemdb.Classic.Insert.Source.{insert_source, insert_target, insert_analyzer}
use librequiemdb.Classic.Insert.Detail.{
  insert_reference, insert_classification, insert_additional_data, insert_createtime,
  insert_detecttime, insert_analyzertime, insert_impact, insert_action, insert_confidence,
  insert_assessment,
}
use librequiemdb.Classic.Insert.{
  insert_overflow_alert, insert_alertident, insert_correlation_alert, insert_message_messageid,
  after_loop, insert_tool_alert, insert_alert_type, insert_alert, insert_heartbeat,
}
use Rows.{
  insert_address-IsTyped, insert_node-IsTyped, insert_user_id-IsTyped, insert_user-IsTyped,
  insert_process_arg-IsTyped, insert_process_env-IsTyped, insert_process-IsTyped,
  insert_snmp_service-IsTyped, insert_web_service_arg-IsTyped, insert_linkage-IsTyped,
  insert_file_access_permission-IsTyped, insert_file_access-IsTyped, insert_checksum-IsTyped,
  insert_analyzer-IsTyped, insert_reference-IsTyped, insert_impact-IsTyped, insert_action-IsTyped,
  insert_confidence-IsTyped, insert_assessment-IsTyped, insert_alertident-IsTyped,
  insert_correlation_alert-IsTyped,
}

module _ (c : Bool) where
  get_data-IsTyped : (d : Data) → IsTyped {c = c} (get_data d)
  unfolding IsTyped get_data
  get_data-IsTyped (byte b) = λ _. tt
  get_data-IsTyped (byte_string b) = λ _. tt
  get_data-IsTyped (char_string b) = λ _. tt
  get_data-IsTyped (char_data b) = λ _. tt
  get_data-IsTyped (other_data t) = λ _. tt

  timestamp-IsTyped :
      (clock : Clock) (r : Option Error) (t : Option Time) → IsTyped {c = c} (timestamp clock r t)
  timestamp-IsTyped clock r t = lift-IsTyped c r (time_to_timestamp clock t)

  insert_additional_data-IsTyped :
      (parent : ℕ) (ident : ℕ) (i : ℕ) (ad : AdditionalData)
      → IsTyped {c = c} (insert_additional_data parent ident i ad)
  unfolding IsTyped insert_additional_data all_suit column_names
  insert_additional_data-IsTyped parent ident i ad =
      λ _ _. bind-IsTyped (get_data ad.data_of) _ (get_data-IsTyped ad.data_of) (λ _. (refl, tt))

  insert_overflow_alert-IsTyped :
      (ident : ℕ) (alert : OverflowAlert) → IsTyped {c = c} (insert_overflow_alert ident alert)
  unfolding IsTyped insert_overflow_alert all_suit column_names
  insert_overflow_alert-IsTyped ident alert =
      λ _. bind-IsTyped (get_data alert.buffer) _ (get_data-IsTyped alert.buffer) (λ _. (refl, tt))

  insert_createtime-IsTyped :
      (clock : Clock) (parent : ℕ) (ident : ℕ) (t : Option Time)
      → IsTyped {c = c} (insert_createtime clock parent ident t)
  unfolding IsTyped insert_createtime all_suit column_names
  insert_createtime-IsTyped clock parent ident t =
      bind-IsTyped (timestamp clock none t) _ (timestamp-IsTyped clock none t) (λ _. (refl, tt))

  insert_detecttime-IsTyped :
      (clock : Clock) (ident : ℕ) (t : Option Time)
      → IsTyped {c = c} (insert_detecttime clock ident t)
  unfolding IsTyped insert_detecttime all_suit column_names
  insert_detecttime-IsTyped clock ident none = tt
  insert_detecttime-IsTyped clock ident (some t) =
      bind-IsTyped (timestamp clock none (some t)) _ (timestamp-IsTyped clock none (some t))
        (λ _. (refl, tt))

  insert_analyzertime-IsTyped :
      (clock : Clock) (parent ident : ℕ) (t : Option Time)
      → IsTyped {c = c} (insert_analyzertime clock parent ident t)
  unfolding IsTyped insert_analyzertime all_suit column_names
  insert_analyzertime-IsTyped clock parent ident none = tt
  insert_analyzertime-IsTyped clock parent ident (some t) =
      bind-IsTyped (timestamp clock none (some t)) _ (timestamp-IsTyped clock none (some t))
        (λ _. (refl, tt))

  insert_inode-IsTyped :
      (clock : Clock) (ident : ℕ) (i : ℕ) (j : ℕ) (inode : Inode)
      → IsTyped {c = c} (insert_inode clock ident i j inode)
  unfolding IsTyped insert_inode all_suit column_names
  insert_inode-IsTyped clock ident i j inode =
      bind-IsTyped (timestamp clock (some (raw 1)) inode.change_time) _
        (timestamp-IsTyped clock (some (raw 1)) inode.change_time) (λ _. (refl, tt))

  -- What follows a file's own row.
  file_parts-IsTyped :
      (clock : Clock) (ident i j : ℕ) (file : File)
      → IsTyped {c = c} (
          indexed (insert_file_access ident i j) file.file_accesses
          >> (indexed (insert_linkage ident i j) file.linkages
              >> (present (insert_inode clock ident i j) file.inode
                  >> indexed (insert_checksum ident i j) file.checksums)))
  file_parts-IsTyped clock ident i j file =
      then-IsTyped (indexed (insert_file_access ident i j) file.file_accesses) _
        (indexed-IsTyped _ file.file_accesses (insert_file_access-IsTyped c ident i j))
        (then-IsTyped (indexed (insert_linkage ident i j) file.linkages) _
          (indexed-IsTyped _ file.linkages (insert_linkage-IsTyped c ident i j))
          (then-IsTyped (present (insert_inode clock ident i j) file.inode) _
            (present-IsTyped _ file.inode (insert_inode-IsTyped clock ident i j))
            (indexed-IsTyped _ file.checksums (insert_checksum-IsTyped c ident i j))))

  pub insert_file-IsTyped :
      (clock : Clock) (ident : ℕ) (i : ℕ) (j : ℕ) (file : File)
      → IsTyped {c = c} (insert_file clock ident i j file)
  unfolding IsTyped insert_file all_suit column_names
  insert_file-IsTyped clock ident i j file =
      bind-IsTyped (timestamp clock none file.create_time) _
        (timestamp-IsTyped clock none file.create_time)
        λ _.
          bind-IsTyped (timestamp clock none file.modify_time) _
            (timestamp-IsTyped clock none file.modify_time)
            λ _.
              bind-IsTyped (timestamp clock none file.access_time) _
                (timestamp-IsTyped clock none file.access_time)
                λ _. λ _ _ _ _ _ _. (refl, file_parts-IsTyped clock ident i j file)

insert_web_service-IsTyped :
    (parent : ℕ) (ident : ℕ) (i : ℕ) (web : WebService)
    → IsTyped (insert_web_service parent ident i web)
unfolding IsTyped insert_web_service all_suit column_names
insert_web_service-IsTyped parent ident i web = λ _ _ _.
    (refl, λ _. indexed-IsTyped _ web.args (insert_web_service_arg-IsTyped false parent ident i))

insert_service_type-IsTyped :
    (parent ident i : ℕ) (t : ServiceType) → IsTyped (insert_service_type parent ident i t)
unfolding IsTyped
insert_service_type-IsTyped parent ident i default_service = tt
insert_service_type-IsTyped parent ident i (web_service web) =
    present-IsTyped _ web (insert_web_service-IsTyped parent ident i)
insert_service_type-IsTyped parent ident i (snmp_service snmp) =
    present-IsTyped _ snmp (insert_snmp_service-IsTyped false parent ident i)
insert_service_type-IsTyped parent ident i unknown_service = tt

insert_service-IsTyped :
    (parent : ℕ) (ident : ℕ) (i : ℕ) (service : Service)
    → IsTyped (insert_service parent ident i service)
unfolding IsTyped insert_service all_suit column_names
insert_service-IsTyped parent ident i service =
    λ _ _ _ _ _. (refl, insert_service_type-IsTyped parent ident i service.type)

insert_source-IsTyped :
    (ident : ℕ) (i : ℕ) (source : Source) → IsTyped (insert_source ident i source)
unfolding IsTyped insert_source all_suit column_names
insert_source-IsTyped ident i source = λ _ _ _. (
  refl,
  then-IsTyped (present (insert_node b'S' ident i) source.node) _
      (present-IsTyped _ source.node (insert_node-IsTyped false b'S' ident i))
      (then-IsTyped (present (insert_user b'S' ident i) source.user) _
        (present-IsTyped _ source.user (insert_user-IsTyped false b'S' ident i))
        (then-IsTyped (present (insert_process b'S' ident i) source.process) _
          (present-IsTyped _ source.process (insert_process-IsTyped false b'S' ident i))
          (present-IsTyped _ source.service (insert_service-IsTyped b'S' ident i)))),
)

insert_target-IsTyped :
    (clock : Clock) (ident : ℕ) (i : ℕ) (target : Target)
    → IsTyped (insert_target clock ident i target)
unfolding IsTyped insert_target all_suit column_names
insert_target-IsTyped clock ident i target = λ _ _ _. (
  refl,
  then-IsTyped (present (insert_node b'T' ident i) target.node) _
      (present-IsTyped _ target.node (insert_node-IsTyped false b'T' ident i))
      (then-IsTyped (present (insert_user b'T' ident i) target.user) _
        (present-IsTyped _ target.user (insert_user-IsTyped false b'T' ident i))
        (then-IsTyped (present (insert_process b'T' ident i) target.process) _
          (present-IsTyped _ target.process (insert_process-IsTyped false b'T' ident i))
          (then-IsTyped (present (insert_service b'T' ident i) target.service) _
            (present-IsTyped _ target.service (insert_service-IsTyped b'T' ident i))
            (indexed-IsTyped _ target.files (insert_file-IsTyped false clock ident i))))),
)

insert_classification-IsTyped :
    (ident : ℕ) (classification : Classification)
    → IsTyped (insert_classification ident classification)
unfolding IsTyped insert_classification all_suit column_names
insert_classification-IsTyped ident classification = λ _ _.
    (refl, λ _. indexed-IsTyped _ classification.references (insert_reference-IsTyped false ident))

after_loop-IsTyped :
    (na : Alertident) (ident : ℕ) (b : Bool) (items : List Alertident)
    → IsTyped (after_loop na ident b items)
unfolding IsTyped
after_loop-IsTyped na ident false [] = insert_alertident-IsTyped false b'T' ident _ na
after_loop-IsTyped na ident false (x ∷ xs) = tt
after_loop-IsTyped na ident true items = tt

insert_tool_alert-IsTyped :
    (na : Alertident) (ident : ℕ) (tool : ToolAlert) → IsTyped (insert_tool_alert na ident tool)
unfolding IsTyped insert_tool_alert all_suit column_names
insert_tool_alert-IsTyped na ident tool = λ _ _. (
  refl,
  λ b.
      then-IsTyped (each 0 (insert_alertident b'T' ident) tool.alertidents) _
        (each-IsTyped 0 _ tool.alertidents (insert_alertident-IsTyped false b'T' ident))
        (after_loop-IsTyped na ident b tool.alertidents),
)

insert_alert_type-IsTyped :
    (na : Alertident) (ident : ℕ) (t : AlertType) → IsTyped (insert_alert_type na ident t)
unfolding IsTyped
insert_alert_type-IsTyped na ident default_alert = tt
insert_alert_type-IsTyped na ident (tool_alert tool) =
    present-IsTyped _ tool (insert_tool_alert-IsTyped na ident)
insert_alert_type-IsTyped na ident (overflow_alert overflow) =
    insert_overflow_alert-IsTyped false ident overflow
insert_alert_type-IsTyped na ident (correlation_alert correlation) =
    present-IsTyped _ correlation (insert_correlation_alert-IsTyped false ident)
insert_alert_type-IsTyped na ident unknown_alert = tt

insert_alert-IsTyped :
    (clock : Clock) (na : Alertident) (a : Alert) → IsTyped (insert_alert clock na a)
unfolding IsTyped insert_alert all_suit column_names insert_message_messageid
insert_alert-IsTyped clock na a = λ _. (
  refl,
  λ ident.
      then-IsTyped (insert_createtime clock b'A' ident a.create_time) _
        (insert_createtime-IsTyped false clock b'A' ident a.create_time)
        (then-IsTyped (insert_detecttime clock ident a.detect_time) _
          (insert_detecttime-IsTyped false clock ident a.detect_time)
          (then-IsTyped (insert_analyzertime clock b'A' ident a.analyzer_time) _
            (insert_analyzertime-IsTyped false clock b'A' ident a.analyzer_time)
            (then-IsTyped (present (insert_assessment ident) a.assessment) _
              (present-IsTyped _ a.assessment (insert_assessment-IsTyped false ident))
              (then-IsTyped (insert_alert_type na ident a.type) _
                (insert_alert_type-IsTyped na ident a.type)
                (then-IsTyped (indexed (insert_analyzer b'A' ident) a.analyzers) _
                  (indexed-IsTyped _ a.analyzers (insert_analyzer-IsTyped false b'A' ident))
                  (then-IsTyped (indexed (insert_source ident) a.sources) _
                    (indexed-IsTyped _ a.sources (insert_source-IsTyped ident))
                    (then-IsTyped (indexed (insert_target clock ident) a.targets) _
                      (indexed-IsTyped _ a.targets (insert_target-IsTyped clock ident))
                      (then-IsTyped (present (insert_classification ident) a.classification) _
                        (present-IsTyped _ a.classification (insert_classification-IsTyped ident))
                        (indexed-IsTyped _ a.additional_data
                          (insert_additional_data-IsTyped false b'A' ident)))))))))),
)

insert_heartbeat-IsTyped : (clock : Clock) (h : Heartbeat) → IsTyped (insert_heartbeat clock h)
unfolding IsTyped insert_heartbeat all_suit column_names
insert_heartbeat-IsTyped clock h = λ _. (
  refl,
  λ ident.
      then-IsTyped (indexed (insert_analyzer b'H' ident) h.analyzers) _
        (indexed-IsTyped _ h.analyzers (insert_analyzer-IsTyped true b'H' ident))
        (then-IsTyped (insert_createtime clock b'H' ident h.create_time) _
          (insert_createtime-IsTyped true clock b'H' ident h.create_time)
          (then-IsTyped (insert_analyzertime clock b'H' ident h.analyzer_time) _
            (insert_analyzertime-IsTyped true clock b'H' ident h.analyzer_time)
            (indexed-IsTyped _ h.additional_data
              (insert_additional_data-IsTyped true b'H' ident)))),
)

-- In every insertion of an alert and of a heartbeat, whatever the message and whatever the calls
-- answer, there are as many values as columns named, and each is of the kind that its column
-- takes: the letter stands in _parent_type, the number of 64 bits in _message_ident, an index in
-- a column whose name begins with an underscore and ends with _index, and a text in a column
-- whose name does not begin with an underscore.
pub messages-IsTyped :
    (clock : Clock) (null_alertident : Alertident) (alert : Alert) (heartbeat : Heartbeat)
    → IsTyped (insert_alert clock null_alertident alert)
      × IsTyped (insert_heartbeat clock heartbeat)
messages-IsTyped clock null_alertident alert heartbeat =
    (insert_alert-IsTyped clock null_alertident alert, insert_heartbeat-IsTyped clock heartbeat)
