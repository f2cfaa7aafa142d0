-- ===== src/Classic/Insert/Columns/Rows.antt =====
-- classic-insert.c: the columns of the rows of any message.
use librequiemdb.Base.{ℕ, Bool, refl}
use librequiemdb.Message.{
  Address, Node, UserId, User, Process, SnmpService, Linkage, FileAccess, Checksum, Analyzer,
  Reference, Text, Impact, Action, Confidence, Assessment, Alertident, CorrelationAlert,
}
use librequiemdb.Program.{each, indexed, present}
use librequiemdb.Program.Typed.{
  IsTyped, all_suit, column_names, then-IsTyped, each-IsTyped, indexed-IsTyped, present-IsTyped,
}
use librequiemdb.Classic.Insert.Node.{
  insert_address, insert_node, insert_user_id, insert_user, insert_process_arg, insert_process_env,
  insert_process,
}
use librequiemdb.Classic.Insert.Service.{insert_snmp_service, insert_web_service_arg}
use librequiemdb.Classic.Insert.File.{
  insert_linkage, insert_file_access_permission, insert_file_access, insert_checksum,
}
use librequiemdb.Classic.Insert.Source.{insert_analyzer}
use librequiemdb.Classic.Insert.Detail.{
  insert_reference, insert_impact, insert_action, insert_confidence, insert_assessment,
}
use librequiemdb.Classic.Insert.{insert_alertident, insert_correlation_alert}

module _ (c : Bool) where
  pub insert_address-IsTyped :
      (parent : ℕ) (ident : ℕ) (i : ℕ) (j : ℕ) (address : Address)
      → IsTyped {c = c} (insert_address parent ident i j address)
  unfolding IsTyped insert_address all_suit column_names
  insert_address-IsTyped parent ident i j address = λ _ _ _ _ _. (refl, tt)

  pub insert_node-IsTyped :
      (parent : ℕ) (ident : ℕ) (i : ℕ) (node : Node)
      → IsTyped {c = c} (insert_node parent ident i node)
  unfolding IsTyped insert_node all_suit column_names
  insert_node-IsTyped parent ident i node =
      λ _ _ _ _. (refl, indexed-IsTyped _ node.addresses (insert_address-IsTyped parent ident i))

  pub insert_user_id-IsTyped :
      (parent : ℕ) (ident : ℕ) (i : ℕ) (j : ℕ) (k : ℕ) (l : ℕ) (user_id : UserId)
      → IsTyped {c = c} (insert_user_id parent ident i j k l user_id)
  unfolding IsTyped insert_user_id all_suit column_names
  insert_user_id-IsTyped parent ident i j k l user_id = λ _ _ _ _. (refl, tt)

  pub insert_user-IsTyped :
      (parent : ℕ) (ident : ℕ) (i : ℕ) (user : User)
      → IsTyped {c = c} (insert_user parent ident i user)
  unfolding IsTyped insert_user all_suit column_names
  insert_user-IsTyped parent ident i user =
      λ _ _. (refl, indexed-IsTyped _ user.user_ids (insert_user_id-IsTyped parent ident i 0 0))

  pub insert_process_arg-IsTyped :
      (parent : ℕ) (ident : ℕ) (i : ℕ) (j : ℕ) (arg : Text)
      → IsTyped {c = c} (insert_process_arg parent ident i j arg)
  unfolding IsTyped insert_process_arg all_suit column_names
  insert_process_arg-IsTyped parent ident i j arg = λ _. (refl, tt)

  pub insert_process_env-IsTyped :
      (parent : ℕ) (ident : ℕ) (i : ℕ) (j : ℕ) (env : Text)
      → IsTyped {c = c} (insert_process_env parent ident i j env)
  unfolding IsTyped insert_process_env all_suit column_names
  insert_process_env-IsTyped parent ident i j env = λ _. (refl, tt)

  pub insert_process-IsTyped :
      (parent : ℕ) (ident : ℕ) (i : ℕ) (process : Process)
      → IsTyped {c = c} (insert_process parent ident i process)
  unfolding IsTyped insert_process all_suit column_names
  insert_process-IsTyped parent ident i process = λ _ _ _. (
    refl,
    then-IsTyped (each 0 (insert_process_arg parent ident i) process.args) _
        (each-IsTyped 0 _ process.args (insert_process_arg-IsTyped parent ident i))
        (each-IsTyped 0 _ process.envs (insert_process_env-IsTyped parent ident i)),
  )

  pub insert_snmp_service-IsTyped :
      (parent : ℕ) (ident : ℕ) (i : ℕ) (snmp : SnmpService)
      → IsTyped {c = c} (insert_snmp_service parent ident i snmp)
  unfolding IsTyped insert_snmp_service all_suit column_names
  insert_snmp_service-IsTyped parent ident i snmp = λ _ _ _ _ _. (refl, tt)

  pub insert_web_service_arg-IsTyped :
      (parent : ℕ) (ident : ℕ) (i : ℕ) (j : ℕ) (arg : Text)
      → IsTyped {c = c} (insert_web_service_arg parent ident i j arg)
  unfolding IsTyped insert_web_service_arg all_suit column_names
  insert_web_service_arg-IsTyped parent ident i j arg = λ _. (refl, tt)

  pub insert_linkage-IsTyped :
      (ident : ℕ) (i : ℕ) (j : ℕ) (k : ℕ) (linkage : Linkage)
      → IsTyped {c = c} (insert_linkage ident i j k linkage)
  unfolding IsTyped insert_linkage all_suit column_names
  insert_linkage-IsTyped ident i j k linkage = λ _ _ _. (refl, tt)

  pub insert_file_access_permission-IsTyped :
      (ident : ℕ) (i : ℕ) (j : ℕ) (k : ℕ) (l : ℕ) (perm : Text)
      → IsTyped {c = c} (insert_file_access_permission ident i j k l perm)
  unfolding IsTyped insert_file_access_permission all_suit column_names
  insert_file_access_permission-IsTyped ident i j k l perm = λ _. (refl, tt)

  pub insert_file_access-IsTyped :
      (ident : ℕ) (i : ℕ) (j : ℕ) (k : ℕ) (access : FileAccess)
      → IsTyped {c = c} (insert_file_access ident i j k access)
  unfolding IsTyped insert_file_access all_suit column_names
  insert_file_access-IsTyped ident i j k access = (
    refl,
    then-IsTyped (indexed (insert_file_access_permission ident i j k) access.permissions) _
        (indexed-IsTyped _ access.permissions (insert_file_access_permission-IsTyped ident i j k))
        (insert_user_id-IsTyped b'F' ident i j k 0 access.user_id),
  )

  pub insert_checksum-IsTyped :
      (ident : ℕ) (i : ℕ) (j : ℕ) (k : ℕ) (checksum : Checksum)
      → IsTyped {c = c} (insert_checksum ident i j k checksum)
  unfolding IsTyped insert_checksum all_suit column_names
  insert_checksum-IsTyped ident i j k checksum = λ _ _ _. (refl, tt)

  pub insert_analyzer-IsTyped :
      (parent : ℕ) (ident : ℕ) (i : ℕ) (analyzer : Analyzer)
      → IsTyped {c = c} (insert_analyzer parent ident i analyzer)
  unfolding IsTyped insert_analyzer all_suit column_names
  insert_analyzer-IsTyped parent ident i analyzer = λ _ _ _ _ _ _ _ _. (
    refl,
    then-IsTyped (present (insert_node parent ident i) analyzer.node) _
        (present-IsTyped _ analyzer.node (insert_node-IsTyped parent ident i))
        (present-IsTyped _ analyzer.process (insert_process-IsTyped parent ident i)),
  )

  pub insert_reference-IsTyped :
      (ident : ℕ) (i : ℕ) (reference : Reference)
      → IsTyped {c = c} (insert_reference ident i reference)
  unfolding IsTyped insert_reference all_suit column_names
  insert_reference-IsTyped ident i reference = λ _ _ _ _. (refl, tt)

  pub insert_impact-IsTyped :
      (ident : ℕ) (impact : Impact) → IsTyped {c = c} (insert_impact ident impact)
  unfolding IsTyped insert_impact all_suit column_names
  insert_impact-IsTyped ident impact = λ _ _ _ _. (refl, tt)

  pub insert_action-IsTyped :
      (ident : ℕ) (i : ℕ) (action : Action) → IsTyped {c = c} (insert_action ident i action)
  unfolding IsTyped insert_action all_suit column_names
  insert_action-IsTyped ident i action = λ _ _. (refl, tt)

  pub insert_confidence-IsTyped :
      (ident : ℕ) (confidence : Confidence) → IsTyped {c = c} (insert_confidence ident confidence)
  unfolding IsTyped insert_confidence all_suit column_names
  insert_confidence-IsTyped ident confidence = λ _. (refl, tt)

  pub insert_assessment-IsTyped :
      (ident : ℕ) (a : Assessment) → IsTyped {c = c} (insert_assessment ident a)
  unfolding IsTyped insert_assessment all_suit column_names
  insert_assessment-IsTyped ident a = (
    refl,
    then-IsTyped (present (insert_impact ident) a.impact) _
        (present-IsTyped _ a.impact (insert_impact-IsTyped ident))
        (then-IsTyped (present (insert_confidence ident) a.confidence) _
          (present-IsTyped _ a.confidence (insert_confidence-IsTyped ident))
          (indexed-IsTyped _ a.actions (insert_action-IsTyped ident))),
  )

  pub insert_alertident-IsTyped :
      (parent : ℕ) (ident : ℕ) (i : ℕ) (item : Alertident)
      → IsTyped {c = c} (insert_alertident parent ident i item)
  unfolding IsTyped insert_alertident all_suit column_names
  insert_alertident-IsTyped parent ident i item = λ _ _. (refl, tt)

  pub insert_correlation_alert-IsTyped :
      (ident : ℕ) (alert : CorrelationAlert)
      → IsTyped {c = c} (insert_correlation_alert ident alert)
  unfolding IsTyped insert_correlation_alert all_suit column_names
  insert_correlation_alert-IsTyped ident alert =
      λ _. (refl, indexed-IsTyped _ alert.alertidents (insert_alertident-IsTyped b'C' ident))
