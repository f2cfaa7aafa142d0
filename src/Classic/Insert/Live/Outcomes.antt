-- ===== src/Classic/Insert/Live/Outcomes.antt =====
-- classic-insert.c: a heartbeat over a server that answers every call.
use librequiemdb.Base.{ℕ, true, ◌≡◌, ap, refl, Bytes, Option, none, some}
use librequiemdb.Error.{ok}
use librequiemdb.Message.{
  Address, Node, Process, Analyzer, AdditionalData, Data, byte, byte_string, char_string, char_data,
  other_data, Heartbeat, Time, Text,
}
use librequiemdb.Time.{Clock, Stamp, time_to_timestamp}
use librequiemdb.Program.{each, indexed, present, lift}
use librequiemdb.Program.Served.{outcome}
use librequiemdb.Program.Outcome.{
  Succeeds, outcome-bind, then-Succeeds, each-Succeeds, indexed-Succeeds, present-Succeeds,
}
use librequiemdb.Classic.Insert.Common.{get_data, timestamp}
use librequiemdb.Classic.Insert.Node.{
  insert_address, insert_node, insert_process_arg, insert_process_env, insert_process,
}
use librequiemdb.Classic.Insert.Source.{insert_analyzer}
use librequiemdb.Classic.Insert.Detail.{
  insert_additional_data, insert_createtime, insert_analyzertime,
}
use librequiemdb.Classic.Insert.{insert_heartbeat}

-- A time that the clock and the plugin can write.
abbrev pub IsWritable : Clock → Option Time → Type 0
IsWritable clock t = (stamp : Stamp) × (time_to_timestamp clock t ≡ ok stamp)

module _ (quoted quoted_binary : Bytes → Bytes) (n : ℕ) where
  pub insert_address-Succeeds :
      (parent ident i j : ℕ) (address : Address)
      → Succeeds quoted quoted_binary n {c = true} (insert_address parent ident i j address)
  unfolding insert_address outcome
  insert_address-Succeeds parent ident i j address = refl

  pub insert_node-Succeeds :
      (parent ident i : ℕ) (node : Node)
      → Succeeds quoted quoted_binary n {c = true} (insert_node parent ident i node)
  unfolding insert_node outcome
  insert_node-Succeeds parent ident i node =
      indexed-Succeeds quoted quoted_binary n (insert_address parent ident i) node.addresses
        (insert_address-Succeeds parent ident i)

  insert_process_arg-Succeeds :
      (parent ident i j : ℕ) (arg : Text)
      → Succeeds quoted quoted_binary n {c = true} (insert_process_arg parent ident i j arg)
  unfolding insert_process_arg outcome
  insert_process_arg-Succeeds parent ident i j arg = refl

  insert_process_env-Succeeds :
      (parent ident i j : ℕ) (env : Text)
      → Succeeds quoted quoted_binary n {c = true} (insert_process_env parent ident i j env)
  unfolding insert_process_env outcome
  insert_process_env-Succeeds parent ident i j env = refl

  insert_process-Succeeds :
      (parent ident i : ℕ) (process : Process)
      → Succeeds quoted quoted_binary n {c = true} (insert_process parent ident i process)
  unfolding insert_process outcome
  insert_process-Succeeds parent ident i process =
      then-Succeeds quoted quoted_binary n (each 0 (insert_process_arg parent ident i) process.args)
        (each 0 (insert_process_env parent ident i) process.envs)
        (each-Succeeds quoted quoted_binary n 0 (insert_process_arg parent ident i) process.args
          (insert_process_arg-Succeeds parent ident i))
        (each-Succeeds quoted quoted_binary n 0 (insert_process_env parent ident i) process.envs
          (insert_process_env-Succeeds parent ident i))

  insert_analyzer-Succeeds :
      (parent ident i : ℕ) (a : Analyzer)
      → Succeeds quoted quoted_binary n {c = true} (insert_analyzer parent ident i a)
  unfolding insert_analyzer outcome
  insert_analyzer-Succeeds parent ident i a =
      then-Succeeds quoted quoted_binary n (present (insert_node parent ident i) a.node)
        (present (insert_process parent ident i) a.process)
        (present-Succeeds quoted quoted_binary n (insert_node parent ident i) a.node
          (insert_node-Succeeds parent ident i))
        (present-Succeeds quoted quoted_binary n (insert_process parent ident i) a.process
          (insert_process-Succeeds parent ident i))

  get_data-outcome :
      (d : Data) → (t : Bytes) × (outcome quoted quoted_binary n {c = true} (get_data d) ≡ ok t)
  unfolding get_data outcome
  get_data-outcome (byte b) = (_, refl)
  get_data-outcome (byte_string b) = (_, refl)
  get_data-outcome (char_string b) = (_, refl)
  get_data-outcome (char_data b) = (_, refl)
  get_data-outcome (other_data t) = (_, refl)

  insert_additional_data-Succeeds :
      (parent ident i : ℕ) (ad : AdditionalData)
      → Succeeds quoted quoted_binary n {c = true} (insert_additional_data parent ident i ad)
  unfolding insert_additional_data outcome
  insert_additional_data-Succeeds parent ident i ad =
      let (t, e) = get_data-outcome ad.data_of in
      outcome-bind quoted quoted_binary n (get_data ad.data_of) _ t e

  timestamp-outcome :
      (clock : Clock) (t : Option Time) (h : IsWritable clock t)
      → outcome quoted quoted_binary n {c = true} (timestamp clock none t) ≡ ok h.0
  unfolding outcome
  timestamp-outcome clock t h =
      ap (λ r. outcome quoted quoted_binary n {c = true} (lift none r)) h.1

  insert_createtime-Succeeds :
      (clock : Clock) (parent ident : ℕ) (t : Option Time)
      → IsWritable clock t
      → Succeeds quoted quoted_binary n {c = true} (insert_createtime clock parent ident t)
  unfolding insert_createtime outcome
  insert_createtime-Succeeds clock parent ident t h =
      outcome-bind quoted quoted_binary n (timestamp clock none t) _ h.0
        (timestamp-outcome clock t h)

  insert_analyzertime-Succeeds :
      (clock : Clock) (parent ident : ℕ) (t : Option Time)
      → IsWritable clock t
      → Succeeds quoted quoted_binary n {c = true} (insert_analyzertime clock parent ident t)
  unfolding insert_analyzertime outcome
  insert_analyzertime-Succeeds clock parent ident none h = refl
  insert_analyzertime-Succeeds clock parent ident (some t) h =
      outcome-bind quoted quoted_binary n (timestamp clock none (some t)) _ h.0
        (timestamp-outcome clock (some t) h)

  pub insert_heartbeat-Succeeds :
      (clock : Clock) (h : Heartbeat)
      → IsWritable clock h.create_time
      → IsWritable clock h.analyzer_time
      → Succeeds quoted quoted_binary n (insert_heartbeat clock h)
  unfolding insert_heartbeat outcome
  insert_heartbeat-Succeeds clock h created analyzed =
      then-Succeeds quoted quoted_binary n (indexed (insert_analyzer b'H' n) h.analyzers) _
        (indexed-Succeeds quoted quoted_binary n (insert_analyzer b'H' n) h.analyzers
          (insert_analyzer-Succeeds b'H' n))
        (then-Succeeds quoted quoted_binary n (insert_createtime clock b'H' n h.create_time) _
          (insert_createtime-Succeeds clock b'H' n h.create_time created)
          (then-Succeeds quoted quoted_binary n (insert_analyzertime clock b'H' n h.analyzer_time) _
            (insert_analyzertime-Succeeds clock b'H' n h.analyzer_time analyzed)
            (indexed-Succeeds quoted quoted_binary n (insert_additional_data b'H' n)
              h.additional_data (insert_additional_data-Succeeds b'H' n))))
