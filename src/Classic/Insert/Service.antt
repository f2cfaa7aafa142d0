-- ===== src/Classic/Insert/Service.antt =====
-- plugins/format/classic/classic-insert.c: services. Where the escape of a service's identifier
-- fails, the source frees a variable that it has not set; the result is that error.
use librequiemdb.Base.{ℕ, Bool, false, ◌∷◌, []}
use librequiemdb.Error.{raw}
use librequiemdb.Message.{
  Text, WebService, SnmpService, Service, ServiceType, default_service, web_service, snmp_service,
  unknown_service,
}
use librequiemdb.Program.{
  Program, ret, fail, ◌>>=◌, ◌>>◌, escaped, escaped_or, inserted, inserted_anyway, indexed, present,
  letter, number, index, text,
}
use librequiemdb.Classic.Insert.Common.{get_string, get_optional_uint}

unfoldable pub insert_snmp_service : {c : Bool} → ℕ → ℕ → ℕ → SnmpService → Program c (Unit {0})
unfolding ◌>>=◌ get_string get_optional_uint
insert_snmp_service parent_type message_ident parent_index snmp = do
  oid ← escaped (get_string snmp.oid)
  security_name ← escaped (get_string snmp.security_name)
  context_name ← escaped (get_string snmp.context_name)
  context_engine_id ← escaped (get_string snmp.context_engine_id)
  command ← escaped (get_string snmp.command)
  inserted "Requiem_SnmpService"
      "_parent_type, _message_ident, _parent0_index, snmp_oid, message_processing_model, security_model, security_name, security_level, context_name, context_engine_id, command"
      (letter parent_type
        ∷ number message_ident
        ∷ index parent_index
        ∷ text oid
        ∷ text (get_optional_uint 12 snmp.message_processing_model)
        ∷ text (get_optional_uint 12 snmp.security_model)
        ∷ text security_name
        ∷ text (get_optional_uint 12 snmp.security_level)
        ∷ text context_name
        ∷ text context_engine_id
        ∷ text command
        ∷ [])

unfoldable pub insert_web_service_arg : {c : Bool} → ℕ → ℕ → ℕ → ℕ → Text → Program c (Unit {0})
unfolding ◌>>=◌ get_string
insert_web_service_arg parent_type message_ident parent_index arg_index arg = do
  tmp ← escaped (get_string arg)
  inserted "Requiem_WebServiceArg" "_parent_type, _message_ident, _parent0_index, _index, arg" (
      letter parent_type
      ∷ number message_ident
      ∷ index parent_index
      ∷ index arg_index
      ∷ text tmp
      ∷ [])

-- The result of the service's own insertion is overwritten or dropped.
unfoldable pub insert_web_service : ℕ → ℕ → ℕ → WebService → Program false (Unit {0})
unfolding ◌>>=◌ get_string indexed insert_web_service_arg
insert_web_service parent_type message_ident parent_index web = do
  url ← escaped (get_string web.url)
  cgi ← escaped_or (raw 1) (get_string web.cgi)
  method ← escaped (get_string web.http_method)
  _ ←
      inserted_anyway "Requiem_WebService"
        "_parent_type, _message_ident, _parent0_index, url, cgi, http_method"
        (letter parent_type
          ∷ number message_ident
          ∷ index parent_index
          ∷ text url
          ∷ text cgi
          ∷ text method
          ∷ [])
  indexed (insert_web_service_arg parent_type message_ident parent_index) web.args

-- The `switch` of `insert_service`.
abbrev pub insert_service_type : ℕ → ℕ → ℕ → ServiceType → Program false (Unit {0})
insert_service_type parent_type message_ident parent_index default_service = ret tt
insert_service_type parent_type message_ident parent_index (web_service web) =
    present (insert_web_service parent_type message_ident parent_index) web
insert_service_type parent_type message_ident parent_index (snmp_service snmp) =
    present (insert_snmp_service parent_type message_ident parent_index) snmp
insert_service_type parent_type message_ident parent_index unknown_service = fail (raw 1)

unfoldable pub insert_service : ℕ → ℕ → ℕ → Service → Program false (Unit {0})
unfolding ◌>>=◌ get_string get_optional_uint insert_web_service insert_snmp_service
insert_service parent_type message_ident parent_index service = do
  ident ← escaped (get_string service.ident)
  name ← escaped (get_string service.name)
  iana_protocol_name ← escaped (get_string service.iana_protocol_name)
  portlist ← escaped (get_string service.portlist)
  protocol ← escaped (get_string service.protocol)
  inserted "Requiem_Service"
      "_parent_type, _message_ident, _parent0_index, ident, ip_version, name, port, iana_protocol_number, iana_protocol_name, portlist, protocol"
      (letter parent_type
        ∷ number message_ident
        ∷ index parent_index
        ∷ text ident
        ∷ text (get_optional_uint 8 service.ip_version)
        ∷ text name
        ∷ text (get_optional_uint 8 service.port)
        ∷ text (get_optional_uint 8 service.iana_protocol_number)
        ∷ text iana_protocol_name
        ∷ text portlist
        ∷ text protocol
        ∷ [])
  insert_service_type parent_type message_ident parent_index service.type
