-- ===== src/Classic/Get/Service.antt =====
-- plugins/format/classic/classic-get.c: services.
use librequiemdb.Base.{ℕ, ◌++◌, List, Option, some, none}
use librequiemdb.Error.{Result, ok, err}
use librequiemdb.Message.{
  Text, WebService, SnmpService, ServiceType, default_service, web_service, snmp_service, Service,
}
use librequiemdb.Reading.{
  Reading, ret, ask, fetch, found, kept, ◌>>=◌, one, many, select, of_parent, at, in_order,
}
use librequiemdb.Classic.Get.Common.{Outside, get_string, get_uint8, get_uint16, get_uint32}

-- A service of another type replaces the one that was there.
abbrev pub service_type : Option WebService → Option SnmpService → ServiceType
service_type w (some s) = snmp_service (some s)
service_type (some w) none = web_service (some w)
service_type none none = default_service

module _ {Res Row : Type 0} (o : Outside) where
  unfoldable pub get_web_service_arg : ℕ → ℕ → ℕ → Reading Res Row (List Text)
  unfolding many get_string
  get_web_service_arg message_ident parent_type parent_index =
      many o.fuel
        (select "arg" "Requiem_WebServiceArg"
          ++ (of_parent parent_type message_ident
              ++ (at "_parent0_index" parent_index ++ in_order)))
        (λ res row. get_string o res row 0)

  abbrev pub web_service_row : ℕ → ℕ → ℕ → Res → Row → Reading Res Row WebService
  web_service_row message_ident parent_type parent_index res row = do
    url ← get_string o res row 0
    cgi ← get_string o res row 1
    http_method ← get_string o res row 2
    args ← get_web_service_arg message_ident parent_type parent_index
    ret (record { url = url; cgi = cgi; http_method = http_method; args = args })

  unfoldable pub get_web_service : ℕ → ℕ → ℕ → Reading Res Row (Option WebService)
  unfolding one
  get_web_service message_ident parent_type parent_index =
      one
        (select "url, cgi, http_method" "Requiem_WebService"
          ++ (of_parent parent_type message_ident ++ at "_parent0_index" parent_index))
        (web_service_row message_ident parent_type parent_index)

  abbrev pub snmp_service_row : Res → Row → Reading Res Row SnmpService
  snmp_service_row res row = do
    oid ← get_string o res row 0
    message_processing_model ← get_uint32 o res row 1
    security_model ← get_uint32 o res row 2
    security_name ← get_string o res row 3
    security_level ← get_uint32 o res row 4
    context_name ← get_string o res row 5
    context_engine_id ← get_string o res row 6
    command ← get_string o res row 7
    ret (record {
      oid = oid;
      message_processing_model = message_processing_model;
      security_model = security_model;
      security_name = security_name;
      security_level = security_level;
      context_name = context_name;
      context_engine_id = context_engine_id;
      command = command;
    })

  unfoldable pub get_snmp_service : ℕ → ℕ → ℕ → Reading Res Row (Option SnmpService)
  unfolding one
  get_snmp_service message_ident parent_type parent_index =
      one
        (select
            "snmp_oid, message_processing_model, security_model, security_name, security_level, context_name, context_engine_id, command"
            "Requiem_SnmpService"
          ++ (of_parent parent_type message_ident ++ at "_parent0_index" parent_index))
        snmp_service_row

  abbrev pub service_row : ℕ → ℕ → ℕ → Res → Row → Reading Res Row Service
  service_row message_ident parent_type parent_index res row = do
    ident ← get_string o res row 0
    ip_version ← get_uint8 o res row 1
    name ← get_string o res row 2
    port ← get_uint16 o res row 3
    iana_protocol_number ← get_uint8 o res row 4
    iana_protocol_name ← get_string o res row 5
    portlist ← get_string o res row 6
    protocol ← get_string o res row 7
    web ← get_web_service message_ident parent_type parent_index
    snmp ← get_snmp_service message_ident parent_type parent_index
    ret (record {
      ident = ident;
      ip_version = ip_version;
      name = name;
      port = port;
      iana_protocol_number = iana_protocol_number;
      iana_protocol_name = iana_protocol_name;
      portlist = portlist;
      protocol = protocol;
      type = service_type web snmp;
    })

  -- The error of the query is not passed on.
  abbrev pub found_anyway :
      (Res → Reading Res Row (Option Service))
      → Result (Option Res)
      → Reading Res Row (Option Service)
  found_anyway k (err e) = ret none
  found_anyway k (ok none) = ret none
  found_anyway k (ok (some res)) = k res

  unfoldable pub get_service : ℕ → ℕ → ℕ → Reading Res Row (Option Service)
  unfolding ◌>>=◌
  get_service message_ident parent_type parent_index =
      ask
        (select
            "ident, ip_version, name, port, iana_protocol_number, iana_protocol_name, portlist, protocol"
            "Requiem_Service"
          ++ (of_parent parent_type message_ident ++ at "_parent0_index" parent_index))
        (found_anyway λ res.
          fetch res
            (found λ row. kept (service_row message_ident parent_type parent_index res row)))
