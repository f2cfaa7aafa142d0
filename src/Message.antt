-- ===== src/Message.antt =====
-- The messages of librequiem, `idmef_message_t`, as the getters of librequiem give them. An
-- enumeration is the text that its `_to_string` function gives, a number that is not there is `none`,
-- and the items of a list are in the order of its `_get_next_` function.
use librequiemdb.Base.{ℕ, List, Option, Bytes}

-- A `requiem_string_t *`: NULL, or a string, which may have no content.
abbrev pub Text : Type 0
Text = Option (Option Bytes)

-- The text of an enumeration, NULL for an unknown value.
abbrev pub Enum : Type 0
Enum = Option Bytes

-- `idmef_time_t`: the seconds, the GMT offset as a number of 32 bits, and the microseconds.
pub record Time : Type 0 where
  pub sec : ℕ
  pub gmt_offset : ℕ
  pub usec : ℕ

-- `idmef_data_t` by its type; the last is the text that `idmef_data_to_string` gives.
pub data Data : Type 0 where
  byte byte_string char_string char_data : Bytes → Data
  other_data : Bytes → Data

pub record Address : Type 0 where
  pub ident : Text
  pub category : Enum
  pub vlan_name : Text
  pub vlan_num : Option ℕ
  pub address : Text
  pub netmask : Text

pub record Node : Type 0 where
  pub ident : Text
  pub category : Enum
  pub location : Text
  pub name : Text
  pub addresses : List Address

pub record UserId : Type 0 where
  pub ident : Text
  pub type : Enum
  pub tty : Text
  pub name : Text
  pub number : Option ℕ

pub record User : Type 0 where
  pub ident : Text
  pub category : Enum
  pub user_ids : List UserId

pub record Process : Type 0 where
  pub ident : Text
  pub name : Text
  pub pid : Option ℕ
  pub path : Text
  pub args : List Text
  pub envs : List Text

pub record WebService : Type 0 where
  pub url : Text
  pub cgi : Text
  pub http_method : Text
  pub args : List Text

pub record SnmpService : Type 0 where
  pub oid : Text
  pub message_processing_model : Option ℕ
  pub security_model : Option ℕ
  pub security_name : Text
  pub security_level : Option ℕ
  pub context_name : Text
  pub context_engine_id : Text
  pub command : Text

-- `idmef_service_get_type` with the service of that type.
pub data ServiceType : Type 0 where
  default_service : ServiceType
  web_service : Option WebService → ServiceType
  snmp_service : Option SnmpService → ServiceType
  unknown_service : ServiceType

pub record Service : Type 0 where
  pub ident : Text
  pub ip_version : Option ℕ
  pub name : Text
  pub port : Option ℕ
  pub iana_protocol_number : Option ℕ
  pub iana_protocol_name : Text
  pub portlist : Text
  pub protocol : Text
  pub type : ServiceType

pub record Inode : Type 0 where
  pub change_time : Option Time
  pub number : Option ℕ
  pub major_device : Option ℕ
  pub minor_device : Option ℕ
  pub c_major_device : Option ℕ
  pub c_minor_device : Option ℕ

pub record Linkage : Type 0 where
  pub category : Enum
  pub name : Text
  pub path : Text

pub record FileAccess : Type 0 where
  pub permissions : List Text
  pub user_id : UserId

pub record Checksum : Type 0 where
  pub value : Text
  pub key : Text
  pub algorithm : Enum

-- The type of the file system is an optional enumeration.
pub record File : Type 0 where
  pub ident : Text
  pub category : Enum
  pub name : Text
  pub path : Text
  pub create_time : Option Time
  pub modify_time : Option Time
  pub access_time : Option Time
  pub data_size : Option ℕ
  pub disk_size : Option ℕ
  pub fstype : Option Enum
  pub file_type : Text
  pub file_accesses : List FileAccess
  pub linkages : List Linkage
  pub inode : Option Inode
  pub checksums : List Checksum

pub record Source : Type 0 where
  pub ident : Text
  pub spoofed : Enum
  pub interface : Text
  pub node : Option Node
  pub user : Option User
  pub process : Option Process
  pub service : Option Service

pub record Target : Type 0 where
  pub ident : Text
  pub decoy : Enum
  pub interface : Text
  pub node : Option Node
  pub user : Option User
  pub process : Option Process
  pub service : Option Service
  pub files : List File

pub record Analyzer : Type 0 where
  pub analyzerid : Text
  pub name : Text
  pub manufacturer : Text
  pub model : Text
  pub version : Text
  pub class : Text
  pub ostype : Text
  pub osversion : Text
  pub node : Option Node
  pub process : Option Process

pub record Reference : Type 0 where
  pub origin : Enum
  pub name : Text
  pub url : Text
  pub meaning : Text

pub record Classification : Type 0 where
  pub ident : Text
  pub text : Text
  pub references : List Reference

pub record AdditionalData : Type 0 where
  pub type : Enum
  pub meaning : Text
  pub data_of : Data

pub record Impact : Type 0 where
  pub severity : Option Enum
  pub completion : Option Enum
  pub type : Enum
  pub description : Text

pub record Action : Type 0 where
  pub category : Enum
  pub description : Text

-- The confidence as `%f` prints it.
pub record Confidence : Type 0 where
  pub rating : Enum
  pub confidence : Bytes

pub record Assessment : Type 0 where
  pub impact : Option Impact
  pub confidence : Option Confidence
  pub actions : List Action

pub record OverflowAlert : Type 0 where
  pub program : Text
  pub size : Option ℕ
  pub buffer : Data

pub record Alertident : Type 0 where
  pub alertident : Text
  pub analyzerid : Text

pub record ToolAlert : Type 0 where
  pub name : Text
  pub command : Text
  pub alertidents : List Alertident

pub record CorrelationAlert : Type 0 where
  pub name : Text
  pub alertidents : List Alertident

-- `idmef_alert_get_type` with the alert of that type.
pub data AlertType : Type 0 where
  default_alert : AlertType
  tool_alert : Option ToolAlert → AlertType
  overflow_alert : OverflowAlert → AlertType
  correlation_alert : Option CorrelationAlert → AlertType
  unknown_alert : AlertType

pub record Alert : Type 0 where
  pub messageid : Text
  pub create_time : Option Time
  pub detect_time : Option Time
  pub analyzer_time : Option Time
  pub assessment : Option Assessment
  pub type : AlertType
  pub analyzers : List Analyzer
  pub sources : List Source
  pub targets : List Target
  pub classification : Option Classification
  pub additional_data : List AdditionalData

pub record Heartbeat : Type 0 where
  pub messageid : Text
  pub heartbeat_interval : Option ℕ
  pub create_time : Option Time
  pub analyzer_time : Option Time
  pub analyzers : List Analyzer
  pub additional_data : List AdditionalData

-- `idmef_message_get_type` with the message of that type.
pub data Message : Type 0 where
  alert_message : Option Alert → Message
  heartbeat_message : Option Heartbeat → Message
  unknown_message : Message
