-- ===== src/Idmef.antt =====
-- The paths of librequiem, `idmef_path_t`, which the program only reads.
use librequiemdb.Base.{ℕ, Bool, true, ◌≡◌, ◌==◌, ◌+◌, Bytes}

-- `idmef_class_id_t`: the classes that the program names, and the others by their number.
pub data Class : Type 0 where
  alert heartbeat classification assessment overflow_alert tool_alert correlation_alert : Class
  source target file file_access user_id alertident process snmp_service web_service : Class
  checksum : Class
  other : ℕ → Class

-- A number of one's own for each class, for the tests of the program.
abbrev pub class_code : Class → ℕ
class_code alert = 0
class_code heartbeat = 1
class_code classification = 2
class_code assessment = 3
class_code overflow_alert = 4
class_code tool_alert = 5
class_code correlation_alert = 6
class_code source = 7
class_code target = 8
class_code file = 9
class_code file_access = 10
class_code user_id = 11
class_code alertident = 12
class_code process = 13
class_code snmp_service = 14
class_code web_service = 15
class_code checksum = 16
class_code (other n) = 17 + n

abbrev pub same_class : Class → Class → Bool
same_class a b = class_code a == class_code b

-- The result of `idmef_path_get_index`: an index, -1 for the last item, or one of two errors.
pub data Index : Type 0 where
  at : ℕ → Index
  last undefined forbidden : Index

pub record Paths : Type 1 where
  pub Path' : Type 0
  pub depth : Path' → ℕ
  pub class_of : Path' → ℕ → Class
  pub class_name : Path' → ℕ → Bytes
  pub name : Path' → ℕ → Bytes
  pub index : Path' → ℕ → Index
  -- whether the value of the last element is a time
  pub is_time : Path' → Bool
  -- `idmef_path_compare` and `idmef_path_ncompare` with the result 0
  pub compare : Path' → Path' → Bool
  pub ncompare : Path' → Path' → ℕ → Bool

-- A path compares equal to itself.
pub record Compares (paths : Paths) : Type 0 where
  pub compare_self : (p : paths.Path') → paths.compare p p ≡ true
  pub ncompare_self : (p : paths.Path') (n : ℕ) → paths.ncompare p p n ≡ true
