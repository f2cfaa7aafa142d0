-- ===== src/Classic/Get/File.antt =====
-- plugins/format/classic/classic-get.c: files.
use librequiemdb.Base.{ℕ, zero, suc, ◌+◌, ◌++◌, List, [], ◌∷◌, Option, some, none, Bytes}
use librequiemdb.Error.{Result}
use librequiemdb.Field.{field_to_uint32}
use librequiemdb.Message.{Text, UserId, FileAccess, Linkage, Inode, Checksum, File}
use librequiemdb.Reading.{
  Reading, ret, ask, fetch, field, fail, lift, ◌>>=◌, asked, one, many, many_then, select,
  of_message, at, listed, in_order,
}
use librequiemdb.Classic.Get.Common.{
  Outside, get_string, get_enum, get_optional_enum, get_uint32, get_timestamp, user_id_type,
  linkage_category, checksum_algorithm, file_category, file_fstype,
}
use librequiemdb.Classic.Get.Node.{get_user_id}

-- Where the rows of a file's part are.
abbrev pub of_file : ℕ → ℕ → ℕ → Bytes
of_file message_ident target_index file_index =
    of_message message_ident ++ (at "_parent0_index" target_index ++ at "_parent1_index" file_index)

-- `idmef_user_id_t` in a new object
abbrev pub new_user_id : Outside → UserId
new_user_id o = record {
  ident = none;
  type = o.initial user_id_type;
  tty = none;
  name = none;
  number = none;
}

-- Each row replaces the object of the row before it.
abbrev pub last_or : UserId → List UserId → UserId
last_or u [] = u
last_or u (v ∷ vs) = last_or v vs

module _ {Res Row : Type 0} (o : Outside) where
  unfoldable pub get_file_access_permission : ℕ → ℕ → ℕ → ℕ → Reading Res Row (List Text)
  unfolding many get_string
  get_file_access_permission message_ident target_index file_index file_access_index =
      many o.fuel
        (select "permission" "Requiem_FileAccess_Permission"
          ++ (of_file message_ident target_index file_index
              ++ (at "_parent2_index" file_access_index ++ in_order)))
        (λ res row. get_string o res row 0)

  -- One round of the loop.
  abbrev pub file_access_at : ℕ → ℕ → ℕ → ℕ → Reading Res Row FileAccess
  file_access_at message_ident target_index file_index cnt = do
    users ← get_user_id o message_ident b'F' target_index file_index cnt
    permissions ← get_file_access_permission message_ident target_index file_index cnt
    ret (record { permissions = permissions; user_id = last_or (new_user_id o) users })

  -- `for ( cnt = 0; cnt < file_access_count; cnt++ )`
  unfoldable pub file_accesses :
      ℕ → ℕ → (ℕ → Reading Res Row FileAccess) → Reading Res Row (List FileAccess)
  unfolding ◌>>=◌
  file_accesses zero cnt f = ret []
  file_accesses (suc n) cnt f =
      f cnt >>= λ a. file_accesses n (cnt + 1) f >>= λ more. ret (a ∷ more)

  abbrev pub counted : ℕ → ℕ → ℕ → Option Bytes → Reading Res Row (List FileAccess)
  counted message_ident target_index file_index none = ret []
  counted message_ident target_index file_index (some v) =
      lift (field_to_uint32 o.old v) >>= λ count.
      file_accesses count 0 (file_access_at message_ident target_index file_index)

  abbrev pub count_of : ℕ → ℕ → ℕ → Res → Result (Option Row) → Reading Res Row (List FileAccess)
  count_of message_ident target_index file_index res (Result.err e) = fail e
  count_of message_ident target_index file_index res (Result.ok none) = ret []
  count_of message_ident target_index file_index res (Result.ok (some row)) =
      field res row 0 (counted message_ident target_index file_index)

  unfoldable pub get_file_access : ℕ → ℕ → ℕ → Reading Res Row (List FileAccess)
  get_file_access message_ident target_index file_index =
      ask
        (select "COUNT(*)" "Requiem_FileAccess"
          ++ (of_file message_ident target_index file_index ++ listed))
        (asked λ res. fetch res (count_of message_ident target_index file_index res))

  abbrev pub linkage_row : Res → Row → Reading Res Row Linkage
  linkage_row res row = do
    category ← get_enum o linkage_category res row 0
    name ← get_string o res row 1
    path ← get_string o res row 2
    ret (record { category = category; name = name; path = path })

  unfoldable pub get_linkage : ℕ → ℕ → ℕ → Reading Res Row (List Linkage)
  unfolding many
  get_linkage message_ident target_index file_index =
      many o.fuel
        (select "category, name, path" "Requiem_Linkage"
          ++ (of_file message_ident target_index file_index ++ in_order))
        linkage_row

  abbrev pub inode_row : Res → Row → Reading Res Row Inode
  inode_row res row = do
    change_time ← get_timestamp o res row 0 1 none
    number ← get_uint32 o res row 2
    major_device ← get_uint32 o res row 3
    minor_device ← get_uint32 o res row 4
    c_major_device ← get_uint32 o res row 5
    c_minor_device ← get_uint32 o res row 6
    ret (record {
      change_time = change_time;
      number = number;
      major_device = major_device;
      minor_device = minor_device;
      c_major_device = c_major_device;
      c_minor_device = c_minor_device;
    })

  unfoldable pub get_inode : ℕ → ℕ → ℕ → Reading Res Row (Option Inode)
  unfolding one
  get_inode message_ident target_index file_index =
      one
        (select
            "change_time, change_time_gmtoff, number, major_device, minor_device, c_major_device, c_minor_device"
            "Requiem_Inode"
          ++ of_file message_ident target_index file_index)
        inode_row

  abbrev pub checksum_row : Res → Row → Reading Res Row Checksum
  checksum_row res row = do
    value ← get_string o res row 0
    key ← get_string o res row 1
    algorithm ← get_enum o checksum_algorithm res row 2
    ret (record { value = value; key = key; algorithm = algorithm })

  unfoldable pub get_checksum : ℕ → ℕ → ℕ → Reading Res Row (List Checksum)
  unfolding many
  get_checksum message_ident target_index file_index =
      many o.fuel
        (select "value, checksum_key, algorithm" "Requiem_Checksum"
          ++ (of_file message_ident target_index file_index ++ in_order))
        checksum_row

  -- The file with what its own row has.
  abbrev pub file_row : Res → Row → Reading Res Row File
  file_row res row = do
    ident ← get_string o res row 0
    category ← get_enum o file_category res row 1
    name ← get_string o res row 2
    path ← get_string o res row 3
    create_time ← get_timestamp o res row 4 5 none
    modify_time ← get_timestamp o res row 6 7 none
    access_time ← get_timestamp o res row 8 9 none
    data_size ← get_uint32 o res row 10
    disk_size ← get_uint32 o res row 11
    fstype ← get_optional_enum o file_fstype res row 12
    file_type ← get_string o res row 13
    ret (record {
      ident = ident;
      category = category;
      name = name;
      path = path;
      create_time = create_time;
      modify_time = modify_time;
      access_time = access_time;
      data_size = data_size;
      disk_size = disk_size;
      fstype = fstype;
      file_type = file_type;
      file_accesses = [];
      linkages = [];
      inode = none;
      checksums = [];
    })

  abbrev pub file_parts : ℕ → ℕ → ℕ → File → Reading Res Row File
  file_parts message_ident target_index cnt file = do
    accesses ← get_file_access message_ident target_index cnt
    linkages ← get_linkage message_ident target_index cnt
    inode ← get_inode message_ident target_index cnt
    checksums ← get_checksum message_ident target_index cnt
    ret (record file {
      file_accesses = accesses;
      linkages = linkages;
      inode = inode;
      checksums = checksums;
    })

  unfoldable pub get_file : ℕ → ℕ → Reading Res Row (List File)
  unfolding many_then
  get_file message_ident target_index =
      many_then o.fuel
        (select
            "ident, category, name, path, create_time, create_time_gmtoff, modify_time, modify_time_gmtoff, access_time, access_time_gmtoff, data_size, disk_size, fstype, file_type"
            "Requiem_File"
          ++ (of_message message_ident ++ (at "_parent0_index" target_index ++ in_order)))
        file_row (file_parts message_ident target_index)
