-- ===== src/Classic/Insert/File.antt =====
-- plugins/format/classic/classic-insert.c: the files of a target.
use librequiemdb.Base.{ℕ, Bool, ◌∷◌, [], none, some}
use librequiemdb.Error.{raw}
use librequiemdb.Message.{Text, Inode, Linkage, FileAccess, Checksum, File}
use librequiemdb.Time.{Clock}
use librequiemdb.Program.{
  Program, ◌>>=◌, ◌>>◌, escaped, inserted, indexed, present, number, index, text,
}
use librequiemdb.Classic.Insert.Common.{get_string, get_optional_enum, get_optional_uint, timestamp}
use librequiemdb.Classic.Insert.Node.{insert_user_id}

module _ {c : Bool} (clock : Clock) where
  unfoldable pub insert_inode : ℕ → ℕ → ℕ → Inode → Program c (Unit {0})
  unfolding ◌>>=◌ get_optional_uint
  insert_inode message_ident target_index file_index inode = do
    change ← timestamp clock (some (raw 1)) inode.change_time
    inserted "Requiem_Inode"
        "_message_ident, _parent0_index, _parent1_index, change_time, change_time_gmtoff, number, major_device, minor_device, c_major_device, c_minor_device"
        (number message_ident
          ∷ index target_index
          ∷ index file_index
          ∷ text change.time
          ∷ text change.gmtoff
          ∷ text (get_optional_uint 16 inode.number)
          ∷ text (get_optional_uint 16 inode.major_device)
          ∷ text (get_optional_uint 16 inode.minor_device)
          ∷ text (get_optional_uint 16 inode.c_major_device)
          ∷ text (get_optional_uint 16 inode.c_minor_device)
          ∷ [])

module _ {c : Bool} where
  unfoldable pub insert_linkage : ℕ → ℕ → ℕ → ℕ → Linkage → Program c (Unit {0})
  unfolding ◌>>=◌ get_string
  insert_linkage message_ident target_index file_index i linkage = do
    category ← escaped linkage.category
    name ← escaped (get_string linkage.name)
    path ← escaped (get_string linkage.path)
    inserted "Requiem_Linkage"
        "_message_ident, _parent0_index, _parent1_index, _index, category, name, path"
        (number message_ident
          ∷ index target_index
          ∷ index file_index
          ∷ index i
          ∷ text category
          ∷ text name
          ∷ text path
          ∷ [])

  unfoldable pub insert_file_access_permission : ℕ → ℕ → ℕ → ℕ → ℕ → Text → Program c (Unit {0})
  unfolding ◌>>=◌ get_string
  insert_file_access_permission message_ident target_index file_index file_access_index perm_index
        perm =
      do
        tmp ← escaped (get_string perm)
        inserted "Requiem_FileAccess_Permission"
            "_message_ident, _parent0_index, _parent1_index, _parent2_index, _index, permission"
            (number message_ident
              ∷ index target_index
              ∷ index file_index
              ∷ index file_access_index
              ∷ index perm_index
              ∷ text tmp
              ∷ [])

  unfoldable pub insert_file_access : ℕ → ℕ → ℕ → ℕ → FileAccess → Program c (Unit {0})
  unfolding ◌>>=◌ indexed insert_file_access_permission insert_user_id
  insert_file_access message_ident target_index file_index file_access_index access = do
    inserted "Requiem_FileAccess" "_message_ident, _parent0_index, _parent1_index, _index" (
        number message_ident ∷ index target_index ∷ index file_index ∷ index file_access_index ∷ [])
    indexed (insert_file_access_permission message_ident target_index file_index file_access_index)
        access.permissions
    insert_user_id b'F' message_ident target_index file_index file_access_index 0 access.user_id

  unfoldable pub insert_checksum : ℕ → ℕ → ℕ → ℕ → Checksum → Program c (Unit {0})
  unfolding ◌>>=◌ get_string
  insert_checksum message_ident target_index file_index checksum_index checksum = do
    value ← escaped (get_string checksum.value)
    key ← escaped (get_string checksum.key)
    algorithm ← escaped checksum.algorithm
    inserted "Requiem_Checksum"
        "_message_ident, _parent0_index, _parent1_index, _index, value, checksum_key, algorithm"
        (number message_ident
          ∷ index target_index
          ∷ index file_index
          ∷ index checksum_index
          ∷ text value
          ∷ text key
          ∷ text algorithm
          ∷ [])

module _ {c : Bool} (clock : Clock) where
  unfoldable pub insert_file : ℕ → ℕ → ℕ → File → Program c (Unit {0})
  unfolding ◌>>=◌ get_string get_optional_enum get_optional_uint indexed insert_file_access
      insert_linkage insert_inode insert_checksum
  insert_file message_ident target_index file_index file = do
    ctime ← timestamp clock none file.create_time
    mtime ← timestamp clock none file.modify_time
    atime ← timestamp clock none file.access_time
    category ← escaped file.category
    ident ← escaped (get_string file.ident)
    name ← escaped (get_string file.name)
    path ← escaped (get_string file.path)
    file_type ← escaped (get_string file.file_type)
    fstype ← escaped (get_optional_enum file.fstype)
    inserted "Requiem_File"
        "_message_ident, _parent0_index, _index, ident, category, name, path, create_time, create_time_gmtoff, modify_time, modify_time_gmtoff, access_time, access_time_gmtoff, data_size, disk_size, fstype, file_type"
        (number message_ident
          ∷ index target_index
          ∷ index file_index
          ∷ text ident
          ∷ text category
          ∷ text name
          ∷ text path
          ∷ text ctime.time
          ∷ text ctime.gmtoff
          ∷ text mtime.time
          ∷ text mtime.gmtoff
          ∷ text atime.time
          ∷ text atime.gmtoff
          ∷ text (get_optional_uint 32 file.data_size)
          ∷ text (get_optional_uint 32 file.disk_size)
          ∷ text fstype
          ∷ text file_type
          ∷ [])
    indexed (insert_file_access message_ident target_index file_index) file.file_accesses
    indexed (insert_linkage message_ident target_index file_index) file.linkages
    present (insert_inode clock message_ident target_index file_index) file.inode
    indexed (insert_checksum message_ident target_index file_index) file.checksums
