-- ===== src/Classic/Insert/Node.antt =====
-- plugins/format/classic/classic-insert.c: nodes, users and processes.
use librequiemdb.Base.{ℕ, Bool, ◌∷◌, []}
use librequiemdb.Error.{raw}
use librequiemdb.Message.{Text, Address, Node, UserId, User, Process}
use librequiemdb.Program.{
  Program, ◌>>=◌, ◌>>◌, escaped, escaped_or, inserted, each, indexed, letter, number, index, text,
}
use librequiemdb.Classic.Insert.Common.{get_string, get_optional_uint, get_optional_int32}

module _ {c : Bool} where
  unfoldable pub insert_address : ℕ → ℕ → ℕ → ℕ → Address → Program c (Unit {0})
  unfolding ◌>>=◌ get_string get_optional_int32
  insert_address parent_type message_ident parent_index address_index address = do
    category ← escaped address.category
    ident ← escaped (get_string address.ident)
    addr ← escaped (get_string address.address)
    netmask ← escaped (get_string address.netmask)
    vlan_name ← escaped (get_string address.vlan_name)
    inserted "Requiem_Address"
        "_parent_type, _message_ident, _parent0_index, _index,ident, category, vlan_name, vlan_num, address, netmask"
        (letter parent_type
          ∷ number message_ident
          ∷ index parent_index
          ∷ index address_index
          ∷ text ident
          ∷ text category
          ∷ text vlan_name
          ∷ text (get_optional_int32 16 address.vlan_num)
          ∷ text addr
          ∷ text netmask
          ∷ [])

  unfoldable pub insert_node : ℕ → ℕ → ℕ → Node → Program c (Unit {0})
  unfolding ◌>>=◌ get_string indexed insert_address
  insert_node parent_type message_ident parent_index node = do
    category ← escaped node.category
    ident ← escaped (get_string node.ident)
    name ← escaped (get_string node.name)
    location ← escaped_or (raw 1) (get_string node.location)
    inserted "Requiem_Node"
        "_parent_type, _message_ident, _parent0_index, ident, category, location, name"
        (letter parent_type
          ∷ number message_ident
          ∷ index parent_index
          ∷ text ident
          ∷ text category
          ∷ text location
          ∷ text name
          ∷ [])
    indexed (insert_address parent_type message_ident parent_index) node.addresses

  unfoldable pub insert_user_id : ℕ → ℕ → ℕ → ℕ → ℕ → ℕ → UserId → Program c (Unit {0})
  unfolding ◌>>=◌ get_string get_optional_uint
  insert_user_id parent_type message_ident parent_index file_index file_access_index i user_id = do
    ident ← escaped (get_string user_id.ident)
    tty ← escaped (get_string user_id.tty)
    type ← escaped user_id.type
    name ← escaped (get_string user_id.name)
    inserted "Requiem_UserId"
        "_parent_type, _message_ident, _parent0_index, _parent1_index, _parent2_index, _index, ident, type, name, number, tty"
        (letter parent_type
          ∷ number message_ident
          ∷ index parent_index
          ∷ index file_index
          ∷ index file_access_index
          ∷ index i
          ∷ text ident
          ∷ text type
          ∷ text name
          ∷ text (get_optional_uint 16 user_id.number)
          ∷ text tty
          ∷ [])

  unfoldable pub insert_user : ℕ → ℕ → ℕ → User → Program c (Unit {0})
  unfolding ◌>>=◌ get_string indexed insert_user_id
  insert_user parent_type message_ident parent_index user = do
    ident ← escaped (get_string user.ident)
    category ← escaped user.category
    inserted "Requiem_User" "_parent_type, _message_ident, _parent0_index, ident, category" (
        letter parent_type
        ∷ number message_ident
        ∷ index parent_index
        ∷ text ident
        ∷ text category
        ∷ [])
    indexed (insert_user_id parent_type message_ident parent_index 0 0) user.user_ids

  unfoldable pub insert_process_arg : ℕ → ℕ → ℕ → ℕ → Text → Program c (Unit {0})
  unfolding ◌>>=◌ get_string
  insert_process_arg parent_type message_ident parent_index arg_index arg = do
    tmp ← escaped (get_string arg)
    inserted "Requiem_ProcessArg" "_parent_type, _message_ident, _parent0_index, _index, arg" (
        letter parent_type
        ∷ number message_ident
        ∷ index parent_index
        ∷ index arg_index
        ∷ text tmp
        ∷ [])

  unfoldable pub insert_process_env : ℕ → ℕ → ℕ → ℕ → Text → Program c (Unit {0})
  unfolding ◌>>=◌ get_string
  insert_process_env parent_type message_ident parent_index env_index env = do
    tmp ← escaped (get_string env)
    inserted "Requiem_ProcessEnv" "_parent_type, _message_ident, _parent0_index, _index, env" (
        letter parent_type
        ∷ number message_ident
        ∷ index parent_index
        ∷ index env_index
        ∷ text tmp
        ∷ [])

  -- The last argument and the last variable are not inserted at -1.
  unfoldable pub insert_process : ℕ → ℕ → ℕ → Process → Program c (Unit {0})
  unfolding ◌>>=◌ get_string get_optional_uint each insert_process_arg insert_process_env
  insert_process parent_type message_ident parent_index process = do
    ident ← escaped (get_string process.ident)
    name ← escaped (get_string process.name)
    path ← escaped (get_string process.path)
    inserted "Requiem_Process"
        "_parent_type, _message_ident, _parent0_index, ident, name, pid, path"
        (letter parent_type
          ∷ number message_ident
          ∷ index parent_index
          ∷ text ident
          ∷ text name
          ∷ text (get_optional_uint 16 process.pid)
          ∷ text path
          ∷ [])
    each 0 (insert_process_arg parent_type message_ident parent_index) process.args
    each 0 (insert_process_env parent_type message_ident parent_index) process.envs
