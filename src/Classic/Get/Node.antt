-- ===== src/Classic/Get/Node.antt =====
-- plugins/format/classic/classic-get.c: nodes, users and processes.
use librequiemdb.Base.{ℕ, ◌++◌, List, Option}
use librequiemdb.Message.{Text, Address, Node, UserId, User, Process}
use librequiemdb.Reading.{Reading, ret, ◌>>=◌, one, many, select, of_parent, at, in_order, as_char}
use librequiemdb.Classic.Get.Common.{
  Outside, get_string, get_enum, get_uint32, user_id_type, user_category, address_category,
  node_category,
}

module _ {Res Row : Type 0} (o : Outside) where
  abbrev pub user_id_row : Res → Row → Reading Res Row UserId
  user_id_row res row = do
    ident ← get_string o res row 0
    type ← get_enum o user_id_type res row 1
    name ← get_string o res row 2
    number ← get_uint32 o res row 3
    tty ← get_string o res row 4
    ret (record { ident = ident; type = type; tty = tty; name = name; number = number })

  -- `get_user_id`, with the objects that its rows make
  unfoldable pub get_user_id : ℕ → ℕ → ℕ → ℕ → ℕ → Reading Res Row (List UserId)
  unfolding many
  get_user_id message_ident parent_type parent_index file_index file_access_index =
      many o.fuel
        (select "ident, type, name, number, tty" "Requiem_UserId"
          ++ (of_parent parent_type message_ident
              ++ (at "_parent0_index" parent_index
                  ++ (at "_parent1_index" file_index
                      ++ (at "_parent2_index" file_access_index ++ in_order)))))
        user_id_row

  abbrev pub user_row : ℕ → ℕ → ℕ → Res → Row → Reading Res Row User
  user_row message_ident parent_type parent_index res row = do
    ident ← get_string o res row 0
    category ← get_enum o user_category res row 1
    user_ids ← get_user_id message_ident parent_type parent_index 0 0
    ret (record { ident = ident; category = category; user_ids = user_ids })

  unfoldable pub get_user : ℕ → ℕ → ℕ → Reading Res Row (Option User)
  unfolding one
  get_user message_ident parent_type parent_index =
      one
        (select "ident, category" "Requiem_User"
          ++ (of_parent parent_type message_ident ++ at "_parent0_index" parent_index))
        (user_row message_ident parent_type parent_index)

  -- The parent index is a `char`.
  unfoldable pub get_process_arg : ℕ → ℕ → ℕ → Reading Res Row (List Text)
  unfolding many get_string
  get_process_arg message_ident parent_type parent_index =
      many o.fuel
        (select "arg" "Requiem_ProcessArg"
          ++ (of_parent parent_type message_ident
              ++ (at "_parent0_index" (as_char parent_index) ++ in_order)))
        (λ res row. get_string o res row 0)

  unfoldable pub get_process_env : ℕ → ℕ → ℕ → Reading Res Row (List Text)
  unfolding many get_string
  get_process_env message_ident parent_type parent_index =
      many o.fuel
        (select "env" "Requiem_ProcessEnv"
          ++ (of_parent parent_type message_ident
              ++ (at "_parent0_index" parent_index ++ in_order)))
        (λ res row. get_string o res row 0)

  abbrev pub process_row : ℕ → ℕ → ℕ → Res → Row → Reading Res Row Process
  process_row message_ident parent_type parent_index res row = do
    ident ← get_string o res row 0
    name ← get_string o res row 1
    pid ← get_uint32 o res row 2
    path ← get_string o res row 3
    args ← get_process_arg message_ident parent_type parent_index
    envs ← get_process_env message_ident parent_type parent_index
    ret (record { ident = ident; name = name; pid = pid; path = path; args = args; envs = envs })

  unfoldable pub get_process : ℕ → ℕ → ℕ → Reading Res Row (Option Process)
  unfolding one
  get_process message_ident parent_type parent_index =
      one
        (select "ident, name, pid, path" "Requiem_Process"
          ++ (of_parent parent_type message_ident ++ at "_parent0_index" parent_index))
        (process_row message_ident parent_type parent_index)

  abbrev pub address_row : Res → Row → Reading Res Row Address
  address_row res row = do
    ident ← get_string o res row 0
    category ← get_enum o address_category res row 1
    vlan_name ← get_string o res row 2
    vlan_num ← get_uint32 o res row 3
    address ← get_string o res row 4
    netmask ← get_string o res row 5
    ret (record {
      ident = ident;
      category = category;
      vlan_name = vlan_name;
      vlan_num = vlan_num;
      address = address;
      netmask = netmask;
    })

  unfoldable pub get_address : ℕ → ℕ → ℕ → Reading Res Row (List Address)
  unfolding many
  get_address message_ident parent_type parent_index =
      many o.fuel
        (select "ident, category, vlan_name, vlan_num, address, netmask" "Requiem_Address"
          ++ (of_parent parent_type message_ident
              ++ (at "_parent0_index" parent_index ++ in_order)))
        address_row

  abbrev pub node_row : ℕ → ℕ → ℕ → Res → Row → Reading Res Row Node
  node_row message_ident parent_type parent_index res row = do
    ident ← get_string o res row 0
    category ← get_enum o node_category res row 1
    location ← get_string o res row 2
    name ← get_string o res row 3
    addresses ← get_address message_ident parent_type parent_index
    ret (record {
      ident = ident;
      category = category;
      location = location;
      name = name;
      addresses = addresses;
    })

  unfoldable pub get_node : ℕ → ℕ → ℕ → Reading Res Row (Option Node)
  unfolding one
  get_node message_ident parent_type parent_index =
      one
        (select "ident, category, location, name" "Requiem_Node"
          ++ (of_parent parent_type message_ident ++ at "_parent0_index" parent_index))
        (node_row message_ident parent_type parent_index)
