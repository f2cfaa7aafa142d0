-- ===== src/Classic/Insert/Sent.antt =====
-- plugins/format/classic/classic-insert.c: the statements that a node is inserted by.
use Prim.Native.Nat.{◌^◌}
use librequiemdb.Base.{
  ℕ, ◌+◌, ◌-◌, true, List, [], ◌∷◌, ◌++◌, ◌≡◌, ◌∙◌, refl, ap, Option, Bytes, codes,
}
use librequiemdb.Error.{ok}
use librequiemdb.Plugin.{Plugin}
use librequiemdb.Strings.{Strings, Appends}
use librequiemdb.Sql.{Sql}
use librequiemdb.Message.{Address, Node}
use librequiemdb.Program.{last_item, letter, number, index, text, run}
use librequiemdb.Program.Served.{Serves, statements, quoted_text, insertion}
use librequiemdb.Program.Served.Runs.{Answers, run-Answers}
use librequiemdb.Program.Outcome.{item_statements, indexed-statements}
use librequiemdb.Classic.Insert.Common.{get_string, get_optional_int32}
use librequiemdb.Classic.Insert.Node.{insert_address, insert_node}
use librequiemdb.Classic.Insert.Live.Outcomes.{insert_address-Succeeds, insert_node-Succeeds}

-- The rows of the addresses, from the index `i` on, and the row of the last one at the index -1.
abbrev pub statements_from : (ℕ → Address → Bytes) → ℕ → List Address → List Bytes
statements_from row i [] = []
statements_from row i (a ∷ []) = row i a ∷ row (2 ^ 32 - 1) a ∷ []
statements_from row i (a ∷ b ∷ rest) = row i a ∷ statements_from row (i + 1) (b ∷ rest)

-- The rows of a node and of its addresses, with the texts that a server quotes by `quoted`.
module _ (quoted quoted_binary : Bytes → Bytes) (n : ℕ) where
  abbrev shown : Option Bytes → Bytes
  shown = quoted_text quoted quoted_binary n

  abbrev pub node_statement : ℕ → ℕ → ℕ → Node → Bytes
  node_statement parent_type message_ident parent_index node =
      insertion (codes "Requiem_Node")
        (codes "_parent_type, _message_ident, _parent0_index, ident, category, location, name")
        (letter parent_type
          ∷ number message_ident
          ∷ index parent_index
          ∷ text (shown (get_string node.ident))
          ∷ text (shown node.category)
          ∷ text (shown (get_string node.location))
          ∷ text (shown (get_string node.name))
          ∷ [])

  abbrev pub address_statement : ℕ → ℕ → ℕ → ℕ → Address → Bytes
  address_statement parent_type message_ident parent_index i a =
      insertion (codes "Requiem_Address")
        (codes
          "_parent_type, _message_ident, _parent0_index, _index,ident, category, vlan_name, vlan_num, address, netmask")
        (letter parent_type
          ∷ number message_ident
          ∷ index parent_index
          ∷ index i
          ∷ text (shown (get_string a.ident))
          ∷ text (shown a.category)
          ∷ text (shown (get_string a.vlan_name))
          ∷ text (get_optional_int32 16 a.vlan_num)
          ∷ text (shown (get_string a.address))
          ∷ text (shown (get_string a.netmask))
          ∷ [])

module _ (quoted quoted_binary : Bytes → Bytes) (n : ℕ) where
  insert_address-statements :
      (parent ident i j : ℕ) (a : Address)
      → statements quoted quoted_binary n {c = true} (insert_address parent ident i j a)
        ≡ address_statement quoted quoted_binary n parent ident i j a ∷ []
  unfolding insert_address statements
  insert_address-statements parent ident i j a = refl

  addresses-statements :
      (parent ident i j : ℕ) (xs : List Address)
      → item_statements quoted quoted_binary n {c = true} j (insert_address parent ident i) xs
          ++ statements quoted quoted_binary n {c = true}
              (last_item (insert_address parent ident i) xs)
        ≡ statements_from (address_statement quoted quoted_binary n parent ident i) j xs
  unfolding last_item statements
  addresses-statements parent ident i j [] = refl
  addresses-statements parent ident i j (a ∷ []) =
      rw (insert_address-statements parent ident i j a)
        (rw (insert_address-statements parent ident i (2 ^ 32 - 1) a) refl)
  addresses-statements parent ident i j (a ∷ b ∷ xs) =
      rw (insert_address-statements parent ident i j a) (
        ap (λ t. address_statement quoted quoted_binary n parent ident i j a ∷ t)
          (addresses-statements parent ident i (j + 1) (b ∷ xs)))

  insert_node-statements :
      (parent ident i : ℕ) (node : Node)
      → statements quoted quoted_binary n {c = true} (insert_node parent ident i node)
        ≡ node_statement quoted quoted_binary n parent ident i node
          ∷ statements_from
              (address_statement quoted quoted_binary n parent ident i)
              0
              node.addresses
  unfolding insert_node statements
  insert_node-statements parent ident i node =
      ap (λ t. node_statement quoted quoted_binary n parent ident i node ∷ t)
        (indexed-statements quoted quoted_binary n (insert_address parent ident i) node.addresses
            (insert_address-Succeeds quoted quoted_binary n parent ident i)
          ∙ addresses-statements parent ident i 0 node.addresses)

module _ (p : Plugin) (str : Strings) (more : Appends str) (sent : p.World → List Bytes)
    (quoted quoted_binary : Bytes → Bytes) (n : ℕ)
    (serves : Serves p sent quoted quoted_binary n) where
  open p use {World}

  -- While memory lasts, over a server that answers every call, with its largest identifier `n` of
  -- 64 bits, and a connection that is open: the insertion of a node succeeds, leaves the
  -- connection open and sends the row of the node, then the row of each address in order, at its
  -- index from 0, then that of the last address once more at the index -1, and nothing else.
  pub insert_node-sends :
      (old parent_type message_ident parent_index : ℕ) (node : Node) (s : Sql World)
      → s.connected ≡ true
      → Answers p str more sent quoted quoted_binary n serves s
          (run p str old (insert_node {c = true} parent_type message_ident parent_index node) s)
          (ok tt)
          (node_statement quoted quoted_binary n parent_type message_ident parent_index node
            ∷ statements_from
                (address_statement quoted quoted_binary n parent_type message_ident parent_index)
                0
                node.addresses)
  insert_node-sends old parent ident i node s on =
      let a =
        run-Answers p str more sent quoted quoted_binary n serves old
          (insert_node {c = true} parent ident i node) s on in
      record {
        gives = a.gives ∙ insert_node-Succeeds quoted quoted_binary n parent ident i node;
        open' = a.open';
        sends =
            a.sends
            ∙ ap (λ t. sent s.world ++ t)
                (insert_node-statements quoted quoted_binary n parent ident i node);
      }
