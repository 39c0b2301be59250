-- ===== src/Document/Users.antt =====
-- The user list of a document in src/services/document/document.cc.
use jdocs.Base.{ℕ, ◌≡◌, ◌≢◌, ap, List, [], ◌∷◌, ◌++◌, arith, length, ◌==◌, Bool}
use jdocs.Document.Defs.{UserNode, Document, join_user, erase_node, exit_user}

-- No node of the list stands at this address.
abbrev pub Absent : ℕ → List UserNode → Type 0
Absent it [] = Unit {0}
Absent it (u ∷ us) = (u.node ≢ it) × Absent it us

erase_node-append :
    (front back : List UserNode) (u : UserNode)
    → Absent u.node front
    → erase_node u.node (front ++ (u ∷ back)) ≡ front ++ back
unfolding erase_node
erase_node-append [] back u a = ground arith
erase_node-append (x ∷ front) back u a = ground (arith, erase_node-append front back u a.1)

module _ {J : Type 0} (d : Document J) (fresh conn_id : ℕ) (others : List UserNode) where
  abbrev pub joined : UserNode
  joined = record { node = fresh; conn_id = conn_id }

  -- A user joins at a new address, and others join before it leaves again, all at other addresses:
  -- leaving takes out that user alone, keeps the order of the rest, and asks for the document to be
  -- closed exactly if nobody is left.
  pub exit-join :
      Absent fresh others
      → exit_user (record d { users = others ++ (join_user d fresh conn_id).users }) fresh
        ≡ (record d { users = others ++ d.users }, length (others ++ d.users) == 0)
  unfolding exit_user join_user
  exit-join a =
      ap {B = Document J × Bool} (λ us. (record d { users = us }, length us == 0))
        (erase_node-append others d.users joined a)
