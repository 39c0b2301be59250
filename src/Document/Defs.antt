-- ===== src/Document/Defs.antt =====
-- The class `Document` of src/services/document/document.h and src/services/document/document.cc.
use Prim.Native.String.{String}
use jdocs.Base.{
  ℕ, zero, suc, ◌+◌, ◌-◌, ◌%◌, ◌^◌, Bool, ◌||◌, List, [], ◌∷◌, ◌++◌, Option, some, length,
  get_elem?, tail, ltb, leb, ◌==◌, if◌then◌else◌, ◌>>=◌,
}
use jdocs.Ot.Operation.{JsonOps, Operation}
use jdocs.Ot.Passes.{transform, compose}

-- A node of `users_`: its address, for the iterator that points to it, and the connection's id.
pub record UserNode : Type 0 where
  pub node : ℕ
  pub conn_id : ℕ

pub record Document (J : Type 0) : Type 0 where
  pub name : String
  pub content : Operation J
  pub revision : ℕ
  pub min_revision : ℕ
  pub capacity : ℕ
  pub history : List (Operation J)
  pub users : List UserNode

abbrev pub u64_mod : ℕ
u64_mod = 2 ^ 64

pub record Applied (J : Type 0) : Type 0 where
  pub version : ℕ
  pub returned : Operation J
  pub document : Document J

abbrev pub history_capacity : ℕ
history_capacity = 50

unfoldable pub erase_node : ℕ → List UserNode → List UserNode
erase_node it [] = []
erase_node it (u ∷ us) = if u.node == it then us else u ∷ erase_node it us

module _ {J : Type 0} where
  unfoldable pub new_document : String → Document J
  new_document name = record {
    name = name;
    content = [];
    revision = 0;
    min_revision = 0;
    capacity = history_capacity;
    history = [];
    users = [];
  }

  unfoldable pub push_to_history : Document J → Operation J → Document J
  push_to_history d op =
      let kept : Document J =
        if leb d.capacity (length d.history)
        then record d { history = tail d.history; min_revision = (d.min_revision + 1) % u64_mod }
        else d in
      record kept { history = kept.history ++ (op ∷ []) }

  -- `users_.insert(users_.begin(), conn_id)`, with the address of the new node.
  unfoldable pub join_user : Document J → (fresh conn_id : ℕ) → Document J
  join_user d fresh conn_id = record d {
    users = record { node = fresh; conn_id = conn_id } ∷ d.users;
  }

  -- The new state, and whether `DocumentService::CloseDocument` is called for it.
  unfoldable pub exit_user : Document J → ℕ → Document J × Bool
  unfolding erase_node
  exit_user d it = let left = erase_node it d.users in (record d { users = left }, length left == 0)

module _ {J : Type 0} (json : JsonOps J) where
  -- `while (version < revision_)`, with the number of rounds that are left.
  unfoldable pub catch_up : Document J → ℕ → ℕ → Operation J → Option (ℕ × Operation J)
  catch_up d zero version client = some (version, client)
  catch_up d (suc rounds) version client = do
    server ← get_elem? d.history (version - d.min_revision)
    moved ← transform json client server
    catch_up d rounds (version + 1) moved

  unfoldable pub apply_op : Document J → (version : ℕ) (client : Operation J) → Option (Applied J)
  unfolding catch_up push_to_history
  apply_op d version client =
      if ltb version d.min_revision || ltb d.revision version
      then some (record { version = version; returned = []; document = d })
      else do
        (_, moved) ← catch_up d (d.revision - version) version client
        let revision = (d.revision + 1) % u64_mod
        content ← compose json d.content moved
        some (record {
          version = revision;
          returned = moved;
          document = push_to_history (record d { revision = revision; content = content }) moved;
        })
