-- ===== src/Service/Heard.antt =====
-- Whom the loops of src/services/document/document_service.cc over a user list send to.
use mathlib.Core.Option.{some-injective, none-ne-some}
use jdocs.Base.{
  ℕ, ◌+◌, ◌≡◌, refl, sym, true, Bool-cases, inl, inr, List, [], ◌∷◌, Option, none, some, arith,
  length, ltb, ◌==◌, if◌then◌else◌,
}
use jdocs.Document.{UserNode, erase_node}
use jdocs.Service.Defs.{Connection, others}

-- How often a connection is in a user list.
unfoldable pub times_in : (conn_id : ℕ) → List UserNode → ℕ
times_in conn_id [] = 0
times_in conn_id (u ∷ us) = (if u.conn_id == conn_id then 1 else 0) + times_in conn_id us

pub length-others :
    (conn_id : ℕ) (us : List UserNode)
    → length (others conn_id us) + times_in conn_id us ≡ length us
unfolding others times_in
length-others conn_id [] = refl
length-others conn_id (u ∷ us) =
    let rest = length-others conn_id us in
    elim (Bool-cases (u.conn_id == conn_id)) [
      | inl own ↦ rw own (omega (arith, rest))
      | inr other ↦ rw other (omega (arith, rest))
    ]

-- How often a connection gets a context.
unfoldable pub times_to : (conn_id : ℕ) → List ℕ → ℕ
times_to conn_id [] = 0
times_to conn_id (r ∷ rs) = (if r == conn_id then 1 else 0) + times_to conn_id rs

nobody : (rs : List ℕ) → length rs ≡ 0 → rs ≡ []
nobody [] h = refl
nobody (r ∷ rs) h = absurd (omega (arith, h))

pub once_more :
    (c : Connection) (us : List UserNode) (fresh : ℕ)
    → times_in c.conn_id us ≡ 0
    → times_in c.conn_id (record { node = fresh; conn_id = c.conn_id } ∷ us) ≡ 1
unfolding times_in
once_more c us fresh h =
    let own : (c.conn_id == c.conn_id) ≡ true = ground arith in rw own (omega (arith, h))

pub others-heard :
    (own : ℕ) (us : List UserNode) (x : ℕ)
    → times_to x (others own us) ≡ (if x == own then 0 else times_in x us)
unfolding others times_in times_to
others-heard own [] x = ground arith
others-heard own (u ∷ us) x =
    let rest = others-heard own us x in
    elim (Bool-cases (u.conn_id == own)) [
      | inl self ↦ rw self (ground (arith, rest, self))
      | inr other ↦ rw other (ground (arith, rest, other))
    ]

pub others-if_several :
    (us : List UserNode) (rs : List ℕ)
    → length rs + 1 ≡ length us
    → (if ltb 1 (length us) then rs else []) ≡ rs
others-if_several us rs h = elim (Bool-cases (ltb 1 (length us))) [
  | inl several ↦ rw several refl
  | inr alone ↦ rw alone (sym (nobody rs (ground (arith, h, alone))))
]

-- The connection of the user with this node.
unfoldable pub conn_of : (node : ℕ) → List UserNode → Option ℕ
conn_of node [] = none
conn_of node (u ∷ us) = if u.node == node then some u.conn_id else conn_of node us

pub erase_node-times_in :
    (node own : ℕ) (us : List UserNode) (x : ℕ)
    → conn_of node us ≡ some own
    → times_in x (erase_node node us) + (if own == x then 1 else 0) ≡ times_in x us
unfolding conn_of times_in erase_node
erase_node-times_in node own [] x h = absurd (none-ne-some own h)
erase_node-times_in node own (u ∷ us) x h = elim (Bool-cases (u.node == node)) [
  | inl here ↦
      let same : u.conn_id ≡ own = some-injective _ _ (rw here at h) in
      rw (here, same) (omega arith)
  | inr there ↦
      let rest = erase_node-times_in node own us x (rw there at h) in rw there (omega (arith, rest))
]

pub one_less : (own left : ℕ) → left + (if own == own then 1 else 0) ≡ 1 → left ≡ 0
one_less own left h = ground (arith, h)

pub without_own :
    (x left all own : ℕ)
    → left + (if own == x then 1 else 0) ≡ all
    → (if x == own then 0 else left) ≡ (if x == own then 0 else all)
without_own x left all own h = ground (arith, h)
