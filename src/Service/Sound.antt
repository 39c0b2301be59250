-- ===== src/Service/Sound.antt =====
-- The table of documents of src/services/document/document_service.cc against the sessions that hold them.
use Prim.Native.String.{String}
use jdocs.Base.{
  ℕ, ◌<◌, ◌≡◌, refl, ap, Bool, true, false, not, ◌&&◌, Option, none, some, arith, length, ==_iff,
}
use jdocs.Bitmap.Count.{weight}
use jdocs.Service.Store.{World, holds, use_count}
use jdocs.Service.Nodes.{node_in, node_in-some, use_count-pos}

-- Each session that holds a document, but for those that are away, has one node in its user list, and the
-- table has exactly the documents with users, each under its name.
pub record IsSound {J : Type 0} (away : ℕ → Bool) (w : World J) : Type 0 where
  pub nodes : (i a : ℕ) → node_in i (w.docs a).users ≡ weight (holds (w.held i) a && not (away i))
  pub named :
      (n : String) (a : ℕ)
      → w.documents n ≡ some a
      → ((w.docs a).name ≡ n) × (0 < length (w.docs a).users)
  pub entered : (a : ℕ) → 0 < length (w.docs a).users → w.documents (w.docs a).name ≡ some a
  pub bounded : (i a : ℕ) → holds (w.held i) a ≡ true → (i < w.sessions) × (a < w.allocated)

abbrev pub nobody : ℕ → Bool
nobody i = false

-- A count of one stands for a true test.
pub one_if : (b c : Bool) (n : ℕ) → n ≡ weight (b && not c) → 0 < n → (b ≡ true) × (c ≡ false)
one_if true true n e h = absurd (omega (arith, e, h))
one_if true false n e h = (refl, refl)
one_if false c n e h = absurd (omega (arith, e, h))

pub and-false : (b : Bool) → (b && false) ≡ false
and-false true = refl
and-false false = refl

holds-some : (p : Option ℕ) (a : ℕ) → holds p a ≡ true → p ≡ some a
holds-some none a h = cc
holds-some (some b) a h = ap some ((==_iff b a).0 h)

module _ {J : Type 0} (w : World J) where
  -- A document with users has an owner.
  pub owner :
      (away : ℕ → Bool) (a : ℕ) → IsSound away w → 0 < length (w.docs a).users → 0 < use_count w a
  owner away a h some_user =
      let (j, in_list) = node_in-some (w.docs a).users some_user in
      let (holder, _) = one_if (holds (w.held j) a) (away j) _ (h.nodes j a) in_list in
      use_count-pos w a j holder (h.bounded j a holder).0
