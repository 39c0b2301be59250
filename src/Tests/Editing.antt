-- ===== src/Tests/Editing.antt =====
-- Operations and documents of src/services/document/ot.cc and src/services/document/document.cc.
use mathlib.Core.Option.{some-injective}
use jdocs.Base.{
  ℕ, ◌≡◌, refl, sym, subst, ◌∙◌, ◌<◌, ◌+◌, List, [], ◌∷◌, ◌++◌, some, arith, length, true, false,
  u32_mod,
}
use jdocs.Ot.Operation.{
  JsonOps, OpComponent, Operation, retain_component, insert_component, delete_component, op_retain,
  op_insert, peek, next, iterator, compose_attributes,
}
use jdocs.Ot.Passes.{transform, compose, more}
use jdocs.Ot.Units.{units, apply, then_units, rebase_units}
use jdocs.Ot.Units.Meaning.{merge}
use jdocs.Ot.Iterate.{AllGood, IsGood}
use jdocs.Document.{Document, Applied, apply_op, join_user, exit_user}
use jdocs.Document.Revisions.{IsConsistent, Accepted, apply_op-Accepted}
use jdocs.Document.Convergence.{Rebasable, rebase_all, apply_op-rebases}
use jdocs.Document.Users.{exit-join}
use jdocs.Ot.Correct.{transform-merge, compose-apply}

-- Attributes that are always null.
abbrev pub no_json : JsonOps (Unit {0})
no_json = record {
  null = tt;
  is_null = λ j. true;
  items = λ j. [];
  erase = λ j key. j;
  assign = λ j key value. j;
}

abbrev Op : Type 0
Op = Operation (Unit {0})

keeps : ℕ → OpComponent (Unit {0})
unfolding retain_component
keeps n = retain_component no_json n tt

puts : List ℕ → OpComponent (Unit {0})
unfolding insert_component
puts text = insert_component no_json text tt

cuts : ℕ → OpComponent (Unit {0})
unfolding delete_component
cuts n = delete_component no_json n

abbrev typed_xy : List ℕ
typed_xy = b'x' ∷ b'y' ∷ []

-- The client keeps one character and types `xy`; the server has typed `z` and cut a character.
abbrev client : Op
client = keeps 1 ∷ puts typed_xy ∷ []

abbrev server : Op
server = puts (b'z' ∷ []) ∷ cuts 1 ∷ keeps 1 ∷ []

abbrev text_ab : List ℕ
text_ab = b'a' ∷ b'b' ∷ []

merged : merge (units client) (units server) text_ab ≡ b'z' ∷ b'x' ∷ b'y' ∷ b'b' ∷ []
unfolding merge apply keeps puts cuts
merged = refl

keeps-IsGood : (n : ℕ) → 0 < n → n < u32_mod → IsGood (keeps n)
unfolding keeps
keeps-IsGood n h k = record { positive = h; fits = k; sized = λ e. cc }

cuts-IsGood : (n : ℕ) → 0 < n → n < u32_mod → IsGood (cuts n)
unfolding cuts
cuts-IsGood n h k = record { positive = h; fits = k; sized = λ e. cc }

puts-IsGood : (text : List ℕ) → 0 < length text → length text < u32_mod → IsGood (puts text)
unfolding puts
puts-IsGood text h k = record {
  positive = omega arith;
  fits = omega arith;
  sized = λ e. omega arith;
}

client-AllGood : AllGood client
client-AllGood = (
  keeps-IsGood 1 (omega arith) (omega arith),
  (puts-IsGood typed_xy (omega arith) (omega arith), tt),
)

server-AllGood : AllGood server
server-AllGood = (
  puts-IsGood (b'z' ∷ []) (omega arith) (omega arith),
  (cuts-IsGood 1 (omega arith) (omega arith), (keeps-IsGood 1 (omega arith) (omega arith), tt)),
)

transform-merge_example :
    (r : Op) × (transform no_json client server ≡ some r)
    × (apply (units r) (apply (units server) text_ab) ≡ merge (units client) (units server) text_ab)
unfolding keeps puts cuts
transform-merge_example =
    transform-merge no_json client server text_ab client-AllGood server-AllGood (omega arith)
      (omega arith) (omega arith)

compose-apply_example :
    (r : Op) × (compose no_json client server ≡ some r)
    × (apply (units r) text_ab ≡ apply (units server) (apply (units client) text_ab))
unfolding keeps puts cuts
compose-apply_example =
    compose-apply no_json client server text_ab client-AllGood server-AllGood (omega arith)
      (omega arith)

-- A document of one revision, `ab`, and a request that was made for the empty document.
opened : Document (Unit {0})
opened = record {
  name = "notes";
  content = puts text_ab ∷ [];
  revision = 1;
  min_revision = 0;
  capacity = 50;
  history = (puts text_ab ∷ []) ∷ [];
  users = [];
}

opened-IsConsistent : IsConsistent opened
unfolding opened
opened-IsConsistent = record { spans = omega arith; bounded = omega arith; roomy = omega arith }

late : Op
late = puts typed_xy ∷ []

text_ab-AllGood : AllGood (puts text_ab ∷ [])
text_ab-AllGood = (puts-IsGood text_ab (omega arith) (omega arith), tt)

late_moved : Op
late_moved = keeps 2 ∷ puts typed_xy ∷ []

late_runs : transform no_json late (puts text_ab ∷ []) ≡ some late_moved
unfolding late late_moved keeps puts transform peek next iterator op_retain op_insert more
late_runs = refl

late_room : length (units late) + length (units (puts text_ab ∷ [])) < u32_mod
unfolding late puts
late_room = omega arith

late-Rebasable : Rebasable no_json late ((puts text_ab ∷ []) ∷ [])
unfolding Rebasable late late_moved
late-Rebasable = (
  (puts-IsGood typed_xy (omega arith) (omega arith), tt),
  text_ab-AllGood,
  late_room,
  λ moved e. subst AllGood (some-injective _ _ (sym late_runs ∙ e)) (
    keeps-IsGood 2 (omega arith) (omega arith),
    (puts-IsGood typed_xy (omega arith) (omega arith), tt),
  ),
)

opened_room :
    length (units opened.content) + length (rebase_all (units late) ((puts text_ab ∷ []) ∷ []))
    < u32_mod
unfolding opened late puts rebase_units
opened_room = omega arith

apply_op-rebases_example :
    (r : Applied (Unit {0})) × (apply_op no_json opened 0 late ≡ some r)
    × (units r.returned ≡ rebase_all (units late) ((puts text_ab ∷ []) ∷ []))
    × (units r.document.content ≡ then_units (units opened.content) (units r.returned))
unfolding opened
apply_op-rebases_example =
    apply_op-rebases no_json opened 0 late opened-IsConsistent (omega arith, omega arith)
      late-Rebasable text_ab-AllGood opened_room

-- The insertion of `ab` and that of `xy` are merged, and the merged one keeps the length 2.
late_applied : Applied (Unit {0})
unfolding opened puts late_moved
late_applied = record {
  version = 2;
  returned = late_moved;
  document = record opened {
    content = record (puts text_ab) { text = text_ab ++ typed_xy } ∷ [];
    revision = 2;
    history = opened.history ++ (late_moved ∷ []);
  };
}

late_applies : apply_op no_json opened 0 late ≡ some late_applied
unfolding apply_op opened late late_moved late_applied keeps puts transform compose peek next
    iterator op_retain op_insert more compose_attributes
late_applies = refl

apply_op-Accepted_example : Accepted no_json opened late_applied
unfolding opened
apply_op-Accepted_example =
    apply_op-Accepted no_json opened 0 late opened-IsConsistent (omega arith)
      (omega arith, omega arith) late_applies

exit-join_example :
    exit_user
      (record opened {
        users = record { node = 5; conn_id = 70 } ∷ record { node = 4; conn_id = 60 } ∷ [];
      })
      4
    ≡ (record opened { users = record { node = 5; conn_id = 70 } ∷ [] }, false)
unfolding opened join_user
exit-join_example = exit-join opened 4 60 (record { node = 5; conn_id = 70 } ∷ []) (omega arith, tt)
