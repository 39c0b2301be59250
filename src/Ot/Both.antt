-- ===== src/Ot/Both.antt =====
-- The end of a round in src/services/document/ot.cc, where both iterators pass the shorter of their
-- two components, and the start of the loops.
use jdocs.Base.{ℕ, ◌+◌, ◌≤◌, ◌<◌, ◌≡◌, ◌⊎◌, ap, true, List, ◌++◌, arith, length, min, u32_mod}
use jdocs.Ot.Operation.{JsonOps, Operation, peek, next, iterator}
use jdocs.Ot.Passes.{Pass, more, start}
use jdocs.Ot.Units.{Edit, units}
use jdocs.Ot.Iterate.{AllGood, Turn, todo, ahead-zero, Inside-zero, next-Turn}
use jdocs.Ot.Rounds.{IsSound, Round, Round-of}
use jdocs.Ot.Fronts.{less_left, todo-pos}

-- `m` units have been passed, or there were none.
abbrev pub Passed : (us us' : List Edit) → ℕ → Type 0
Passed us us' m = (length us ≡ m + length us') ⊎ ((length us ≡ 0) × (length us' ≡ 0))

module _ {J : Type 0} (json : JsonOps J) (p : Pass J) where
  abbrev pub min_len : ℕ
  min_len = min (peek json p.iter_a).length (peek json p.iter_b).length

  abbrev pub both_next : Operation J → Pass J
  both_next emitted = record {
    result = emitted;
    iter_a = next json p.iter_a min_len;
    iter_b = next json p.iter_b min_len;
  }

module _ {J : Type 0} (json : JsonOps J) (p : Pass J) (s : IsSound p) where
  pub Turn-a :
      Turn p.iter_a (next json p.iter_a (min_len json p)) (peek json p.iter_a) (min_len json p)
  Turn-a = (next-Turn json p.iter_a (min_len json p) s.ready_a (omega arith)).0

  pub Turn-b :
      Turn p.iter_b (next json p.iter_b (min_len json p)) (peek json p.iter_b) (min_len json p)
  Turn-b = (next-Turn json p.iter_b (min_len json p) s.ready_b (omega arith)).0

module _ {J : Type 0} (json : JsonOps J) (sem : List Edit → List Edit → List Edit) (p : Pass J)
    (s : IsSound p) where
  pub both-Round :
      (out : List Edit) (emitted : Operation J)
      → more json p ≡ true
      → Passed (todo p.iter_a) (todo (next json p.iter_a (min_len json p))) (min_len json p)
      → Passed (todo p.iter_b) (todo (next json p.iter_b (min_len json p))) (min_len json p)
      → length out ≤ min_len json p
      → (length (units p.result) + length out < u32_mod → units emitted ≡ units p.result ++ out)
      → sem (todo p.iter_a) (todo p.iter_b)
        ≡ out
          ++ sem
              (todo (next json p.iter_a (min_len json p)))
              (todo (next json p.iter_b (min_len json p)))
      → Round sem p (both_next json p emitted)
  unfolding more
  both-Round out emitted h fa fb n emit e =
      Round-of sem p (both_next json p emitted) out s
        (next-Turn json p.iter_a (min_len json p) s.ready_a (omega arith)).1
        (next-Turn json p.iter_b (min_len json p) s.ready_b (omega arith)).1
        (omega (arith, n, fa, fb, todo-pos json p.iter_a p.iter_b s.ready_a s.ready_b h)) emit e
        (less_left json p.iter_a p.iter_b s.ready_a s.ready_b h)

module _ {J : Type 0} (json : JsonOps J) (a b : Operation J) where
  pub start-IsSound :
      AllGood a
      → AllGood b
      → length (units a) + length (units b) < u32_mod
      → IsSound (start json a b)
  unfolding start iterator
  start-IsSound ga gb room = record {
    ready_a = record { good = ga; inside = Inside-zero a ga };
    ready_b = record { good = gb; inside = Inside-zero b gb };
    room = omega (arith, room, ap length (ahead-zero a), ap length (ahead-zero b));
  }
