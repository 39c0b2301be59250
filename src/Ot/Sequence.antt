-- ===== src/Ot/Sequence.antt =====
-- `compose` of src/services/document/ot.cc is `then_units`, a character at a time.
use jdocs.Base.{
  ℕ, ◌+◌, ◌<◌, ◌≡◌, ◌≢◌, refl, sym, ap, ap₂, subst, ◌∙◌, inl, inr, true, List, [], ◌++◌, map, some,
  append-nil, arith, length, length-append, length-replicate, length-map, length-take, replicate,
  take, u32_mod,
}
use jdocs.Ot.Operation.{
  retain, insert, delete, JsonOps, Operation, compose_attributes, op_retain, op_insert, op_delete,
  peek, next,
}
use jdocs.Ot.Passes.{Pass, compose_pass, more, rounds, start, compose}
use jdocs.Ot.Units.{Edit, keep, cut, put, units, then_units}
use jdocs.Ot.Units.Chunks.{
  then-nil, nil-then, then-puts, then-cuts, puts-keep, puts-cut, keeps-keep, keeps-cut,
}
use jdocs.Ot.Emit.{OpType-cases, units-op_retain, units-op_insert, units-op_delete}
use jdocs.Ot.Iterate.{AllGood, todo, ahead-zero}
use jdocs.Ot.Rounds.{IsSound, Round, Round-of, loop_ends}
use jdocs.Ot.Both.{min_len, both_next, both-Round, Turn-a, Turn-b, start-IsSound}
use jdocs.Ot.Fronts.{
  Front, run, spent, Front-retain, Front-delete, puts-insert, length-Front, step, length-next-lt,
  NoPut-todo, todo-pos, whole_insert, whole_delete,
}

module _ {us us' vs vs' : List Edit} {m : ℕ} where
  keep-keep :
      Front us us' keep m
      → Front vs vs' keep m
      → 0 < length us + length vs
      → then_units us vs ≡ replicate m keep ++ then_units us' vs'
  keep-keep (run e) (run f) h = ap₂ then_units e f ∙ keeps-keep m us' vs'
  keep-keep (run e) (spent f f' _) h = rw (f, f', then-nil us, then-nil us') e
  keep-keep (spent e e' _) (run f) h = rw (e, e', nil-then vs, nil-then vs') f
  keep-keep (spent e _ _) (spent f _ _) h = absurd (omega (arith, ap length e, ap length f))

  keep-cut :
      Front us us' keep m
      → Front vs vs' cut m
      → then_units us vs ≡ replicate m cut ++ then_units us' vs'
  keep-cut (run e) (run f) = ap₂ then_units e f ∙ keeps-cut m us' vs'
  keep-cut (spent e e' _) (run f) = rw (e, e', nil-then vs, nil-then vs') f
  keep-cut _ (spent _ _ k) = cc

module _ {us : List Edit} (us' : List Edit) {vs vs' : List Edit} {m : ℕ} where
  put-keep :
      (text : List ℕ)
      → length text ≡ m
      → us ≡ map put text ++ us'
      → Front vs vs' keep m
      → then_units us vs ≡ map put text ++ then_units us' vs'
  put-keep text n e (run f) =
      ap₂ then_units e (f ∙ ap (λ k. replicate k keep ++ vs') (sym n)) ∙ puts-keep text us' vs'
  put-keep text n e (spent f f' _) = rw (f, f', then-nil us, then-nil us') e

  put-cut :
      (text : List ℕ)
      → length text ≡ m
      → us ≡ map put text ++ us'
      → Front vs vs' cut m
      → then_units us vs ≡ then_units us' vs'
  put-cut text n e (run f) =
      ap₂ then_units e (f ∙ ap (λ k. replicate k cut ++ vs') (sym n)) ∙ puts-cut text us' vs'
  put-cut text n e (spent _ _ k) = cc

module _ {J : Type 0} (json : JsonOps J) (p : Pass J) (s : IsSound p) where
  insert_b : (peek json p.iter_b).type ≡ insert → Round then_units p (compose_pass json p)
  unfolding compose_pass
  insert_b e =
      let b = peek json p.iter_b in
      let (shown, sized) = whole_insert json p.iter_b s.ready_b e in
      let n = length-map b.text put in
      let size = length-append (map put b.text) (todo (next json p.iter_b b.length)) in
      rw (e, compose_pass)
        (Round-of then_units p _ (map put b.text) s s.ready_a (step json p.iter_b s.ready_b).1
          (omega (arith, n, ap length shown, sized, size))
          (λ h. units-op_insert json p.result b.text b.attributes (omega (arith, n, h)))
          (ap (then_units (todo p.iter_a)) shown ∙ then-puts (todo p.iter_a) b.text _)
          (omega (arith, length-next-lt json s.ready_b (λ k. cc))))

  delete_a :
      (peek json p.iter_b).type ≢ insert
      → (peek json p.iter_a).type ≡ delete
      → Round then_units p (compose_pass json p)
  unfolding compose_pass
  delete_a ne e =
      let a = peek json p.iter_a in
      let shown = whole_delete json p.iter_a s.ready_a e in
      let n = length-replicate a.length cut in
      let size = length-append (replicate a.length cut) (todo (next json p.iter_a a.length)) in
      let q : Pass J = record p {
        result = op_delete json p.result a.length;
        iter_a = next json p.iter_a a.length;
      } in
      let eq : compose_pass json p ≡ q = ground arith in
      subst (Round then_units p) (sym eq) (
        Round-of then_units p q (replicate a.length cut) s (step json p.iter_a s.ready_a).1
          s.ready_b (omega (arith, n, ap length shown, size))
          (λ h. units-op_delete json p.result a.length (omega (arith, n, h)))
          (ap (λ us. then_units us (todo p.iter_b)) shown
            ∙ then-cuts a.length _ (todo p.iter_b) (NoPut-todo json p.iter_b s.ready_b ne))
          (omega (arith, length-next-lt json s.ready_a (λ k. cc))))

  becomes :
      (emitted : Operation J)
      → compose_pass json p ≡ both_next json p emitted
      → Round then_units p (both_next json p emitted)
      → Round then_units p (compose_pass json p)
  becomes emitted e = subst (Round then_units p) (sym e)

  attr : J
  attr = compose_attributes json (peek json p.iter_b).attributes (peek json p.iter_a).attributes

  rest_insert :
      more json p ≡ true
      → (peek json p.iter_a).type ≡ insert
      → (peek json p.iter_b).type ≢ insert
      → Round then_units p (compose_pass json p)
  unfolding compose_pass attr
  rest_insert h ea nb =
      let m = min_len json p in
      let text = take m (peek json p.iter_a).text in
      let (e, sized, _) = puts-insert ea (Turn-a json p s) in
      let n : length text ≡ m = omega (arith, length-take m (peek json p.iter_a).text, sized) in
      let n' = length-map text put in
      let gone = ap length e ∙ length-append (map put text) (todo (next json p.iter_a m)) in
      elim (OpType-cases (peek json p.iter_b).type) [
        | inr (inl eb) ↦ absurd (nb eb)
        | inl eb ↦
            let fb = Front-retain eb (Turn-b json p s) in
            becomes (op_insert json p.result text attr) (ground arith) (
              both-Round json then_units p s (map put text) _ h (inl (omega (arith, gone, n, n')))
                (length-Front fb) (omega (arith, n, n'))
                (λ r. units-op_insert json p.result text attr (omega (arith, r, n, n')))
                (put-keep (todo (next json p.iter_a m)) text n e fb))
        | inr (inr eb) ↦
            let fb = Front-delete eb (Turn-b json p s) in
            becomes p.result (ground arith) (
              both-Round json then_units p s [] p.result h (inl (omega (arith, gone, n, n')))
                (length-Front fb) (omega arith) (λ _. sym (append-nil (units p.result)))
                (put-cut (todo (next json p.iter_a m)) text n e fb))
      ]

  rest_retain :
      more json p ≡ true
      → (peek json p.iter_a).type ≡ retain
      → (peek json p.iter_b).type ≢ insert
      → Round then_units p (compose_pass json p)
  unfolding compose_pass attr
  rest_retain h ea nb =
      let m = min_len json p in
      let fa = Front-retain ea (Turn-a json p s) in
      elim (OpType-cases (peek json p.iter_b).type) [
        | inr (inl eb) ↦ absurd (nb eb)
        | inl eb ↦
            let fb = Front-retain eb (Turn-b json p s) in
            becomes (op_retain json p.result m attr) (ground arith) (
              both-Round json then_units p s (replicate m keep) _ h (length-Front fa)
                (length-Front fb) (omega (arith, length-replicate m keep))
                (λ r.
                  units-op_retain json p.result m attr (omega (arith, r, length-replicate m keep)))
                (keep-keep fa fb
                  (todo-pos json p.iter_a p.iter_b s.ready_a s.ready_b (unfold more in h))))
        | inr (inr eb) ↦
            let fb = Front-delete eb (Turn-b json p s) in
            becomes (op_delete json p.result m) (ground arith) (
              both-Round json then_units p s (replicate m cut) _ h (length-Front fa)
                (length-Front fb) (omega (arith, length-replicate m cut))
                (λ r. units-op_delete json p.result m (omega (arith, r, length-replicate m cut)))
                (keep-cut fa fb))
      ]

  pub compose_pass-Round : more json p ≡ true → Round then_units p (compose_pass json p)
  compose_pass-Round h = elim (OpType-cases (peek json p.iter_b).type) [
    | inr (inl e) ↦ insert_b e
    | inl eb ↦ not_b (λ k. cc)
    | inr (inr eb) ↦ not_b (λ k. cc)
  ]
    where
      not_b : (peek json p.iter_b).type ≢ insert → Round then_units p (compose_pass json p)
      not_b nb = elim (OpType-cases (peek json p.iter_a).type) [
        | inr (inl e) ↦ rest_insert h e nb
        | inl ea ↦ rest_retain h ea nb
        | inr (inr ea) ↦ delete_a nb ea
      ]

module _ {J : Type 0} (json : JsonOps J) (op_old op_new : Operation J) where
  -- `compose` ends, and character by character it is `then_units`.
  pub compose-units :
      AllGood op_old
      → AllGood op_new
      → length (units op_old) + length (units op_new) < u32_mod
      → (r : Operation J) × (compose json op_old op_new ≡ some r)
        × (units r ≡ then_units (units op_old) (units op_new))
  unfolding compose start then_units
  compose-units ga gb room =
      let (r, ends, e) =
        loop_ends json then_units (compose_pass json) (compose_pass-Round json) refl
          (rounds json op_old op_new) (start json op_old op_new)
          (start-IsSound json op_old op_new ga gb room) (omega arith) in
      (r, ends, e ∙ ap₂ then_units (ahead-zero op_old) (ahead-zero op_new))
