-- ===== src/Ot/Rebase.antt =====
-- `transform` of src/services/document/ot.cc is `rebase_units`, a character at a time.
use jdocs.Base.{
  ℕ, ◌+◌, ◌<◌, ◌≡◌, ◌≢◌, refl, sym, ap, ap₂, subst, ◌∙◌, inl, inr, true, [], List, ◌++◌, map, some,
  arith, length, length-append, length-replicate, length-map, replicate, append-nil, u32_mod,
}
use jdocs.Ot.Operation.{insert, JsonOps, Operation, op_retain, op_insert, op_delete, peek, next}
use jdocs.Ot.Passes.{Pass, transform_pass, more, rounds, start, transform}
use jdocs.Ot.Units.{Edit, keep, cut, put, units, rebase_units}
use jdocs.Ot.Units.Chunks.{
  rebase-puts, puts-rebase, keep-rebase-keep, keep-rebase-cut, cut-rebase-keep, cut-rebase-cut,
  end-rebase-keep, end-rebase-cut, keep-rebase-end, cut-rebase-end,
}
use jdocs.Ot.Emit.{OpType-cases, units-op_retain, units-op_insert, units-op_delete}
use jdocs.Ot.Iterate.{AllGood, todo, ahead-zero}
use jdocs.Ot.Rounds.{IsSound, Round, Round-of, loop_ends}
use jdocs.Ot.Both.{min_len, both_next, both-Round, Turn-a, Turn-b, start-IsSound}
use jdocs.Ot.Fronts.{
  Front, run, spent, Front-retain, Front-delete, length-Front, step, length-next-lt, NoPut-todo,
  todo-pos, whole_insert,
}

module _ {us us' vs vs' : List Edit} {m : ℕ} where
  keep-keep :
      Front us us' keep m
      → Front vs vs' keep m
      → 0 < length us + length vs
      → rebase_units us vs ≡ replicate m keep ++ rebase_units us' vs'
  keep-keep (run e) (run f) h = ap₂ rebase_units e f ∙ keep-rebase-keep m us' vs'
  keep-keep (run e) (spent f f' _) h = ap₂ rebase_units e f ∙ keep-rebase-end m us' ∙ rw f'
  keep-keep (spent e e' _) (run f) h = ap₂ rebase_units e f ∙ end-rebase-keep m vs' ∙ rw e'
  keep-keep (spent e _ _) (spent f _ _) h = absurd (omega (arith, ap length e, ap length f))

  keep-cut : Front us us' keep m → Front vs vs' cut m → rebase_units us vs ≡ rebase_units us' vs'
  keep-cut (run e) (run f) = ap₂ rebase_units e f ∙ keep-rebase-cut m us' vs'
  keep-cut (spent e e' _) (run f) = ap₂ rebase_units e f ∙ end-rebase-cut m vs' ∙ rw e'
  keep-cut _ (spent _ _ k) = cc

  cut-keep :
      Front us us' cut m
      → Front vs vs' keep m
      → rebase_units us vs ≡ replicate m cut ++ rebase_units us' vs'
  cut-keep (run e) (run f) = ap₂ rebase_units e f ∙ cut-rebase-keep m us' vs'
  cut-keep (run e) (spent f f' _) = ap₂ rebase_units e f ∙ cut-rebase-end m us' ∙ rw f'
  cut-keep (spent _ _ k) _ = cc

  cut-cut : Front us us' cut m → Front vs vs' cut m → rebase_units us vs ≡ rebase_units us' vs'
  cut-cut (run e) (run f) = ap₂ rebase_units e f ∙ cut-rebase-cut m us' vs'
  cut-cut _ (spent _ _ k) = cc
  cut-cut (spent _ _ k) _ = cc

module _ {J : Type 0} (json : JsonOps J) (p : Pass J) (s : IsSound p) where
  insert_b : (peek json p.iter_b).type ≡ insert → Round rebase_units p (transform_pass json p)
  unfolding transform_pass
  insert_b e =
      let b = peek json p.iter_b in
      let (shown, sized) = whole_insert json p.iter_b s.ready_b e in
      let n = length-replicate b.length keep in
      let size = length-append (map put b.text) (todo (next json p.iter_b b.length)) in
      rw (e, transform_pass)
        (Round-of rebase_units p _ (replicate b.length keep) s s.ready_a
          (step json p.iter_b s.ready_b).1
          (omega (arith, n, ap length shown, sized, size, length-map b.text put))
          (λ h. units-op_retain json p.result b.length json.null (omega (arith, n, h)))
          (ap (rebase_units (todo p.iter_a)) shown
            ∙ rebase-puts (todo p.iter_a) b.text _
            ∙ ap
                (λ k.
                  replicate k keep
                  ++ rebase_units (todo p.iter_a) (todo (next json p.iter_b b.length)))
                sized)
          (omega (arith, length-next-lt json s.ready_b (λ k. cc))))

  insert_a :
      (peek json p.iter_b).type ≢ insert
      → (peek json p.iter_a).type ≡ insert
      → Round rebase_units p (transform_pass json p)
  unfolding transform_pass
  insert_a ne e =
      let a = peek json p.iter_a in
      let (shown, sized) = whole_insert json p.iter_a s.ready_a e in
      let n = length-map a.text put in
      let size = length-append (map put a.text) (todo (next json p.iter_a a.length)) in
      let q : Pass J = record p {
        result = op_insert json p.result a.text a.attributes;
        iter_a = next json p.iter_a a.length;
      } in
      let eq : transform_pass json p ≡ q = ground arith in
      subst (Round rebase_units p) (sym eq) (
        Round-of rebase_units p q (map put a.text) s (step json p.iter_a s.ready_a).1 s.ready_b
          (omega (arith, n, ap length shown, sized, size))
          (λ h. units-op_insert json p.result a.text a.attributes (omega (arith, n, h)))
          (ap (λ us. rebase_units us (todo p.iter_b)) shown
            ∙ puts-rebase a.text _ (todo p.iter_b) (NoPut-todo json p.iter_b s.ready_b ne))
          (omega (arith, length-next-lt json s.ready_a (λ k. cc))))

  rest-Round :
      more json p ≡ true
      → (peek json p.iter_a).type ≢ insert
      → (peek json p.iter_b).type ≢ insert
      → Round rebase_units p (transform_pass json p)
  unfolding transform_pass
  rest-Round h na nb = elim (OpType-cases (peek json p.iter_a).type) [
    | inr (inl e) ↦ absurd (na e)
    | inl ea ↦ elim (OpType-cases (peek json p.iter_b).type) [
      | inr (inl e) ↦ absurd (nb e)
      | inl eb ↦
          let kept = op_retain json p.result (min_len json p) (peek json p.iter_a).attributes in
          becomes kept (ground arith) (
            both-Round json rebase_units p s (replicate (min_len json p) keep) kept h
              (length-Front (Front-retain ea (Turn-a json p s)))
              (length-Front (Front-retain eb (Turn-b json p s)))
              (omega (arith, length-replicate (min_len json p) keep))
              (λ r.
                units-op_retain json p.result (min_len json p) _
                  (omega (arith, r, length-replicate (min_len json p) keep)))
              (keep-keep (Front-retain ea (Turn-a json p s)) (Front-retain eb (Turn-b json p s))
                (todo-pos json p.iter_a p.iter_b s.ready_a s.ready_b (unfold more in h))))
      | inr (inr eb) ↦ becomes p.result (ground arith) (
          both-Round json rebase_units p s [] p.result h
            (length-Front (Front-retain ea (Turn-a json p s)))
            (length-Front (Front-delete eb (Turn-b json p s))) (omega arith)
            (λ _. sym (append-nil (units p.result)))
            (keep-cut (Front-retain ea (Turn-a json p s)) (Front-delete eb (Turn-b json p s))))
    ]
    | inr (inr ea) ↦ elim (OpType-cases (peek json p.iter_b).type) [
      | inr (inl e) ↦ absurd (nb e)
      | inl eb ↦
          let gone = op_delete json p.result (min_len json p) in
          becomes gone (ground arith) (
            both-Round json rebase_units p s (replicate (min_len json p) cut) gone h
              (length-Front (Front-delete ea (Turn-a json p s)))
              (length-Front (Front-retain eb (Turn-b json p s)))
              (omega (arith, length-replicate (min_len json p) cut))
              (λ r.
                units-op_delete json p.result (min_len json p)
                  (omega (arith, r, length-replicate (min_len json p) cut)))
              (cut-keep (Front-delete ea (Turn-a json p s)) (Front-retain eb (Turn-b json p s))))
      | inr (inr eb) ↦ becomes p.result (ground arith) (
          both-Round json rebase_units p s [] p.result h
            (length-Front (Front-delete ea (Turn-a json p s)))
            (length-Front (Front-delete eb (Turn-b json p s))) (omega arith)
            (λ _. sym (append-nil (units p.result)))
            (cut-cut (Front-delete ea (Turn-a json p s)) (Front-delete eb (Turn-b json p s))))
    ]
  ]
    where
      becomes :
          (emitted : Operation J)
          → transform_pass json p ≡ both_next json p emitted
          → Round rebase_units p (both_next json p emitted)
          → Round rebase_units p (transform_pass json p)
      becomes emitted e = subst (Round rebase_units p) (sym e)

  pub transform_pass-Round : more json p ≡ true → Round rebase_units p (transform_pass json p)
  transform_pass-Round h = elim (OpType-cases (peek json p.iter_b).type) [
    | inr (inl e) ↦ insert_b e
    | inl eb ↦ not_b h (λ k. cc)
    | inr (inr eb) ↦ not_b h (λ k. cc)
  ]
    where
      not_b :
          more json p ≡ true
          → (peek json p.iter_b).type ≢ insert
          → Round rebase_units p (transform_pass json p)
      not_b h nb = elim (OpType-cases (peek json p.iter_a).type) [
        | inr (inl e) ↦ insert_a nb e
        | inl ea ↦ rest-Round h (λ k. cc) nb
        | inr (inr ea) ↦ rest-Round h (λ k. cc) nb
      ]

module _ {J : Type 0} (json : JsonOps J) (client server : Operation J) where
  -- `transform` ends, and character by character it is `rebase_units`.
  pub transform-units :
      AllGood client
      → AllGood server
      → length (units client) + length (units server) < u32_mod
      → (r : Operation J) × (transform json client server ≡ some r)
        × (units r ≡ rebase_units (units client) (units server))
  unfolding transform start rebase_units
  transform-units ga gb room =
      let (r, ends, e) =
        loop_ends json rebase_units (transform_pass json) (transform_pass-Round json) refl
          (rounds json client server) (start json client server)
          (start-IsSound json client server ga gb room) (omega arith) in
      (r, ends, e ∙ ap₂ rebase_units (ahead-zero client) (ahead-zero server))
