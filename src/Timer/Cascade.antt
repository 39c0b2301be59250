-- ===== src/Timer/Cascade.antt =====
-- The cascades of `Tick` in src/core/timer.cc move every timer whose turn has come, and lose none.
use jdocs.Base.{
  ℕ, suc, ◌+◌, ◌-◌, ◌^◌, ◌<◌, ◌≤◌, ◌≡◌, ◌⊎◌, inl, inr, sym, ap, ◌∙◌, subst, true, List, [], ◌∷◌,
  arith, leb, ◌==◌, if◌then◌else◌,
}
use jdocs.Timer.Defs.{
  TimerNode, Level, TimeWheel, span, slot_of, insert_node, level_for, timer_add, add_all,
}
use jdocs.Timer.Good.{IsGood, rank, at, level_for-IsGood}
use jdocs.Timer.Pending.{count, same_refl, count-insert_node}

-- Every timer in the wheel hangs in a good place, for the time that its level stands at.
pub record IsPlaced (refs : Level → ℕ) (w : TimeWheel) : Type 0 where
  pub place :
      (l : Level) (i : ℕ) (u : TimerNode)
      → 0 < count u (w.slots l i)
      → IsGood (refs l) l i u.expires

moved-IsGood :
    (refs : Level → ℕ) (l l' : Level) (i i' : ℕ) (t u : TimerNode)
    → IsGood (refs l) l i t.expires
    → l ≡ l'
    → i ≡ i'
    → t ≡ u
    → IsGood (refs l') l' i' u.expires
moved-IsGood refs l l' i i' t u g lev pl e =
    subst (λ x. IsGood (refs x) x i' u.expires) lev
      (subst (λ j. IsGood (refs l) l j u.expires) pl
        (subst (λ x. IsGood (refs l) l i x.expires) e g))

-- A timer may be added where its level stands at the wheel's time.
pub insert-IsPlaced :
    (refs : Level → ℕ) (w : TimeWheel) (l : Level) (i : ℕ) (t : TimerNode)
    → IsPlaced refs w
    → IsGood (refs l) l i t.expires
    → IsPlaced refs (insert_node w l i t)
insert-IsPlaced refs w l i t h g = record {
  place = λ l' i' u pos. elim (count-insert_node w l l' i i' t u pos) [
    | inl old ↦ h.place l' i' u old
    | inr (e, lev, pl) ↦ moved-IsGood refs l l' i i' t u g lev pl e
  ];
}

-- Detached timers of the level whose turn it is.
abbrev pub Moves : (a : ℕ) → Level → TimerNode → Type 0
Moves a l t = (a + 1 ≤ t.expires) × (t.expires - (a + 1) < span l)

unfoldable pub AllMove : (a : ℕ) → Level → List TimerNode → Type 0
AllMove a l [] = Unit
AllMove a l (t ∷ ts) = Moves a l t × AllMove a l ts

pub AllMove-of :
    (a : ℕ) (l : Level) (ts : List TimerNode)
    → ((u : TimerNode) → 0 < count u ts → Moves a l u)
    → AllMove a l ts
unfolding AllMove count
AllMove-of a l [] h = tt
AllMove-of a l (t ∷ ts) h =
    (h t (rw (same_refl t) (omega arith)), AllMove-of a l ts (λ u pos. h u (omega (arith, pos))))

span_lt : (l l' : Level) → span l < span l' → rank l < rank l'
span_lt l l' h = ground arith

span_le : (l : Level) → span l ≤ 2 ^ 26
span_le l = ground arith

-- A timer that moves is added below its level, where the wheel's time is reached.
below :
    (a s : ℕ) (l l' : Level)
    → rank l ≡ suc s
    → rank l' ≡ 0 ⊎ (span l' < span l)
    → at a (suc s) l' ≡ (if rank l' == 0 then a else a + 1)
below a s l l' r (inl z) = rw z
below a s l l' r (inr h) =
    let lower = span_lt l' l h in
    let reached : leb (rank l') (suc s) ≡ true = ground arith in rw reached

add_moved :
    (a s c : ℕ) (l : Level) (t : TimerNode)
    → c ≡ a + 1
    → rank l ≡ suc s
    → Moves a l t
    → let l' = level_for (t.expires - c) in
      IsGood (at a (suc s) l') l' (slot_of l' t.expires) t.expires
add_moved a s c l t e r (m1, m2) =
    let l' = level_for (t.expires - c) in
    let widest = span_le l in
    let (good, low) =
      level_for-IsGood a c t.expires (omega (arith, e)) (omega (arith, e)) (omega (arith, m1))
        (omega (arith, e, m1)) (omega (arith, e, m1, m2, widest)) in
    let low' : rank l' ≡ 0 ⊎ (span l' < span l) = elim low [
      | inl z ↦ inl z
      | inr h ↦ inr (omega (arith, h, e, m1, m2))
    ] in
    let reference : (if rank l' == 0 then a else c) ≡ at a (suc s) l' =
      ap (λ x. if rank l' == 0 then a else x) e ∙ sym (below a s l l' r low') in
    subst (λ x. IsGood x l' (slot_of l' t.expires) t.expires) reference good

pub add_all-IsPlaced :
    (a s : ℕ) (l : Level) (w : TimeWheel) (ts : List TimerNode)
    → w.current_tick ≡ a + 1
    → rank l ≡ suc s
    → IsPlaced (at a (suc s)) w
    → AllMove a l ts
    → IsPlaced (at a (suc s)) (add_all w ts)
unfolding add_all timer_add AllMove
add_all-IsPlaced a s l w [] c r h m = h
add_all-IsPlaced a s l w (t ∷ ts) c r h ((m1, m2), ms) =
    add_all-IsPlaced a s l (timer_add w t) ts c r
      (insert-IsPlaced _ w _ _ t h (add_moved a s w.current_tick l t c r (m1, m2))) ms
