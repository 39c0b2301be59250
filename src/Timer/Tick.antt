-- ===== src/Timer/Tick.antt =====
-- A tick of the wheel in src/core/timer.cc.
use jdocs.Base.{
  ℕ, ◌+◌, ◌/◌, ◌%◌, ◌<◌, ◌≡◌, ◌≢◌, inl, inr, refl, sym, ap, ◌∙◌, subst, Bool, true, false, ◌&&◌,
  Bool-cases, List, [], arith, ◌==◌, ==_iff, if◌then◌else◌,
}
use jdocs.Timer.Defs.{
  TimerNode, Level, TimeWheel, span, same_level, slot_of, set_slot, cascade_from, upper, ticked,
  due,
}
use jdocs.Timer.Good.{IsGood, rank, at}
use jdocs.Timer.Pending.{count, pending, pending-set_slot, count-set_slot, zero_of_not_pos}
use jdocs.Timer.Cascade.{IsPlaced}
use jdocs.Timer.Stage.{Stage, Follows, settle, cascade_from-Stage}

-- Every timer hangs where its time and the wheel's time say, and a tick takes some time.
pub record IsValid (w : TimeWheel) : Type 0 where
  pub placed : IsPlaced (λ l. w.current_tick) w
  pub ticking : 0 < w.tick

at_start : (a : ℕ) (l : Level) → at a 0 l ≡ a
at_start a l = ground arith

at_end : (a : ℕ) (l : Level) → 0 < rank l → at a 4 l ≡ a + 1
at_end a l h = ground arith

quiet_levels : (a : ℕ) (l : Level) → 0 < rank l → (a + 1) % 256 ≢ 0 → (a + 1) % span l ≢ 0
quiet_levels a Level.tv1 h z e = omega (arith, h)
quiet_levels a Level.tv2 h z e = z e
quiet_levels a Level.tv3 h z e = z (omega (arith, e))
quiet_levels a Level.tv4 h z e = z (omega (arith, e))
quiet_levels a Level.tv5 h z e = z (omega (arith, e))

-- The wheel of `due` before its slot is detached.
cascaded : TimeWheel → TimeWheel
cascaded w = if (w.current_tick + 1) % 256 == 0 then cascade_from (ticked w) upper else ticked w

test_ne : (n : ℕ) → n ≡ 0 → (n == 0) ≡ false → ⊥
test_ne n e h = ground arith

cascaded-Stage : (w : TimeWheel) → IsValid w → Stage w.current_tick 4 w (cascaded w)
unfolding cascaded Follows pending ticked
cascaded-Stage w h =
    let a = w.current_tick in
    let start : Stage a 0 w (ticked w) = record {
      current = refl;
      tick = refl;
      placed = record {
        place = λ l i u pos.
            subst (λ x. IsGood x l i u.expires) (sym (at_start a l)) (h.placed.place l i u pos);
      };
      kept = λ u. refl;
    } in
    elim (Bool-cases ((a + 1) % 256 == 0)) [
      | inl turn ↦ rw turn (
          cascade_from-Stage a 0 w (ticked w) upper (refl, (refl, (refl, (refl, refl))))
            ((==_iff _ 0).0 turn) start)
      | inr none_due ↦ rw none_due (
          settle a 0 w (ticked w) (λ l above. quiet_levels a l above (λ e. test_ne _ e none_due))
            start)
    ]

due_now : (a e : ℕ) → IsGood a Level.tv1 ((a + 1) % 256) e → e ≡ a + 1
unfolding slot_of
due_now a e g = omega (arith, g.slot, g.later, g.near)

not_yet : (a i e : ℕ) → (a + 1) % 256 ≢ i → IsGood a Level.tv1 i e → IsGood (a + 1) Level.tv1 i e
unfolding slot_of
not_yet a i e h g = record {
  slot = g.slot;
  later = omega (arith, h, g.slot, g.later, g.near);
  near = omega (arith, g.near);
}

-- What `due` takes out of the wheel, and what it leaves.
pub record Due (w : TimeWheel) (r : List TimerNode × TimeWheel) : Type 0 where
  pub current : r.1.current_tick ≡ w.current_tick + 1
  pub tick : r.1.tick ≡ w.tick
  pub placed : IsPlaced (λ l. r.1.current_tick) r.1
  pub fired :
      (u : TimerNode) → count u r.0 ≡ (if u.expires == w.current_tick + 1 then pending w u else 0)
  pub kept :
      (u : TimerNode) → pending r.1 u ≡ (if u.expires == w.current_tick + 1 then 0 else pending w u)

test_false : (i j : ℕ) → (i == j) ≡ false → i ≡ j → ⊥
test_false i j h e = ground arith

module _ (a : ℕ) (w c : TimeWheel) (h : Stage a 4 w c) where
  abbrev index : ℕ
  index = (a + 1) % 256

  slot_due : (u : TimerNode) → 0 < count u (c.slots Level.tv1 index) → u.expires ≡ a + 1
  slot_due u pos = due_now a u.expires (h.placed.place Level.tv1 index u pos)

  -- A timer that is due hangs in no upper level.
  none_above :
      (l : Level) (u : TimerNode)
      → 0 < rank l
      → u.expires ≡ a + 1
      → count u (c.slots l (slot_of l u.expires)) ≡ 0
  none_above l u r e = zero_of_not_pos _ (λ pos.
      let good = h.placed.place l (slot_of l u.expires) u pos in
      let later = good.later in
      let same : at a 4 l ≡ u.expires = at_end a l r ∙ sym e in
      let quotients : at a 4 l / span l ≡ u.expires / span l = ap (λ x. x / span l) same in
      omega (arith, later, quotients))

  place_of : (e : ℕ) → e ≡ a + 1 → slot_of Level.tv1 e ≡ index
  unfolding slot_of
  place_of e h = omega (arith, h)

  all_due : (u : TimerNode) → u.expires ≡ a + 1 → count u (c.slots Level.tv1 index) ≡ pending c u
  unfolding pending
  all_due u e =
      let place : slot_of Level.tv1 u.expires ≡ index = place_of u.expires e in
      let n2 = none_above Level.tv2 u (omega arith) e in
      let n3 = none_above Level.tv3 u (omega arith) e in
      let n4 = none_above Level.tv4 u (omega arith) e in
      let n5 = none_above Level.tv5 u (omega arith) e in
      let here = ap (λ i. count u (c.slots Level.tv1 i)) place in
      omega (arith, n2, n3, n4, n5, here)

  left_place :
      (l : Level) (i : ℕ) (u : TimerNode)
      → 0 < count u (c.slots l i)
      → (same_level Level.tv1 l && index == i) ≡ false
      → IsGood (a + 1) l i u.expires
  unfolding same_level
  left_place Level.tv1 i u pos off =
      not_yet a i u.expires (λ e. test_false index i off e) (h.placed.place Level.tv1 i u pos)
  left_place Level.tv2 i u pos off = h.placed.place Level.tv2 i u pos
  left_place Level.tv3 i u pos off = h.placed.place Level.tv3 i u pos
  left_place Level.tv4 i u pos off = h.placed.place Level.tv4 i u pos
  left_place Level.tv5 i u pos off = h.placed.place Level.tv5 i u pos

left_pending :
    (out gone in_all before : ℕ) (now : Bool)
    → gone ≡ (if now then before else 0)
    → out + gone ≡ in_all
    → in_all ≡ before
    → out ≡ (if now then 0 else before)
left_pending out gone in_all before true h1 h2 h3 = omega (arith, h1, h2, h3)
left_pending out gone in_all before false h1 h2 h3 = omega (arith, h1, h2, h3)

detached-Due :
    (w c : TimeWheel)
    → Stage w.current_tick 4 w c
    → let i = (w.current_tick + 1) % 256 in Due w (c.slots Level.tv1 i, set_slot c Level.tv1 i [])
unfolding set_slot
detached-Due w c h =
    let a = w.current_tick in
    let i = (a + 1) % 256 in
    let fired : (u : TimerNode)
        → count u (c.slots Level.tv1 i) ≡ (if u.expires == a + 1 then pending w u else 0) =
      λ u. elim (Bool-cases (u.expires == a + 1)) [
        | inl now ↦ rw now (all_due a w c h u ((==_iff _ _).0 now) ∙ h.kept u)
        | inr later ↦
            rw later (zero_of_not_pos _ (λ pos. test_false _ _ later (slot_due a w c h u pos)))
      ] in
    record {
      current = h.current;
      tick = h.tick;
      placed = record {
        place = λ l j u pos.
            let (old, off) = count-set_slot c Level.tv1 l i j u pos in
            subst (λ x. IsGood x l j u.expires) (sym h.current) (left_place a w c h l j u old off);
      };
      fired = fired;
      kept = λ u.
          let out =
            pending-set_slot c Level.tv1 i u
              (λ pos. place_of a w c h u.expires (slot_due a w c h u pos)) in
          left_pending _ _ _ _ (u.expires == a + 1) (fired u) out (h.kept u);
    }

pub due-Due : (w : TimeWheel) → IsValid w → Due w (due w)
unfolding due cascaded ticked
due-Due w h = detached-Due w (cascaded w) (cascaded-Stage w h)
