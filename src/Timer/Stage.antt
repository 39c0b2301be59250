-- ===== src/Timer/Stage.antt =====
-- The loop of `Tick` in src/core/timer.cc over the levels.
use jdocs.Base.{
  ℕ, suc, ◌+◌, ◌/◌, ◌%◌, ◌<◌, ◌≤◌, ◌≡◌, ◌≢◌, inl, inr, refl, sym, ap, ◌∙◌, subst, Bool, true, false,
  ◌&&◌, Bool-cases, List, [], ◌∷◌, arith, leb, ◌==◌, ==_iff, if◌then◌else◌,
}
use jdocs.Timer.Defs.{
  TimerNode, Level, TimeWheel, span, same_level, set_slot, insert_node, timer_add, add_all,
  timer_cascade, cascade_from,
}
use jdocs.Timer.Good.{IsGood, rank, at, turn_has_come, turn_to_come, no_turn}
use jdocs.Timer.Pending.{
  count, pending, pending-add_all, pending-set_slot, count-set_slot, same_level-eq,
}
use jdocs.Timer.Cascade.{IsPlaced, AllMove, AllMove-of, add_all-IsPlaced}
use jdocs.Timer.Turns.{higher_no_turn, next_turn}

-- The wheel on its way from `a` to `a + 1`, with the levels up to rank `s` cascaded: nothing of the wheel
-- `w` is lost.
pub record Stage (a s : ℕ) (w v : TimeWheel) : Type 0 where
  pub current : v.current_tick ≡ a + 1
  pub tick : v.tick ≡ w.tick
  pub placed : IsPlaced (at a s) v
  pub kept : (u : TimerNode) → pending v u ≡ pending w u

add_all_current :
    (w : TimeWheel) (ts : List TimerNode)
    → ((add_all w ts).current_tick ≡ w.current_tick) × ((add_all w ts).tick ≡ w.tick)
unfolding add_all timer_add insert_node set_slot
add_all_current w [] = (refl, refl)
add_all_current w (t ∷ ts) = add_all_current (timer_add w t) ts

rank_same : (l l' : Level) → rank l ≡ rank l' → same_level l l' ≡ true
unfolding same_level
rank_same l l' h = ground arith

differ : (b : Bool) → b ≡ false → b ≡ true → ⊥
differ b f t = cc

at_same : (a s : ℕ) (l : Level) → rank l ≢ suc s → at a s l ≡ at a (suc s) l
at_same a s l h =
    let tests : leb (rank l) s ≡ leb (rank l) (suc s) = ground arith in
    ap (λ b. if rank l == 0 then a else if b then a + 1 else a) tests

-- A level that is reached, and one that is not.
at_old : (a s : ℕ) (l : Level) → s < rank l → at a s l ≡ a
at_old a s l h = ground arith

at_new : (a s : ℕ) (l : Level) → 0 < rank l → rank l ≤ s → at a s l ≡ a + 1
at_new a s l p h = ground arith

off_ne : (i i' : ℕ) → (i == i') ≡ false → i ≢ i'
off_ne i i' h e = ground arith

turned :
    (a s i' e : ℕ) (l : Level)
    → rank l ≡ suc s
    → (a + 1) % span l ≡ 0
    → ((a + 1) / span l % 64 == i') ≡ false
    → IsGood (at a s l) l i' e
    → IsGood (at a (suc s) l) l i' e
turned a s i' e l r z off good =
    let old = at_old a s l (omega (arith, r)) in
    let new = at_new a (suc s) l (omega (arith, r)) (omega (arith, r)) in
    let moved =
      turn_to_come a i' e l z (omega (arith, r)) (off_ne ((a + 1) / span l % 64) i' off)
        (subst (λ x. IsGood x l i' e) old good) in
    subst (λ x. IsGood x l i' e) (sym new) moved

unmoved :
    (a s : ℕ) (l l' : Level)
    → rank l ≡ suc s
    → same_level l l' ≡ false
    → at a s l' ≡ at a (suc s) l'
unfolding same_level
unmoved a s l l' r d = at_same a s l' (λ e. differ (same_level l l') d (rank_same l l' (r ∙ sym e)))

detached-IsPlaced :
    (a s : ℕ) (w : TimeWheel) (l : Level)
    → rank l ≡ suc s
    → (a + 1) % span l ≡ 0
    → IsPlaced (at a s) w
    → IsPlaced (at a (suc s)) (set_slot w l ((a + 1) / span l % 64) [])
detached-IsPlaced a s w l r z h = record {
  place = λ l' i' u pos.
      let i = (a + 1) / span l % 64 in
      let (old, off) = count-set_slot w l l' i i' u pos in
      let good = h.place l' i' u old in
      elim (Bool-cases (same_level l l')) [
        | inr d ↦ subst (λ x. IsGood x l' i' u.expires) (unmoved a s l l' r d) good
        | inl e ↦
            let lev = same_level-eq l l' e in
            let off' : (i == i') ≡ false = subst (λ b. (b && i == i') ≡ false) e off in
            subst (λ x. IsGood (at a (suc s) x) x i' u.expires) lev
              (turned a s i' u.expires l r z off'
                (subst (λ x. IsGood (at a s x) x i' u.expires) (sym lev) good))
      ];
}

-- One level's turn.
timer_cascade-Stage :
    (a s : ℕ) (w v : TimeWheel) (l : Level)
    → rank l ≡ suc s
    → (a + 1) % span l ≡ 0
    → Stage a s w v
    → Stage a (suc s) w (timer_cascade v l ((a + 1) / span l % 64))
unfolding timer_cascade set_slot
timer_cascade-Stage a s w v l r z h =
    let i = (a + 1) / span l % 64 in
    let cleared = set_slot v l i [] in
    let now : at a s l ≡ a = ground arith in
    let good : (u : TimerNode) → 0 < count u (v.slots l i) → IsGood a l i u.expires =
      λ u pos. subst (λ x. IsGood x l i u.expires) now (h.placed.place l i u pos) in
    let moves : AllMove a l (v.slots l i) =
      AllMove-of a l (v.slots l i)
        (λ u pos. turn_has_come a 0 u.expires l (omega (arith, r)) z (good u pos)) in
    let same = add_all_current cleared (v.slots l i) in
    record {
      current = same.0 ∙ h.current;
      tick = same.1 ∙ h.tick;
      placed =
          add_all-IsPlaced a s l cleared (v.slots l i) h.current r
            (detached-IsPlaced a s v l r z h.placed) moves;
      kept = λ u.
          let put = pending-add_all cleared (v.slots l i) u in
          let taken = pending-set_slot v l i u (λ pos. (good u pos).slot) in
          let before = h.kept u in omega (arith, put, taken, before);
    }

rank_le : (l : Level) → rank l ≤ 4
rank_le l = ground arith

at_reached : (a s : ℕ) (l : Level) → leb (rank l) s ≡ true → at a s l ≡ at a 4 l
at_reached a s l h = let all : leb (rank l) 4 ≡ true = ground (arith, rank_le l) in rw (h, all)

settled :
    (a s i e : ℕ) (l : Level)
    → (s < rank l → (a + 1) % span l ≢ 0)
    → IsGood (at a s l) l i e
    → IsGood (at a 4 l) l i e
settled a s i e l quiet good = elim (Bool-cases (leb (rank l) s)) [
  | inl reached ↦
      let same : at a s l ≡ at a 4 l = at_reached a s l reached in
      subst (λ x. IsGood x l i e) same good
  | inr waiting ↦
      let above : s < rank l = ground arith in
      let new = at_new a 4 l (omega (arith, above)) (rank_le l) in
      subst (λ x. IsGood x l i e) (sym new)
        (no_turn a i e l (quiet above) (subst (λ x. IsGood x l i e) (at_old a s l above) good))
]

-- The levels whose turn has not come stand as they are.
pub settle :
    (a s : ℕ) (w v : TimeWheel)
    → ((l : Level) → s < rank l → (a + 1) % span l ≢ 0)
    → Stage a s w v
    → Stage a 4 w v
settle a s w v quiet h = record {
  current = h.current;
  tick = h.tick;
  kept = h.kept;
  placed = record {
    place = λ l i u pos. settled a s i u.expires l (quiet l) (h.placed.place l i u pos);
  };
}

unfoldable pub Follows : ℕ → List Level → Type 0
Follows s [] = s ≡ 4
Follows s (l ∷ ls) = (rank l ≡ suc s) × Follows (suc s) ls

abbrev pub Turn : ℕ → List Level → Type 0
Turn a [] = Unit {0}
Turn a (l ∷ ls) = (a + 1) % span l ≡ 0

following :
    (a s : ℕ) (l : Level) (ls : List Level)
    → rank l ≡ suc s
    → Follows (suc s) ls
    → (a + 1) % span l ≡ 0
    → ((a + 1) / span l % 64 == 0) ≡ true
    → Turn a ls
unfolding Follows
following a s l [] r f z h = tt
following a s l (l' ∷ ls) r f z h =
    next_turn a l l' (omega (arith, r)) (omega (arith, r, f.0)) z ((==_iff _ 0).0 h)

pub cascade_from-Stage :
    (a s : ℕ) (w v : TimeWheel) (ls : List Level)
    → Follows s ls
    → Turn a ls
    → Stage a s w v
    → Stage a 4 w (cascade_from v ls)
unfolding cascade_from Follows
cascade_from-Stage a s w v [] f t h = subst (λ k. Stage a k w v) f h
cascade_from-Stage a s w v (l ∷ ls) (r, f) t h =
    let cascade = (a + 1) / span l % 64 in
    let turn : v.current_tick / span l % 64 ≡ cascade = ap (λ c. c / span l % 64) h.current in
    let one = timer_cascade-Stage a s w v l r t h in
    elim (Bool-cases (cascade == 0)) [
      | inl more ↦
          rw (turn, more)
            (cascade_from-Stage a (suc s) w _ ls f (following a s l ls r f t more) one)
      | inr stop ↦
          rw (turn, stop)
            (settle a (suc s) w _
              (λ l' above. higher_no_turn a l l' (omega (arith, above, r)) (off_ne cascade 0 stop))
              one)
    ]
