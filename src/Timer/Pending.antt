-- ===== src/Timer/Pending.antt =====
-- How often a timer hangs in the wheel of src/core/timer.cc.
use jdocs.Base.{
  ◌⊎◌, ℕ, zero, suc, ◌+◌, ◌-◌, ◌<◌, ◌≡◌, refl, sym, ap, subst, Bool, true, false, ◌&&◌, Bool-cases,
  inl, inr, List, [], ◌∷◌, arith, ◌==◌, ==_iff, if◌then◌else◌,
}
use jdocs.Timer.Defs.{
  TimerNode, Level, TimeWheel, same_level, slot_of, set_slot, insert_node, level_for, timer_add,
  add_all,
}

abbrev pub same : TimerNode → TimerNode → Bool
same t u = t.node == u.node && t.expires == u.expires

abbrev pub weight : Bool → ℕ
weight b = if b then 1 else 0

unfoldable pub count : TimerNode → List TimerNode → ℕ
count u [] = 0
count u (t ∷ ts) = weight (same t u) + count u ts

pub same-eq : (t u : TimerNode) → same t u ≡ true → t ≡ u
same-eq t u h = ground arith

pub same_refl : (t : TimerNode) → same t t ≡ true
same_refl t = ground arith

-- The timer in its slot of each level.
unfoldable pub pending : TimeWheel → TimerNode → ℕ
unfolding count
pending w u =
    count u (w.slots Level.tv1 (slot_of Level.tv1 u.expires))
    + count u (w.slots Level.tv2 (slot_of Level.tv2 u.expires))
    + count u (w.slots Level.tv3 (slot_of Level.tv3 u.expires))
    + count u (w.slots Level.tv4 (slot_of Level.tv4 u.expires))
    + count u (w.slots Level.tv5 (slot_of Level.tv5 u.expires))

-- A slot with one timer more.
apart : (i i' : ℕ) → (i == i') ≡ false → i ≡ i' → ⊥
apart i i' h e = ground arith

pub zero_of_not_pos : (n : ℕ) → (0 < n → ⊥) → n ≡ 0
zero_of_not_pos zero h = refl
zero_of_not_pos (suc n) h = absurd (h (omega arith))

count-inserted :
    (t u : TimerNode) (slots : ℕ → List TimerNode) (i i' : ℕ)
    → (t ≡ u → i ≡ i')
    → count u (if i == i' then t ∷ slots i else slots i') ≡ count u (slots i') + weight (same t u)
unfolding count
count-inserted t u slots i i' h = elim (Bool-cases (i == i')) [
  | inl e ↦ rw e (rw ((==_iff i i').0 e) (omega arith))
  | inr ne ↦ elim (Bool-cases (same t u)) [
    | inl s ↦ absurd (apart i i' ne (h (same-eq t u s)))
    | inr d ↦ rw (ne, d) (omega arith)
  ]
]

inserted :
    (w : TimeWheel) (l : Level) (t u : TimerNode)
    → let i = slot_of l t.expires in
      let i' = slot_of l u.expires in
      count u (if i == i' then t ∷ w.slots l i else w.slots l i')
      ≡ count u (w.slots l i') + weight (same t u)
inserted w l t u =
    count-inserted t u (w.slots l) (slot_of l t.expires) (slot_of l u.expires)
      (λ e. ap (λ x. slot_of l x.expires) e)

pub pending-insert_node :
    (w : TimeWheel) (l : Level) (t u : TimerNode)
    → pending (insert_node w l (slot_of l t.expires) t) u ≡ pending w u + weight (same t u)
unfolding pending insert_node
pending-insert_node w Level.tv1 t u = rw (inserted w Level.tv1 t u) (omega arith)
pending-insert_node w Level.tv2 t u = rw (inserted w Level.tv2 t u) (omega arith)
pending-insert_node w Level.tv3 t u = rw (inserted w Level.tv3 t u) (omega arith)
pending-insert_node w Level.tv4 t u = rw (inserted w Level.tv4 t u) (omega arith)
pending-insert_node w Level.tv5 t u = rw (inserted w Level.tv5 t u) (omega arith)

pub pending-add_all :
    (w : TimeWheel) (ts : List TimerNode) (u : TimerNode)
    → pending (add_all w ts) u ≡ pending w u + count u ts
unfolding add_all timer_add count
pending-add_all w [] u = omega arith
pending-add_all w (t ∷ ts) u =
    let l = level_for (t.expires - w.current_tick) in
    let one = pending-insert_node w l t u in
    let rest = pending-add_all (timer_add w t) ts u in omega (arith, one, rest)

count-detached :
    (u : TimerNode) (slots : ℕ → List TimerNode) (i i' : ℕ)
    → (0 < count u (slots i) → i' ≡ i)
    → count u (if i == i' then [] else slots i') + count u (slots i) ≡ count u (slots i')
unfolding count
count-detached u slots i i' h = elim (Bool-cases (i == i')) [
  | inl e ↦
      let moved = ap (λ j. count u (slots j)) ((==_iff i i').0 e) in rw e (omega (arith, moved))
  | inr ne ↦
      let none_there : count u (slots i) ≡ 0 =
        zero_of_not_pos (count u (slots i)) (λ pos. apart i i' ne (sym (h pos))) in
      rw (ne, none_there) (omega arith)
]

-- A detached slot takes its timers out of the wheel.
pub pending-set_slot :
    (w : TimeWheel) (l : Level) (i : ℕ) (u : TimerNode)
    → (0 < count u (w.slots l i) → slot_of l u.expires ≡ i)
    → pending (set_slot w l i []) u + count u (w.slots l i) ≡ pending w u
unfolding pending set_slot
pending-set_slot w Level.tv1 i u h =
    let one = count-detached u (w.slots Level.tv1) i (slot_of Level.tv1 u.expires) h in
    omega (arith, one)
pending-set_slot w Level.tv2 i u h =
    let one = count-detached u (w.slots Level.tv2) i (slot_of Level.tv2 u.expires) h in
    omega (arith, one)
pending-set_slot w Level.tv3 i u h =
    let one = count-detached u (w.slots Level.tv3) i (slot_of Level.tv3 u.expires) h in
    omega (arith, one)
pending-set_slot w Level.tv4 i u h =
    let one = count-detached u (w.slots Level.tv4) i (slot_of Level.tv4 u.expires) h in
    omega (arith, one)
pending-set_slot w Level.tv5 i u h =
    let one = count-detached u (w.slots Level.tv5) i (slot_of Level.tv5 u.expires) h in
    omega (arith, one)

pub same_level-eq : (l l' : Level) → same_level l l' ≡ true → l ≡ l'
unfolding same_level
same_level-eq l l' h = ground arith

&&-true : (a b : Bool) → (a && b) ≡ true → (a ≡ true) × (b ≡ true)
&&-true a b h = (ground arith, ground arith)

not_lt_zero : 0 < 0 → ⊥
not_lt_zero h = omega arith

-- Where a timer may hang after an insertion.
pub count-insert_node :
    (w : TimeWheel) (l l' : Level) (i i' : ℕ) (t u : TimerNode)
    → 0 < count u ((insert_node w l i t).slots l' i')
    → (0 < count u (w.slots l' i')) ⊎ ((t ≡ u) × (l ≡ l') × (i ≡ i'))
unfolding insert_node count
count-insert_node w l l' i i' t u h = elim (Bool-cases (same_level l l' && i == i')) [
  | inr no_match ↦
      inl (subst (λ b. 0 < count u (if b then t ∷ w.slots l i else w.slots l' i')) no_match h)
  | inl match ↦
      let (levels, places) = &&-true (same_level l l') (i == i') match in
      let lev = same_level-eq l l' levels in
      let place = (==_iff i i').0 places in
      let here : 0 < count u (t ∷ w.slots l i) =
        subst (λ b. 0 < count u (if b then t ∷ w.slots l i else w.slots l' i')) match h in
      elim (Bool-cases (same t u)) [
        | inl s ↦ inr (same-eq t u s, lev, place)
        | inr d ↦
            let rest : 0 < weight false + count u (w.slots l i) =
              subst (λ b. 0 < weight b + count u (w.slots l i)) d here in
            let old : 0 < count u (w.slots l i) = omega (arith, rest) in
            inl (
              subst (λ x. 0 < count u (w.slots x i')) lev
                (subst (λ j. 0 < count u (w.slots l j)) place old))
      ]
]

-- And after a slot was detached.
pub count-set_slot :
    (w : TimeWheel) (l l' : Level) (i i' : ℕ) (u : TimerNode)
    → 0 < count u ((set_slot w l i []).slots l' i')
    → (0 < count u (w.slots l' i')) × ((same_level l l' && i == i') ≡ false)
unfolding set_slot count
count-set_slot w l l' i i' u h = elim (Bool-cases (same_level l l' && i == i')) [
  | inr other ↦ (subst (λ b. 0 < count u (if b then [] else w.slots l' i')) other h, other)
  | inl match ↦
      absurd (not_lt_zero (subst (λ b. 0 < count u (if b then [] else w.slots l' i')) match h))
]
