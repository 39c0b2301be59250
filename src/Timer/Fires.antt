-- ===== src/Timer/Fires.antt =====
-- When the timers of the wheel in src/core/timer.cc fire.
use jdocs.Base.{
  ℕ, ◌+◌, ◌-◌, ◌/◌, ◌^◌, ◌<◌, ◌≡◌, refl, ap, ap₂, ◌∙◌, subst, Bool, true, false, List, [], ◌∷◌,
  ◌++◌, arith, ◌==◌, if◌then◌else◌,
}
use native.Mathlib.Nat.{div-le_self}
use jdocs.Timer.Defs.{
  TimerNode, TimeWheel, slot_of, timer_add, insert_node, set_slot, level_for, add_timer, ticks_for,
  start_all, fire,
}
use jdocs.Timer.Good.{IsGood, rank, level_for-IsGood}
use jdocs.Timer.Pending.{same, weight, count, pending, pending-insert_node}
use jdocs.Timer.Cascade.{insert-IsPlaced}
use jdocs.Timer.Tick.{IsValid}

pub ticks_for_bounds :
    (w : TimeWheel) (millis : ℕ)
    → millis < 2 ^ 32
    → (0 < ticks_for w millis) × (ticks_for w millis < 2 ^ 32)
unfolding ticks_for
ticks_for_bounds w millis h = ground (arith, div-le_self millis w.tick)

-- The node that `AddTimer` hangs into the wheel.
abbrev pub started : TimeWheel → (node millis : ℕ) → TimerNode
started w node millis = record { node = node; expires = w.current_tick + ticks_for w millis }

-- What starting timers does to a wheel: it gains the counts `more`, and its time stands.
pub record Started (w : TimeWheel) (more : TimerNode → ℕ) (v : TimeWheel) : Type 0 where
  pub current : v.current_tick ≡ w.current_tick
  pub tick : v.tick ≡ w.tick
  pub valid : IsValid v
  pub gained : (u : TimerNode) → pending v u ≡ pending w u + more u

either : (b : Bool) (c : ℕ) → (if b then c else c) ≡ c
either true c = refl
either false c = refl

pub add_timer-Started :
    (w : TimeWheel) (node millis : ℕ)
    → IsValid w
    → millis < 2 ^ 32
    → Started w (λ u. weight (same (started w node millis) u)) (add_timer w node millis)
unfolding add_timer timer_add insert_node set_slot
add_timer-Started w node millis h short =
    let t = started w node millis in
    let c = w.current_tick in
    let (pos, bound) = ticks_for_bounds w millis short in
    let l = level_for (t.expires - c) in
    let (good, _) =
      level_for-IsGood c c t.expires (omega arith) (omega arith) (omega (arith, pos)) (omega arith)
        (omega (arith, bound)) in
    let good' : IsGood c l (slot_of l t.expires) t.expires =
      subst (λ x. IsGood x l (slot_of l t.expires) t.expires) (either (rank l == 0) c) good in
    record {
      current = refl;
      tick = refl;
      valid = record {
        placed = insert-IsPlaced (λ l. c) w l (slot_of l t.expires) t h.placed good';
        ticking = h.ticking;
      };
      gained = λ u. pending-insert_node w l t u;
    }

Started-trans :
    (w v x : TimeWheel) (m n : TimerNode → ℕ)
    → Started w m v
    → Started v n x
    → Started w (λ u. m u + n u) x
Started-trans w v x m n f g = record {
  current = g.current ∙ f.current;
  tick = g.tick ∙ f.tick;
  valid = g.valid;
  gained = λ u. omega (arith, f.gained u, g.gained u);
}

Started-refl : (w : TimeWheel) → IsValid w → Started w (λ u. 0) w
Started-refl w h = record { current = refl; tick = refl; valid = h; gained = λ u. omega arith }

-- The times of a callback's timers fit in a uint32_t.
unfoldable pub AllShort : List (ℕ × ℕ) → Type 0
AllShort [] = Unit
AllShort ((node, millis) ∷ rest) = (millis < 2 ^ 32) × AllShort rest

-- The nodes that callbacks hang into a wheel, by the wheel's time and the length of its tick.
unfoldable pub all_started : TimeWheel → List (ℕ × ℕ) → List TimerNode
unfolding ticks_for
all_started w [] = []
all_started w ((node, millis) ∷ rest) = started w node millis ∷ all_started w rest

unfoldable pub fire_started : (ℕ → List (ℕ × ℕ)) → TimeWheel → List TimerNode → List TimerNode
unfolding all_started
fire_started starts w [] = []
fire_started starts w (t ∷ ts) = all_started w (starts t.node) ++ fire_started starts w ts

all_started_same :
    (w v : TimeWheel) (rs : List (ℕ × ℕ))
    → v.current_tick ≡ w.current_tick
    → v.tick ≡ w.tick
    → all_started v rs ≡ all_started w rs
unfolding all_started
all_started_same w v [] c t = refl
all_started_same w v ((node, millis) ∷ rest) c t =
    ap₂ ◌∷◌
      (ap₂
        (λ now ticks. record {
          node = node;
          expires = now + (if millis / ticks == 0 then 1 else millis / ticks);
        })
        c t)
      (all_started_same w v rest c t)

pub fire_started_same :
    (starts : ℕ → List (ℕ × ℕ)) (w v : TimeWheel) (ts : List TimerNode)
    → v.current_tick ≡ w.current_tick
    → v.tick ≡ w.tick
    → fire_started starts v ts ≡ fire_started starts w ts
unfolding fire_started
fire_started_same starts w v [] c t = refl
fire_started_same starts w v (x ∷ ts) c t =
    ap₂ ◌++◌ (all_started_same w v (starts x.node) c t) (fire_started_same starts w v ts c t)

count-append :
    (u : TimerNode) (xs ys : List TimerNode) → count u (xs ++ ys) ≡ count u xs + count u ys
unfolding count
count-append u [] ys = omega arith
count-append u (x ∷ xs) ys = omega (arith, count-append u xs ys)

start_all-Started :
    (w : TimeWheel) (rs : List (ℕ × ℕ))
    → IsValid w
    → AllShort rs
    → Started w (λ u. count u (all_started w rs)) (start_all w rs)
unfolding start_all all_started AllShort count
start_all-Started w [] h short = Started-refl w h
start_all-Started w ((node, millis) ∷ rest) h (short, more) =
    let one = add_timer-Started w node millis h short in
    let v = add_timer w node millis in
    let all = start_all-Started v rest one.valid more in
    Started-trans w v (start_all v rest) _ _ one (
      subst (λ xs. Started v (λ u. count u xs) (start_all v rest))
        (all_started_same w v rest one.current one.tick) all)

Started-ext :
    (w v : TimeWheel) (m n : TimerNode → ℕ)
    → ((u : TimerNode) → m u ≡ n u)
    → Started w m v
    → Started w n v
Started-ext w v m n e f = record {
  current = f.current;
  tick = f.tick;
  valid = f.valid;
  gained = λ u. f.gained u ∙ ap (λ k. pending w u + k) (e u);
}

pub fire-Started :
    (starts : ℕ → List (ℕ × ℕ)) (w : TimeWheel) (ts : List TimerNode)
    → ((node : ℕ) → AllShort (starts node))
    → IsValid w
    → Started w (λ u. count u (fire_started starts w ts)) (fire starts w ts)
unfolding fire fire_started count
fire-Started starts w [] short h = Started-refl w h
fire-Started starts w (t ∷ ts) short h =
    let v = start_all w (starts t.node) in
    let one = start_all-Started w (starts t.node) h (short t.node) in
    let all = fire-Started starts v ts short one.valid in
    let first = all_started w (starts t.node) in
    Started-ext w _ _ _
      (λ u.
        let same = ap (count u) (fire_started_same starts w v ts one.current one.tick) in
        let both = count-append u first (fire_started starts w ts) in omega (arith, same, both))
      (Started-trans w v (fire starts v ts) _ _ one all)
