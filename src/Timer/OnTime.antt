-- ===== src/Timer/OnTime.antt =====
-- The timers of the wheel in src/core/timer.cc fire on time.
use jdocs.Base.{
  ℕ, zero, suc, ◌+◌, ◌-◌, ◌^◌, ◌<◌, ◌≤◌, ◌≡◌, refl, sym, ap, ap₂, ◌∙◌, subst, Bool, true, false,
  List, [], ◌∷◌, some, get_elem?, arith, ◌==◌, ==_iff, if◌then◌else◌,
}
use mathlib.Core.Option.{some-injective}
use jdocs.Timer.Defs.{TimerNode, TimeWheel, add_timer, ticks_for, fire, due, tick_wheel, update}
use jdocs.Timer.Pending.{same, weight, count, pending, same_refl}
use jdocs.Timer.Tick.{IsValid, Due, due-Due}
use jdocs.Timer.Fires.{
  AllShort, started, fire_started, add_timer-Started, fire-Started, fire_started_same,
  ticks_for_bounds,
}

-- What a tick returns and leaves: it fires the timers that are due, each as often as it hung in the
-- wheel, keeps all others, and gains those that the callbacks start.
pub record Ticked (starts : ℕ → List (ℕ × ℕ)) (w : TimeWheel) (r : List TimerNode × TimeWheel)
    : Type 0 where
  pub current : r.1.current_tick ≡ w.current_tick + 1
  pub tick : r.1.tick ≡ w.tick
  pub valid : IsValid r.1
  pub fired :
      (u : TimerNode) → count u r.0 ≡ (if u.expires == w.current_tick + 1 then pending w u else 0)
  pub kept :
      (u : TimerNode)
      → pending r.1 u
        ≡ (if u.expires == w.current_tick + 1 then 0 else pending w u)
          + count u (fire_started starts (record w { current_tick = w.current_tick + 1 }) r.0)

fire-Due :
    (starts : ℕ → List (ℕ × ℕ)) (w : TimeWheel) (r : List TimerNode × TimeWheel)
    → IsValid w
    → ((node : ℕ) → AllShort (starts node))
    → Due w r
    → Ticked starts w (r.0, fire starts r.1 r.0)
fire-Due starts w r h short d =
    let v : IsValid r.1 = record {
      placed = d.placed;
      ticking = subst (λ k. 0 < k) (sym d.tick) h.ticking;
    } in
    let f = fire-Started starts r.1 r.0 short v in
    let later : TimeWheel = record w { current_tick = w.current_tick + 1 } in
    record {
      current = f.current ∙ d.current;
      tick = f.tick ∙ d.tick;
      valid = f.valid;
      fired = d.fired;
      kept = λ u.
          f.gained u
          ∙ ap₂ ◌+◌ (d.kept u)
              (ap (count u) (fire_started_same starts later r.1 r.0 d.current d.tick));
    }

-- For a valid wheel, and callbacks whose timers have times below 2 ^ 32: a tick leaves a valid wheel one
-- tick later. It fires exactly the timers of that time, in the numbers in which they hung there, and
-- the wheel keeps exactly the others and those that the callbacks start.
pub tick_wheel-Ticked :
    (starts : ℕ → List (ℕ × ℕ)) (w : TimeWheel)
    → IsValid w
    → ((node : ℕ) → AllShort (starts node))
    → Ticked starts w (tick_wheel starts w)
unfolding tick_wheel
tick_wheel-Ticked starts w h short = fire-Due starts w (due w) h short (due-Due w h)

-- What a run of ticks fires: nothing before its time, and everything at its time.
pub record OnTime (w : TimeWheel) (n : ℕ) (rounds : List (List TimerNode)) : Type 0 where
  pub not_early :
      (k : ℕ) (ts : List TimerNode) (u : TimerNode)
      → get_elem? rounds k ≡ some ts
      → 0 < count u ts
      → u.expires ≡ w.current_tick + suc k
  pub not_late :
      (k : ℕ) (u : TimerNode)
      → k < n
      → u.expires ≡ w.current_tick + suc k
      → (ts : List TimerNode) × (get_elem? rounds k ≡ some ts) × (pending w u ≤ count u ts)

empty_round : (k : ℕ) (ts : List TimerNode) → get_elem? [] k ≡ some ts → ⊥
empty_round k ts e = cc

due_test : (now : Bool) (n : ℕ) → 0 < (if now then n else 0) → now ≡ true
due_test true n h = refl
due_test false n h = absurd (omega (arith, h))

waiting : (e c k : ℕ) → e ≡ c + suc (suc k) → (e == c + 1) ≡ false
waiting e c k h = ground arith

module _ (starts : ℕ → List (ℕ × ℕ)) (n : ℕ) (w : TimeWheel) (r : List TimerNode × TimeWheel)
    (later : List (List TimerNode)) (t : Ticked starts w r) (rest : OnTime r.1 n later) where
  early :
      (k : ℕ) (ts : List TimerNode) (u : TimerNode)
      → get_elem? (r.0 ∷ later) k ≡ some ts
      → 0 < count u ts
      → u.expires ≡ w.current_tick + suc k
  early zero ts u e pos =
      let same : r.0 ≡ ts = some-injective r.0 ts e in
      let now =
        due_test (u.expires == w.current_tick + 1) (pending w u)
          (subst (λ k. 0 < k) (t.fired u) (subst (λ xs. 0 < count u xs) (sym same) pos)) in
      (==_iff _ _).0 now
  early (suc k) ts u e pos = omega (arith, rest.not_early k ts u e pos, t.current)

  late :
      (k : ℕ) (u : TimerNode)
      → k < suc n
      → u.expires ≡ w.current_tick + suc k
      → (ts : List TimerNode) × (get_elem? (r.0 ∷ later) k ≡ some ts) × (pending w u ≤ count u ts)
  late zero u lt e =
      let now : (u.expires == w.current_tick + 1) ≡ true = (==_iff _ _).1 e in
      let all : count u r.0 ≡ pending w u =
        t.fired u ∙ ap (λ b. if b then pending w u else 0) now in
      (r.0, refl, omega (arith, all))
  late (suc k) u lt e =
      let waits : (u.expires == w.current_tick + 1) ≡ false = waiting _ _ k e in
      let next : TimeWheel = record w { current_tick = w.current_tick + 1 } in
      let kept =
        t.kept u
        ∙ ap (λ b. (if b then 0 else pending w u) + count u (fire_started starts next r.0)) waits in
      let (ts, at, all) = rest.not_late k u (omega (arith, lt)) (omega (arith, e, t.current)) in
      (ts, at, omega (arith, all, kept))

-- For a valid wheel and callbacks as above, `n` ticks in a row fire on time: whatever the tick number `k`
-- fires has that time, and every timer of that time that hung in the wheel is fired by it.
pub update-OnTime :
    (starts : ℕ → List (ℕ × ℕ)) (n : ℕ) (w : TimeWheel)
    → IsValid w
    → ((node : ℕ) → AllShort (starts node))
    → OnTime w n (update starts n w).0
unfolding update
update-OnTime starts zero w h short = record {
  not_early = λ k ts u e pos. absurd (empty_round k ts e);
  not_late = λ k u lt e. absurd (omega (arith, lt));
}
update-OnTime starts (suc n) w h short =
    let r = tick_wheel starts w in
    let t = tick_wheel-Ticked starts w h short in
    let rest = update-OnTime starts n r.1 t.valid short in
    let later = (update starts n r.1).0 in
    record {
      not_early = early starts n w r later t rest;
      not_late = late starts n w r later t rest;
    }

-- `AddTimer` on a valid wheel, with a time below 2 ^ 32 milliseconds: of the ticks that follow, the one
-- after `max(1, millis / tick)` ticks fires the timer.
pub add_timer-fires :
    (starts : ℕ → List (ℕ × ℕ)) (w : TimeWheel) (node millis n : ℕ)
    → IsValid w
    → ((other : ℕ) → AllShort (starts other))
    → millis < 2 ^ 32
    → ticks_for w millis ≤ n
    → (ts : List TimerNode) × (get_elem?
          (update starts n (add_timer w node millis)).0
          (ticks_for w millis - 1)
        ≡ some ts)
      × (0 < count (started w node millis) ts)
add_timer-fires starts w node millis n h short fits enough =
    let t = started w node millis in
    let a = add_timer-Started w node millis h fits in
    let (pos, _) = ticks_for_bounds w millis fits in
    let runs = update-OnTime starts n (add_timer w node millis) a.valid short in
    let (ts, at, all) =
      runs.not_late (ticks_for w millis - 1) t (omega (arith, pos, enough))
        (omega (arith, a.current, pos)) in
    let self : weight (same t t) ≡ 1 = ap weight (same_refl t) in
    let here = a.gained t in (ts, at, omega (arith, all, here, self))
