-- ===== src/Tests/Timers.antt =====
-- The time wheel of src/core/timer.cc, on the inputs of src/tests/timer_test.cc.
use jdocs.Base.{ℕ, ◌-◌, ◌<◌, ◌≤◌, ◌≡◌, refl, arith, some, get_elem?, List, [], ◌∷◌, map}
use jdocs.Timer.Defs.{
  TimerNode, TimeWheel, new_time_wheel, add_timer, ticks_for, update, tick_wheel,
}
use jdocs.Timer.Pending.{count}
use jdocs.Timer.Tick.{IsValid}
use jdocs.Timer.Fires.{AllShort, started, add_timer-Started}
use jdocs.Timer.OnTime.{Ticked, OnTime, tick_wheel-Ticked, update-OnTime, add_timer-fires}

-- A wheel with ticks of 100 ms.
wheel : TimeWheel
wheel = new_time_wheel (record { tv_sec = 5; tv_nsec = 250000000 }) 100

wheel-IsValid : IsValid wheel
unfolding wheel count new_time_wheel
wheel-IsValid = record {
  placed = record { place = λ l i u pos. absurd (omega (arith, pos)) };
  ticking = omega arith;
}

quiet : ℕ → List (ℕ × ℕ)
quiet node = []

quiet-AllShort : (node : ℕ) → AllShort (quiet node)
unfolding quiet AllShort
quiet-AllShort node = tt

loaded : TimeWheel
loaded = add_timer (add_timer wheel 7 1000) 8 300

loaded-IsValid : IsValid loaded
unfolding loaded
loaded-IsValid =
    (add_timer-Started (add_timer wheel 7 1000) 8 300
      (add_timer-Started wheel 7 1000 wheel-IsValid (omega arith)).valid (omega arith)).valid

-- 300 ms are three ticks, 1 s is ten.
fires :
    map (map TimerNode.node) (update quiet 10 loaded).0
    ≡ [] ∷ [] ∷ (8 ∷ []) ∷ [] ∷ [] ∷ [] ∷ [] ∷ [] ∷ [] ∷ (7 ∷ []) ∷ []
unfolding quiet wheel new_time_wheel loaded update add_timer
fires = refl

tick_wheel-Ticked_example : Ticked quiet loaded (tick_wheel quiet loaded)
tick_wheel-Ticked_example = tick_wheel-Ticked quiet loaded loaded-IsValid quiet-AllShort

update-OnTime_example : OnTime loaded 12 (update quiet 12 loaded).0
update-OnTime_example = update-OnTime quiet 12 loaded loaded-IsValid quiet-AllShort

enough : ticks_for wheel 70000 ≤ 800
unfolding wheel new_time_wheel ticks_for
enough = omega arith

-- 70 s go through the second level of the wheel.
add_timer-fires_example :
    (ts : List TimerNode) × (get_elem?
        (update quiet 800 (add_timer wheel 9 70000)).0
        (ticks_for wheel 70000 - 1)
      ≡ some ts)
    × (0 < count (started wheel 9 70000) ts)
add_timer-fires_example =
    add_timer-fires quiet wheel 9 70000 800 wheel-IsValid quiet-AllShort (omega arith) enough
