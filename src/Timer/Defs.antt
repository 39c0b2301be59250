-- ===== src/Timer/Defs.antt =====
-- `TimeWheel` of src/core/timer.h and timer.cc. A slot is the list of the timers that hang at its head,
-- and `x >> s` and `x & mask` are division and remainder. `AddTimer` is for a timer that hangs in no
-- slot, for which `timer_cancel` does nothing. Ticks are counted without a wrap at 2 ^ 64.
use jdocs.Timer.Clock.{Timespec, timespec_add_millis}
use jdocs.Base.{
  set, ℕ, zero, suc, ◌+◌, ◌-◌, ◌*◌, ◌/◌, ◌%◌, ◌^◌, Bool, true, false, ◌&&◌, List, [], ◌∷◌, ltb,
  ◌==◌, if◌then◌else◌,
}

-- A linked `timer_node`: its address and its time.
pub record TimerNode : Type 0 where
  pub node : ℕ
  pub expires : ℕ

-- The arrays `tv1` to `tv5`.
pub data Level : Type 0 where
  tv1 tv2 tv3 tv4 tv5 : Level

-- The ticks that a slot of a level stands for, and the number of its slots.
abbrev pub span : Level → ℕ
span Level.tv1 = 1
span Level.tv2 = 2 ^ 8
span Level.tv3 = 2 ^ 14
span Level.tv4 = 2 ^ 20
span Level.tv5 = 2 ^ 26

abbrev pub size : Level → ℕ
size Level.tv1 = 256
size Level.tv2 = 64
size Level.tv3 = 64
size Level.tv4 = 64
size Level.tv5 = 64

unfoldable pub same_level : Level → Level → Bool
same_level Level.tv1 Level.tv1 = true
same_level Level.tv2 Level.tv2 = true
same_level Level.tv3 Level.tv3 = true
same_level Level.tv4 Level.tv4 = true
same_level Level.tv5 Level.tv5 = true
same_level _ _ = false

pub record TimeWheel : Type 0 where
  pub slots : Level → ℕ → List TimerNode
  pub timeout_cache : List Timespec
  pub next_timeout : Timespec
  pub current_tick : ℕ
  pub start_millis : ℕ
  pub tick : ℕ

unfoldable pub slot_of : Level → ℕ → ℕ
slot_of l expires = expires / span l % size l

unfoldable pub set_slot : TimeWheel → Level → ℕ → List TimerNode → TimeWheel
unfolding same_level
set_slot w l i ts = record w {
  slots = λ l' i'. if same_level l l' && i == i' then ts else w.slots l' i';
}

-- `__insert`.
unfoldable pub insert_node : TimeWheel → Level → ℕ → TimerNode → TimeWheel
unfolding set_slot
insert_node w l i t = set_slot w l i (t ∷ w.slots l i)

unfoldable pub level_for : (delta_ticks : ℕ) → Level
level_for delta_ticks =
    if ltb delta_ticks (2 ^ 8)
    then Level.tv1
    else if ltb delta_ticks (2 ^ 14)
    then Level.tv2
    else if ltb delta_ticks (2 ^ 20)
    then Level.tv3
    else if ltb delta_ticks (2 ^ 26)
    then Level.tv4
    else Level.tv5

-- `__timer_add`.
unfoldable pub timer_add : TimeWheel → TimerNode → TimeWheel
unfolding level_for insert_node slot_of
timer_add w t =
    let l = level_for (t.expires - w.current_tick) in insert_node w l (slot_of l t.expires) t

unfoldable pub ticks_for : TimeWheel → (millis : ℕ) → ℕ
ticks_for w millis = if millis / w.tick == 0 then 1 else millis / w.tick

unfoldable pub add_timer : TimeWheel → (node millis : ℕ) → TimeWheel
unfolding timer_add ticks_for
add_timer w node millis =
    timer_add w (record { node = node; expires = w.current_tick + ticks_for w millis })

unfoldable pub add_all : TimeWheel → List TimerNode → TimeWheel
unfolding timer_add
add_all w [] = w
add_all w (t ∷ ts) = add_all (timer_add w t) ts

-- `__timer_cascade`.
unfoldable pub timer_cascade : TimeWheel → Level → ℕ → TimeWheel
unfolding set_slot add_all
timer_cascade w l i = add_all (set_slot w l i []) (w.slots l i)

-- The `do` loop of `Tick` from a level on.
unfoldable pub cascade_from : TimeWheel → List Level → TimeWheel
unfolding timer_cascade
cascade_from w [] = w
cascade_from w (l ∷ ls) =
    let cascade = w.current_tick / span l % 64 in
    let w' = timer_cascade w l cascade in
    let later = cascade_from w' ls in if cascade == 0 then later else w'

abbrev pub upper : List Level
upper = Level.tv2 ∷ Level.tv3 ∷ Level.tv4 ∷ Level.tv5 ∷ []

-- What a callback starts: nodes that hang in no slot, with their milliseconds.
unfoldable pub start_all : TimeWheel → List (ℕ × ℕ) → TimeWheel
unfolding add_timer
start_all w [] = w
start_all w ((node, millis) ∷ rest) = start_all (add_timer w node millis) rest

unfoldable pub fire : (ℕ → List (ℕ × ℕ)) → TimeWheel → List TimerNode → TimeWheel
unfolding start_all
fire starts w [] = w
fire starts w (t ∷ ts) = fire starts (start_all w (starts t.node)) ts

-- The constructor's loop: the times of the next ticks, and the last of them.
unfoldable pub fill_cache : (rounds tick : ℕ) → Timespec → List Timespec × Timespec
unfolding timespec_add_millis
fill_cache zero tick next = ([], next)
fill_cache (suc rounds) tick next =
    let next' = timespec_add_millis next tick in
    let (later, last) = fill_cache rounds tick next' in (next' ∷ later, last)

-- The constructor, at a time of the monotonic clock.
unfoldable pub new_time_wheel : (now : Timespec) (tick : ℕ) → TimeWheel
unfolding fill_cache
new_time_wheel now tick =
    let (cache, next) = fill_cache 4 tick now in
    record {
      slots = λ l i. [];
      timeout_cache = cache;
      next_timeout = next;
      current_tick = 0;
      start_millis = now.tv_sec * 1000 + now.tv_nsec / 1000000;
      tick = tick;
    }

-- The first lines of `Tick`: the cache of timeouts is refilled, and the time goes on.
unfoldable pub ticked : TimeWheel → TimeWheel
unfolding timespec_add_millis
ticked w =
    let next = timespec_add_millis w.next_timeout w.tick in
    record w {
      next_timeout = next;
      timeout_cache = set w.timeout_cache (w.current_tick % 4) next;
      current_tick = w.current_tick + 1;
    }

-- `Tick` up to the detached slot: the timers whose callbacks are called, in order.
unfoldable pub due : TimeWheel → List TimerNode × TimeWheel
unfolding cascade_from set_slot ticked
due w =
    let index = (ticked w).current_tick % 256 in
    let cascaded = if index == 0 then cascade_from (ticked w) upper else ticked w in
    (cascaded.slots Level.tv1 index, set_slot cascaded Level.tv1 index [])

unfoldable pub tick_wheel : (ℕ → List (ℕ × ℕ)) → TimeWheel → List TimerNode × TimeWheel
unfolding due fire
tick_wheel starts w = let (fired, w') = due w in (fired, fire starts w' fired)

-- The loop of `Update`, for the number of ticks that the clock is ahead: what each tick fires.
unfoldable pub update : (ℕ → List (ℕ × ℕ)) → ℕ → TimeWheel → List (List TimerNode) × TimeWheel
unfolding tick_wheel
update starts zero w = ([], w)
update starts (suc n) w =
    let (fired, w') = tick_wheel starts w in
    let (later, w'') = update starts n w' in (fired ∷ later, w'')

-- `Update` at a time of the clock in milliseconds.
unfoldable pub update_to :
    (ℕ → List (ℕ × ℕ)) → (now : ℕ) → TimeWheel → List (List TimerNode) × TimeWheel
unfolding update
update_to starts now w = update starts ((now - w.start_millis) / w.tick - w.current_tick) w
