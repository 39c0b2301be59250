-- ===== src/Timer/Turns.antt =====
-- The turns of the levels of the wheel in src/core/timer.cc.
use jdocs.Base.{ℕ, suc, ◌+◌, ◌/◌, ◌%◌, ◌<◌, ◌≡◌, ◌≢◌, arith}
use jdocs.Timer.Defs.{Level, span}
use jdocs.Timer.Good.{rank}

-- A level that has not come round lets no level above it have its turn.
pub higher_no_turn :
    (a : ℕ) (l l' : Level) → rank l < rank l' → (a + 1) / span l % 64 ≢ 0 → (a + 1) % span l' ≢ 0
higher_no_turn a Level.tv1 Level.tv1 r h e = omega (arith, r)
higher_no_turn a Level.tv1 Level.tv2 r h e = h (omega (arith, e))
higher_no_turn a Level.tv1 Level.tv3 r h e = h (omega (arith, e))
higher_no_turn a Level.tv1 Level.tv4 r h e = h (omega (arith, e))
higher_no_turn a Level.tv1 Level.tv5 r h e = h (omega (arith, e))
higher_no_turn a Level.tv2 Level.tv1 r h e = omega (arith, r)
higher_no_turn a Level.tv2 Level.tv2 r h e = omega (arith, r)
higher_no_turn a Level.tv2 Level.tv3 r h e = h (omega (arith, e))
higher_no_turn a Level.tv2 Level.tv4 r h e = h (omega (arith, e))
higher_no_turn a Level.tv2 Level.tv5 r h e = h (omega (arith, e))
higher_no_turn a Level.tv3 Level.tv1 r h e = omega (arith, r)
higher_no_turn a Level.tv3 Level.tv2 r h e = omega (arith, r)
higher_no_turn a Level.tv3 Level.tv3 r h e = omega (arith, r)
higher_no_turn a Level.tv3 Level.tv4 r h e = h (omega (arith, e))
higher_no_turn a Level.tv3 Level.tv5 r h e = h (omega (arith, e))
higher_no_turn a Level.tv4 Level.tv1 r h e = omega (arith, r)
higher_no_turn a Level.tv4 Level.tv2 r h e = omega (arith, r)
higher_no_turn a Level.tv4 Level.tv3 r h e = omega (arith, r)
higher_no_turn a Level.tv4 Level.tv4 r h e = omega (arith, r)
higher_no_turn a Level.tv4 Level.tv5 r h e = h (omega (arith, e))
higher_no_turn a Level.tv5 Level.tv1 r h e = omega (arith, r)
higher_no_turn a Level.tv5 Level.tv2 r h e = omega (arith, r)
higher_no_turn a Level.tv5 Level.tv3 r h e = omega (arith, r)
higher_no_turn a Level.tv5 Level.tv4 r h e = omega (arith, r)
higher_no_turn a Level.tv5 Level.tv5 r h e = omega (arith, r)

pub next_turn :
    (a : ℕ) (l l' : Level)
    → 0 < rank l
    → rank l' ≡ suc (rank l)
    → (a + 1) % span l ≡ 0
    → (a + 1) / span l % 64 ≡ 0
    → (a + 1) % span l' ≡ 0
next_turn a Level.tv1 Level.tv1 p r z h = absurd (omega (arith, r))
next_turn a Level.tv1 Level.tv2 p r z h = absurd (omega (arith, p))
next_turn a Level.tv1 Level.tv3 p r z h = absurd (omega (arith, r))
next_turn a Level.tv1 Level.tv4 p r z h = absurd (omega (arith, r))
next_turn a Level.tv1 Level.tv5 p r z h = absurd (omega (arith, r))
next_turn a Level.tv2 Level.tv1 p r z h = absurd (omega (arith, r))
next_turn a Level.tv2 Level.tv2 p r z h = absurd (omega (arith, r))
next_turn a Level.tv2 Level.tv3 p r z h = omega (arith, z, h)
next_turn a Level.tv2 Level.tv4 p r z h = absurd (omega (arith, r))
next_turn a Level.tv2 Level.tv5 p r z h = absurd (omega (arith, r))
next_turn a Level.tv3 Level.tv1 p r z h = absurd (omega (arith, r))
next_turn a Level.tv3 Level.tv2 p r z h = absurd (omega (arith, r))
next_turn a Level.tv3 Level.tv3 p r z h = absurd (omega (arith, r))
next_turn a Level.tv3 Level.tv4 p r z h = omega (arith, z, h)
next_turn a Level.tv3 Level.tv5 p r z h = absurd (omega (arith, r))
next_turn a Level.tv4 Level.tv1 p r z h = absurd (omega (arith, r))
next_turn a Level.tv4 Level.tv2 p r z h = absurd (omega (arith, r))
next_turn a Level.tv4 Level.tv3 p r z h = absurd (omega (arith, r))
next_turn a Level.tv4 Level.tv4 p r z h = absurd (omega (arith, r))
next_turn a Level.tv4 Level.tv5 p r z h = omega (arith, z, h)
next_turn a Level.tv5 Level.tv1 p r z h = absurd (omega (arith, r))
next_turn a Level.tv5 Level.tv2 p r z h = absurd (omega (arith, r))
next_turn a Level.tv5 Level.tv3 p r z h = absurd (omega (arith, r))
next_turn a Level.tv5 Level.tv4 p r z h = absurd (omega (arith, r))
next_turn a Level.tv5 Level.tv5 p r z h = absurd (omega (arith, r))
