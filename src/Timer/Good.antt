-- ===== src/Timer/Good.antt =====
-- Where a timer may hang in the wheel of src/core/timer.cc, and how this changes with the time.
use jdocs.Base.{
  ℕ, ◌+◌, ◌-◌, ◌/◌, ◌%◌, ◌^◌, ◌<◌, ◌≤◌, ◌≡◌, ◌≢◌, ◌⊎◌, inl, inr, refl, arith, ltb, Bool-cases, leb,
  ◌==◌, if◌then◌else◌,
}
use jdocs.Timer.Defs.{Level, span, size, slot_of, level_for}

-- At the time `at` a timer hangs in the slot of its time, its slot's turn is still to come, and it is
-- less than one turn of the level away.
pub record IsGood (at : ℕ) (l : Level) (i e : ℕ) : Type 0 where
  pub slot : slot_of l e ≡ i
  pub later : at / span l < e / span l
  pub near : e / span l ≤ at / span l + size l

abbrev pub rank : Level → ℕ
rank Level.tv1 = 0
rank Level.tv2 = 1
rank Level.tv3 = 2
rank Level.tv4 = 3
rank Level.tv5 = 4

-- While the wheel goes from `a` to `a + 1`: the time that a level stands at, with the levels up to
-- rank `s` cascaded.
abbrev pub at : (a s : ℕ) → Level → ℕ
at a s l = if rank l == 0 then a else if leb (rank l) s then a + 1 else a

-- The slot whose turn has come holds just the timers of this turn.
pub turn_has_come :
    (a i e : ℕ) (l : Level)
    → 0 < rank l
    → (a + 1) % span l ≡ 0
    → IsGood a l ((a + 1) / span l % 64) e
    → (a + 1 ≤ e) × (e - (a + 1) < span l)
unfolding slot_of
turn_has_come a i e Level.tv1 h z g = absurd (omega (arith, h))
turn_has_come a i e Level.tv2 h z g =
    (omega (arith, z, g.slot, g.later, g.near), omega (arith, z, g.slot, g.later, g.near))
turn_has_come a i e Level.tv3 h z g =
    (omega (arith, z, g.slot, g.later, g.near), omega (arith, z, g.slot, g.later, g.near))
turn_has_come a i e Level.tv4 h z g =
    (omega (arith, z, g.slot, g.later, g.near), omega (arith, z, g.slot, g.later, g.near))
turn_has_come a i e Level.tv5 h z g =
    (omega (arith, z, g.slot, g.later, g.near), omega (arith, z, g.slot, g.later, g.near))

-- The others wait for a later one.
pub turn_to_come :
    (a i e : ℕ) (l : Level)
    → (a + 1) % span l ≡ 0
    → 0 < rank l
    → ((a + 1) / span l % 64) ≢ i
    → IsGood a l i e
    → IsGood (a + 1) l i e
unfolding slot_of
turn_to_come a i e Level.tv1 z h other g = absurd (omega (arith, h))
turn_to_come a i e Level.tv2 z h other g = record {
  slot = g.slot;
  later = omega (arith, z, other, g.slot, g.later, g.near);
  near = omega (arith, g.near);
}
turn_to_come a i e Level.tv3 z h other g = record {
  slot = g.slot;
  later = omega (arith, z, other, g.slot, g.later, g.near);
  near = omega (arith, g.near);
}
turn_to_come a i e Level.tv4 z h other g = record {
  slot = g.slot;
  later = omega (arith, z, other, g.slot, g.later, g.near);
  near = omega (arith, g.near);
}
turn_to_come a i e Level.tv5 z h other g = record {
  slot = g.slot;
  later = omega (arith, z, other, g.slot, g.later, g.near);
  near = omega (arith, g.near);
}

-- Between two turns of a level nothing changes.
pub no_turn : (a i e : ℕ) (l : Level) → (a + 1) % span l ≢ 0 → IsGood a l i e → IsGood (a + 1) l i e
unfolding slot_of
no_turn a i e Level.tv1 z g = absurd (z (omega arith))
no_turn a i e Level.tv2 z g = record {
  slot = g.slot;
  later = omega (arith, z, g.later);
  near = omega (arith, g.near);
}
no_turn a i e Level.tv3 z g = record {
  slot = g.slot;
  later = omega (arith, z, g.later);
  near = omega (arith, g.near);
}
no_turn a i e Level.tv4 z g = record {
  slot = g.slot;
  later = omega (arith, z, g.later);
  near = omega (arith, g.near);
}
no_turn a i e Level.tv5 z g = record {
  slot = g.slot;
  later = omega (arith, z, g.later);
  near = omega (arith, g.near);
}

-- `__timer_add` puts a timer into a good place.
pub level_for-IsGood :
    (a c e : ℕ)
    → c ≤ a + 1
    → a ≤ c
    → a < e
    → c ≤ e
    → e - c < 2 ^ 32
    → let l = level_for (e - c) in
      IsGood (if rank l == 0 then a else c) l (slot_of l e) e × (rank l ≡ 0 ⊎ (span l ≤ e - c))
unfolding level_for slot_of
level_for-IsGood a c e h1 h2 h3 h4 h5 = elim (Bool-cases (ltb (e - c) (2 ^ 8))) [
  | inl b ↦ rw b (record { slot = refl; later = omega arith; near = ground arith }, inl refl)
  | inr n1 ↦ elim (Bool-cases (ltb (e - c) (2 ^ 14))) [
    | inl b ↦
        rw (n1, b)
          (record { slot = refl; later = ground arith; near = ground arith }, inr (ground arith))
    | inr n2 ↦ elim (Bool-cases (ltb (e - c) (2 ^ 20))) [
      | inl b ↦
          rw (n1, n2, b)
            (record { slot = refl; later = ground arith; near = ground arith }, inr (ground arith))
      | inr n3 ↦ elim (Bool-cases (ltb (e - c) (2 ^ 26))) [
        | inl b ↦
            rw (n1, n2, n3, b)
              (
                record { slot = refl; later = ground arith; near = ground arith },
                inr (ground arith),
              )
        | inr n4 ↦
            rw (n1, n2, n3, n4)
              (
                record { slot = refl; later = ground arith; near = ground arith },
                inr (ground arith),
              )
      ]
    ]
  ]
]
