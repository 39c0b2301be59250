-- ===== src/Timer/Clock.antt =====
-- `timespec_add_millis` of src/utils/helpers.cc. The seconds are counted without a wrap.
use jdocs.Base.{ℕ, ◌+◌, ◌-◌, ◌*◌, ◌/◌, ◌%◌, ◌<◌, ◌≡◌, arith, leb, if◌then◌else◌}

pub record Timespec : Type 0 where
  pub tv_sec : ℕ
  pub tv_nsec : ℕ

unfoldable pub timespec_add_millis : Timespec → ℕ → Timespec
timespec_add_millis ts millis =
    let sum : Timespec = record {
      tv_sec = ts.tv_sec + millis / 1000;
      tv_nsec = ts.tv_nsec + millis % 1000 * 1000000;
    } in
    if leb 1000000000 sum.tv_nsec
    then record { tv_sec = sum.tv_sec + 1; tv_nsec = sum.tv_nsec - 1000000000 }
    else sum

abbrev pub nanoseconds : Timespec → ℕ
nanoseconds ts = ts.tv_sec * 1000000000 + ts.tv_nsec

-- On a time with less than a second of nanoseconds, `timespec_add_millis` adds the milliseconds and leaves
-- such a time.
timespec_add_millis-nanoseconds :
    (ts : Timespec) (millis : ℕ)
    → ts.tv_nsec < 1000000000
    → (nanoseconds (timespec_add_millis ts millis) ≡ nanoseconds ts + millis * 1000000)
      × ((timespec_add_millis ts millis).tv_nsec < 1000000000)
unfolding timespec_add_millis
timespec_add_millis-nanoseconds ts millis h = ground arith
