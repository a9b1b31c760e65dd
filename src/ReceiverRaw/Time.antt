-- ===== src/ReceiverRaw/Time.antt =====
-- The times of the worker: `feTimestampDifference` and the timeout of the wait.
use pg_plugins.Base.{ℕ, ◌+◌, ◌*◌, ◌<◌, ◌≡◌, arith, ltb, if◌then◌else◌}
use pg_plugins.Base.Int.{ℤ, pos, ◌-ℤ◌, pos_part, neg_part}
use pg_plugins.ReceiverRaw.Loop.{fe_timestamp_difference, select_timeout}

-- The difference of two times is 0 where the second is not later, and else the seconds and
-- microseconds, fewer than a million of these, that make it up exactly.
fe_timestamp_difference_exact :
    (start_time stop_time : ℤ)
    → ((fe_timestamp_difference start_time stop_time).1 < 1000000)
      × (pos (
            (fe_timestamp_difference start_time stop_time).0 * 1000000
            + (fe_timestamp_difference start_time stop_time).1)
          ≡ (if ltb
                (pos_part start_time + neg_part stop_time)
                (pos_part stop_time + neg_part start_time)
              then stop_time -ℤ start_time
              else pos 0))
unfolding fe_timestamp_difference ◌-ℤ◌
fe_timestamp_difference_exact start_time stop_time = ground arith

-- From the year 2000 on, the wait for data is one second, whatever the time is.
select_timeout_constant : (now : ℕ) → select_timeout (pos now) ≡ (1, 0)
unfolding select_timeout ◌-ℤ◌
select_timeout_constant now = ground arith
