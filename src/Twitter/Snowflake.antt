-- ===== src/Twitter/Snowflake.antt =====
-- src/util.rs: the times in the ids of Tweets. A `SystemTime` is a number of milliseconds since the
-- Unix epoch; what `snowflake_to_system_time` adds is a whole number of them.
use pipitor.Base.{
  ℕ, ◌+◌, ◌-◌, ◌*◌, ◌/◌, ◌%◌, ◌^◌, ◌<◌, Option, none, some, ltb, if◌then◌else◌, ◌≡◌, arith,
}

abbrev pub twepoch : ℕ
twepoch = 1_288_834_974_657

unfoldable pub snowflake_to_system_time : ℕ → ℕ
snowflake_to_system_time id =
    let ms = id / 2 ^ 22 in (ms / 1_000 + twepoch / 1_000) * 1_000 + (ms % 1_000 + twepoch % 1_000)

-- `none` where the subtraction or `try_from` panics.
unfoldable pub system_time_to_snowflake : ℕ → Option ℕ
system_time_to_snowflake ms =
    if ltb ms twepoch
    then none
    else if ltb ((ms - twepoch) * 2 ^ 22) (2 ^ 64)
    then some ((ms - twepoch) * 2 ^ 22)
    else none

-- The id that a time gives goes back to the time.
pub snowflake_to_system_time-system_time_to_snowflake :
    (ms id : ℕ) → system_time_to_snowflake ms ≡ some id → snowflake_to_system_time id ≡ ms
unfolding snowflake_to_system_time system_time_to_snowflake
snowflake_to_system_time-system_time_to_snowflake ms id h = ground arith

-- The time of an id of 64 bits gives the smallest id of that time.
pub system_time_to_snowflake-snowflake_to_system_time :
    (id : ℕ)
    → id < 2 ^ 64
    → system_time_to_snowflake (snowflake_to_system_time id) ≡ some (id / 2 ^ 22 * 2 ^ 22)
unfolding snowflake_to_system_time system_time_to_snowflake
system_time_to_snowflake-snowflake_to_system_time id h = ground arith
