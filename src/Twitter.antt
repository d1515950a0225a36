-- ===== src/Twitter.antt =====
-- src/twitter.rs and the modules below it, and the snowflake times of src/util.rs.
pub mod Api
pub mod Entities
pub mod Interval
pub mod ListTimeline
pub mod Snowflake
pub mod Text
