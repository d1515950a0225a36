-- ===== src/Feed.antt =====
-- src/feed.rs: media types of feeds, and the entries that are made of Atom and RSS feeds. A parsed
-- `Mime` is what the crate `mime` makes of a header.
pub mod Convert
pub mod Extension
pub mod MediaType
