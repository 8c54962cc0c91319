-- ===== src/Http.antt =====
-- src/common/http_utility: requests, replies and the small parsers over header values.
pub mod Message
pub mod Parser
pub mod Reply
pub mod Range
pub mod Uri
pub mod Transport
mod Tests
