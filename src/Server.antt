-- ===== src/Server.antt =====
-- src/core/http_server: the table of the files that the torrents write, the stream that sends a file
-- while it is downloaded, the replies and the handlers of the requests.
pub mod Stream
pub mod Buffer
pub mod Reply
pub mod Core
mod Tests
