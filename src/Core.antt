-- ===== src/Core.antt =====
-- src/core/torrent_core: the service over libtorrent, its controller, the buffer of the torrents, the
-- resolvers of errors and the events for the HTTP server. Each child says which file it is about.
pub mod World
pub mod Buffer
pub mod Future
pub mod Resolvers
pub mod Controller
pub mod Alerts
pub mod Service
pub mod Calls
pub mod Samples
mod Tests
pub mod Safety
pub mod EventSource
