-- ===== src/Lib.antt =====
-- t2h gives the files of a torrent to HTTP clients while they are still downloaded. The torrent core
-- writes the files and posts notifications about them; the notification center queues them for the
-- receiver of the HTTP server, which keeps a table of the files; the server parses requests, waits
-- until the bytes that it needs are there and sends them. The settings come from a JSON text, and the
-- external API hands out numbers for the cores.
--
-- Files, with the sources that they model: Common: numbers, lists, integers, byte strings and
-- association lists (std::map and boost::unordered_map). Http.Message, Http.Parser:
-- src/common/http_utility/http_request.*, http_header.hpp, http_request_parser.*. `consume` is
-- http_request_parser::consume, one clause for each case of its switch; `parse` is the loop over
-- the bytes. Http.Reply: src/common/http_utility/http_reply.* and http_reply_resources.hpp. The
-- write loops go through `set_at`, which is vector::at with its exception. Http.Range: the Range
-- header of src/common/http_utility/http_utility.cpp. Http.Uri: url_decode and http_normalize_uri
-- of the same file. Http.Transport: the dispatch of
-- src/common/network/details/http_mongoose_transport.cpp; Http.Transport.Connection is its
-- connection and the callback that mongoose is given. Notify: src/common/notification_model. Each
-- critical section of notification_unit is one step; the execution thread is a program counter, so
-- that a list of moves is a schedule of the threads. Server.Stream:
-- src/core/http_server/details/hs_chunked_ostream_impl.*, the loop that waits, reads and writes.
-- What other threads tell a stream is the list of its wakeups, with marks that say before which of
-- the loop's tests each comes. Server.Buffer: src/core/http_server/details/file_info_buffer*, the
-- table of the files. Shared pointers are numbers into two stores. Server.Reply: src/core/http_server/details/replies,
-- http_server_utility.hpp and http_server_ostream_policy.cpp. Server.Core:
-- src/core/http_server/http_server_core.*: the launch and the stop of the server, and its
-- handlers. `reply_to` is what the three handlers share; Server.Core.Answers goes from the message
-- that mongoose hands on to the bytes that a client gets. Handles:
-- src/core/external_api/handles_manager.hpp. Torrent: src/core/torrent_core/torrent_info.*: the
-- files of a torrent and their counters; Torrent.Update is file_info_update, Torrent.Text the JSON
-- text and what is prepared for a torrent. Core: src/core/torrent_core. Core.World is the state
-- that the service and its controller share and the monad of their functions; Core.Service is
-- torrent_core.cpp, Core.Controller and Core.Alerts are sequential_torrent_controller.cpp,
-- Core.Future torrent_core_future.cpp, Core.Buffer and Core.Resolvers are
-- details/shared_buffer.cpp, resolvers_factory.cpp, error_resolvers_types.cpp and
-- lookup_error.cpp. Core.Safety has the rules by which an operation keeps the pointers alive.
-- Core.EventSource: src/core/external_api/hc_event_source_adapter.cpp, which joins the events of
-- Core with the table of Server.Buffer. Api: src/core/external_api/external_api.* and
-- external_api_details.*. Api.Start is core_handle, with its services; Api is the object of a
-- handle and the guards, Api.Functions the exported functions, Api.Calls the calls as data and the
-- states that they lead to. A handle's object is reached through the table of the handles, and its
-- torrent core is the state of Core. Console: src/apps/full_model.cpp, the console program over
-- the exported functions: Console.Served and Console.Commands follow one command, Console.Session
-- the program from its start on. Services: src/common/services_manager.* and base_service.hpp.
-- Settings: src/core/common/setting_manager.* and src/common/utility/factory.hpp.
--
-- Bounds: an int of the parser and an int64 of the stream that would overflow ends the run as a
-- fault, since signed overflow is undefined; other results that C++ leaves undefined are `none`. The
-- loop of the stream runs on fuel: each round moves the position by a byte at least, so the length of
-- the range and one more is enough. A setting is looked up on fuel too, and two are enough, since the
-- one key that names a replacement names a key without one. The sums of Server.Reply are taken
-- without a bound.
--
-- Parameters stand for code that is not here: boost::lexical_cast, the file and the transport of a
-- stream, the receiver of a unit, boost::hash, the JSON parser, the clock. libtorrent is the
-- record `Libtorrent` of Core.World: what it answers and which of its calls throw, in the history
-- of the calls; the paths and files of the torrent core are the records `Platform` and `Paths`,
-- and what the external API takes is `Environment` of Api.Start. The lock of the torrent core
-- makes each of its operations one step, but for the addition of a torrent, which waits while the
-- loop goes on: the rounds of the loop until then are an argument.
--
-- Not modelled: the vendored mongoose server, which the sources only call; libtorrent; logging and
-- the warnings, but for what they ask of a handle; the values of libtorrent's session settings,
-- the bytes of the saved session and the file of received metadata; the backslashes of a path on
-- Windows and the time that a wait takes; the threads and signals of boost, and the templates over
-- them (src/common/utility/events_policy.hpp, basic_events.hpp, event_wrapper.hpp and
-- thread_pool.hpp), which no other file uses; the input, the signal and the options of the console
-- program. While one request of the server is answered, other threads change the table only as its
-- `meanwhile` says, and a write of the transport does not throw; the exception of a
-- file that cannot be opened is a reply that fails. What the destructor of an overwritten handle
-- does is left out. The loop of the torrent core
-- takes no lock; a round of it is one step here, so what an operation does in the middle of a
-- round is left out.
pub mod Common
pub mod Api
pub mod Console
pub mod Core
pub mod Handles
pub mod Http
pub mod Notify
pub mod Server
pub mod Services
pub mod Settings
pub mod Torrent
