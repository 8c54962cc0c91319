-- ===== src/Api/Calls.antt =====
-- src/core/external_api/external_api.cpp: the calls of the exported functions as data, and the states of
-- the program that they lead to.
use t2h.Common.{ℕ, Bool, List, [], Option, none, Bytes, ℤ, negsuc}
use t2h.Torrent.Text.{Paths}
use t2h.Core.World.{Outcome, returns, threw, escaped, undefined}
use t2h.Core.Resolvers.{Resolvers}
use t2h.Core.Service.Loop.{Round}
use t2h.Server.Buffer.{file_info_buffer}
use t2h.Api.Start.{Environment}
use t2h.Api.{UnderlyingHandle, Program}
use t2h.Api.Functions.{
  t2h_init_, t2h_close, t2h_wait, t2h_add_torrent, t2h_add_torrent_url, t2h_get_torrent_files,
  t2h_start_download, t2h_paused_download, t2h_resume_download, t2h_delete_torrent,
  t2h_stop_download,
}

pub data ApiCall : Type 0 where
  init : Option Bytes → Bool → ApiCall
  close wait : ℤ → ApiCall
  add : Resolvers → ℕ → Paths → List Round → ℤ → Option Bytes → ApiCall
  add_url : ℤ → Option Bytes → ApiCall
  files delete stop_download : ℤ → ℕ → ApiCall
  start paused resume : ℤ → ℕ → ℤ → ApiCall

unfoldable pub ended : {A : Type 0} → Program × Outcome A → Program × Outcome (Unit {0})
ended r = (
  r.0,
  elim r.1 [ returns a ↦ returns tt | threw ↦ threw | escaped ↦ escaped | undefined ↦ undefined ],
)

abbrev pub no_handles : List (ℕ × UnderlyingHandle)
no_handles = []

-- The program as it starts; the settings manager has no storage yet.
abbrev pub program : Program
program = record {
  handles = no_handles;
  sets = record { key_storage = none; last_error = [] };
  table = file_info_buffer;
}

-- The handle that a call is given; a start has none.
abbrev pub handle_of : ApiCall → ℤ
handle_of (init config load_from_file) = negsuc 0
handle_of (close handle) = handle
handle_of (wait handle) = handle
handle_of (add resolvers now paths rounds handle path) = handle
handle_of (add_url handle url) = handle
handle_of (files handle i) = handle
handle_of (delete handle i) = handle
handle_of (stop_download handle i) = handle
handle_of (start handle i file_id) = handle
handle_of (paused handle i file_id) = handle
handle_of (resume handle i file_id) = handle

abbrev pub IsStart : ApiCall → Type 0
IsStart (init config load_from_file) = Unit {0}
IsStart _ = ⊥

module _ (env : Environment) (workaround : Bool) where
  unfoldable pub run : ApiCall → Program → Program × Outcome (Unit {0})
  unfolding ended
  run (init config load_from_file) s = ended (t2h_init_ env workaround config load_from_file s)
  run (close handle) s = t2h_close env workaround handle s
  run (wait handle) s = t2h_wait env workaround handle s
  run (add resolvers now paths rounds handle path) s =
      ended (t2h_add_torrent env workaround resolvers now paths rounds handle path s)
  run (add_url handle url) s = ended (t2h_add_torrent_url env workaround handle url s)
  run (files handle i) s = ended (t2h_get_torrent_files env workaround handle i s)
  run (delete handle i) s = t2h_delete_torrent env workaround handle i s
  run (stop_download handle i) s = t2h_stop_download env workaround handle i s
  run (start handle i file_id) s = ended (t2h_start_download env workaround handle i file_id s)
  run (paused handle i file_id) s = t2h_paused_download env workaround handle i file_id s
  run (resume handle i file_id) s = t2h_resume_download env workaround handle i file_id s

  -- The states that a program comes to by calls, however they end.
  pub data Reached : Program → Type 0 where
    begun : Reached program
    called : (call : ApiCall) (s : Program) → Reached s → Reached (run call s).0
