-- ===== src/Core/EventSource.antt =====
-- src/core/external_api/hc_event_source_adapter.cpp: the notification that each event of the torrents
-- becomes. An update leaves the size of the file as `new` made it, which is a parameter.
pub mod Table
use t2h.Common.{ℕ, List, [], ◌∷◌, ◌++◌, Bytes, ℤ, pos}
use t2h.Core.World.{
  Event, event_file_add, event_file_remove, event_file_complete, event_pause, event_progress_update,
}
use t2h.Server.Buffer.{CoreFileChangeNotification, file_update, file_remove, file_add}

module _ (uninitialised : ℤ) where
  unfoldable pub on_progress_update : Bytes → ℕ → List CoreFileChangeNotification
  on_progress_update file_path avaliable_bytes =
      record {
        event_type = file_update;
        file_path = file_path;
        file_size = uninitialised;
        avaliable_bytes = pos avaliable_bytes;
      }
      ∷ []

  unfoldable pub handle_event : Event → List CoreFileChangeNotification
  unfolding on_progress_update
  handle_event (event_file_add file_path file_size) =
      record {
        event_type = file_add;
        file_path = file_path;
        file_size = pos file_size;
        avaliable_bytes = pos 0;
      }
      ∷ []
  handle_event (event_file_remove file_path) =
      record {
        event_type = file_remove;
        file_path = file_path;
        file_size = pos 0;
        avaliable_bytes = pos 0;
      }
      ∷ []
  handle_event (event_file_complete file_path avaliable_bytes) =
      on_progress_update file_path avaliable_bytes
  handle_event (event_pause file_path) = []
  handle_event (event_progress_update file_path avaliable_bytes) =
      on_progress_update file_path avaliable_bytes

  unfoldable pub handle_events : List Event → List CoreFileChangeNotification
  unfolding handle_event
  handle_events [] = []
  handle_events (e ∷ es) = handle_event e ++ handle_events es
