-- ===== src/Core/EventSource/Table.antt =====
-- hc_event_source_adapter with file_info_buffer: what the HTTP server knows of the files after the events
-- of the torrents.
use t2h.Common.{
  Bool, true, false, List, [], ◌∷◌, ◌++◌, none, some, Bytes, str_eq, ℤ, pos, All, All-append,
  if◌then◌else◌, ◌≡◌, refl, ap, ◌∙◌, arith,
}
use t2h.Core.World.{
  Event, event_file_add, event_file_remove, event_file_complete, event_pause, event_progress_update,
}
use t2h.Core.EventSource.{on_progress_update, handle_event, handle_events}
use t2h.Server.Buffer.{FileInfoBuffer, CoreFileChangeNotification}
use t2h.Server.Buffer.Sound.{IsSound}
use t2h.Server.Buffer.Refines.{
  Table, view, progress, follow, follow_all, Kept, replay, replay-view, change,
}

-- The table as the events describe it.
abbrev pub told : Event → Table → Table
told (event_file_add path size) t other =
    if str_eq path other then some (pos size, pos 0) else t other
told (event_file_remove path) t other = if str_eq path other then none else t other
told (event_file_complete path n) t other =
    if str_eq path other then progress (pos n) (t other) else t other
told (event_pause path) t other = t other
told (event_progress_update path n) t other =
    if str_eq path other then progress (pos n) (t other) else t other

abbrev pub told_all : List Event → Table → Table
told_all [] t = t
told_all (e ∷ es) t = told_all es (told e t)

abbrev pub is_removal : Event → Bool
is_removal (event_file_remove path) = true
is_removal _ = false

module _ (u : ℤ) where
  follow_event : (e : Event) (t : Table) → follow_all (handle_event u e) t ≡ told e t
  unfolding follow_all handle_event follow change on_progress_update
  follow_event (event_file_add path size) t = refl
  follow_event (event_file_remove path) t = refl
  follow_event (event_file_complete path n) t = refl
  follow_event (event_pause path) t = refl
  follow_event (event_progress_update path n) t = refl

  follow_all-append :
      (ns ms : List CoreFileChangeNotification) (t : Table)
      → follow_all (ns ++ ms) t ≡ follow_all ms (follow_all ns t)
  unfolding follow_all
  follow_all-append [] ms t = refl
  follow_all-append (n ∷ ns) ms t = follow_all-append ns ms (follow n t)

  follow_events : (es : List Event) (t : Table) → follow_all (handle_events u es) t ≡ told_all es t
  unfolding handle_events follow_all
  follow_events [] t = refl
  follow_events (e ∷ es) t =
      follow_all-append (handle_event u e) (handle_events u es) t
      ∙ ap (follow_all (handle_events u es)) (follow_event e t)
      ∙ follow_events es (told e t)

  event-Kept : (e : Event) → is_removal e ≡ false → All Kept (handle_event u e)
  unfolding handle_event on_progress_update
  event-Kept (event_file_add path size) h = (λ k. cc, tt)
  event-Kept (event_file_remove path) h = absurd (ground (arith, h))
  event-Kept (event_file_complete path n) h = (λ k. cc, tt)
  event-Kept (event_pause path) h = tt
  event-Kept (event_progress_update path n) h = (λ k. cc, tt)

  events-Kept :
      (es : List Event) → All (λ e. is_removal e ≡ false) es → All Kept (handle_events u es)
  unfolding handle_events
  events-Kept [] h = tt
  events-Kept (e ∷ es) (h, hs) =
      All-append Kept (handle_event u e) (handle_events u es) (event-Kept e h) (events-Kept es hs)

  -- The events of the torrents reach the table of the HTTP server: any sequence of them without a
  -- removal becomes notifications that a table in order handles to their end, and the table is then in
  -- order and has of every path the size and the bytes that the events told, whatever size an update
  -- carries.
  pub handle_events-view :
      (es : List Event) (b : FileInfoBuffer)
      → IsSound b
      → All (λ e. is_removal e ≡ false) es
      → (c : FileInfoBuffer) × ((replay b (handle_events u es) ≡ some c)
          × (IsSound c × ((path : Bytes) → view c path ≡ told_all es (view b) path)))
  handle_events-view es b h k =
      let (c, (e, (s, v))) = replay-view (handle_events u es) b h (events-Kept es k) in
      (c, (e, (s, λ path. v path ∙ ap (λ t. t path) (follow_events es (view b)))))
