-- ===== src/Server/Buffer/Tests.antt =====
-- Tests of the table of files.
use t2h.Common.{
  ℕ, ◌==◌, List, [], ◌∷◌, none, some, Bytes, str_eq, find, assign, codes, pos, ◌≡◌, refl, arith,
  if◌then◌else◌,
}
use t2h.Server.Stream.{ExData, state_default, on_bytes_avaliable_change, on_break}
use t2h.Server.Buffer.{
  HcFileInfo, FileInfoBuffer, file_info_buffer, CoreFileChangeNotification, file_add, file_update,
  get_info, on_file_add, update_info, remove_info, registr_subscriber, unregistr_subscriber_id,
  unregistr_subscriber, holds, stop,
}
use t2h.Server.Buffer.Sound.{IsSound, added-IsSound}
use t2h.Server.Buffer.Refines.{view, follow_all, replay, replay-view, file_info_buffer-IsSound}
use t2h.Server.Buffer.Additions.{KeepsOthers, on_file_add_lem}
use t2h.Server.Buffer.Updates.{added, update_info_lem}
use t2h.Server.Buffer.Subscribers.{
  remove_info-undefined, registr_subscriber_lem, stop_lem, is_subscribed,
}

abbrev no_subscribers : List ℕ
no_subscribers = []

abbrev movie : HcFileInfo
movie = record {
  file_path = codes "/m";
  file_size = pos 100;
  avaliable_bytes = pos 10;
  subscribers = 4 ∷ [];
}

abbrev fresh_stream : ExData
fresh_stream = record { avaliable_bytes = pos 0; state = state_default }

abbrev one_movie : FileInfoBuffer
one_movie = record {
  infos = (codes "/m", 0) ∷ [];
  store = (0, movie) ∷ [];
  streams = (4, fresh_stream) ∷ (5, fresh_stream) ∷ [];
  fresh = 1;
}

update_info_lem_example :
    (c : FileInfoBuffer) × ((update_info one_movie (codes "/m") (pos 30) ≡ some c)
      × ((find ◌==◌ 0 c.store ≡ some (record movie { avaliable_bytes = pos 30 }))
          × ((find ◌==◌ 1 c.store ≡ find ◌==◌ 1 one_movie.store)
              × (find ◌==◌ 4 c.streams
                  ≡ some (
                      if holds 4 movie.subscribers
                      then on_bytes_avaliable_change fresh_stream (pos 30)
                      else fresh_stream)))))
unfolding get_info find str_eq
update_info_lem_example =
    (update_info_lem one_movie (codes "/m") (pos 30) 0 1 4 movie fresh_stream refl (omega arith)
        refl).0
      refl

-- The table to which one file was added.
abbrev one_added : FileInfoBuffer
one_added = added file_info_buffer (codes "/m") (pos 100) (pos 10)

on_file_add_lem_example :
    (c : FileInfoBuffer) × ((on_file_add one_added (codes "/long") (pos 7) (pos 0) ≡ some c)
      × ((get_info c (codes "/long") ≡ some 1)
          × ((find ◌==◌ 1 c.store
                ≡ some (record {
                  file_path = codes "/long";
                  file_size = pos 7;
                  avaliable_bytes = pos 0;
                  subscribers = no_subscribers;
                }))
              × KeepsOthers one_added c (codes "/long") 1)))
unfolding get_info find str_eq assign added
on_file_add_lem_example =
    let (c, (e, (s, (f, g)))) =
      on_file_add_lem one_added (codes "/long") (pos 7) (pos 0)
        (added-IsSound file_info_buffer (codes "/m") (pos 100) (pos 10) file_info_buffer-IsSound) in
    (c, (e, f refl))

remove_info-undefined_test : remove_info one_movie (codes "/m") ≡ none
remove_info-undefined_test = remove_info-undefined one_movie (codes "/m")

registr_subscriber_lem_example :
    (c : FileInfoBuffer) × ((d : FileInfoBuffer) × ((sid : ℕ) × ((registr_subscriber one_movie 0 5
            ≡ some (c, sid))
          × ((find ◌==◌ 5 c.streams ≡ some (on_bytes_avaliable_change fresh_stream (pos 10)))
              × ((unregistr_subscriber_id c 0 (pos sid) ≡ some c)
                  × ((unregistr_subscriber c 0 5 ≡ some d)
                      × ((find ◌==◌ 0 d.store ≡ some movie)
                          × (find ◌==◌ 5 d.streams
                              ≡ some (
                                  on_break
                                    (on_bytes_avaliable_change fresh_stream (pos 10)))))))))))
unfolding find holds
registr_subscriber_lem_example =
    registr_subscriber_lem one_movie 0 5 movie fresh_stream refl refl refl

stop_lem_test :
    (get_info (stop one_movie) (codes "/m") ≡ none)
    × (find ◌==◌ 5 (stop one_movie).streams
        ≡ some (
            if is_subscribed 5 one_movie.infos one_movie.store
            then on_break fresh_stream
            else fresh_stream))
unfolding find
stop_lem_test = stop_lem one_movie (codes "/m") 5 fresh_stream refl

abbrev an_addition : CoreFileChangeNotification
an_addition = record {
  event_type = file_add;
  file_path = codes "/m";
  file_size = pos 100;
  avaliable_bytes = pos 0;
}

abbrev news : List CoreFileChangeNotification
news = an_addition ∷ record an_addition { event_type = file_update; avaliable_bytes = pos 40 } ∷ []

replay-view_example :
    (c : FileInfoBuffer) × ((replay file_info_buffer news ≡ some c)
      × (IsSound c × ((path : Bytes) → view c path ≡ follow_all news (view file_info_buffer) path)))
replay-view_example =
    replay-view news file_info_buffer file_info_buffer-IsSound (λ k. cc, (λ k. cc, tt))
