-- ===== src/Server/Core/Answers.antt =====
-- http_server_core.cpp: what a client gets for its requests, from the message that mongoose hands on to
-- the bytes that are written.
use t2h.Common.{
  ℕ, suc, ◌+◌, ◌*◌, ◌≤◌, ◌<◌, ltb, ◌==◌, ==_iff, Bool, true, false, List, [], ◌∷◌, ◌++◌, Option,
  none, some, Bytes, codes, find, assign, find-assign_same, length, take, drop, ℤ, pos, pos_part,
  leb_ℤ, ◌≡◌, ◌⊎◌, inl, inr, refl, ◌∙◌, arith,
}
use t2h.Http.Range.{RangeHeader, all}
use t2h.Http.Uri.{http_normalize_uri}
use t2h.Http.Range.{http_translate_range_header}
use t2h.Http.Transport.{
  mg_new_request, on_partial_content_request, on_content_request, dispatch_http_message,
}
use t2h.Http.Transport.Dispatch.{dispatch_http_message_lem, get_dispatched, request}
use t2h.Server.Stream.{
  ExData, Wakeup, Sending, returned, on_bytes_avaliable_change, write_content_impl, int64_max,
}
use t2h.Server.Stream.Content.{ready, IsQuiet, write_content_impl_lem, whole_file_sent}
use t2h.Server.Buffer.{
  FileInfoBuffer, HcFileInfo, get_info, on_stream, registr_subscriber, unregistr_subscriber_id,
}
use t2h.Server.Buffer.Updates.{on_stream-same}
use t2h.Server.Reply.{
  HttpData, Reply, head_reply, partial_content_reply, send_content_reply, get_reply_headers,
  head_reply_headers, partial_content_reply_headers, send_content_reply_headers,
  add_etag_date_headers, perform, requested_range,
}
use t2h.Server.Core.{
  HscLocalConfig, Request, get_ostream_policy, perform_reply, reply_to, whole_file, handle,
  handle_all,
}

-- The table with the stream i among the subscribers of the file p.
abbrev pub subscribed_to : FileInfoBuffer → ℕ → ℕ → HcFileInfo → FileInfoBuffer
subscribed_to b p i fi = record b {
  store = assign ◌==◌ p (record fi { subscribers = fi.subscribers ++ i ∷ [] }) b.store;
  streams =
      on_stream (λ x. on_bytes_avaliable_change x fi.avaliable_bytes) i
        (assign ◌==◌ i (ready (pos 0)) b.streams);
}

-- A request during which no other thread changes the table.
abbrev pub undisturbed : ℕ → List Wakeup → Request
undisturbed i ws = record { pointer = i; wakeups = ws; meanwhile = λ c. c }

abbrev has_content : Reply → Bool
has_content head_reply = false
has_content partial_content_reply = true
has_content send_content_reply = true

module _ (print : ℤ → Bytes) (gmt_time etag : Bytes) (read_at : Bytes → ℤ → ℕ → Option Bytes)
    (write : Bytes → Bytes → Bytes × ℕ)
    (writes : (w bs : Bytes) → write w bs ≡ (w ++ bs, length bs)) (doc_root : Bytes)
    (size timeout : ℕ) where
  abbrev pub config : HscLocalConfig
  config = record {
    doc_root = doc_root;
    chunked_ostream = true;
    max_chunk_size = pos size;
    cores_sync_timeout = timeout;
  }

  abbrev pub headers : Reply → HttpData → Bytes
  headers reply hd = (get_reply_headers print gmt_time etag reply hd).0

  some_headers : (reply : Reply) (hd : HttpData) → ltb 0 (length (headers reply hd)) ≡ true
  unfolding get_reply_headers head_reply_headers partial_content_reply_headers
      send_content_reply_headers add_etag_date_headers
  some_headers head_reply hd = ground arith
  some_headers partial_content_reply hd = ground arith
  some_headers send_content_reply hd = ground arith

  content_flag :
      (reply : Reply) (hd : HttpData)
      → (get_reply_headers print gmt_time etag reply hd).1 ≡ has_content reply
  unfolding get_reply_headers head_reply_headers partial_content_reply_headers
      send_content_reply_headers
  content_flag head_reply hd = refl
  content_flag partial_content_reply hd = refl
  content_flag send_content_reply hd = refl

  -- The headers, and then the content of a reply that has one.
  perform_reply_lem :
      (reply : Reply) (hd : HttpData) (path : Bytes) (x : ExData) (ws : List Wakeup) (w v : Bytes)
      (o : Sending)
      → has_content reply ≡ true
      → write_content_impl
          (read_at path)
          write
          (suc (pos_part hd.read_end))
          size
          hd.read_start
          hd.read_end
          x
          ws
          (w ++ headers reply hd)
        ≡ (v, o)
      → perform_reply read_at write print gmt_time etag config reply hd path x ws w ≡ (v, o)
  unfolding perform_reply perform
  perform_reply_lem reply hd path x ws w v o c e =
      rw (writes w (headers reply hd), some_headers reply hd, content_flag reply hd, c, e) refl

  registered :
      (i p : ℕ) (b : FileInfoBuffer) (fi : HcFileInfo)
      → find ◌==◌ p b.store ≡ some fi
      → registr_subscriber (get_ostream_policy b i) p i
        ≡ some (subscribed_to b p i fi, length (fi.subscribers ++ i ∷ []))
  unfolding registr_subscriber get_ostream_policy
  registered i p b fi s = rw (s, registr_subscriber) refl

  told :
      (i p : ℕ) (b : FileInfoBuffer) (fi : HcFileInfo)
      → find ◌==◌ i (subscribed_to b p i fi).streams ≡ some (ready fi.avaliable_bytes)
  unfolding on_bytes_avaliable_change
  told i p b fi =
      on_stream-same (λ x. on_bytes_avaliable_change x fi.avaliable_bytes) i
        (assign ◌==◌ i (ready (pos 0)) b.streams) (ready (pos 0))
        (find-assign_same ◌==◌ ==_iff i (ready (pos 0)) b.streams)

  stays :
      (i p : ℕ) (b : FileInfoBuffer) (fi : HcFileInfo)
      → unregistr_subscriber_id (subscribed_to b p i fi) p (pos (length (fi.subscribers ++ i ∷ [])))
        ≡ some (subscribed_to b p i fi)
  unfolding unregistr_subscriber_id
  stays i p b fi =
      rw
        (
          find-assign_same ◌==◌ ==_iff p (record fi { subscribers = fi.subscribers ++ i ∷ [] })
              b.store,
          unregistr_subscriber_id,
        )
        (ground arith)

  -- A request for a file of the table.
  reply_to_lem :
      (reply : Reply) (hd_of : HcFileInfo → HttpData) (uri : Bytes) (i p : ℕ) (ws : List Wakeup)
      (b : FileInfoBuffer) (fi : HcFileInfo) (w v : Bytes) (o : Sending)
      → get_info b (doc_root ++ uri) ≡ some p
      → find ◌==◌ p b.store ≡ some fi
      → perform_reply read_at write print gmt_time etag config reply
          (hd_of fi)
          fi.file_path
          (ready fi.avaliable_bytes)
          ws
          w
        ≡ (v, o)
      → reply_to read_at write print gmt_time etag config reply hd_of uri (undisturbed i ws) b w
        ≡ some (subscribed_to b p i fi, (v, some o))
  unfolding reply_to
  reply_to_lem reply hd_of uri i p ws b fi w v o g s e =
      rw (g, reply_to)
        (rw (s, reply_to)
          (rw (registered i p b fi s, reply_to)
            (rw (told i p b fi, reply_to) (rw (stays i p b fi, e) refl))))

  missing :
      (reply : Reply) (hd_of : HcFileInfo → HttpData) (uri : Bytes) (q : Request)
      (b : FileInfoBuffer) (w : Bytes)
      → get_info b (doc_root ++ uri) ≡ none
      → reply_to read_at write print gmt_time etag config reply hd_of uri q b w
        ≡ some (b, (w, none))
  unfolding reply_to
  missing reply hd_of uri q b w g = rw (g, reply_to) refl

  handled :
      (uri : Bytes) (q : Request) (b c : FileInfoBuffer) (w v : Bytes) (o : Option Sending)
      → reply_to read_at write print gmt_time etag config send_content_reply
          (whole_file read_at write print gmt_time etag config)
          uri
          q
          b
          w
        ≡ some (c, (v, o))
      → handle_all read_at write print gmt_time etag config
          (on_content_request uri ∷ [])
          (q ∷ [])
          b
          w
        ≡ some (c, v)
  unfolding handle_all handle
  handled uri q b c w v o e = rw (e, handle_all) refl

  handled_twice :
      (uri : Bytes) (r : RangeHeader) (q : Request) (qs : List Request) (b c : FileInfoBuffer)
      (w v : Bytes) (o : Option Sending)
      → reply_to read_at write print gmt_time etag config partial_content_reply
          (λ fi. requested_range r fi.file_size)
          uri
          q
          b
          w
        ≡ some (c, (v, o))
      → handle_all read_at write print gmt_time etag config
          (on_partial_content_request uri r ∷ on_content_request uri ∷ [])
          (q ∷ qs)
          b
          w
        ≡ handle_all read_at write print gmt_time etag config (on_content_request uri ∷ []) qs c v
  unfolding handle_all handle
  handled_twice uri r q qs b c w v o e = rw (e, handle_all) refl

  -- A file that the table has, with n bytes of it there.
  module _ (file path : Bytes) (n : ℤ)
      (reads : (q m : ℕ) → read_at path (pos q) m ≡ some (take m (drop q file)))
      (positive : 0 < size) (bounded : length file + size ≤ int64_max)
      (complete : leb_ℤ (pos (length file)) n ≡ true) where
    abbrev pub held : List ℕ → HcFileInfo
    held subscribers = record {
      file_path = path;
      file_size = pos (length file);
      avaliable_bytes = n;
      subscribers = subscribers;
    }

    -- What a client is sent after w for the whole file.
    abbrev pub after_content : Bytes → List ℕ → Bytes
    after_content w subscribers =
        (w
          ++ headers send_content_reply
              (whole_file read_at write print gmt_time etag config (held subscribers)))
        ++ file

    content_reply_lem :
        (ws : List Wakeup) (w : Bytes) (subscribers : List ℕ)
        → 0 < length file
        → IsQuiet (length file) ws
        → perform_reply read_at write print gmt_time etag config send_content_reply
            (whole_file read_at write print gmt_time etag config (held subscribers))
            path
            (ready n)
            ws
            w
          ≡ (after_content w subscribers, returned true)
    content_reply_lem ws w subscribers l q =
        perform_reply_lem send_content_reply
          (whole_file read_at write print gmt_time etag config (held subscribers)) path (ready n) ws
          w (after_content w subscribers) (returned true) refl
          (whole_file_sent file (read_at path) write reads writes (suc (length file)) size 0 n ws
            (w
              ++ headers send_content_reply
                  (whole_file read_at write print gmt_time etag config (held subscribers)))
            (omega arith) positive l bounded complete q)

    -- A GET of HTTP/1.1 without a Range header, while no other thread changes the table. For a path that
    -- the table does not have nothing is written at all, though mongoose is told that the request is
    -- answered; for one whose file is there, not empty and complete, the client gets the headers and the
    -- file, and the file has one more subscriber from then on. The conditions: the
    -- transport takes every write whole, every read of the file is full, the chunks are not empty, the
    -- file's length and a chunk's are within int64 together, and nobody breaks the stream or tells it
    -- of fewer bytes than the file has.
    pub content_request-served :
        (lexical_cast : Bytes → Option ℤ) (rheader : RangeHeader) (uri : Bytes) (p i : ℕ)
        (ws : List Wakeup) (b : FileInfoBuffer) (w : Bytes) (subscribers : List ℕ)
        → let (calls, answered) =
            dispatch_http_message lexical_cast mg_new_request
              (request lexical_cast (codes "1.1") (codes "GET") uri none)
              rheader in
          let result =
            handle_all read_at write print gmt_time etag config calls (undisturbed i ws ∷ []) b w in
          (answered ≡ true)
          × ((get_info b (doc_root ++ http_normalize_uri uri) ≡ none → result ≡ some (b, w))
              × (get_info b (doc_root ++ http_normalize_uri uri) ≡ some p
                  → find ◌==◌ p b.store ≡ some (held subscribers)
                  → 0 < length file
                  → IsQuiet (length file) ws
                  → result
                    ≡ some (subscribed_to b p i (held subscribers), after_content w subscribers)))
    content_request-served lexical_cast rheader uri p i ws b w subscribers =
        rw (get_dispatched lexical_cast rheader uri) (
          refl,
          (
            λ g. handled (http_normalize_uri uri) (undisturbed i ws) b b w w none (
                missing send_content_reply (whole_file read_at write print gmt_time etag config)
                  (http_normalize_uri uri) (undisturbed i ws) b w g),
            λ g s l q. handled (http_normalize_uri uri) (undisturbed i ws) b _ w _ _ (
                reply_to_lem send_content_reply
                  (whole_file read_at write print gmt_time etag config) (http_normalize_uri uri) i p
                  ws b (held subscribers) w (after_content w subscribers) (returned true) g s
                  (content_reply_lem ws w subscribers l q)),
          ),
        )

    -- The header asks for the range from s to e: by its bounds, or by none for the file's start or end.
    abbrev pub AsksFor : RangeHeader → ℕ → ℕ → Type 0
    AsksFor r s e =
        ((r.bstart_1 ≡ pos s) ⊎ ((r.bstart_1 ≡ all) × (s ≡ 0)))
        × ((r.bend_1 ≡ pos e) ⊎ ((r.bend_1 ≡ all) × (e ≡ length file)))

    abbrev pub part : ℕ → ℕ → HttpData
    part s e = record { file_size = pos (length file); read_start = pos s; read_end = pos e }

    -- What a client is sent after w for a range from s whose chunks are k and one more.
    abbrev pub after_part : Bytes → (s e k : ℕ) → Bytes
    after_part w s e k =
        (w ++ headers partial_content_reply (part s e)) ++ take ((k + 1) * size) (drop s file)

    asked_part :
        (r : RangeHeader) (s e : ℕ)
        → AsksFor r s e
        → requested_range r (pos (length file)) ≡ part s e
    unfolding requested_range
    asked_part r s e (inl f, inl g) = rw (f, g) (ground arith)
    asked_part r s e (inl f, inr (g, h)) = rw (f, g, h) (ground arith)
    asked_part r s e (inr (f, h), inl g) = rw (f, g, h) (ground arith)
    asked_part r s e (inr (f, h), inr (g, j)) = rw (f, g, h, j) (ground arith)

    part_reply_lem :
        (ws : List Wakeup) (w : Bytes) (r : RangeHeader) (s e : ℕ)
        → AsksFor r s e
        → s < length file
        → e ≤ length file
        → IsQuiet e ws
        → (k : ℕ) × (((k ≡ 0) ⊎ (s + k * size < e))
            × ((e ≤ s + (k + 1) * size)
                × (perform_reply read_at write print gmt_time etag config partial_content_reply
                      (requested_range r (pos (length file)))
                      path
                      (ready n)
                      ws
                      w
                    ≡ (after_part w s e k, returned true))))
    part_reply_lem ws w r s e a l m q =
        let (k, (f, (g, h))) =
          write_content_impl_lem file (read_at path) write reads writes (suc e) size s e n ws
            (w ++ headers partial_content_reply (part s e)) (omega arith) (omega arith) positive l m
            bounded (ground (arith, complete, m)) q in
        (
          k,
          (
            f,
            (
              g,
              rw (asked_part r s e a) (
                  perform_reply_lem partial_content_reply (part s e) path (ready n) ws w
                    (after_part w s e k) (returned true) refl h),
            ),
          ),
        )

    -- A GET of HTTP/1.1 whose Range header asks for a range from s to e, whether it gives the bounds or
    -- leaves one or both open, for a file of the table that is complete. The client gets two replies on
    -- the one connection: that of the range, whose content goes from s on in whole chunks, one or as
    -- many as reach e, and behind it that of the whole file. Two more streams are subscribed from then
    -- on. The conditions: s is a place of the file and e is not beyond its end; the transport takes
    -- every write whole and every read of the file is full; the chunks are not empty, and the file's
    -- length and a chunk's are within int64 together; and while the replies are sent no other thread
    -- changes the table, breaks a stream or tells it of fewer bytes than it is to send.
    pub range_request-answered_twice :
        (lexical_cast : Bytes → Option ℤ) (rheader r : RangeHeader) (uri h : Bytes) (p i j : ℕ)
        (ws vs : List Wakeup) (b : FileInfoBuffer) (w : Bytes) (subscribers : List ℕ) (s e : ℕ)
        → http_translate_range_header lexical_cast rheader h ≡ some (r, true)
        → AsksFor r s e
        → get_info b (doc_root ++ http_normalize_uri uri) ≡ some p
        → find ◌==◌ p b.store ≡ some (held subscribers)
        → s < length file
        → e ≤ length file
        → IsQuiet e ws
        → IsQuiet (length file) vs
        → (k : ℕ) × (((k ≡ 0) ⊎ (s + k * size < e))
            × ((e ≤ s + (k + 1) * size)
                × (handle_all read_at write print gmt_time etag config
                      (dispatch_http_message lexical_cast mg_new_request
                        (request lexical_cast (codes "1.1") (codes "GET") uri (some h))
                        rheader).0
                      (undisturbed i ws ∷ undisturbed j vs ∷ [])
                      b
                      w
                    ≡ some (
                      subscribed_to
                          (subscribed_to b p i (held subscribers))
                          p
                          j
                          (held (subscribers ++ i ∷ [])),
                      after_content (after_part w s e k) (subscribers ++ i ∷ []),
                    ))))
    range_request-answered_twice lexical_cast rheader r uri h p i j ws vs b w subscribers s e t a g
          f l m q y =
        let (k, (c, (z, v))) = part_reply_lem ws w r s e a l m q in
        (
          k,
          (
            c,
            (
              z,
              rw ((dispatch_http_message_lem lexical_cast rheader r uri h none).0 t) (
                  handled_twice (http_normalize_uri uri) r (undisturbed i ws)
                    (undisturbed j vs ∷ []) b (subscribed_to b p i (held subscribers)) w
                    (after_part w s e k) (some (returned true))
                    (reply_to_lem partial_content_reply (λ fi. requested_range r fi.file_size)
                      (http_normalize_uri uri) i p ws b (held subscribers) w (after_part w s e k)
                      (returned true) g f v)
                  ∙ handled (http_normalize_uri uri) (undisturbed j vs)
                      (subscribed_to b p i (held subscribers)) _ (after_part w s e k) _
                      (some (returned true))
                      (reply_to_lem send_content_reply
                        (whole_file read_at write print gmt_time etag config)
                        (http_normalize_uri uri) j p vs (subscribed_to b p i (held subscribers))
                        (held (subscribers ++ i ∷ [])) (after_part w s e k)
                        (after_content (after_part w s e k) (subscribers ++ i ∷ [])) (returned true)
                        (unfold get_info in g)
                        (find-assign_same ◌==◌ ==_iff p (held (subscribers ++ i ∷ [])) b.store)
                        (content_reply_lem vs (after_part w s e k) (subscribers ++ i ∷ [])
                          (omega (arith, l)) y))),
            ),
          ),
        )
