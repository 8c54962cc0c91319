-- ===== src/Http/Transport/Dispatch.antt =====
-- http_mongoose_transport::dispatch_http_message: which handlers a new request reaches.
use t2h.Common.{true, false, [], ◌∷◌, Option, none, some, Bytes, codes, str_eq, ℤ, ◌≡◌, refl}
use t2h.Http.Range.{RangeHeader, http_translate_range_header}
use t2h.Http.Uri.{http_normalize_uri}
use t2h.Http.Transport.{
  RequestInfo, mg_new_request, on_partial_content_request, on_head_request, on_content_request,
  mon_is_range_request, dispatch_http_message,
}

module _ (lexical_cast : Bytes → Option ℤ) where
  abbrev pub request : Bytes → Bytes → Bytes → Option Bytes → RequestInfo
  request version method uri range = record {
    http_version = version;
    request_method = method;
    uri = uri;
    range_header = range;
  }

  -- A GET of HTTP/1.1 whose Range header is good is answered twice, by the handler of ranges and by
  -- that of whole files; one whose header is bad only by the latter; where the header's parser throws
  -- nobody is called. A HEAD and a POST reach their one handler, whatever the header; every call has
  -- the URI with blanks for its pluses.
  pub dispatch_http_message_lem :
      (rheader r : RangeHeader) (uri h : Bytes) (range : Option Bytes)
      → (http_translate_range_header lexical_cast rheader h ≡ some (r, true)
          → dispatch_http_message lexical_cast mg_new_request
              (request (codes "1.1") (codes "GET") uri (some h))
              rheader
            ≡ (
              on_partial_content_request (http_normalize_uri uri) r
                  ∷ on_content_request (http_normalize_uri uri)
                  ∷ [],
              true,
            ))
        × ((http_translate_range_header lexical_cast rheader h ≡ some (r, false)
              → dispatch_http_message lexical_cast mg_new_request
                  (request (codes "1.1") (codes "GET") uri (some h))
                  rheader
                ≡ (on_content_request (http_normalize_uri uri) ∷ [], true))
            × ((http_translate_range_header lexical_cast rheader h ≡ none
                  → dispatch_http_message lexical_cast mg_new_request
                      (request (codes "1.1") (codes "GET") uri (some h))
                      rheader
                    ≡ ([], false))
                × ((dispatch_http_message lexical_cast mg_new_request
                        (request (codes "1.1") (codes "HEAD") uri range)
                        rheader
                      ≡ (on_head_request (http_normalize_uri uri) ∷ [], true))
                    × (dispatch_http_message lexical_cast mg_new_request
                          (request (codes "1.0") (codes "POST") uri range)
                          rheader
                        ≡ (on_content_request (http_normalize_uri uri) ∷ [], true)))))
  unfolding dispatch_http_message mon_is_range_request str_eq
  dispatch_http_message_lem rheader r uri h range = (
    λ e. rw (e, dispatch_http_message) refl,
    (
      λ e. rw (e, dispatch_http_message) refl,
      (λ e. rw (e, dispatch_http_message) refl, (refl, refl)),
    ),
  )

  -- A GET of HTTP/1.1 without a Range header reaches the handler of whole files alone.
  pub get_dispatched :
      (rheader : RangeHeader) (uri : Bytes)
      → dispatch_http_message lexical_cast mg_new_request
          (request (codes "1.1") (codes "GET") uri none)
          rheader
        ≡ (on_content_request (http_normalize_uri uri) ∷ [], true)
  unfolding dispatch_http_message mon_is_range_request str_eq
  get_dispatched rheader uri = refl
