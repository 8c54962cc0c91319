-- ===== src/Http/Transport.antt =====
-- src/common/network/details/http_mongoose_transport.cpp: how a request that mongoose has read is
-- handed to the handlers of the server.
pub mod Dispatch
pub mod Connection
mod Tests
use t2h.Common.{
  ℕ, Bool, true, false, ◌&&◌, ◌||◌, List, [], ◌∷◌, ◌++◌, Option, none, some, Bytes, codes, str_eq,
  ℤ, if◌then◌else◌,
}
use t2h.Http.Range.{RangeHeader, http_translate_range_header}
use t2h.Http.Uri.{http_normalize_uri}

-- mg_request_info, with what mg_get_header gives for "Range".
pub record RequestInfo : Type 0 where
  pub http_version : Bytes
  pub request_method : Bytes
  pub uri : Bytes
  pub range_header : Option Bytes

-- enum mg_event
pub data MgEvent : Type 0 where
  mg_new_request mg_http_error mg_request_complete mg_event_log mg_other : MgEvent

-- The calls on the http_transport_event_handler.
pub data HandlerCall : Type 0 where
  on_partial_content_request : Bytes → RangeHeader → HandlerCall
  on_head_request : Bytes → HandlerCall
  on_content_request : Bytes → HandlerCall

abbrev is_1_1 : RequestInfo → Bool
is_1_1 ri = str_eq ri.http_version (codes "1.1")

abbrev is_1_0 : RequestInfo → Bool
is_1_0 ri = str_eq ri.http_version (codes "1.0")

module _ (lexical_cast : Bytes → Option ℤ) where
  -- `none` is an exception of the range's parser; `rheader` is what the caller has there.
  unfoldable pub mon_is_range_request : RequestInfo → RangeHeader → Option (RangeHeader × Bool)
  mon_is_range_request ri rheader =
      if is_1_1 ri && str_eq ri.request_method (codes "GET")
      then elim ri.range_header [
        | none ↦ some (rheader, false)
        | some h ↦ http_translate_range_header lexical_cast rheader h
      ]
      else some (rheader, false)

  unfoldable pub mon_is_head_request : RequestInfo → Bool
  mon_is_head_request ri = (is_1_1 ri || is_1_0 ri) && str_eq ri.request_method (codes "HEAD")

  unfoldable pub mon_is_content_requst : RequestInfo → Bool
  mon_is_content_requst ri =
      (is_1_1 ri || is_1_0 ri)
      && (str_eq ri.request_method (codes "GET") || str_eq ri.request_method (codes "POST"))

  -- The calls made, and whether the result is NOT_NULL. An exception ends the function with NULL; the
  -- handlers are taken to throw none.
  unfoldable pub dispatch_http_message :
      MgEvent → RequestInfo → RangeHeader → List HandlerCall × Bool
  unfolding mon_is_head_request mon_is_content_requst
  dispatch_http_message mg_new_request ri rheader = elim (mon_is_range_request ri rheader) [
    | none ↦ ([], false)
    | some (r, is_range) ↦
        let uri = http_normalize_uri ri.uri in
        (
          (if is_range then on_partial_content_request uri r ∷ [] else [])
              ++ ((if mon_is_head_request ri then on_head_request uri ∷ [] else [])
                  ++ (if mon_is_content_requst ri then on_content_request uri ∷ [] else [])),
          true,
        )
  ]
  dispatch_http_message mg_http_error ri rheader = ([], false)
  dispatch_http_message mg_request_complete ri rheader = ([], false)
  dispatch_http_message mg_event_log ri rheader = ([], true)
  dispatch_http_message mg_other ri rheader = ([], false)
