-- ===== src/Http/Transport/Connection.antt =====
-- src/common/network/details/http_mongoose_transport.cpp: the connection of the transport, and the
-- callback that mongoose is given. mg_start is a parameter, which tells whether its pointer is not null.
use t2h.Common.{
  ℕ, Bool, true, false, not, List, [], ◌∷◌, Option, none, some, Bytes, ℤ, if◌then◌else◌, ◌≡◌, refl,
  arith,
}
use t2h.Http.Range.{RangeHeader}
use t2h.Http.Transport.{RequestInfo, MgEvent, HandlerCall, dispatch_http_message}

-- transport_config, with of its context whether it is there.
pub record TransportConfig : Type 0 where
  pub doc_root : Bytes
  pub ip_addr : Bytes
  pub port : Bytes
  pub max_threads : ℕ
  pub context : Bool

pub record HttpMongooseTransport : Type 0 where
  pub config : TransportConfig
  pub mg_handle : Bool
  pub http_context : Bool
  pub stop : Bool

-- The constructor.
abbrev pub http_mongoose_transport : TransportConfig → HttpMongooseTransport
http_mongoose_transport config = record {
  config = config;
  mg_handle = false;
  http_context = false;
  stop = true;
}

-- The transport after it, and whether the call returns; it throws a transport_exception otherwise. The
-- test of mg_start is one of a function's address, which is not null.
unfoldable pub establish_connection :
    (mg_start : TransportConfig → Bool) → HttpMongooseTransport → HttpMongooseTransport × Bool
establish_connection mg_start t =
    if t.mg_handle
    then (t, false)
    else if not t.config.context
    then (record t { mg_handle = mg_start t.config }, false)
    else (record t { mg_handle = mg_start t.config; http_context = true; stop = false }, true)

unfoldable pub is_connected : HttpMongooseTransport → Bool
is_connected t = not t.stop

unfoldable pub stop_connection : HttpMongooseTransport → HttpMongooseTransport
stop_connection t = if t.mg_handle then record t { stop = true; mg_handle = false } else t

-- `wait`, over what the handle of mongoose is at each wake-up; `none` while it waits on.
unfoldable pub wait : List Bool → Option (Unit {0})
wait [] = none
wait (handle ∷ wakeups) = let rest = wait wakeups in if not handle then some tt else rest

-- redirect_to_http_mongoose_transport_dispatcher, with `none` for user data that is null.
unfoldable pub redirect :
    (lexical_cast : Bytes → Option ℤ)
    → Option HttpMongooseTransport
    → MgEvent
    → RequestInfo
    → RangeHeader
    → List HandlerCall × Bool
unfolding is_connected
redirect lexical_cast none event ri rheader = ([], false)
redirect lexical_cast (some t) event ri rheader =
    if not (is_connected t)
    then ([], false)
    else dispatch_http_message lexical_cast event ri rheader

-- A transport with a context that is established hands every request on, also where mg_start gave
-- null. One that mongoose serves hands none on once it is stopped, can be established again then, and
-- refuses a second establishing before, which changes nothing; one that mongoose does not serve is not
-- stopped by stop_connection.
pub establish-stop :
    (mg_start : TransportConfig → Bool) (lexical_cast : Bytes → Option ℤ) (config : TransportConfig)
    (event : MgEvent) (ri : RequestInfo) (rheader : RangeHeader)
    → let with_context : TransportConfig = record config { context = true } in
      let (t, ok) = establish_connection mg_start (http_mongoose_transport with_context) in
      ((ok ≡ true)
        × (redirect lexical_cast (some t) event ri rheader
            ≡ dispatch_http_message lexical_cast event ri rheader))
      × ((mg_start with_context ≡ true
            → ((redirect lexical_cast (some (stop_connection t)) event ri rheader ≡ ([], false))
                × ((establish_connection mg_start (stop_connection t)).1 ≡ true))
              × (establish_connection mg_start t ≡ (t, false)))
          × (mg_start with_context ≡ false → stop_connection t ≡ t))
unfolding establish_connection redirect stop_connection
establish-stop mg_start lexical_cast config event ri rheader =
    ((refl, refl), (served (mg_start with_context), unserved (mg_start with_context)))
  where
    with_context : TransportConfig
    with_context = record config { context = true }

    established : Bool → HttpMongooseTransport
    established b = record {
      config = with_context;
      mg_handle = b;
      http_context = true;
      stop = false;
    }

    served :
        (b : Bool)
        → b ≡ true
        → ((redirect lexical_cast (some (stop_connection (established b))) event ri rheader
              ≡ ([], false))
            × ((establish_connection mg_start (stop_connection (established b))).1 ≡ true))
          × (establish_connection mg_start (established b) ≡ (established b, false))
    served true k = ((refl, refl), refl)
    served false k = absurd (ground (arith, k))

    unserved : (b : Bool) → b ≡ false → stop_connection (established b) ≡ established b
    unserved true k = absurd (ground (arith, k))
    unserved false k = refl
