-- ===== src/Http/Message.antt =====
-- src/common/http_utility/http_header.hpp, http_request.hpp and http_request.cpp.
use t2h.Common.{ℕ, List, Bytes, codes, str_eq, if◌then◌else◌}

pub record Header : Type 0 where
  pub name : Bytes
  pub value : Bytes

-- http_request::http_method_type
pub data MethodType : Type 0 where
  mget mpost mhead munknown : MethodType

-- The two version numbers are ints; the parser only ever grows them from 0.
pub record Request : Type 0 where
  pub mtype : MethodType
  pub method : Bytes
  pub uri : Bytes
  pub http_version_major : ℕ
  pub http_version_minor : ℕ
  pub headers : List Header

unfoldable pub method_type : Bytes → MethodType
unfolding str_eq
method_type m =
    if str_eq m (codes "GET")
    then mget
    else if str_eq m (codes "POST")
    then mpost
    else if str_eq m (codes "HEAD")
    then mhead
    else munknown

abbrev pub http_request_set_mtype : Request → Request
http_request_set_mtype req = record req { mtype = method_type req.method }
