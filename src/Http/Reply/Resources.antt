-- ===== src/Http/Reply/Resources.antt =====
-- src/common/http_utility/http_reply_resources.hpp: the texts of the stock replies.
use t2h.Common.{[], ◌++◌, Bytes, codes}

-- http_reply::status_type
pub data StatusType : Type 0 where
  ok created accepted no_content partial_content multiple_choices : StatusType
  moved_permanently moved_temporarily not_modified bad_request unauthorized forbidden : StatusType
  not_found internal_server_error not_implemented bad_gateway service_unavailable : StatusType

-- status_strings, as cast_to_buffer picks them
unfoldable pub status_string : StatusType → Bytes
status_string ok = codes "HTTP/1.1 200 OK\r\n"
status_string created = codes "HTTP/1.1 201 Created\r\n"
status_string accepted = codes "HTTP/1.1 202 Accepted\r\n"
status_string no_content = codes "HTTP/1.1 204 No Content\r\n"
status_string partial_content = codes "HTTP/1.1 206 Partial Content\r\n"
status_string multiple_choices = codes "HTTP/1.1 300 Multiple Choices\r\n"
status_string moved_permanently = codes "HTTP/1.1 301 Moved Permanently\r\n"
status_string moved_temporarily = codes "HTTP/1.1 302 Moved Temporarily\r\n"
status_string not_modified = codes "HTTP/1.1 304 Not Modified\r\n"
status_string bad_request = codes "HTTP/1.1 400 Bad Request\r\n"
status_string unauthorized = codes "HTTP/1.1 401 Unauthorized\r\n"
status_string forbidden = codes "HTTP/1.1 403 Forbidden\r\n"
status_string not_found = codes "HTTP/1.1 404 Not Found\r\n"
status_string internal_server_error = codes "HTTP/1.1 500 Internal Server Error\r\n"
status_string not_implemented = codes "HTTP/1.1 501 Not Implemented\r\n"
status_string bad_gateway = codes "HTTP/1.1 502 Bad Gateway\r\n"
status_string service_unavailable = codes "HTTP/1.1 503 Service Unavailable\r\n"

-- The page of a title and a heading.
abbrev page : Bytes → Bytes → Bytes
page title heading =
    codes "<html><head><title>"
    ++ (title ++ (codes "</title></head><body><h1>" ++ (heading ++ codes "</h1></body></html>")))

-- stock_replies, as cast_to_string picks them; a partial content falls to the default.
unfoldable pub cast_to_string : StatusType → Bytes
cast_to_string ok = []
cast_to_string created = page (codes "Created") (codes "201 Created")
cast_to_string accepted = page (codes "Accepted") (codes "202 Accepted")
cast_to_string no_content = page (codes "No Content") (codes "204 Content")
cast_to_string multiple_choices = page (codes "Multiple Choices") (codes "300 Multiple Choices")
cast_to_string moved_permanently = page (codes "Moved Permanently") (codes "301 Moved Permanently")
cast_to_string moved_temporarily = page (codes "Moved Temporarily") (codes "302 Moved Temporarily")
cast_to_string not_modified = page (codes "Not Modified") (codes "304 Not Modified")
cast_to_string bad_request = page (codes "Bad Request") (codes "400 Bad Request")
cast_to_string unauthorized = page (codes "Unauthorized") (codes "401 Unauthorized")
cast_to_string forbidden = page (codes "Forbidden") (codes "403 Forbidden")
cast_to_string not_found = page (codes "Not Found") (codes "404 Not Found")
cast_to_string internal_server_error =
    page (codes "Internal Server Error") (codes "500 Internal Server Error")
cast_to_string not_implemented = page (codes "Not Implemented") (codes "501 Not Implemented")
cast_to_string bad_gateway = page (codes "Bad Gateway") (codes "502 Bad Gateway")
cast_to_string service_unavailable =
    page (codes "Service Unavailable") (codes "503 Service Unavailable")
cast_to_string partial_content =
    page (codes "Internal Server Error") (codes "500 Internal Server Error")

-- misc_strings
abbrev pub name_value_separator : Bytes
name_value_separator = codes ": "

abbrev pub crlf : Bytes
crlf = codes "\r\n"
