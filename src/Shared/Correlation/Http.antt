-- ===== src/Shared/Correlation/Http.antt =====
-- The correlation identifier over HTTP: correlation.go and corrhttp/middleware.go of
-- shared/correlation. Header names are compared in the form that net/http gives them, of which the
-- constants stand for one each.
use go_ddd_template.Base.{String, false, Option, none, some, [], ◌≡◌, ap, is_empty, if◌then◌else◌}
use go_ddd_template.Base.Dict.{Dict, lookup, insert}
use go_ddd_template.Shared.Correlation.{traceparent, trace_id_from_traceparent}

abbrev pub header_correlation_id : String
header_correlation_id = "X-Correlation-ID"

abbrev pub header_traceparent : String
header_traceparent = "traceparent"

-- Header.Get, which is empty for a missing header.
abbrev pub or_empty : Option String → String
or_empty none = ""
or_empty (some v) = v

abbrev pub get_header : String → Dict String → String
get_header name headers = or_empty (lookup name headers)

unfoldable pub correlation_id_from_request : Dict String → String
correlation_id_from_request headers =
    let own = get_header header_correlation_id headers in
    let tp = get_header header_traceparent headers in
    if is_empty tp then own else elim (trace_id_from_traceparent tp) [ none ↦ own | some id ↦ id ]

-- The identifier that the context of the request carries behind the middleware; `new_id` is what
-- id.New makes.
unfoldable pub middleware_id : String → Dict String → String
unfolding correlation_id_from_request
middleware_id new_id headers =
    let cid = correlation_id_from_request headers in if is_empty cid then new_id else cid

abbrev with_traceparent : Option String → Dict String → Dict String
with_traceparent none headers = headers
with_traceparent (some tp) headers = insert header_traceparent tp headers

-- The headers that it sets in the answer; `span_id` is what id.New makes for the span.
unfoldable pub middleware_headers : String → String → Dict String → Dict String
unfolding middleware_id
middleware_headers new_id span_id headers =
    let cid = middleware_id new_id headers in
    with_traceparent (traceparent span_id cid) (insert header_correlation_id cid [])

get_header_missing :
    (name : String) (headers : Dict String)
    → lookup name headers ≡ none
    → get_header name headers ≡ ""
get_header_missing name headers h = ap or_empty h

get_header_present :
    (name v : String) (headers : Dict String)
    → lookup name headers ≡ some v
    → get_header name headers ≡ v
get_header_present name v headers h = ap or_empty h

-- What the request's own header says, without a trace parent or with one that is refused.
pub own_header :
    (cid : String) (headers : Dict String)
    → lookup header_traceparent headers ≡ none
    → lookup header_correlation_id headers ≡ some cid
    → correlation_id_from_request headers ≡ cid
unfolding correlation_id_from_request
own_header cid headers none_set own =
    rw (get_header_missing header_traceparent headers none_set)
      (get_header_present header_correlation_id cid headers own)

pub refused_header :
    (cid tp : String) (headers : Dict String)
    → is_empty tp ≡ false
    → lookup header_traceparent headers ≡ some tp
    → trace_id_from_traceparent tp ≡ none
    → lookup header_correlation_id headers ≡ some cid
    → correlation_id_from_request headers ≡ cid
unfolding correlation_id_from_request
refused_header cid tp headers e traced refused own =
    rw (get_header_present header_traceparent tp headers traced, e, refused)
      (get_header_present header_correlation_id cid headers own)

pub traced_header :
    (cid tp : String) (headers : Dict String)
    → is_empty tp ≡ false
    → lookup header_traceparent headers ≡ some tp
    → trace_id_from_traceparent tp ≡ some cid
    → correlation_id_from_request headers ≡ cid
unfolding correlation_id_from_request
traced_header cid tp headers e traced read =
    rw (get_header_present header_traceparent tp headers traced, e, read)
