-- ===== src/Http/Witnesses.antt =====
-- Runs of src/service/http on small requests.
use lingdong.Prelude.{
  ◌≡◌, refl, true, [], ◌∷◌, ◌++◌, Bytes, codes, concat, bytes_eq, find, scan, arith,
}
use lingdong.Prelude.Digits.{print_size, digits}
use lingdong.Prelude.Map.{lookup, insert}
use lingdong.Strings.{view_strip_empty, is_space, last_kept}
use lingdong.RateLimit.{Reading, Readings, new_limiter}
use lingdong.Http.Response.{
  HttpResponse, new_response, generate, resp_lines, status_line, header_line, header_lines,
  buffer_size, sizes, zeros, copy_at, copy_lines,
}
use lingdong.Http.Response.Layout.{tail, generate-layout}
use lingdong.Http.Query.{parse_query, parse_params, parse_one}
use lingdong.Http.Query.Params.{print_params, insert_all, parse_query-print}
use lingdong.Http.Request.{
  HttpRequest, ParseStatus, invalid, continue, complete, new_request, strtol, read_digits, line_end,
  first_line_end, split_line, version_text, probe_version, probe_line, probe, read_header,
  read_headers, parse_headers, ends_blank, take_body, parse_request,
}
use lingdong.Http.Request.FirstLine.{request_line, read_line, probe-request_line}
use lingdong.Http.Request.Body.{Framed, parse_request-Framed}
use lingdong.Http.Router.{File, missing, MapBasedRouter, RouteHandler}

-- All that a probe and a parse call.
unfoldable runs : Unit {0}
unfolding view_strip_empty last_kept find scan bytes_eq lookup insert is_space parse_query
    parse_params parse_one strtol read_digits line_end first_line_end split_line version_text
    probe_version probe_line probe read_header read_headers parse_headers ends_blank take_body
    parse_request
runs = tt

abbrev request : Bytes
request = codes "POST /a?b=c HTTP/1.1\r\nHost: x\r\nContent-Length: 2\r\n\r\nhi"

probe_test :
    (probe request new_request).1.q
    ≡ record { path = codes "/a"; params = (codes "b", codes "c") ∷ [] }
unfolding runs
probe_test = refl

parsed : Bytes → ParseStatus × Bytes
parsed bytes =
    let (status, req) = parse_request bytes (probe bytes new_request).1 in (status, req.body)

parse_test : parsed request ≡ (complete, codes "hi")
unfolding runs parsed
parse_test = refl

-- A request without headers is not complete.
no_headers_test :
    (let bytes = codes "GET / HTTP/1.1\r\n\r\n" in
      (parse_request bytes (probe bytes new_request).1).0)
    ≡ invalid
unfolding runs
no_headers_test = refl

abbrev hello : HttpResponse
hello = record new_response { body = codes "hi"; is_sealed = true }

hello_test : generate hello ≡ codes "HTTP/1.1 200 Ok\r\nContent-Length: 2\r\n\r\nhi\r\n\r\n"
unfolding generate resp_lines status_line header_line header_lines print_size digits buffer_size
    sizes zeros copy_at copy_lines
hello_test = refl

generate-layout_example : generate hello ≡ concat (resp_lines hello) ++ tail (codes "hi")
generate-layout_example = generate-layout hello

abbrev param : Bytes × Bytes
param = (codes "b", codes "c")

parse_query-print_example :
    parse_query
      (codes "/a" ++ b'?' ∷ print_params param (param ∷ []))
      (record { path = []; params = [] })
    ≡ (true, record { path = codes "/a"; params = insert_all (param ∷ param ∷ []) [] })
unfolding is_space
parse_query-print_example =
    parse_query-print (codes "/a") param (param ∷ []) (record { path = []; params = [] })
      (ground arith) (ground arith) (ground arith)

probe-request_line_example :
    probe
      (request_line (codes "GET") (codes "/a?b=c") (codes "1.1") ++ b'\r' ∷ b'\n' ∷ [])
      new_request
    ≡ (continue, read_line (codes "GET") (codes "/a?b=c") (codes "1.1"))
unfolding is_space
probe-request_line_example =
    probe-request_line (codes "GET") (codes "/a?b=c") (codes "1.1") [] (ground arith) (ground arith)
      (omega arith) (omega arith) (ground arith) (omega arith)

parse_request-Framed_example : Framed request (parse_request request (probe request new_request).1)
parse_request-Framed_example = parse_request-Framed request (probe request new_request).1

abbrev echo : RouteHandler
echo req resp = resp ∷ []

abbrev reading : Reading
reading = record { tested = 1; refilled = 1 }

abbrev readings : Readings
readings = record { cleanup = 1; global = reading; created = 1; client = reading }

abbrev router : MapBasedRouter
router = record {
  rate_limiter = new_limiter 5 5 0 0;
  has_log = true;
  routes = (codes "/e", echo) ∷ [];
}

abbrev no_files : Bytes → File
no_files path = missing

abbrev ask : Bytes → HttpRequest
ask path = record new_request { q = record { path = path; params = [] } }
