-- ===== src/Http/Router.antt =====
-- src/service/http/router.hpp: `MapBasedRouter`, and the table of content types that it reads
-- from src/service/http/protocol.hpp. The file system and the handlers are arguments.
pub mod Outcomes
pub mod Routes
use lingdong.Prelude.{
  ℕ, Bool, true, false, not, ◌||◌, ◌&&◌, List, [], ◌∷◌, ◌++◌, Bytes, codes, bytes_eq, Option, none,
  some, length, at, size_sub, Result, ok, ◌>>=◌, is_empty, ◌==◌, if◌then◌else◌,
}
use lingdong.Prelude.Map.{lookup, insert, contains}
use lingdong.Strings.{find_suffix_type}
use lingdong.RateLimit.{TokenBucketRateLimiter, Readings, permit_client}
use lingdong.Http.Request.{HttpRequest}
use lingdong.Http.Response.{
  HttpResponse, new_response, with_code, with_header, with_body, not_found, too_many_requests,
  internal_err, code_msg,
}

-- What the file system has at a path: nothing, a file that cannot be opened, or its bytes.
pub data File : Type 0 where
  missing unreadable : File
  content : Bytes → File

-- The responses that a handler gives to its callback.
abbrev pub RouteHandler : Type 0
RouteHandler = HttpRequest → HttpResponse → List HttpResponse

pub record MapBasedRouter : Type 0 where
  pub rate_limiter : TokenBucketRateLimiter
  pub has_log : Bool
  pub routes : List (Bytes × RouteHandler)

-- The responses to the callback, the calls of `func_log_req`, and the limiter behind the call.
pub record Routed : Type 0 where
  pub responses : List HttpResponse
  pub logged : List HttpRequest
  pub limiter : TokenBucketRateLimiter

-- `FILE_SUFFIX_TYPE_M_CONTENT_TYPE`, its type names.
abbrev pub content_types : List (Bytes × Bytes)
content_types =
    (codes "css", codes "text/css")
    ∷ (codes "js", codes "application/javascript")
    ∷ (codes "html", codes "text/html")
    ∷ (codes "htm", codes "text/html")
    ∷ (codes "xml", codes "application/xml")
    ∷ (codes "json", codes "application/json")
    ∷ (codes "svg", codes "image/svg+xml")
    ∷ (codes "txt", codes "text/plain")
    ∷ (codes "png", codes "image/png")
    ∷ (codes "jpeg", codes "image/jpeg")
    ∷ (codes "jpg", codes "image/jpeg")
    ∷ (codes "ico", codes "image/x-icon")
    ∷ (codes "gif", codes "image/gif")
    ∷ (codes "ttf", codes "font/ttf")
    ∷ (codes "woff", codes "font/woff")
    ∷ (codes "woff2", codes "font/woff2")
    ∷ []

-- The loop of `add_routes`. The method is not looked at.
unfoldable pub add_routes :
    List ((ℕ × Bytes) × RouteHandler)
    → List (Bytes × RouteHandler)
    → Bool × List (Bytes × RouteHandler)
add_routes [] m = (true, m)
add_routes ((action_path, handler) ∷ routes) m =
    let rest = add_routes routes (insert action_path.1 handler m) in
    if contains action_path.1 m then (false, m) else rest

unfoldable pub log_calls : Bool → HttpRequest → List HttpRequest
log_calls has_log req = if has_log then req ∷ [] else []

-- An empty path is read in front of its first byte.
unfoldable pub static_path : Bytes → Result Bytes
static_path path = do
  c ← at path (size_sub (length path) 1)
  ok (if c == b'/' then path ++ codes "index.html" else path)

unfoldable pub with_content_type : Bytes → HttpResponse → HttpResponse
with_content_type suffix_type resp = elim (lookup suffix_type content_types) [
  | none ↦ resp
  | some type_name ↦
      if is_empty suffix_type then resp else with_header (codes "Content-Type") type_name resp
]

unfoldable pub is_page : Bytes → Bool
is_page suffix_type = bytes_eq suffix_type (codes "html") || bytes_eq suffix_type (codes "htm")

-- The response for a file, and whether the request is logged.
unfoldable pub serve_file : Bytes → File → HttpResponse → HttpResponse × Bool
serve_file path missing resp = (with_code not_found (with_body (code_msg not_found) resp).1, false)
serve_file path unreadable resp = (
  with_code internal_err (with_body (code_msg internal_err) resp).1,
  is_page (find_suffix_type path),
)
serve_file path (content s) resp = (
  with_content_type (find_suffix_type path) (with_body s resp).1,
  is_page (find_suffix_type path),
)

module _ (files : Bytes → File) where
  -- The guard calls back with the response at the end, on every way out.
  unfoldable pub static_file_handler :
      Bool → HttpRequest → HttpResponse → Result (List HttpResponse × List HttpRequest)
  static_file_handler has_log req resp = do
    path ← static_path req.q.path
    (done, is_logged) ← ok (serve_file path (files (codes "." ++ path)) resp)
    ok (done ∷ [], (if is_logged then log_calls has_log req else []))

  unfoldable pub rate_limited_handler : HttpResponse → List HttpResponse
  rate_limited_handler resp = with_code too_many_requests resp ∷ []

  unfoldable pub route : Readings → HttpRequest → MapBasedRouter → Result Routed
  route now req router = do
    (permitted, after) ← ok (permit_client req.from.0 now router.rate_limiter)
    if not permitted
        then ok
            (record { responses = rate_limited_handler new_response; logged = []; limiter = after })
        else elim (lookup req.q.path router.routes) [
          | none ↦ do
            (responses, logged) ← static_file_handler router.has_log req new_response
            ok (record { responses = responses; logged = logged; limiter = after })
          | some handler ↦ ok (record {
            responses = handler req new_response;
            logged = log_calls router.has_log req;
            limiter = after;
          })
        ]
