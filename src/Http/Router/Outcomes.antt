-- ===== src/Http/Router/Outcomes.antt =====
-- What `route` of src/service/http/router.hpp answers.
use lingdong.Prelude.{
  if◌then◌else◌, ◌≡◌, refl, Bool, true, false, List, [], ◌∷◌, ◌++◌, Bytes, codes, Option, none,
  some, at, at-ge, size_sub, fail, undefined, ◌==◌, arith,
}
use lingdong.Prelude.Map.{lookup}
use lingdong.RateLimit.{Readings, permit_client}
use lingdong.Http.Request.{HttpRequest}
use lingdong.Http.Response.{
  HttpResponse, new_response, with_code, not_found, too_many_requests, status_ok, internal_err,
  code_msg,
}
use lingdong.Http.Router.{
  File, missing, unreadable, content, RouteHandler, MapBasedRouter, Routed, static_path,
  static_file_handler, route,
}

-- Whether the limiter permits the call.
abbrev pub permits : Readings → HttpRequest → MapBasedRouter → Bool
permits now req router = (permit_client req.from.0 now router.rate_limiter).0

-- The response says what the file system has.
abbrev pub Answers : File → HttpResponse → Type 0
Answers missing resp = (resp.code ≡ not_found) × (resp.body ≡ code_msg not_found)
Answers unreadable resp = (resp.code ≡ internal_err) × (resp.body ≡ code_msg internal_err)
Answers (content s) resp = (resp.code ≡ status_ok) × (resp.body ≡ s)

abbrev pub ends_in_slash : Bytes → Bool
ends_in_slash [] = false
ends_in_slash (c ∷ []) = c == b'/'
ends_in_slash (c ∷ d ∷ path) = ends_in_slash (d ∷ path)

-- The file that a path names: the page of the directory if the path ends in a slash, and the path
-- itself otherwise.
abbrev pub Names : Bytes → Bytes → Type 0
Names path file = file ≡ (if ends_in_slash path then path ++ codes "index.html" else path)

static_path-empty : static_path [] ≡ fail undefined
unfolding static_path size_sub
static_path-empty =
    let e : at [] (size_sub 0 1) ≡ fail undefined = at-ge [] (size_sub 0 1) (omega arith) in
    rw e refl

module _ (files : Bytes → File) where
  -- One response, which answers for the file that the path names.
  abbrev pub Static : HttpRequest → List HttpResponse → Type 0
  Static req responses =
      (file : Bytes) × Names req.q.path file
      × ((resp : HttpResponse) × (responses ≡ resp ∷ []) × Answers (files (codes "." ++ file)) resp)

  -- What is due: a call that is not permitted is told so and nothing else, a path with a route
  -- gets what its handler answers, and any other path gets the file that it names.
  abbrev pub Due : HttpRequest → Bool → Option RouteHandler → Routed → Type 0
  Due req false handler r =
      (r.responses ≡ with_code too_many_requests new_response ∷ []) × (r.logged ≡ [])
  Due req true (some handler) r = r.responses ≡ handler req new_response
  Due req true none r = Static req r.responses

  static_file_handler-empty :
      (has_log : Bool) (req : HttpRequest)
      → req.q.path ≡ []
      → static_file_handler files has_log req new_response ≡ fail undefined
  unfolding static_file_handler
  static_file_handler-empty has_log req empty = rw empty (rw static_path-empty refl)

  -- A request for an empty path that the limiter permits and that no route takes is a read
  -- outside the path.
  pub route-empty_path :
      (now : Readings) (req : HttpRequest) (router : MapBasedRouter)
      → req.q.path ≡ []
      → permits now req router ≡ true
      → lookup [] router.routes ≡ none
      → route files now req router ≡ fail undefined
  unfolding route
  route-empty_path now req router empty permitted unrouted =
      rw permitted
        (rw empty (rw unrouted (rw (static_file_handler-empty router.has_log req empty) refl)))
