-- ===== src/Http/Request.antt =====
-- src/service/http/protocol.hpp: `HttpRequest`, `probe` and `HttpRequest::parse`.
pub mod FirstLine
pub mod Body
use lingdong.Prelude.{
  ℕ, zero, suc, ◌+◌, ◌-◌, ◌*◌, ◌^◌, Bool, true, false, not, ◌&&◌, ◌||◌, List, [], ◌∷◌, ◌++◌, Bytes,
  codes, bytes_eq, Option, none, some, length, is_empty, find, take, drop, ltb, leb, ◌==◌,
  if◌then◌else◌,
}
use Prim.Native.Nat.{min}
use lingdong.Prelude.Map.{insert, lookup}
use lingdong.Strings.{view_strip_empty, is_space, byte}
use lingdong.Http.Query.{UrlQuery, parse_query}

pub data ParseStatus : Type 0 where
  invalid continue complete : ParseStatus

pub record HttpRequest : Type 0 where
  pub first_line_end_idx : ℕ
  pub valid : Bool
  pub headers_end_idx : ℕ
  pub from : Bytes × ℕ
  pub action : Bytes
  pub raw_q : Bytes
  pub q : UrlQuery
  pub http_version : Bytes
  pub headers : List (Bytes × Bytes)
  pub body : Bytes

abbrev pub new_request : HttpRequest
new_request = record {
  first_line_end_idx = 0;
  valid = false;
  headers_end_idx = 0;
  from = ([], 0);
  action = [];
  raw_q = [];
  q = record { path = []; params = [] };
  http_version = [];
  headers = [];
  body = [];
}

abbrev pub http_first_line_length_limit : ℕ
http_first_line_length_limit = 5120

-- The first loop of `probe`, from `idx` on, with the byte before it.
unfoldable pub line_end : ℕ → Bytes → ℕ → Option ℕ
line_end before [] idx = none
line_end before (c ∷ s) idx =
    if c == b'\n' && before == b'\r' then some idx else line_end c s (idx + 1)

unfoldable pub first_line_end : Bytes → Option ℕ
first_line_end [] = none
first_line_end (c ∷ s) = line_end c s 1

-- The loop over the bytes of the first line, from `idx` on: `last_blank_idx` and the request.
unfoldable pub split_line : Bytes → Bytes → ℕ → ℕ → HttpRequest → ℕ × HttpRequest
split_line line [] idx last_blank req = (last_blank, req)
split_line line (c ∷ s) idx last_blank req = elim (is_space c) [
  | false ↦ split_line line s (idx + 1) last_blank req
  | true ↦ elim (is_empty req.action) [
    | true ↦ split_line line s (idx + 1) idx (record req { action = take idx line })
    | false ↦ elim (is_empty req.raw_q) [
      | false ↦ split_line line s (idx + 1) last_blank req
      | true ↦
          let raw_q = take (idx - 1 - last_blank) (drop (last_blank + 1) line) in
          (idx, record req { raw_q = raw_q; q = (parse_query raw_q req.q).1 })
    ]
  ]
]

-- The loop that looks for `HTTP/`: what stands behind it.
unfoldable pub version_text : Bytes → Option Bytes
version_text protocol_version = elim (find b'/' protocol_version) [
  | none ↦ none
  | some idx ↦
      if ltb idx (length protocol_version - 1)
        && bytes_eq (take idx protocol_version) (codes "HTTP")
      then some (drop (idx + 1) protocol_version)
      else none
]

unfoldable pub probe_version : Bytes → HttpRequest → ParseStatus × HttpRequest
probe_version protocol_version req = elim (version_text protocol_version) [
  | none ↦ (invalid, req)
  | some version ↦
      let read = record req { http_version = version } in
      if is_empty version then (invalid, read) else (continue, record read { valid = true })
]

-- `probe` behind its first loop.
unfoldable pub probe_line : Bytes → HttpRequest → ParseStatus × HttpRequest
probe_line protocol_line req0 =
    let (last_blank, req) = split_line protocol_line protocol_line 0 0 req0 in
    if last_blank == 0
    then (invalid, req)
    else if ltb (length protocol_line - (last_blank + 1)) 5
    then (invalid, req)
    else probe_version (drop (last_blank + 1) protocol_line) req

-- The limit is tested on the index at which the loop stops. Where that is the end of the buffer,
-- the status is the same on either test.
unfoldable pub probe : Bytes → HttpRequest → ParseStatus × HttpRequest
probe buffer req = elim (first_line_end buffer) [
  | none ↦ (invalid, req)
  | some idx ↦
      if leb http_first_line_length_limit idx
      then (invalid, req)
      else probe_line (take (idx - 1) buffer) (record req { first_line_end_idx = idx })
]

unfoldable pub read_header : Bytes → List (Bytes × Bytes) → List (Bytes × Bytes)
read_header header_line headers = elim (find b':' header_line) [
  | none ↦ headers
  | some pos ↦
      insert (view_strip_empty (take pos header_line))
        (view_strip_empty (drop (pos + 1) header_line)) headers
]

-- The loop over the headers, on what stands from `idx` on: where they end, if they do.
unfoldable pub read_headers :
    Bytes → Bytes → ℕ → ℕ → List (Bytes × Bytes) → Option ℕ × List (Bytes × Bytes)
read_headers part [] idx new_line_begin headers = (none, headers)
read_headers part (c ∷ s) idx new_line_begin headers =
    elim (c == b'\n' && byte part (idx - 1) == b'\r') [
      | false ↦ read_headers part s (idx + 1) new_line_begin headers
      | true ↦ elim (leb 4 idx && byte part (idx - 2) == b'\n' && byte part (idx - 3) == b'\r') [
        | true ↦ (some idx, headers)
        | false ↦
            read_headers part s (idx + 1) (idx + 1)
              (read_header (take (idx - new_line_begin - 1) (drop new_line_begin part)) headers)
      ]
    ]

unfoldable pub parse_headers : Bytes → HttpRequest → HttpRequest
parse_headers buffer req =
    let part = drop (req.first_line_end_idx + 1) buffer in
    let (end, headers) = read_headers part (drop 1 part) 1 0 req.headers in
    record req {
      headers = headers;
      headers_end_idx = elim end [
        | none ↦ req.headers_end_idx
        | some idx ↦ idx + (req.first_line_end_idx + 1)
      ];
    }

abbrev pub is_digit : ℕ → Bool
is_digit c = leb b'0' c && leb c b'9'

-- Blanks for `strtol`: the space, and tab to carriage return.
abbrev pub is_c_space : ℕ → Bool
is_c_space c = c == b' ' || leb 9 c && leb c 13

unfoldable pub read_digits : ℕ → Bytes → ℕ
read_digits n [] = n
read_digits n (c ∷ s) = if is_digit c then read_digits (n * 10 + (c - b'0')) s else n

abbrev pub after_sign : Bytes → ℕ
after_sign [] = 0
after_sign (c ∷ s) = if c == b'+' then read_digits 0 s else read_digits 0 (c ∷ s)

-- `strtol` with base 10, with 0 where it gives a negative number, which the code does not tell
-- from 0. It stops at the greatest `long`.
unfoldable pub strtol : Bytes → ℕ
strtol [] = 0
strtol (c ∷ s) = if is_c_space c then strtol s else min (after_sign (c ∷ s)) (2 ^ 63 - 1)

abbrev pub content_length : Bytes
content_length = codes "Content-Length"

-- Whether the headers have ended, and the last four bytes are an empty line.
unfoldable pub ends_blank : Bytes → ℕ → Bool
ends_blank buffer headers_end_idx =
    let size = length buffer in
    ltb 0 headers_end_idx
    && ltb headers_end_idx size
    && byte buffer (size - 1) == b'\n'
    && byte buffer (size - 2) == b'\r'
    && byte buffer (size - 3) == b'\n'
    && byte buffer (size - 4) == b'\r'

-- The end of `parse`: whether the body is all there.
unfoldable pub take_body : Bytes → HttpRequest → ParseStatus × HttpRequest
take_body buffer req =
    let size = length buffer in
    elim (lookup content_length req.headers) [
      | some value ↦
          let n = strtol value in
          let rest = size - 1 - req.headers_end_idx in
          if n == 0
          then (invalid, req)
          else if n == rest
          then (complete, record req { body = take n (drop (req.headers_end_idx + 1) buffer) })
          else if ltb rest n
          then (continue, req)
          else (invalid, req)
      | none ↦
          if ends_blank buffer req.headers_end_idx
          then (
            complete,
            record req {
              body = take (size - 1 - req.headers_end_idx) (drop (req.headers_end_idx + 1) buffer);
            },
          )
          else (invalid, req)
    ]

-- `HttpRequest::parse`. What it is called on is longer than the first line.
unfoldable pub parse_request : Bytes → HttpRequest → ParseStatus × HttpRequest
parse_request buffer req =
    if req.first_line_end_idx == 0
    then (invalid, req)
    else if req.headers_end_idx == 0
    then take_body buffer (parse_headers buffer req)
    else take_body buffer req
