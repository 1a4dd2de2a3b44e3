-- ===== src/Http/Request/FirstLine.antt =====
-- `probe` of src/service/http/protocol.hpp on a first line that is written as it should be.
use lingdong.Prelude.{
  ℕ, suc, ◌+◌, ◌-◌, ◌<◌, ◌≡◌, refl, sym, ap, ◌∙◌, true, false, [], ◌∷◌, ◌++◌, Bytes, codes, Lacks,
  some, length, is_empty, take, drop, arith, take-append, drop-append_suc, length-append,
  append_assoc, ltb, leb, ◌==◌, find, bytes_eq,
}
use lingdong.Strings.{is_space}
use lingdong.Http.Query.{parse_query}
use lingdong.Http.Query.Params.{NoBlank}
use lingdong.Http.Request.{
  HttpRequest, continue, new_request, http_first_line_length_limit, line_end, first_line_end,
  split_line, version_text, probe_version, probe_line, probe,
}

abbrev pub behind_q : Bytes → Bytes
behind_q version = b' ' ∷ (codes "HTTP/" ++ version)

abbrev pub behind_method : Bytes → Bytes → Bytes
behind_method raw_q version = b' ' ∷ (raw_q ++ behind_q version)

-- `METHOD /path HTTP/version`.
abbrev pub request_line : Bytes → Bytes → Bytes → Bytes
request_line method raw_q version = method ++ behind_method raw_q version

line_end-append :
    (before : ℕ) (s t : Bytes) (idx : ℕ)
    → Lacks b'\n' s
    → line_end before (s ++ b'\r' ∷ b'\n' ∷ t) idx ≡ some (idx + length s + 1)
unfolding line_end
line_end-append before [] t idx h = let e : idx + 1 ≡ idx + 0 + 1 = omega arith in ap some e
line_end-append before (c ∷ s) t idx (n, h) =
    let e : (c == b'\n') ≡ false = ground arith in
    let k : idx + 1 + length s + 1 ≡ idx + suc (length s) + 1 = omega arith in
    rw (e, line_end) (line_end-append c s t (idx + 1) h ∙ ap some k)

first_line_end-append :
    (s t : Bytes) → Lacks b'\n' s → first_line_end (s ++ b'\r' ∷ b'\n' ∷ t) ≡ some (length s + 1)
unfolding first_line_end line_end
first_line_end-append [] t h = refl
first_line_end-append (c ∷ s) t (n, h) =
    let k : 1 + length s + 1 ≡ suc (length s) + 1 = omega arith in
    line_end-append c s t 1 h ∙ ap some k

split_line-skip :
    (line s t : Bytes) (idx last_blank : ℕ) (req : HttpRequest)
    → NoBlank s
    → split_line line (s ++ t) idx last_blank req
      ≡ split_line line t (idx + length s) last_blank req
unfolding split_line
split_line-skip line [] t idx last_blank req h =
    let e : idx ≡ idx + 0 = omega arith in ap (λ i. split_line line t i last_blank req) e
split_line-skip line (c ∷ s) t idx last_blank req (n, h) =
    let e : idx + 1 + length s ≡ idx + suc (length s) = omega arith in
    rw (n, split_line)
      (split_line-skip line s t (idx + 1) last_blank req h
        ∙ ap (λ i. split_line line t i last_blank req) e)

split_line-method :
    (line t : Bytes) (idx : ℕ) (req : HttpRequest)
    → req.action ≡ []
    → split_line line (b' ' ∷ t) idx 0 req
      ≡ split_line line t (idx + 1) idx (record req { action = take idx line })
unfolding split_line is_space
split_line-method line t idx req a = rw (a, split_line) refl

split_line-query :
    (line t : Bytes) (idx last_blank : ℕ) (req : HttpRequest)
    → is_empty req.action ≡ false
    → req.raw_q ≡ []
    → split_line line (b' ' ∷ t) idx last_blank req ≡ (
        let raw_q = take (idx - 1 - last_blank) (drop (last_blank + 1) line) in
        (idx, record req { raw_q = raw_q; q = (parse_query raw_q req.q).1 }))
unfolding split_line is_space
split_line-query line t idx last_blank req a r = rw (a, split_line) (rw r refl)

version_text-append :
    (version : Bytes) → 0 < length version → version_text (codes "HTTP/" ++ version) ≡ some version
unfolding version_text find bytes_eq
version_text-append version h =
    let e : ltb 4 (length (codes "HTTP/" ++ version) - 1) ≡ true = ground arith in
    rw (e, version_text) refl

-- What the request is behind the probe of the line.
abbrev pub read_line : Bytes → Bytes → Bytes → HttpRequest
read_line method raw_q version = record new_request {
  first_line_end_idx = length (request_line method raw_q version) + 1;
  valid = true;
  action = method;
  raw_q = raw_q;
  q = (parse_query raw_q new_request.q).1;
  http_version = version;
}

is_empty-lt : (s : Bytes) → 0 < length s → is_empty s ≡ false
is_empty-lt [] h = absurd (omega arith)
is_empty-lt (c ∷ s) h = refl

query_part :
    (method raw_q version : Bytes)
    → take
        (length method + 1 + length raw_q - 1 - length method)
        (drop (length method + 1) (request_line method raw_q version))
      ≡ raw_q
query_part method raw_q version =
    let e : length method + 1 + length raw_q - 1 - length method ≡ length raw_q = omega arith in
    rw (drop-append_suc method b' ' (raw_q ++ behind_q version))
      (rw e (take-append raw_q (behind_q version)))

version_part :
    (method raw_q version : Bytes)
    → drop (length method + 1 + length raw_q + 1) (request_line method raw_q version)
      ≡ codes "HTTP/" ++ version
version_part method raw_q version =
    let front = method ++ b' ' ∷ raw_q in
    let whole : request_line method raw_q version ≡ front ++ behind_q version =
      sym (append_assoc method (b' ' ∷ raw_q) (behind_q version)) in
    let e : length method + 1 + length raw_q + 1 ≡ length front + 1 =
      omega (arith, length-append method (b' ' ∷ raw_q)) in
    rw whole (rw e (drop-append_suc front b' ' (codes "HTTP/" ++ version)))

request_line-length :
    (method raw_q version : Bytes)
    → length (request_line method raw_q version) ≡ length method + length raw_q + length version + 7
request_line-length method raw_q version = omega (
  arith,
  length-append method (behind_method raw_q version),
  length-append raw_q (behind_q version),
)

split_request :
    (method raw_q version : Bytes) (end : ℕ)
    → NoBlank method
    → NoBlank raw_q
    → 0 < length method
    → split_line
        (request_line method raw_q version)
        (request_line method raw_q version)
        0
        0
        (record new_request { first_line_end_idx = end })
      ≡ (
        length method + 1 + length raw_q,
        record new_request {
          first_line_end_idx = end;
          action = method;
          raw_q = raw_q;
          q = (parse_query raw_q new_request.q).1;
        },
      )
split_request method raw_q version end mb qb m =
    let line = request_line method raw_q version in
    let i = length method in
    let start = record new_request { first_line_end_idx = end } in
    let z : 0 + i ≡ i = omega arith in
    let named : take i line ≡ method = take-append method (behind_method raw_q version) in
    split_line-skip line method (behind_method raw_q version) 0 0 start mb
    ∙ ap (λ k. split_line line (behind_method raw_q version) k 0 start) z
    ∙ split_line-method line (raw_q ++ behind_q version) i start refl
    ∙ ap (λ a. split_line line (raw_q ++ behind_q version) (i + 1) i (record start { action = a }))
        named
    ∙ split_line-skip line raw_q (behind_q version) (i + 1) i (record start { action = method }) qb
    ∙ split_line-query line (codes "HTTP/" ++ version) (i + 1 + length raw_q) i
        (record start { action = method }) (is_empty-lt method m) refl
    ∙ ap
        (λ r. (
          i + 1 + length raw_q,
          record start { action = method; raw_q = r; q = (parse_query r new_request.q).1 },
        ))
        (query_part method raw_q version)

probe_line-request :
    (method raw_q version : Bytes)
    → NoBlank method
    → NoBlank raw_q
    → 0 < length method
    → 0 < length version
    → probe_line
        (request_line method raw_q version)
        (record new_request { first_line_end_idx = length (request_line method raw_q version) + 1 })
      ≡ (continue, read_line method raw_q version)
unfolding probe_line probe_version
probe_line-request method raw_q version mb qb m v =
    let last = length method + 1 + length raw_q in
    let some_blank : (last == 0) ≡ false = ground arith in
    let room : ltb (length (request_line method raw_q version) - (last + 1)) 5 ≡ false =
      ground (arith, request_line-length method raw_q version) in
    rw (split_request method raw_q version _ mb qb m) (
      rw some_blank (
        rw room (
          rw (version_part method raw_q version)
            (rw (version_text-append version v, probe_version) (rw (is_empty-lt version v) refl)))))

-- A first line of a method, a query and a version with single blanks between them is taken
-- apart into these three, if the method and the version are not empty, there is no newline in the
-- line and no blank or tab in the first two, and the line is under 5119 bytes; what stands behind the
-- line does not matter.
pub probe-request_line :
    (method raw_q version rest : Bytes)
    → NoBlank method
    → NoBlank raw_q
    → 0 < length method
    → 0 < length version
    → Lacks b'\n' (request_line method raw_q version)
    → length (request_line method raw_q version) + 1 < http_first_line_length_limit
    → probe (request_line method raw_q version ++ b'\r' ∷ b'\n' ∷ rest) new_request
      ≡ (continue, read_line method raw_q version)
unfolding probe probe_line probe_version
probe-request_line method raw_q version rest mb qb m v n l =
    let line = request_line method raw_q version in
    let short : leb http_first_line_length_limit (length line + 1) ≡ false = ground arith in
    let e : length line + 1 - 1 ≡ length line = omega arith in
    rw (first_line_end-append line rest n, probe)
      (rw short (
        rw e (
          rw (take-append line (b'\r' ∷ b'\n' ∷ rest))
            (probe_line-request method raw_q version mb qb m v))))
