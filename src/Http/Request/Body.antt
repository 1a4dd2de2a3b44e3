-- ===== src/Http/Request/Body.antt =====
-- The body of a request, as `HttpRequest::parse` of src/service/http/protocol.hpp finds it.
use lingdong.Prelude.{
  ℕ, ◌+◌, ◌-◌, ◌<◌, ◌≡◌, refl, false, Bytes, Option-cases, some, length, length-drop, take, drop,
  take-ge, arith, ltb, ◌==◌, ==_iff, Bool-cases, inl, inr,
}
use lingdong.Prelude.Map.{lookup}
use lingdong.Http.Request.{
  HttpRequest, ParseStatus, invalid, complete, content_length, strtol, ends_blank, take_body,
  parse_headers, parse_request,
}

-- A complete request has as its body all that stands behind `headers_end_idx`.
abbrev pub Framed : Bytes → ParseStatus × HttpRequest → Type 0
Framed buffer (complete, req) = req.body ≡ drop (req.headers_end_idx + 1) buffer
Framed buffer (_, req) = Unit

rest-take :
    (buffer : Bytes) (end : ℕ)
    → take (length buffer - 1 - end) (drop (end + 1) buffer) ≡ drop (end + 1) buffer
rest-take buffer end =
    take-ge (length buffer - 1 - end) (drop (end + 1) buffer)
      (omega (arith, length-drop (end + 1) buffer))

take_body-length :
    (buffer : Bytes) (req : HttpRequest) (value : Bytes)
    → lookup content_length req.headers ≡ some value
    → Framed buffer (take_body buffer req)
unfolding take_body
take_body-length buffer req value e =
    let rest = length buffer - 1 - req.headers_end_idx in
    rw (e, take_body)
      (elim (Bool-cases (strtol value == 0)) [
        | inl z ↦ rw z tt
        | inr z ↦ rw z (elim (Bool-cases (strtol value == rest)) [
          | inl s ↦ rw s (
              let n : strtol value ≡ rest = (==_iff (strtol value) rest).0 s in
              rw n (rest-take buffer req.headers_end_idx))
          | inr s ↦
              rw s
                (elim (Bool-cases (ltb rest (strtol value))) [ inl l ↦ rw l tt | inr l ↦ rw l tt ])
        ])
      ])

take_body-Framed : (buffer : Bytes) (req : HttpRequest) → Framed buffer (take_body buffer req)
unfolding take_body
take_body-Framed buffer req = elim (Option-cases (lookup content_length req.headers)) [
  | inr (value, e) ↦ take_body-length buffer req value e
  | inl e ↦
      rw (e, take_body)
        (elim (Bool-cases (ends_blank buffer req.headers_end_idx)) [
          | inl l ↦ rw l (rest-take buffer req.headers_end_idx)
          | inr l ↦ rw l tt
        ])
]

-- On any bytes and any request: if `parse` says that the request is complete, its body is all
-- that stands behind `headers_end_idx`, to the last byte. The index is 0 where the headers have
-- not ended.
pub parse_request-Framed :
    (buffer : Bytes) (req : HttpRequest) → Framed buffer (parse_request buffer req)
unfolding parse_request
parse_request-Framed buffer req = elim (Bool-cases (req.first_line_end_idx == 0)) [
  | inl e ↦ rw e tt
  | inr e ↦ rw e (elim (Bool-cases (req.headers_end_idx == 0)) [
    | inl h ↦ rw h (take_body-Framed buffer (parse_headers buffer req))
    | inr h ↦ rw h (take_body-Framed buffer req)
  ])
]

-- Once the headers are read, a request whose `Content-Length` is read as 0 is invalid, whatever
-- stands behind it.
pub parse_request-zero_length :
    (buffer : Bytes) (req : HttpRequest) {value : Bytes}
    → 0 < req.headers_end_idx
    → lookup content_length req.headers ≡ some value
    → strtol value ≡ 0
    → (parse_request buffer req).0 ≡ invalid
unfolding parse_request take_body
parse_request-zero_length buffer req h e z =
    let later : (req.headers_end_idx == 0) ≡ false = ground arith in
    elim (Bool-cases (req.first_line_end_idx == 0)) [
      | inl f ↦ rw f refl
      | inr f ↦ rw f (rw later (rw (e, take_body) (rw z refl)))
    ]
