-- ===== src/Http/Response.antt =====
-- src/service/http/protocol.hpp: `HttpResponse` and the bytes that it is sent as.
pub mod Layout
use lingdong.Prelude.{
  ℕ, zero, suc, ◌+◌, ◌-◌, ◌*◌, ◌/◌, ◌%◌, Bool, true, false, List, [], ◌∷◌, ◌++◌, Bytes, codes,
  length, is_empty, ◌==◌, if◌then◌else◌, ltb,
}
use lingdong.Prelude.Digits.{print_size}
use lingdong.Prelude.Map.{insert}

pub data HttpStatusCode : Type 0 where
  status_ok bad_request unauthorized forbidden not_found method_not_allowed content_too_large
        uri_too_long too_many_requests internal_err :
      HttpStatusCode

-- The number of a code, in the three digits that `fmt` prints.
abbrev pub code_digits : HttpStatusCode → Bytes
code_digits status_ok = codes "200"
code_digits bad_request = codes "400"
code_digits unauthorized = codes "401"
code_digits forbidden = codes "403"
code_digits not_found = codes "404"
code_digits method_not_allowed = codes "405"
code_digits content_too_large = codes "413"
code_digits uri_too_long = codes "414"
code_digits too_many_requests = codes "429"
code_digits internal_err = codes "500"

-- `CODE2MSG`.
abbrev pub code_msg : HttpStatusCode → Bytes
code_msg status_ok = codes "Ok"
code_msg bad_request = codes "Bad Request"
code_msg unauthorized = codes "Unauthorized"
code_msg forbidden = codes "Forbidden"
code_msg not_found = codes "Not Found"
code_msg method_not_allowed = codes "Method Not Allowed"
code_msg content_too_large = codes "Content Too Large"
code_msg uri_too_long = codes "URI Too Long"
code_msg too_many_requests = codes "Too Many Requests"
code_msg internal_err = codes "Internal Error"

pub record HttpResponse : Type 0 where
  pub code : HttpStatusCode
  pub resp_headers : List (Bytes × Bytes)
  pub is_sealed : Bool
  pub body : Bytes

abbrev pub new_response : HttpResponse
new_response = record { code = status_ok; resp_headers = []; is_sealed = false; body = [] }

unfoldable pub with_code : HttpStatusCode → HttpResponse → HttpResponse
with_code status_code r = record r { code = status_code }

unfoldable pub with_header : Bytes → Bytes → HttpResponse → HttpResponse
with_header name value r = record r { resp_headers = insert name value r.resp_headers }

unfoldable pub with_body : Bytes → HttpResponse → Bool × HttpResponse
with_body body r =
    if r.is_sealed then (false, r) else (true, record r { body = body; is_sealed = true })

abbrev pub crlf : Bytes
crlf = b'\r' ∷ b'\n' ∷ []

unfoldable pub header_line : Bytes × Bytes → Bytes
header_line (k, v) = k ++ codes ": " ++ v ++ crlf

unfoldable pub header_lines : List (Bytes × Bytes) → List Bytes
header_lines [] = []
header_lines (h ∷ hs) = header_line h ∷ header_lines hs

unfoldable pub status_line : HttpStatusCode → Bytes
status_line code = codes "HTTP/1.1 " ++ code_digits code ++ codes " " ++ code_msg code ++ crlf

unfoldable pub resp_lines : HttpResponse → List Bytes
resp_lines r =
    status_line r.code
    ∷ (header_lines r.resp_headers
        ++ (header_line (codes "Content-Length", print_size (length r.body)) ∷ crlf ∷ []))

unfoldable pub sizes : List Bytes → ℕ
sizes [] = 0
sizes (s ∷ ss) = length s + sizes ss

-- `*resp_buffer_size`, where it is 0 at first.
unfoldable pub buffer_size : HttpResponse → ℕ
buffer_size r = sizes (resp_lines r) + (length r.body + 4)

unfoldable pub zeros : ℕ → Bytes
zeros zero = []
zeros (suc n) = 0 ∷ zeros n

-- `memcpy` of `s` into the buffer at `idx`.
unfoldable pub copy_at : Bytes → ℕ → Bytes → Bytes
copy_at buffer zero [] = buffer
copy_at [] idx s = []
copy_at (c ∷ buffer) zero (x ∷ s) = x ∷ copy_at buffer zero s
copy_at (c ∷ buffer) (suc idx) s = c ∷ copy_at buffer idx s

-- The loop over the lines: the buffer and `copy_idx`.
unfoldable pub copy_lines : List Bytes → Bytes → ℕ → Bytes × ℕ
copy_lines [] buffer copy_idx = (buffer, copy_idx)
copy_lines (s ∷ ss) buffer copy_idx =
    copy_lines ss (copy_at buffer copy_idx s) (copy_idx + length s)

unfoldable pub generate : HttpResponse → Bytes
generate r =
    let (buffer, copy_idx) = copy_lines (resp_lines r) (zeros (buffer_size r)) 0 in
    if is_empty r.body
    then buffer
    else copy_at (copy_at buffer copy_idx r.body) (copy_idx + length r.body) (crlf ++ crlf)
