-- ===== src/Web/Base64.antt =====
-- src/web.hpp: `base64_handler`, and that what it encodes it decodes again.
use lingdong.Prelude.{
  ◌≡◌, refl, ◌∙◌, Bool, true, false, sym, ap, [], Bytes, codes, Option, none, some, Result, ok,
  ◌>>=◌, is_empty, if◌then◌else◌,
}
use lingdong.Prelude.Map.{lookup, contains}
use lingdong.Http.Request.{HttpRequest}
use lingdong.Http.Response.{
  HttpResponse, status_ok, bad_request, code_msg, with_code, with_header, with_body,
}
use lingdong.Web.{json_type}

-- The functions of absl, for the usual alphabet (`false`) and that of URLs; one that cannot decode
-- leaves the target empty. And the text of an answer with its source and its target, which the
-- JSON library gives if both are UTF-8.
pub record Coding : Type 0 where
  pub escape : Bool → Bytes → Bytes
  pub unescape : Bool → Bytes → Option Bytes
  pub dump_target : Bytes → Bytes → Result Bytes

-- `src`: the body of the request, or the parameter where there is no body.
unfoldable pub source_of : HttpRequest → Option Bytes
source_of req = if is_empty req.body then lookup (codes "src") req.q.params else some req.body

abbrev pub for_web : HttpRequest → Bool
for_web req = contains (codes "for_web") req.q.params

abbrev pub to_decode : HttpRequest → Bool
to_decode req = contains (codes "to_decode") req.q.params

abbrev pub decoded : Option Bytes → Bytes
decoded none = []
decoded (some target) = target

module _ (coding : Coding) where
  unfoldable pub target_of : Bool → Bool → Bytes → Bytes
  target_of web true src = decoded (coding.unescape web src)
  target_of web false src = coding.escape web src

  unfoldable pub answer_target : Bytes → Bytes → HttpResponse → Result HttpResponse
  answer_target src target resp = do
    text ← coding.dump_target src target
    ok (with_code status_ok (with_header (codes "Content-Type") json_type (with_body text resp).1))

  unfoldable pub answer_source : Option Bytes → HttpRequest → HttpResponse → Result HttpResponse
  answer_source none req resp = ok (with_code bad_request (with_body (code_msg bad_request) resp).1)
  answer_source (some src) req resp =
      answer_target src (target_of (for_web req) (to_decode req) src) resp

  unfoldable pub base64_handler : HttpRequest → HttpResponse → Result HttpResponse
  base64_handler req resp = answer_source (source_of req) req resp

  handled :
      (req : HttpRequest) (resp : HttpResponse) (src : Bytes) (decode : Bool)
      → source_of req ≡ some src
      → to_decode req ≡ decode
      → base64_handler req resp ≡ answer_target src (target_of (for_web req) decode src) resp
  unfolding base64_handler answer_source
  handled req resp src decode given e =
      ap (λ o. answer_source o req resp) given
      ∙ ap (λ d. answer_target src (target_of (for_web req) d src) resp) e

  source_of-body : (req : HttpRequest) → is_empty req.body ≡ false → source_of req ≡ some req.body
  unfolding source_of
  source_of-body req full = rw full refl

  -- A first request has a source and does not ask to decode. A second one has as its body what the
  -- answer to the first has as target, which is not empty; it asks to decode, and for the same
  -- alphabet. Then the answer to the second is the text with source and target exchanged, if absl
  -- decodes what it has encoded.
  pub base64_handler-target_of :
      (req back : HttpRequest) (resp : HttpResponse) (src : Bytes)
      → ((web : Bool) (s : Bytes) → coding.unescape web (coding.escape web s) ≡ some s)
      → source_of req ≡ some src
      → to_decode req ≡ false
      → to_decode back ≡ true
      → for_web back ≡ for_web req
      → back.body ≡ coding.escape (for_web req) src
      → is_empty back.body ≡ false
      → (base64_handler req resp ≡ answer_target src back.body resp)
        × (base64_handler back resp ≡ answer_target back.body src resp)
  unfolding target_of
  base64_handler-target_of req back resp src again given encodes decodes same sent full = (
    handled req resp src false given encodes ∙ ap (λ t. answer_target src t resp) (sym sent),
    handled back resp back.body true (source_of-body back full) decodes
        ∙ ap (λ w. answer_target back.body (decoded (coding.unescape w back.body)) resp) same
        ∙ ap (λ t. answer_target back.body (decoded (coding.unescape (for_web req) t)) resp) sent
        ∙ ap (λ o. answer_target back.body (decoded o) resp) (again (for_web req) src),
  )
