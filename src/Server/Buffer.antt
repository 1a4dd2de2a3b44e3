-- ===== src/Server/Buffer.antt =====
-- What the buffer of src/service/server.hpp holds over a run of reads.
use lingdong.Prelude.{
  ◌+◌, ◌≤◌, ◌<◌, ◌≡◌, refl, List, [], ◌∷◌, ◌++◌, Bytes, some, length, length-append, leb, arith,
  is_empty, Bool-cases, inl, inr, append_assoc, append-nil, true, false, ◌∙◌, sym, ap,
}
use lingdong.Http.Request.{ParseStatus, HttpRequest}
use lingdong.Server.{
  RequestBuffer, Protocol, unknown, refused, http, parsing, held, bytes, request_size_limit,
  parse_http, probe_http, probed, try_parse, accept,
}

-- The reads of one peer, one after another.
unfoldable pub accept_all : List Bytes → RequestBuffer → RequestBuffer
accept_all [] b = b
accept_all (buf ∷ bufs) b = accept_all bufs (accept buf b).1

unfoldable pub joined : List Bytes → Bytes
joined [] = []
joined (buf ∷ bufs) = buf ++ joined bufs

probed-buffer :
    (s : Bytes) (b : RequestBuffer) (status : ParseStatus) (req : HttpRequest)
    → (probed s b status req).1.buffer ≡ b.buffer
unfolding probed parse_http
probed-buffer s b ParseStatus.invalid req = refl
probed-buffer s b ParseStatus.continue req = elim (Bool-cases req.valid) [
  | inl e ↦ rw e refl
  | inr e ↦ rw e refl
]
probed-buffer s b ParseStatus.complete req = elim (Bool-cases req.valid) [
  | inl e ↦ rw e refl
  | inr e ↦ rw e refl
]

by_protocol :
    (b : RequestBuffer) (p : Protocol)
    → (elim p as (λ _. ParseStatus × RequestBuffer) [
      | unknown ↦ probe_http (bytes b) b
      | refused ↦ (ParseStatus.invalid, b)
      | http ↦ parse_http (bytes b) b
    ]).1.buffer
      ≡ b.buffer
unfolding probe_http parse_http
by_protocol b unknown = probed-buffer (bytes b) b _ _
by_protocol b refused = refl
by_protocol b http = refl

try_parse-buffer : (b : RequestBuffer) → (try_parse b).1.buffer ≡ b.buffer
unfolding try_parse
try_parse-buffer b = elim (Bool-cases (is_empty (bytes b))) [
  | inl e ↦ rw e refl
  | inr e ↦ rw e (by_protocol (record b { stage = parsing }) b.protocol)
]

accept-bytes :
    (buf : Bytes) (b : RequestBuffer)
    → length (bytes b) + length buf < request_size_limit
    → bytes (accept buf b).1 ≡ bytes b ++ buf
unfolding accept
accept-bytes buf b h =
    let e : leb request_size_limit (length (bytes b) + length buf) ≡ false = ground arith in
    rw e (ap held (try_parse-buffer (record b { buffer = some (bytes b ++ buf) })))

accept-over :
    (buf : Bytes) (b : RequestBuffer)
    → request_size_limit ≤ length (bytes b) + length buf
    → (accept buf b).1 ≡ b
unfolding accept
accept-over buf b h =
    let e : leb request_size_limit (length (bytes b) + length buf) ≡ true = ground arith in
    rw e refl

-- If what the buffer holds and all reads together are under the limit, the buffer holds their bytes in their
-- order behind what it held before, whatever the parser says to each.
pub accept_all-joined :
    (bufs : List Bytes) (b : RequestBuffer)
    → length (bytes b) + length (joined bufs) < request_size_limit
    → bytes (accept_all bufs b) ≡ bytes b ++ joined bufs
unfolding accept_all joined
accept_all-joined [] b h = sym (append-nil (bytes b))
accept_all-joined (buf ∷ bufs) b h =
    let sizes = length-append buf (joined bufs) in
    let one = accept-bytes buf b (omega arith) in
    let size = length-append (bytes b) buf in
    accept_all-joined bufs (accept buf b).1 (rw one (omega arith))
    ∙ ap (λ s. s ++ joined bufs) one
    ∙ append_assoc (bytes b) buf (joined bufs)

-- A buffer under the limit of its size stays under it over any reads.
pub accept_all-bounded :
    (bufs : List Bytes) (b : RequestBuffer)
    → length (bytes b) < request_size_limit
    → length (bytes (accept_all bufs b)) < request_size_limit
unfolding accept_all
accept_all-bounded [] b h = h
accept_all-bounded (buf ∷ bufs) b h =
    accept_all-bounded bufs (accept buf b).1
      (elim (Bool-cases (leb request_size_limit (length (bytes b) + length buf))) [
        | inl e ↦ rw (accept-over buf b (ground arith)) h
        | inr e ↦
            rw (accept-bytes buf b (ground arith)) (rw (length-append (bytes b) buf) (ground arith))
      ])
