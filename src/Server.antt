-- ===== src/Server.antt =====
-- src/service/server.hpp: the buffer that collects the parts of a request. The calls of libuv,
-- the clock and the logs are left out.
pub mod Buffer
pub mod Peers
mod Witnesses
use lingdong.Prelude.{
  ℕ, ◌+◌, ◌*◌, Bool, true, false, List, [], ◌∷◌, ◌++◌, Bytes, Option, none, some, length, leb,
  is_empty, if◌then◌else◌,
}
use lingdong.Prelude.Map.{lookup, insert, contains, erase}
use lingdong.Http.Request.{ParseStatus, invalid, HttpRequest, new_request, probe, parse_request}

abbrev pub request_size_limit : ℕ
request_size_limit = 10485760

pub data Protocol : Type 0 where
  unknown refused http : Protocol

pub data RequestBufferStage : Type 0 where
  init parsing handling done : RequestBufferStage

-- `buffer` is `none` where the pointer is null.
pub record RequestBuffer : Type 0 where
  pub buffer : Option Bytes
  pub stage : RequestBufferStage
  pub protocol : Protocol
  pub http_req : HttpRequest

abbrev pub new_buffer : RequestBuffer
new_buffer = record { buffer = none; stage = init; protocol = unknown; http_req = new_request }

abbrev pub held : Option Bytes → Bytes
held none = []
held (some s) = s

abbrev pub bytes : RequestBuffer → Bytes
bytes b = held b.buffer

unfoldable pub parse_http : Bytes → RequestBuffer → ParseStatus × RequestBuffer
parse_http s b =
    let (status, req) = parse_request s b.http_req in (status, record b { http_req = req })

-- After the probe: the protocol is known, or nothing more is read.
unfoldable pub probed :
    Bytes → RequestBuffer → ParseStatus → HttpRequest → ParseStatus × RequestBuffer
probed s b invalid req = (invalid, record b { protocol = refused; http_req = req })
probed s b _ req =
    if req.valid
    then parse_http s (record b { protocol = http; http_req = req })
    else (invalid, record b { http_req = req })

unfoldable pub probe_http : Bytes → RequestBuffer → ParseStatus × RequestBuffer
probe_http s b = let (status, req) = probe s b.http_req in probed s b status req

unfoldable pub try_parse : RequestBuffer → ParseStatus × RequestBuffer
try_parse b0 =
    let b = record b0 { stage = parsing } in
    if is_empty (bytes b) then (invalid, b) else elim b.protocol [
      | unknown ↦ probe_http (bytes b) b
      | refused ↦ (invalid, b)
      | http ↦ parse_http (bytes b) b
    ]

-- `accept` of the bytes that were read; `on_read` calls it on one or more.
unfoldable pub accept : Bytes → RequestBuffer → ParseStatus × RequestBuffer
accept buf b =
    if leb request_size_limit (length (bytes b) + length buf)
    then (invalid, b)
    else try_parse (record b { buffer = some (bytes b ++ buf) })

-- `RequestBufferManager`, with one buffer for each peer.
unfoldable pub with_req_buffer : Bytes → List (Bytes × RequestBuffer) → List (Bytes × RequestBuffer)
with_req_buffer k m = if contains k m then m else insert k new_buffer m

unfoldable pub free_req_buffer :
    Bytes → List (Bytes × RequestBuffer) → Bool × List (Bytes × RequestBuffer)
free_req_buffer k m = if contains k m then (true, erase k m) else (false, m)

unfoldable pub peer_buffer : Bytes → List (Bytes × RequestBuffer) → RequestBuffer
peer_buffer peer m = elim (lookup peer m) [ none ↦ new_buffer | some b ↦ b ]

-- The part of `on_read` that reads: the buffer of the peer takes the bytes.
unfoldable pub on_read :
    Bytes → Bytes → List (Bytes × RequestBuffer) → ParseStatus × List (Bytes × RequestBuffer)
on_read peer buf m0 =
    let m = with_req_buffer peer m0 in
    let (status, after) = accept buf (peer_buffer peer m) in (status, insert peer after m)
