-- ===== src/Server/Witnesses.antt =====
-- Runs of the request buffer of src/service/server.hpp.
use lingdong.Prelude.{◌≡◌, List, [], ◌∷◌, ◌++◌, Bytes, codes, arith}
use lingdong.Server.{new_buffer, bytes}
use lingdong.Server.Buffer.{accept_all, joined, accept_all-joined}

abbrev parts : List Bytes
parts = codes "GET / HT" ∷ codes "TP/1.1\r\n" ∷ []

accept_all-joined_example : bytes (accept_all parts new_buffer) ≡ [] ++ joined parts
unfolding joined
accept_all-joined_example = accept_all-joined parts new_buffer (omega arith)
