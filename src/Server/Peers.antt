-- ===== src/Server/Peers.antt =====
-- The buffers of the peers of src/service/server.hpp.
use lingdong.Prelude.{◌≡◌, ◌≢◌, refl, ◌∙◌, List, Bytes, Bool-cases, inl, inr}
use lingdong.Prelude.Map.{lookup, contains, lookup-insert_ne, lookup-erase}
use lingdong.Prelude.{bytes_eq_iff, arith}
use lingdong.Server.{RequestBuffer, new_buffer, with_req_buffer, free_req_buffer, on_read}

with_req_buffer-others :
    (peer other : Bytes) (m : List (Bytes × RequestBuffer))
    → peer ≢ other
    → lookup other (with_req_buffer peer m) ≡ lookup other m
unfolding with_req_buffer
with_req_buffer-others peer other m ne = elim (Bool-cases (contains peer m)) [
  | inl e ↦ rw e refl
  | inr e ↦ rw e (lookup-insert_ne peer other new_buffer m ne)
]

free_req_buffer-others :
    (peer other : Bytes) (m : List (Bytes × RequestBuffer))
    → peer ≢ other
    → lookup other (free_req_buffer peer m).1 ≡ lookup other m
unfolding free_req_buffer
free_req_buffer-others peer other m ne = elim (Bool-cases (contains peer m)) [
  | inl e ↦ rw e (ground (arith, lookup-erase peer other m, bytes_eq_iff peer other))
  | inr e ↦ rw e refl
]

-- What one peer sends, and the end of its request, leave the buffer of every other peer as it is.
pub on_read-others :
    (peer other buf : Bytes) (m : List (Bytes × RequestBuffer))
    → peer ≢ other
    → (lookup other (on_read peer buf m).1 ≡ lookup other m)
      × (lookup other (free_req_buffer peer m).1 ≡ lookup other m)
unfolding on_read
on_read-others peer other buf m ne = (
  lookup-insert_ne peer other _ (with_req_buffer peer m) ne
      ∙ with_req_buffer-others peer other m ne,
  free_req_buffer-others peer other m ne,
)
