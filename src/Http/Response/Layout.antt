-- ===== src/Http/Response/Layout.antt =====
-- The bytes of a response of src/service/http/protocol.hpp.
use lingdong.Prelude.{
  ℕ, zero, suc, ◌+◌, ◌≡◌, refl, sym, ap, ◌∙◌, List, [], ◌∷◌, ◌++◌, Bytes, length, length-append,
  append-nil, append_assoc, is_empty, concat, if◌then◌else◌, arith,
}
use lingdong.Http.Response.{
  HttpResponse, crlf, resp_lines, sizes, buffer_size, zeros, copy_at, copy_lines, generate,
}

-- What is sent behind the head: a body and an empty line, or four zero bytes where there is none.
unfoldable pub tail : Bytes → Bytes
tail body = if is_empty body then zeros 4 else body ++ (crlf ++ crlf)

-- A copy into what is still zero.
copy_at-zeros :
    (front s : Bytes) (m n : ℕ)
    → m ≡ length s + n
    → copy_at (front ++ zeros m) (length front) s ≡ front ++ s ++ zeros n
unfolding copy_at zeros
copy_at-zeros [] [] m n e = ap zeros (omega arith)
copy_at-zeros [] (x ∷ s) zero n e = absurd (omega arith)
copy_at-zeros [] (x ∷ s) (suc m) n e = ap (◌∷◌ x) (copy_at-zeros [] s m n (omega arith))
copy_at-zeros (c ∷ front) s m n e = ap (◌∷◌ c) (copy_at-zeros front s m n e)

copy_lines-zeros :
    (ss : List Bytes) (front : Bytes) (m n : ℕ)
    → m ≡ sizes ss + n
    → ((copy_lines ss (front ++ zeros m) (length front)).0 ≡ front ++ concat ss ++ zeros n)
      × ((copy_lines ss (front ++ zeros m) (length front)).1 ≡ length front + sizes ss)
unfolding copy_lines sizes concat
copy_lines-zeros [] front m n e =
    let same : m ≡ n = omega arith in
    rw (append-nil front) (ap (λ k. front ++ zeros k) same, omega arith)
copy_lines-zeros (s ∷ ss) front m n e =
    let (bytes, idx) = copy_lines-zeros ss (front ++ s) (sizes ss + n) n refl in
    rw (copy_at-zeros front s m (sizes ss + n) (omega arith), copy_lines)
      (rw (sym (length-append front s)) (
        bytes ∙ ap (λ t. t ++ zeros n) (append_assoc front s (concat ss)),
        omega (arith, idx, length-append front s),
      ))

sizes-concat : (ss : List Bytes) → sizes ss ≡ length (concat ss)
unfolding sizes concat
sizes-concat [] = refl
sizes-concat (s ∷ ss) = omega (arith, sizes-concat ss, length-append s (concat ss))

send_body :
    (head body : Bytes)
    → copy_at
        (copy_at (head ++ zeros (length body + 4)) (0 + length head) body)
        (0 + length head + length body)
        (crlf ++ crlf)
      ≡ head ++ body ++ (crlf ++ crlf)
unfolding zeros
send_body head body =
    let e : 0 + length head ≡ length head = omega arith in
    rw e (
      rw (copy_at-zeros head body (length body + 4) 4 refl) (
        rw (sym (length-append head body))
          (copy_at-zeros (head ++ body) (crlf ++ crlf) 4 0 refl ∙ append-nil _)))

-- The end of `generate`, with the lines and the body apart.
send :
    (ss : List Bytes) (body : Bytes)
    → (let (buffer, copy_idx) = copy_lines ss (zeros (sizes ss + (length body + 4))) 0 in
        if is_empty body
        then buffer
        else copy_at (copy_at buffer copy_idx body) (copy_idx + length body) (crlf ++ crlf))
      ≡ concat ss ++ tail body
unfolding tail
send ss [] = (copy_lines-zeros ss [] (sizes ss + 4) 4 refl).0
send ss (c ∷ body) =
    let (bytes, idx) =
      copy_lines-zeros ss [] (sizes ss + (length (c ∷ body) + 4)) (length (c ∷ body) + 4) refl in
    rw bytes (
      rw idx (
        rw (sizes-concat ss)
          (send_body (concat ss) (c ∷ body) ∙ append_assoc (concat ss) (c ∷ body) (crlf ++ crlf))))

-- The buffer that is sent is its lines one after another, the head that ends in an empty line,
-- and then the body and an empty line, or four zero bytes where the body is empty.
pub generate-layout : (r : HttpResponse) → generate r ≡ concat (resp_lines r) ++ tail r.body
unfolding generate buffer_size
generate-layout r = send (resp_lines r) r.body
