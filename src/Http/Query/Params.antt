-- ===== src/Http/Query/Params.antt =====
-- The parameters of a URL, as src/service/http/protocol.hpp reads them.
use lingdong.Prelude.{
  ℕ, zero, suc, ◌+◌, ◌-◌, ◌<◌, ◌≡◌, refl, sym, ap, ◌∙◌, true, false, List, [], ◌∷◌, ◌++◌, Bytes,
  Lacks, some, length, is_empty, find, take, drop, ◌==◌, All, All-append, arith, append-nil,
  append_assoc, take-append, drop-append_suc, take-append-drop, length-append, take-ge,
}
use lingdong.Prelude.Map.{insert}
use lingdong.Strings.{view_strip_empty, is_space}
use lingdong.Strings.Strip.{AllBlank, view_strip_empty-IsTrimmed}
use lingdong.Http.Query.{UrlQuery, parse_one, parse_params, parse_query}

abbrev pub NoBlank : Bytes → Type 0
NoBlank s = All (λ c. is_space c ≡ false) s

find-Lacks_append : (c : ℕ) (s t : Bytes) → Lacks c s → find c (s ++ c ∷ t) ≡ some (length s)
unfolding find
find-Lacks_append c [] t h = ground arith
find-Lacks_append c (x ∷ s) t h = rw (find-Lacks_append c s t h.1) (ground arith)

blank-empty : (s : Bytes) → AllBlank s → NoBlank s → s ≡ []
blank-empty [] h k = refl
blank-empty (c ∷ s) h k = absurd (ground (arith, h.0, k.0))

NoBlank-take : (n : ℕ) (s : Bytes) → NoBlank s → NoBlank (take n s)
NoBlank-take zero s h = tt
NoBlank-take (suc n) [] h = tt
NoBlank-take (suc n) (c ∷ s) (x, h) = (x, NoBlank-take n s h)

NoBlank-drop : (n : ℕ) (s : Bytes) → NoBlank s → NoBlank (drop n s)
NoBlank-drop zero s h = h
NoBlank-drop (suc n) [] h = tt
NoBlank-drop (suc n) (c ∷ s) (x, h) = NoBlank-drop n s h

take-drop_all :
    (s : Bytes) (from count : ℕ)
    → take from s ≡ []
    → drop (from + count) s ≡ []
    → take count (drop from s) ≡ s
take-drop_all [] zero count b e = take-ge count [] (omega arith)
take-drop_all [] (suc from) count b e = take-ge count [] (omega arith)
take-drop_all (c ∷ s) zero count b e =
    let z : 0 + count ≡ count = omega arith in
    let front = take-append-drop count (c ∷ s) in
    sym (append-nil _) ∙ ap (λ r. take count (c ∷ s) ++ r) (sym (rw z at e)) ∙ front
take-drop_all (c ∷ s) (suc from) count b e = cc

strip-NoBlank : (s : Bytes) → NoBlank s → view_strip_empty s ≡ s
strip-NoBlank s h =
    let cut = view_strip_empty-IsTrimmed s in
    cut.is_part
    ∙ take-drop_all s cut.from cut.count
        (blank-empty (take cut.from s) cut.before (NoBlank-take cut.from s h))
        (blank-empty (drop (cut.from + cut.count) s) cut.behind
          (NoBlank-drop (cut.from + cut.count) s h))

-- A parameter that can be told from the others: no blanks, and marks only where they belong.
abbrev pub IsPlain : Bytes × Bytes → Type 0
IsPlain (k, v) = NoBlank k × NoBlank v × Lacks b'=' k × Lacks b'&' k × Lacks b'&' v × (0 < length v)

unfoldable pub print_param : Bytes × Bytes → Bytes
print_param (k, v) = k ++ b'=' ∷ v

unfoldable pub print_params : Bytes × Bytes → List (Bytes × Bytes) → Bytes
print_params p [] = print_param p
print_params p (p' ∷ ps) = print_param p ++ b'&' ∷ print_params p' ps

unfoldable pub insert_all : List (Bytes × Bytes) → List (Bytes × Bytes) → List (Bytes × Bytes)
insert_all [] params = params
insert_all ((k, v) ∷ ps) params = insert_all ps (insert k v params)

parse_one-print : (p : Bytes × Bytes) → IsPlain p → parse_one (print_param p) ≡ p
unfolding parse_one print_param
parse_one-print (k, v) (kb, vb, ke, ka, va, len) =
    let e : (length k == length (k ++ b'=' ∷ v) - 1) ≡ false =
      ground (arith, length-append k (b'=' ∷ v)) in
    rw (find-Lacks_append b'=' k v ke, parse_one)
      (rw e (
        rw (take-append k (b'=' ∷ v))
          (rw (drop-append_suc k b'=' v) (rw (strip-NoBlank k kb) refl))))

Lacks-append : (c : ℕ) (s t : Bytes) → Lacks c s → Lacks c t → Lacks c (s ++ t)
Lacks-append c [] t h k = k
Lacks-append c (x ∷ s) t (n, h) k = (n, Lacks-append c s t h k)

print_param-NoBlank : (p : Bytes × Bytes) → IsPlain p → NoBlank (print_param p)
unfolding print_param is_space
print_param-NoBlank (k, v) (kb, vb, ke, ka, va, len) = All-append _ k (b'=' ∷ v) kb (refl, vb)

print_param-Lacks : (p : Bytes × Bytes) → IsPlain p → Lacks b'&' (print_param p)
unfolding print_param
print_param-Lacks (k, v) (kb, vb, ke, ka, va, len) =
    Lacks-append b'&' k (b'=' ∷ v) ka ((λ e. ground (arith, e)), va)

print_params-NoBlank :
    (p : Bytes × Bytes) (ps : List (Bytes × Bytes))
    → IsPlain p
    → All IsPlain ps
    → NoBlank (print_params p ps)
unfolding print_params is_space
print_params-NoBlank p [] h hs = print_param-NoBlank p h
print_params-NoBlank p (p' ∷ ps) h (h', hs) =
    All-append _ (print_param p) (b'&' ∷ print_params p' ps) (print_param-NoBlank p h)
      (refl, print_params-NoBlank p' ps h' hs)

-- The loop up to the next mark, and up to the end.
parse_params-next :
    (part s t : Bytes) (params : List (Bytes × Bytes))
    → Lacks b'&' s
    → parse_params part (s ++ b'&' ∷ t) params ≡ (
        let (pk, pv) = parse_one (view_strip_empty (part ++ s)) in
        parse_params [] t (insert pk pv params))
unfolding parse_params
parse_params-next part [] t params h = rw (append-nil part) refl
parse_params-next part (c ∷ s) t params (n, h) =
    let e : (c == b'&') ≡ false = ground arith in
    rw (e, parse_params)
      (rw (append_assoc part (c ∷ []) s) at (parse_params-next (part ++ c ∷ []) s t params h))

parse_params-last :
    (part s : Bytes) (params : List (Bytes × Bytes))
    → Lacks b'&' s
    → parse_params part s params
      ≡ (let (pk, pv) = parse_one (view_strip_empty (part ++ s)) in insert pk pv params)
unfolding parse_params
parse_params-last part [] params h = rw (append-nil part) refl
parse_params-last part (c ∷ s) params (n, h) =
    let e : (c == b'&') ≡ false = ground arith in
    rw (e, parse_params)
      (rw (append_assoc part (c ∷ []) s) at (parse_params-last (part ++ c ∷ []) s params h))

stripped : (p : Bytes × Bytes) → IsPlain p → parse_one (view_strip_empty (print_param p)) ≡ p
stripped p h =
    ap parse_one (strip-NoBlank (print_param p) (print_param-NoBlank p h)) ∙ parse_one-print p h

parse_params-print :
    (p : Bytes × Bytes) (ps params : List (Bytes × Bytes))
    → IsPlain p
    → All IsPlain ps
    → parse_params [] (print_params p ps) params ≡ insert_all (p ∷ ps) params
unfolding print_params insert_all
parse_params-print p [] params h hs =
    parse_params-last [] (print_param p) params (print_param-Lacks p h)
    ∙ ap (λ r. insert r.0 r.1 params) (stripped p h)
parse_params-print p (p' ∷ ps) params h (h', hs) =
    parse_params-next [] (print_param p) (print_params p' ps) params (print_param-Lacks p h)
    ∙ ap (λ r. parse_params [] (print_params p' ps) (insert r.0 r.1 params)) (stripped p h)
    ∙ parse_params-print p' ps _ h' hs

append-is_empty : (s : Bytes) (c : ℕ) (t : Bytes) → is_empty (s ++ c ∷ t) ≡ false
append-is_empty [] c t = refl
append-is_empty (x ∷ s) c t = refl

-- A path without a question mark, a question mark, and parameters are read back: the path, and
-- each parameter put into the map in its turn. The parameters have no blanks, no `&`, no `=` in
-- the key, and a value that is not empty.
pub parse_query-print :
    (path : Bytes) (p : Bytes × Bytes) (ps : List (Bytes × Bytes)) (u : UrlQuery)
    → Lacks b'?' path
    → IsPlain p
    → All IsPlain ps
    → parse_query (path ++ b'?' ∷ print_params p ps) u
      ≡ (true, record { path = path; params = insert_all (p ∷ ps) u.params })
unfolding parse_query
parse_query-print path p ps u hp h hs =
    let e : is_empty (path ++ b'?' ∷ print_params p ps) ≡ false = append-is_empty path _ _ in
    rw e (
      rw (find-Lacks_append b'?' path (print_params p ps) hp) (
        rw (take-append path (b'?' ∷ print_params p ps)) (
          rw (drop-append_suc path b'?' (print_params p ps)) (
            rw (strip-NoBlank (print_params p ps) (print_params-NoBlank p ps h hs))
              (rw (parse_params-print p ps u.params h hs) refl)))))
