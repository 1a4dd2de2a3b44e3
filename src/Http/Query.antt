-- ===== src/Http/Query.antt =====
-- src/service/http/protocol.hpp: the URL query and the form body.
pub mod Params
use lingdong.Prelude.{
  ℕ, suc, ◌+◌, ◌-◌, Bool, true, false, List, [], ◌∷◌, ◌++◌, Bytes, Option, none, some, length,
  is_empty, find, take, drop, ◌==◌, if◌then◌else◌,
}
use lingdong.Prelude.Map.{insert}
use lingdong.Strings.{view_strip_empty}

pub record UrlQuery : Type 0 where
  pub path : Bytes
  pub params : List (Bytes × Bytes)

-- Behind `param.find('=')`. Where it is found, the text is not empty.
unfoldable pub parse_one : Bytes → Bytes × Bytes
parse_one param = elim (find b'=' param) [
  | none ↦ (param, [])
  | some equal_pos ↦
      if equal_pos == length param - 1
      then (param, [])
      else (view_strip_empty (take equal_pos param), drop (equal_pos + 1) param)
]

-- The loop over the bytes of `params_part`: `part` is what stands from `sub_begin` to `idx`.
unfoldable pub parse_params : Bytes → Bytes → List (Bytes × Bytes) → List (Bytes × Bytes)
parse_params part [] params =
    let (pk, pv) = parse_one (view_strip_empty part) in insert pk pv params
parse_params part (c ∷ s) params =
    let (pk, pv) = parse_one (view_strip_empty part) in
    elim (c == b'&') [
      | true ↦ parse_params [] s (insert pk pv params)
      | false ↦ parse_params (part ++ c ∷ []) s params
    ]

-- `UrlQuery::parse`.
unfoldable pub parse_query : Bytes → UrlQuery → Bool × UrlQuery
parse_query q u = if is_empty q then (false, u) else elim (find b'?' q) [
  | none ↦ (true, record u { path = q })
  | some pos ↦ (
    true,
    record u {
      path = take pos q;
      params = parse_params [] (view_strip_empty (drop (pos + 1) q)) u.params;
    },
  )
]

-- The body of the loop of `UrlEncodedFormBody::parse`, on the parts that `absl::StrSplit` gives.
unfoldable pub form_part : Bytes → Bytes × Bytes
form_part sp = elim (find b'=' sp) [ none ↦ (sp, []) | some pos ↦ (take pos sp, drop (pos + 1) sp) ]

unfoldable pub form_params : List Bytes → List (Bytes × Bytes) → List (Bytes × Bytes)
form_params [] params = params
form_params (sp ∷ parts) params =
    form_params parts (insert (form_part sp).0 (form_part sp).1 params)

-- `UrlEncodedFormBody::parse`, with the library's split.
unfoldable pub parse_form :
    (Bytes → ℕ → List Bytes) → Bytes → List (Bytes × Bytes) → List (Bytes × Bytes)
parse_form str_split s params = form_params (str_split s b'&') params
