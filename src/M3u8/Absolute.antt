-- ===== src/M3u8/Absolute.antt =====
-- src/task/m3u8_to_mp4.cpp: `fetch_m3u8` reads any list, and makes the URLs of its segments whole.
use lingdong.Prelude.{
  ◌==◌, first_byte, ℕ, zero, suc, ◌+◌, ◌≤◌, ◌<◌, ◌≡◌, refl, ◌∙◌, Bool, true, false, List, [], ◌∷◌,
  ◌++◌, Bytes, codes, starts_with, map, some, ok, bind-ok, find, take, drop, length, All,
  Bool-cases, Option-cases, inl, inr, ◌⊎◌, arith,
}
use lingdong.M3u8.{
  M3u8Segment, M3u8, new_m3u8, behind_last, url_host, extinf, with_last_ts, read_line, read_lines,
  has_scheme, absolute, fetch_m3u8,
}

-- There is a segment once the header has ended.
abbrev pub HasLast : Bool × M3u8 → Type 0
HasLast (header_end, m) = header_end ≡ true → 0 < length m.segments

with_last_ts-length :
    (line : Bytes) (segs : List M3u8Segment)
    → 0 < length segs
    → (segs' : List M3u8Segment) × (with_last_ts line segs ≡ ok segs') × (0 < length segs')
unfolding with_last_ts
with_last_ts-length line [] h = absurd (omega arith)
with_last_ts-length line (seg ∷ []) h = (_, refl, omega arith)
with_last_ts-length line (seg ∷ next ∷ segs) h =
    let (segs', e, more) = with_last_ts-length line (next ∷ segs) (omega arith) in
    (_, bind-ok _ e, omega arith)

snoc-length : (segs : List M3u8Segment) (seg : M3u8Segment) → 0 < length (segs ++ seg ∷ [])
snoc-length [] seg = omega arith
snoc-length (s ∷ segs) seg = omega arith

read_line-HasLast :
    (line : Bytes) (header_end : Bool) (m : M3u8)
    → HasLast (header_end, m)
    → (st : Bool × M3u8) × (read_line line (header_end, m) ≡ ok st) × HasLast st
unfolding read_line
read_line-HasLast [] header_end m h = (_, refl, h)
read_line-HasLast (c ∷ line) false m h = elim (Bool-cases (starts_with extinf (c ∷ line))) [
  | inl opens ↦ rw opens (_, refl, λ e. snoc-length m.segments _)
  | inr other ↦ rw other (_, refl, λ e. cc e)
]
read_line-HasLast (c ∷ line) true m h = elim (Bool-cases (starts_with extinf (c ∷ line))) [
  | inl opens ↦ rw opens (_, refl, λ e. snoc-length m.segments _)
  | inr other ↦ rw other (elim (Bool-cases (starts_with (codes "#") (c ∷ line))) [
    | inl remark ↦ rw remark (_, refl, λ e. h refl)
    | inr uri ↦
        let (segs', e, more) = with_last_ts-length (c ∷ line) m.segments (h refl) in
        rw uri (_, bind-ok _ e, λ e'. more)
  ])
]

read_lines-HasLast :
    (lines : List Bytes) (header_end : Bool) (m : M3u8)
    → HasLast (header_end, m)
    → (st : Bool × M3u8) × (read_lines lines (header_end, m) ≡ ok st)
unfolding read_lines
read_lines-HasLast [] header_end m h = (_, refl)
read_lines-HasLast (line ∷ lines) header_end m h =
    let (st, e, h') = read_line-HasLast line header_end m h in
    let (end, e') = read_lines-HasLast lines st.0 st.1 h' in (end, bind-ok _ e ∙ e')

-- A prefix of at most eight bytes is kept by all cuts behind it.
starts_with-take :
    (prefix url t : Bytes) (n : ℕ)
    → starts_with prefix url ≡ true
    → length prefix ≤ n
    → starts_with prefix (take n url ++ t) ≡ true
unfolding starts_with
starts_with-take [] url t n h k = refl
starts_with-take (c ∷ prefix) [] t n h k = cc h
starts_with-take (c ∷ prefix) (x ∷ url) t zero h k = absurd (omega arith)
starts_with-take (c ∷ prefix) (x ∷ url) t (suc n) h k =
    ground (arith, starts_with-take prefix url t n)

starts_with-whole :
    (prefix url t : Bytes) → starts_with prefix url ≡ true → starts_with prefix (url ++ t) ≡ true
unfolding starts_with
starts_with-whole [] url t h = refl
starts_with-whole (c ∷ prefix) [] t h = cc h
starts_with-whole (c ∷ prefix) (x ∷ url) t h = ground (arith, starts_with-whole prefix url t)

behind_last-le :
    (c : ℕ) (prefix url : Bytes)
    → starts_with prefix url ≡ true
    → behind_last c prefix ≤ behind_last c url
unfolding starts_with behind_last
behind_last-le c [] url h = omega arith
behind_last-le c (y ∷ prefix) [] h = cc h
behind_last-le c (y ∷ prefix) (x ∷ url) h = ground (arith, behind_last-le c prefix url)

module _ (scheme url t : Bytes) where
  url_host-starts_with :
      starts_with scheme url ≡ true
      → length scheme ≤ 8
      → starts_with scheme (url_host url ++ t) ≡ true
  unfolding url_host
  url_host-starts_with h k = elim (Option-cases (find b'/' (drop 8 url))) [
    | inl nowhere ↦ rw (nowhere, url_host) (starts_with-whole scheme url t h)
    | inr (i, there) ↦ rw (there, url_host) (starts_with-take scheme url t (i + 8) h (omega arith))
  ]

  behind_last-starts_with :
      starts_with scheme url ≡ true
      → length scheme ≤ behind_last b'/' scheme
      → starts_with scheme (take (behind_last b'/' url) url ++ t) ≡ true
  behind_last-starts_with h k =
      starts_with-take scheme url t (behind_last b'/' url) h
        (omega (arith, behind_last-le b'/' scheme url h))

has_scheme-cases :
    (s : Bytes)
    → has_scheme s ≡ true
    → (starts_with (codes "http://") s ≡ true) ⊎ (starts_with (codes "https://") s ≡ true)
has_scheme-cases s h = ground arith

http_length : length (codes "http://") ≤ behind_last b'/' (codes "http://")
unfolding behind_last
http_length = omega arith

https_length : length (codes "https://") ≤ behind_last b'/' (codes "https://")
unfolding behind_last
https_length = omega arith

abbrev pub IsAbsolute : M3u8Segment → Type 0
IsAbsolute seg = has_scheme seg.ts ≡ true

has_scheme-made :
    (url t : Bytes)
    → has_scheme url ≡ true
    → (has_scheme (url_host url ++ t) ≡ true)
      × (has_scheme (take (behind_last b'/' url) url ++ t) ≡ true)
has_scheme-made url t h = elim (has_scheme-cases url h) [
  | inl http ↦ (
    rw (url_host-starts_with (codes "http://") url t http (omega arith)) refl,
    rw (behind_last-starts_with (codes "http://") url t http http_length) refl,
  )
  | inr https ↦ (
    ground (arith, url_host-starts_with (codes "https://") url t https (omega arith)),
    ground (arith, behind_last-starts_with (codes "https://") url t https https_length),
  )
]

absolute-IsAbsolute :
    (url : Bytes) (seg : M3u8Segment) → has_scheme url ≡ true → IsAbsolute (absolute url seg)
unfolding absolute
absolute-IsAbsolute url seg h =
    let (host, dir) = has_scheme-made url seg.ts h in
    elim (Bool-cases (has_scheme seg.ts)) [
      | inl whole ↦ rw whole whole
      | inr part ↦ rw part (elim (Bool-cases (first_byte seg.ts == b'/')) [
        | inl rooted ↦ rw rooted host
        | inr beside ↦ rw beside dir
      ])
    ]

map-IsAbsolute :
    (url : Bytes) (segs : List M3u8Segment)
    → has_scheme url ≡ true
    → All IsAbsolute (map (absolute url) segs)
map-IsAbsolute url [] h = tt
map-IsAbsolute url (seg ∷ segs) h = (absolute-IsAbsolute url seg h, map-IsAbsolute url segs h)

-- Whatever the lines of an answer with status 200 are, `fetch_m3u8` makes a list of them; and if
-- the list's own URL begins with http:// or https://, then so do the URLs of all its segments.
pub fetch_m3u8-IsAbsolute :
    (lines : List Bytes) (url : Bytes)
    → has_scheme url ≡ true
    → (m : M3u8) × (fetch_m3u8 200 lines url ≡ ok (some m)) × All IsAbsolute m.segments
unfolding fetch_m3u8
fetch_m3u8-IsAbsolute lines url h =
    let (st, e) = read_lines-HasLast lines false new_m3u8 (λ e. cc e) in
    (_, bind-ok _ e, map-IsAbsolute url st.1.segments h)
