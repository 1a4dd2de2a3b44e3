-- ===== src/Viewers/Counts.antt =====
-- src/task/viewer_stat.cpp: what the counters add up to.
use lingdong.Prelude.{
  is_among, ℕ, suc, ◌+◌, ◌-◌, ◌%◌, ◌^◌, ◌<◌, ◌≡◌, ◌≢◌, refl, ◌∙◌, ap, sym, true, List, [], ◌∷◌,
  ◌++◌, Bytes, codes, bytes_eq, starts_with, occurs, some, length, is_empty, if◌then◌else◌,
  Bool-cases, inl, inr, arith,
}
use lingdong.Prelude.Map.{lookup, lookup-insert, lookup-insert_ne}
use lingdong.Viewers.{
  BrowserStats, no_stats, bump, count_browser, stat_viewer_browser, is_illegal, count_key,
  count_name, count_place, MmdbRecord, GeoSource, query_by_ip, count_peer, count_peers,
  stat_viewer_geo,
}

abbrev pub counted : BrowserStats → ℕ
counted s = s.chrome + s.firefox + s.safari + s.edge + s.curl + s.unknown

count_browser-counted :
    (sv : Bytes) (s : BrowserStats)
    → counted s < 2 ^ 32 - 1
    → counted (count_browser sv s) ≡ counted s + 1
unfolding count_browser
count_browser-counted sv s h = elim (Bool-cases (occurs (codes "Safari") sv)) [
  | inr other ↦ rw other (elim (Bool-cases (starts_with (codes "Chrome") sv)) [
    | inr c ↦ rw c (omega arith)
    | inl c ↦ rw c (elim (Bool-cases (occurs (codes "Edg") sv)) [
      | inl e ↦ rw e (omega arith)
      | inr e ↦ rw e (omega arith)
    ])
  ])
  | inl safari ↦ rw safari (elim (Bool-cases (occurs (codes "Firefox") sv)) [
    | inr f ↦ rw f (omega arith)
    | inl f ↦ rw f (elim (Bool-cases (occurs (codes "curl") sv)) [
      | inl u ↦ rw u (omega arith)
      | inr u ↦ rw u (omega arith)
    ])
  ])
]

stat_viewer_browser-from :
    (rows : List Bytes) (s : BrowserStats)
    → counted s + length rows < 2 ^ 32
    → counted (stat_viewer_browser rows s) ≡ counted s + length rows
unfolding stat_viewer_browser
stat_viewer_browser-from [] s h = omega arith
stat_viewer_browser-from (sv ∷ rows) s h =
    let once = count_browser-counted sv s (omega arith) in
    omega (arith, once, stat_viewer_browser-from rows (count_browser sv s) (omega (arith, once)))

-- Each row is counted under one browser: the six counters add up to the number of the rows, if
-- that is under 2^32.
pub stat_viewer_browser-counted :
    (rows : List Bytes)
    → length rows < 2 ^ 32
    → counted (stat_viewer_browser rows no_stats) ≡ length rows
stat_viewer_browser-counted rows h =
    omega (arith, stat_viewer_browser-from rows no_stats (omega arith))

module _ (split : Bytes → Bytes × List Bytes) where
  -- The addresses of the rows that are legal, each once.
  unfoldable pub distinct_ips : List Bytes → List Bytes → List Bytes
  distinct_ips [] seen = seen
  distinct_ips (sv ∷ rows) seen =
      let ip = (split sv).0 in
      let passed = distinct_ips rows seen in
      let taken = distinct_ips rows (ip ∷ seen) in
      if is_empty sv
      then passed
      else if is_illegal ip
      then passed
      else if is_among ip seen
      then passed
      else taken

-- A key that another counter has.
abbrev IsOther : Bytes → Type 0
IsOther k = k ≢ codes "uv"

count_key-other :
    (k : Bytes) (stats : List (Bytes × ℕ))
    → IsOther k
    → lookup (codes "uv") (count_key k stats) ≡ lookup (codes "uv") stats
unfolding count_key
count_key-other k stats ne = lookup-insert_ne k (codes "uv") _ stats ne

count_name-other :
    (prefix name : Bytes) (stats : List (Bytes × ℕ))
    → ((name : Bytes) → IsOther (prefix ++ name))
    → lookup (codes "uv") (count_name prefix name stats) ≡ lookup (codes "uv") stats
unfolding count_name
count_name-other prefix [] stats ne = refl
count_name-other prefix (c ∷ name) stats ne =
    count_key-other (prefix ++ c ∷ name) stats (ne (c ∷ name))

count_place-other :
    (r : MmdbRecord) (stats : List (Bytes × ℕ))
    → lookup (codes "uv") (count_place r stats) ≡ lookup (codes "uv") stats
unfolding count_place
count_place-other r stats = elim (Bool-cases r.is_valid) [
  | inr unknown ↦ rw unknown refl
  | inl valid ↦
      let one = count_name (codes "c1_") r.continent stats in
      let two = count_name (codes "c2_") r.country one in
      rw valid (
        count_name-other (codes "c3_") r.city two (λ name. cc)
        ∙ count_name-other (codes "c2_") r.country one (λ name. cc)
        ∙ count_name-other (codes "c1_") r.continent stats (λ name. cc))
]

bytes_eq-uv : bytes_eq (codes "uv") (codes "uv") ≡ true
unfolding bytes_eq
bytes_eq-uv = refl

count_key-uv :
    (stats : List (Bytes × ℕ)) (n : ℕ)
    → lookup (codes "uv") stats ≡ some n
    → lookup (codes "uv") (count_key (codes "uv") stats) ≡ some (bump n)
unfolding count_key
count_key-uv stats n e =
    rw e (lookup-insert (codes "uv") (codes "uv") (bump n) stats ∙ rw bytes_eq-uv refl)

first_uv :
    (stats : List (Bytes × ℕ)) → lookup (codes "uv") ((codes "uv", 0) ∷ stats) ≡ some (0 % 2 ^ 32)
unfolding lookup bytes_eq
first_uv stats = refl

module _ (source : GeoSource) (split : Bytes → Bytes × List Bytes) where
  -- The counter is the number of viewers.
  abbrev Counted : List (Bytes × ℕ) × List Bytes → Type 0
  Counted (stats, viewers) = lookup (codes "uv") stats ≡ some (length viewers % 2 ^ 32)

  -- A row leaves the counter right, and its viewers are those of the reference definition.
  count_peer-Counted :
      (sv : Bytes) (rows : List Bytes) (stats : List (Bytes × ℕ)) (viewers : List Bytes)
      → Counted (stats, viewers)
      → (st : List (Bytes × ℕ) × List Bytes) × (count_peer source split sv (stats, viewers) ≡ st)
        × (distinct_ips split (sv ∷ rows) viewers ≡ distinct_ips split rows st.1)
        × Counted st
  unfolding count_peer distinct_ips
  count_peer-Counted [] rows stats viewers h = ((stats, viewers), refl, refl, h)
  count_peer-Counted (c ∷ sv) rows stats viewers h =
      let ip = (split (c ∷ sv)).0 in
      let place = query_by_ip source ip in
      elim (Bool-cases (is_illegal ip)) [
        | inl illegal ↦ rw illegal ((stats, viewers), refl, refl, h)
        | inr legal ↦ rw legal (elim (Bool-cases (is_among ip viewers)) [
          | inl old ↦
              rw old
                ((count_place place stats, viewers), refl, refl, count_place-other place stats ∙ h)
          | inr fresh ↦
              let wraps : bump (length viewers % 2 ^ 32) ≡ (length viewers + 1) % 2 ^ 32 =
                omega arith in
              let next : length viewers + 1 ≡ suc (length viewers) = omega arith in
              rw fresh (
                (count_place place (count_key (codes "uv") stats), ip ∷ viewers),
                refl,
                refl,
                count_place-other place (count_key (codes "uv") stats)
                    ∙ count_key-uv stats (length viewers % 2 ^ 32) h
                    ∙ ap some wraps
                    ∙ ap (λ n. some (n % 2 ^ 32)) next,
              )
        ])
      ]

  count_peers-Counted :
      (rows : List Bytes) (stats : List (Bytes × ℕ)) (viewers : List Bytes)
      → Counted (stats, viewers)
      → lookup (codes "uv") (count_peers source split rows (stats, viewers)).0
        ≡ some (length (distinct_ips split rows viewers) % 2 ^ 32)
  unfolding count_peers distinct_ips
  count_peers-Counted [] stats viewers h = h
  count_peers-Counted (sv ∷ rows) stats viewers h =
      let (st, run, same, h') = count_peer-Counted sv rows stats viewers h in
      ap (λ st. lookup (codes "uv") (count_peers source split rows st).0) run
      ∙ count_peers-Counted rows st.0 st.1 h'
      ∙ ap (λ ips. some (length ips % 2 ^ 32)) (sym same)

  -- Whatever the rows are and whatever is known of the places: the counter uv is the number of
  -- distinct legal addresses of the rows, as far as a 32-bit word can count them.
  pub stat_viewer_geo-distinct_ips :
      (rows : List Bytes)
      → lookup (codes "uv") (stat_viewer_geo source split rows)
        ≡ some (length (distinct_ips split rows []) % 2 ^ 32)
  unfolding stat_viewer_geo
  stat_viewer_geo-distinct_ips rows =
      count_peers-Counted rows ((codes "uv", 0) ∷ (codes "pv", length rows % 2 ^ 32) ∷ []) []
        (first_uv _)
