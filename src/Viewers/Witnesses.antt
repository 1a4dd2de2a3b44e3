-- ===== src/Viewers/Witnesses.antt =====
-- The theorems on src/task/viewer_stat.cpp at a few rows.
use lingdong.Prelude.{
  ◌≡◌, ◌%◌, ◌^◌, refl, List, [], ◌∷◌, Bytes, codes, some, none, length, starts_with, occurs, arith,
}
use lingdong.Prelude.Map.{lookup}
use lingdong.Viewers.{
  GeoSource, new_record, no_stats, count_browser, stat_viewer_browser, stat_viewer_geo,
}
use lingdong.Viewers.Counts.{
  counted, distinct_ips, stat_viewer_browser-counted, stat_viewer_geo-distinct_ips,
}

-- What Chrome sends, shortened, and what curl sends.
abbrev agents : List Bytes
agents = codes "Mozilla/5.0 Chrome/139 Safari/537" ∷ codes "curl/8.7" ∷ []

-- The first is counted as Firefox, and the second as Chrome.
agents_test : stat_viewer_browser agents no_stats ≡ record no_stats { chrome = 1; firefox = 1 }
unfolding stat_viewer_browser count_browser occurs starts_with
agents_test = refl

stat_viewer_browser-counted_example : counted (stat_viewer_browser agents no_stats) ≡ length agents
stat_viewer_browser-counted_example = stat_viewer_browser-counted agents (omega arith)

abbrev nowhere : GeoSource
nowhere = record { city_mmdb = λ ip. none; country_mmdb = λ ip. none; dbip = λ ip. new_record }

abbrev peers : List Bytes
peers = codes "1.2.3.4" ∷ codes "1.2.3.4" ∷ codes "" ∷ []

stat_viewer_geo-distinct_ips_example :
    lookup (codes "uv") (stat_viewer_geo nowhere (λ s. (s, [])) peers)
    ≡ some (length (distinct_ips (λ s. (s, [])) peers []) % 2 ^ 32)
stat_viewer_geo-distinct_ips_example = stat_viewer_geo-distinct_ips nowhere (λ s. (s, [])) peers
