-- ===== src/Viewers.antt =====
-- src/task/viewer_stat.cpp, and the query of src/utils/mmdb.hpp that it makes.
pub mod Counts
mod Witnesses
use lingdong.Prelude.{
  first_byte, is_among, ℕ, ◌+◌, ◌%◌, ◌^◌, Bool, true, false, not, ◌&&◌, ◌||◌, List, [], ◌∷◌, ◌++◌,
  Bytes, codes, bytes_eq, starts_with, occurs, Option, none, some, length, is_empty, ltb,
  if◌then◌else◌,
}
use lingdong.Prelude.Map.{lookup, insert}

pub record MmdbRecord : Type 0 where
  pub is_valid : Bool
  pub continent : Bytes
  pub country : Bytes
  pub city : Bytes

abbrev pub new_record : MmdbRecord
new_record = record { is_valid = false; continent = []; country = []; city = [] }

-- `(s.empty() ? "" : " / ") + part`, if there is a part.
unfoldable pub add_part : Bytes → Bytes → Bytes
add_part s part = if is_empty part then s else if is_empty s then part else s ++ codes " / " ++ part

unfoldable pub to_string : MmdbRecord → Bytes
to_string r =
    if not r.is_valid then [] else add_part (add_part (add_part [] r.continent) r.country) r.city

-- The English names that an entry of a database has.
pub record Entry : Type 0 where
  pub city_name : Option Bytes
  pub country_name : Option Bytes
  pub continent_name : Option Bytes

-- What the query takes from libmaxminddb and from the service behind it: the entry that a database
-- finds for an address, and the answer of db-ip.com.
pub record GeoSource : Type 0 where
  pub city_mmdb : Bytes → Option Entry
  pub country_mmdb : Bytes → Option Entry
  pub dbip : Bytes → MmdbRecord

abbrev pub named : Option Bytes → Bytes → Bytes
named none old = old
named (some s) old = s

unfoldable pub with_city : Option Entry → MmdbRecord → MmdbRecord
with_city none r = r
with_city (some e) r = record {
  city = named e.city_name r.city;
  country = named e.country_name r.country;
  continent = named e.continent_name r.continent;
  is_valid = not (is_empty (named e.city_name r.city));
}

unfoldable pub with_country : Option Entry → MmdbRecord → MmdbRecord
with_country none r = r
with_country (some e) r = record r {
  country = named e.country_name r.country;
  continent = named e.continent_name r.continent;
  is_valid = not (is_empty (named e.country_name r.country));
}

-- `query_by_ip`: the names that the first database gave are kept for the second.
unfoldable pub query_by_ip : GeoSource → Bytes → MmdbRecord
query_by_ip source ip =
    let by_city = with_city (source.city_mmdb ip) new_record in
    let by_country = with_country (source.country_mmdb ip) by_city in
    if by_city.is_valid then by_city else if by_country.is_valid then by_country else source.dbip ip

-- The six counters of `stat_viewer_browser`.
pub record BrowserStats : Type 0 where
  pub chrome : ℕ
  pub firefox : ℕ
  pub safari : ℕ
  pub edge : ℕ
  pub curl : ℕ
  pub unknown : ℕ

abbrev pub no_stats : BrowserStats
no_stats = record { chrome = 0; firefox = 0; safari = 0; edge = 0; curl = 0; unknown = 0 }

abbrev pub bump : ℕ → ℕ
bump n = (n + 1) % 2 ^ 32

-- The body of the loop. `if (sv.find("Chrome"))` holds unless "Chrome" stands at the beginning.
unfoldable pub count_browser : Bytes → BrowserStats → BrowserStats
count_browser sv stats =
    if not (occurs (codes "Safari") sv)
    then (if not (starts_with (codes "Chrome") sv)
        then record stats { chrome = bump stats.chrome }
        else if not (occurs (codes "Edg") sv)
        then record stats { edge = bump stats.edge }
        else record stats { safari = bump stats.safari })
    else if not (occurs (codes "Firefox") sv)
    then record stats { firefox = bump stats.firefox }
    else if occurs (codes "curl") sv
    then record stats { curl = bump stats.curl }
    else record stats { unknown = bump stats.unknown }

unfoldable pub stat_viewer_browser : List Bytes → BrowserStats → BrowserStats
stat_viewer_browser [] stats = stats
stat_viewer_browser (sv ∷ rows) stats = stat_viewer_browser rows (count_browser sv stats)

abbrev pub last_byte : Bytes → ℕ
last_byte [] = 0
last_byte (c ∷ []) = c
last_byte (c ∷ d ∷ s) = last_byte (d ∷ s)

-- The test of `ip`, which looks at its bytes only where there are seven of them.
unfoldable pub is_illegal : Bytes → Bool
is_illegal ip =
    ltb (length ip) 7
    || ltb 15 (length ip)
    || ltb (first_byte ip) b'1'
    || ltb b'9' (first_byte ip)
    || ltb (last_byte ip) b'0'
    || ltb b'9' (last_byte ip)

-- `stats[k] = stats[k] + 1`.
unfoldable pub count_key : Bytes → List (Bytes × ℕ) → List (Bytes × ℕ)
count_key k stats = insert k (bump (elim (lookup k stats) [ none ↦ 0 | some n ↦ n ])) stats

unfoldable pub count_name : Bytes → Bytes → List (Bytes × ℕ) → List (Bytes × ℕ)
count_name prefix name stats = if is_empty name then stats else count_key (prefix ++ name) stats

unfoldable pub count_place : MmdbRecord → List (Bytes × ℕ) → List (Bytes × ℕ)
count_place r stats =
    if not r.is_valid
    then stats
    else count_name (codes "c3_") r.city
        (count_name (codes "c2_") r.country (count_name (codes "c1_") r.continent stats))

-- `split` is `absl::StrSplit` at a colon, of which the code takes the first part.
module _ (source : GeoSource) (split : Bytes → Bytes × List Bytes) where
  -- The body of the loop of `stat_viewer_geo`, with `viewers`.
  unfoldable pub count_peer : Bytes → List (Bytes × ℕ) × List Bytes → List (Bytes × ℕ) × List Bytes
  count_peer sv (stats, viewers) =
      let ip = (split sv).0 in
      let place = query_by_ip source ip in
      if is_empty sv
      then (stats, viewers)
      else if is_illegal ip
      then (stats, viewers)
      else if not (is_among ip viewers)
      then (count_place place (count_key (codes "uv") stats), ip ∷ viewers)
      else (count_place place stats, viewers)

  unfoldable pub count_peers :
      List Bytes → List (Bytes × ℕ) × List Bytes → List (Bytes × ℕ) × List Bytes
  count_peers [] st = st
  count_peers (sv ∷ rows) st = count_peers rows (count_peer sv st)

  unfoldable pub stat_viewer_geo : List Bytes → List (Bytes × ℕ)
  stat_viewer_geo rows =
      (count_peers rows ((codes "uv", 0) ∷ (codes "pv", length rows % 2 ^ 32) ∷ [], [])).0
