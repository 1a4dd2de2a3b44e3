-- ===== src/M3u8/Witnesses.antt =====
-- The theorems on src/task/m3u8_to_mp4.cpp at concrete inputs.
use lingdong.Prelude.{
  ◌≡◌, refl, List, [], ◌∷◌, Bytes, codes, starts_with, some, ok, fail, undefined, thrown, Result,
  none, is_empty, if◌then◌else◌, map, false, ℕ, length, All, arith, true, Bool,
}
use lingdong.M3u8.{
  M3u8, TaskMeta, behind_last, fetch_m3u8, gen_task_seq, gen_tasks, next_segments, step_of, listen,
  Outside, LineResult, rounds, new_lines, handle_line, process_url, process_one, read_line,
  read_lines, with_last_ts, absolute, url_host, new_m3u8, download, part_list, failed_tasks,
}
use lingdong.Prelude.{find, concat}
use lingdong.Prelude.Digits.{digits, print_size}
use lingdong.M3u8.Absolute.{IsAbsolute, fetch_m3u8-IsAbsolute}
use lingdong.M3u8.Whole.{all_segments, Numbered, gen_task_seq-whole}
use lingdong.M3u8.Listen.{last_content, counted, handle_all, listen-whole}

abbrev list_url : Bytes
list_url = codes "http://h.cn/v/a.m3u8"

abbrev list_lines : List Bytes
list_lines =
    codes "#EXTM3U"
    ∷ codes "#EXTINF:4,"
    ∷ codes "0.ts"
    ∷ codes "#EXTINF:4,"
    ∷ codes "/w/1.ts"
    ∷ codes "#EXTINF:4,"
    ∷ codes "https://h.cn/2.ts"
    ∷ codes "#EXT-X-ENDLIST"
    ∷ []

unfoldable reads : Unit {0}
unfolding starts_with behind_last url_host absolute with_last_ts read_line read_lines fetch_m3u8
    next_segments gen_tasks gen_task_seq download part_list failed_tasks process_one find concat
    digits print_size
reads = tt

abbrev list_m3u8 : M3u8
list_m3u8 = record new_m3u8 {
  headers = codes "#EXTM3U" ∷ [];
  segments =
      record { meta = codes "#EXTINF:4,"; ts = codes "http://h.cn/v/0.ts" }
      ∷ record { meta = codes "#EXTINF:4,"; ts = codes "http://h.cn/w/1.ts" }
      ∷ record { meta = codes "#EXTINF:4,"; ts = codes "https://h.cn/2.ts" }
      ∷ [];
}

fetch_test : fetch_m3u8 200 list_lines list_url ≡ ok (some list_m3u8)
unfolding reads
fetch_test = refl

-- With two tasks allowed, three segments are cut into three.
unfoldable all_parts : TaskMeta → Bool
all_parts task = true

unfoldable parts : Bytes
unfolding process_one
parts = elim (process_one all_parts 3 200 list_lines list_url 2) [ ok r ↦ r.1 | fail f ↦ [] ]

parts_test : parts ≡ codes "file 1.mp4\nfile 2.mp4\nfile 3.mp4\n"
unfolding reads parts all_parts
parts_test = refl

-- An answer that is no list: the null pointer is read.
no_list_test : process_one all_parts 3 404 [] list_url 2 ≡ fail undefined
unfolding reads
no_list_test = refl

url_scheme : starts_with (codes "http://") list_url ≡ true
unfolding starts_with
url_scheme = refl

fetch_m3u8-IsAbsolute_example :
    (m : M3u8) × (fetch_m3u8 200 list_lines list_url ≡ ok (some m)) × All IsAbsolute m.segments
fetch_m3u8-IsAbsolute_example = fetch_m3u8-IsAbsolute list_lines list_url (rw url_scheme refl)

gen_task_seq-whole_example :
    (tasks : List TaskMeta) × (gen_task_seq 3 (some list_m3u8) 2 ≡ ok tasks)
    × (all_segments tasks ≡ list_m3u8.segments)
    × Numbered (step_of list_m3u8 2) 0 tasks
gen_task_seq-whole_example =
    gen_task_seq-whole list_m3u8 2 (omega arith) (omega arith) (omega arith)

-- Each URL is answered by the list, and each number is read as 2.
abbrev sample_outside : Outside
sample_outside = record {
  str_split = λ s c. if is_empty s then [] else s ∷ s ∷ s ∷ [];
  stoi = λ s. ok 2;
  has_directory = λ url. ok true;
  get = λ url. (200, list_lines);
  succeeds = all_parts;
  remove_all = λ url. ok tt;
}

abbrev first_lines : List Bytes
first_lines = list_url ∷ []

-- An empty line has not three parts.
abbrev more_lines : List Bytes
more_lines = list_url ∷ [] ∷ list_url ∷ []

unfoldable number_handled : Result (List LineResult × ℕ) → List Bool × ℕ
number_handled (fail f) = ([], 0)
number_handled (ok (results, cnt)) = (map is_done results, cnt)
  where
    is_done : LineResult → Bool
    is_done none = false
    is_done (some r) = true

listen_test :
    number_handled (listen sample_outside first_lines (more_lines ∷ []))
    ≡ (true ∷ false ∷ true ∷ [], 3)
unfolding reads listen rounds new_lines handle_line process_url number_handled all_parts
listen_test = refl

-- A number that cannot be read ends the program.
abbrev bad_number : Outside
bad_number = record sample_outside { stoi = λ s. fail thrown }

bad_number_test : listen bad_number first_lines (more_lines ∷ []) ≡ fail thrown
unfolding reads listen rounds new_lines handle_line process_url
bad_number_test = refl

listen-whole_example :
    listen sample_outside first_lines (more_lines ∷ [])
    ≡ counted
        (handle_all sample_outside (last_content first_lines (more_lines ∷ [])))
        (length (last_content first_lines (more_lines ∷ [])))
listen-whole_example =
    listen-whole sample_outside first_lines (more_lines ∷ [])
      (([] ∷ list_url ∷ [], refl), omega arith)
