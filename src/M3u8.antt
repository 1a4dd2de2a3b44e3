-- ===== src/M3u8.antt =====
-- src/task/m3u8_to_mp4.cpp: reading an m3u8 list, and cutting its segments into tasks.
pub mod Absolute
pub mod Whole
pub mod Listen
mod Witnesses
use lingdong.Prelude.{
  first_byte, ℕ, zero, suc, ◌+◌, ◌/◌, ◌%◌, ◌^◌, Bool, true, false, not, ◌&&◌, ◌||◌, List, [], ◌∷◌,
  ◌++◌, Bytes, codes, starts_with, map, Option, none, some, Result, ok, fail, undefined, no_fuel,
  ◌>>=◌, concat, find, take, drop, length, get_elem?, is_empty, ltb, ◌==◌, if◌then◌else◌,
}
use lingdong.Prelude.Digits.{print_size}
use Prim.Native.Nat.{min}

pub record M3u8Segment : Type 0 where
  pub meta : Bytes
  pub ts : Bytes

pub record M3u8 : Type 0 where
  pub headers : List Bytes
  pub segments : List M3u8Segment
  pub end : Bytes

abbrev pub new_m3u8 : M3u8
new_m3u8 = record { headers = []; segments = []; end = codes "#EXT-X-ENDLIST" }

pub record TaskMeta : Type 0 where
  pub id : ℕ
  pub output_file_name : Bytes
  pub status : Bool
  pub task_headers : List Bytes
  pub task_segments : List M3u8Segment
  pub task_end : Bytes

-- `s.find_last_of(c) + 1`, which is 0 where there is no `c`: `npos + 1` wraps around.
unfoldable pub behind_last : ℕ → Bytes → ℕ
behind_last c [] = 0
behind_last c (x ∷ s) =
    let later = behind_last c s in if not (later == 0) then later + 1 else if x == c then 1 else 0

-- `m3u8_url.substr(0, m3u8_url.find('/', 8))`.
unfoldable pub url_host : Bytes → Bytes
url_host url = elim (find b'/' (drop 8 url)) [ none ↦ url | some i ↦ take (i + 8) url ]

abbrev extinf : Bytes
extinf = codes "#EXTINF:"

-- `segments.back().ts = line`.
unfoldable pub with_last_ts : Bytes → List M3u8Segment → Result (List M3u8Segment)
with_last_ts line [] = fail undefined
with_last_ts line (seg ∷ []) = ok (record seg { ts = line } ∷ [])
with_last_ts line (seg ∷ next ∷ segs) = do rest ← with_last_ts line (next ∷ segs); ok (seg ∷ rest)

-- The body of the loop over the lines, with `header_end`.
unfoldable pub read_line : Bytes → Bool × M3u8 → Result (Bool × M3u8)
read_line line (header_end, m) =
    if is_empty line
    then ok (header_end, m)
    else if not header_end && not (starts_with extinf line)
    then ok (header_end, record m { headers = m.headers ++ line ∷ [] })
    else if starts_with extinf line
    then ok (true, record m { segments = m.segments ++ record { meta = line; ts = [] } ∷ [] })
    else if not (starts_with (codes "#") line)
    then (do segs ← with_last_ts line m.segments; ok (true, record m { segments = segs }))
    else ok (true, m)

unfoldable pub read_lines : List Bytes → Bool × M3u8 → Result (Bool × M3u8)
read_lines [] st = ok st
read_lines (line ∷ lines) st = do st' ← read_line line st; read_lines lines st'

abbrev pub has_scheme : Bytes → Bool
has_scheme s = starts_with (codes "http://") s || starts_with (codes "https://") s

-- The body of the loop over the segments.
unfoldable pub absolute : Bytes → M3u8Segment → M3u8Segment
absolute url seg =
    if has_scheme seg.ts
    then seg
    else if first_byte seg.ts == b'/'
    then record seg { ts = url_host url ++ seg.ts }
    else record seg { ts = take (behind_last b'/' url) url ++ seg.ts }

-- `fetch_m3u8`, on the status of the answer and the lines of its text; `none` is a null pointer.
unfoldable pub fetch_m3u8 : ℕ → List Bytes → Bytes → Result (Option M3u8)
fetch_m3u8 status lines url = if not (status == 200) then ok none else (do
  (header_end, m) ← read_lines lines (false, new_m3u8)
  ok (some (record m { segments = map (absolute url) m.segments })))

-- The inner loop of `gen_task_seq`, with what is left of `step`: the segments from `i` on, and the
-- next `i`, a `uint32_t`.
unfoldable pub next_segments : ℕ → List M3u8Segment → ℕ → List M3u8Segment × ℕ
next_segments zero segments i = ([], i)
next_segments (suc left) segments i = elim (get_elem? segments i) [
  | none ↦ ([], i)
  | some seg ↦ let (segs, i') = next_segments left segments ((i + 1) % 2 ^ 32) in (seg ∷ segs, i')
]

abbrev pub new_task : M3u8 → List M3u8Segment → ℕ → TaskMeta
new_task m segs number = record {
  id = number % 2 ^ 32;
  output_file_name = print_size number ++ codes ".mp4";
  status = false;
  task_headers = m.headers;
  task_segments = segs;
  task_end = m.end;
}

-- The outer loop, with the number of tasks that are there.
unfoldable pub gen_tasks : ℕ → M3u8 → ℕ → ℕ → ℕ → Result (List TaskMeta)
gen_tasks zero m step i number = if ltb i (length m.segments) then fail no_fuel else ok []
gen_tasks (suc fuel) m step i number =
    let (segs, i') = next_segments step m.segments i in
    let rest = gen_tasks fuel m step i' (number + 1) in
    if ltb i (length m.segments)
    then (do tasks ← rest; ok (new_task m segs (number + 1) ∷ tasks))
    else ok []

-- `std::min(concurrent, static_cast<uint32_t>(segments.size()))`.
abbrev pub task_limit : M3u8 → ℕ → ℕ
task_limit m concurrent = min concurrent (length m.segments % 2 ^ 32)

abbrev pub step_of : M3u8 → ℕ → ℕ
step_of m concurrent = length m.segments % 2 ^ 32 / task_limit m concurrent

-- `gen_task_seq`, with a bound on the rounds of its loop. A null pointer is read, and nothing is
-- divided by 0.
unfoldable pub gen_task_seq : ℕ → Option M3u8 → ℕ → Result (List TaskMeta)
gen_task_seq fuel none concurrent = fail undefined
gen_task_seq fuel (some m) concurrent =
    let tasks = gen_tasks fuel m (step_of m concurrent) 0 0 in
    if task_limit m concurrent == 0 then fail undefined else tasks

-- `download`, where `succeeds` says whether ffmpeg does. Each thread writes to its own task.
unfoldable pub download : (TaskMeta → Bool) → List TaskMeta → List TaskMeta
download succeeds [] = []
download succeeds (task ∷ tasks) =
    (if succeeds task then record task { status = true } else task) ∷ download succeeds tasks

-- The lines of the list that `combine` writes.
unfoldable pub part_list : List TaskMeta → Bytes
part_list [] = []
part_list (task ∷ tasks) =
    let rest = part_list tasks in
    if task.status
    then concat (codes "file " ∷ task.output_file_name ∷ codes "\n" ∷ rest ∷ [])
    else rest

-- The loop over `failed_task_cnt` in `process_one`.
unfoldable pub failed_tasks : List TaskMeta → ℕ → ℕ
failed_tasks [] cnt = cnt
failed_tasks (task ∷ tasks) cnt =
    failed_tasks tasks ((cnt + (if task.status then 1 else 0)) % 2 ^ 32)

-- `process_one`, once its directory is there: the tasks, the list of the parts, and the count.
unfoldable pub process_one :
    (TaskMeta → Bool) → ℕ → ℕ → List Bytes → Bytes → ℕ → Result (List TaskMeta × Bytes × ℕ)
process_one succeeds fuel status lines url concurrent = do
  target_m3u8 ← fetch_m3u8 status lines url
  task_seq ← gen_task_seq fuel target_m3u8 concurrent
  let done = download succeeds task_seq
  ok (done, part_list done, failed_tasks done 0)

-- What `main` takes from outside: the parts of a text between separators; `std::stoi`, as a
-- `uint32_t`; whether the directory of a URL is there or can be made, where the file system does
-- not throw; the status of the answer to a request and the lines of its text; whether ffmpeg cuts
-- a part; and the removal of the directory.
pub record Outside : Type 0 where
  pub str_split : Bytes → ℕ → List Bytes
  pub stoi : Bytes → Result ℕ
  pub has_directory : Bytes → Result Bool
  pub get : Bytes → ℕ × List Bytes
  pub succeeds : TaskMeta → Bool
  pub remove_all : Bytes → Result (Unit {0})

-- What is done for a line: nothing, or the tasks, the list of the parts, and the count.
abbrev pub LineResult : Type 0
LineResult = Option (List TaskMeta × Bytes × ℕ)

module _ (out : Outside) where
  -- `process_one`. Each segment has a line of the answer, so a round for each line is enough.
  unfoldable pub process_url : Bytes → ℕ → Result LineResult
  process_url url concurrent = do
    there ← out.has_directory url
    if not there then ok none else (do
      let (status, lines) = out.get url
      done ← process_one out.succeeds (length lines) status lines url concurrent
      removed ← out.remove_all url
      ok (some done))

  -- The body of the loops of `main`: a line that has not three parts is reported and skipped.
  unfoldable pub handle_line : Bytes → Result LineResult
  handle_line line = elim (out.str_split line b'\t') [
    | url ∷ number ∷ output ∷ [] ↦ do concurrent ← out.stoi number; process_url url concurrent
    | _ ↦ ok none
  ]

  -- The loops of `main` over the lines of the input file: those behind the first `processed_cnt`
  -- are handled. They give what was done for these, and the new count.
  unfoldable pub new_lines : List Bytes → ℕ → ℕ → Result (List LineResult × ℕ)
  new_lines [] idx processed_cnt = ok ([], processed_cnt)
  new_lines (line ∷ lines) idx processed_cnt = elim (ltb processed_cnt (idx + 1)) [
    | false ↦ new_lines lines (idx + 1) processed_cnt
    | true ↦ do
      done ← handle_line line
      (later, cnt) ← new_lines lines (idx + 1) ((processed_cnt + 1) % 2 ^ 32)
      ok (done ∷ later, cnt)
  ]

  -- The rounds of the second loop of `main`, on what the input file holds each time that it has
  -- changed.
  unfoldable pub rounds : List (List Bytes) → ℕ → Result (List LineResult × ℕ)
  rounds [] processed_cnt = ok ([], processed_cnt)
  rounds (content ∷ contents) processed_cnt = do
    (done, cnt) ← new_lines content 0 processed_cnt
    (later, cnt') ← rounds contents cnt
    ok (done ++ later, cnt')

  -- `main` with an input file, which is read once before the rounds.
  unfoldable pub listen : List Bytes → List (List Bytes) → Result (List LineResult × ℕ)
  listen content contents = do
    (done, cnt) ← new_lines content 0 0
    (later, cnt') ← rounds contents cnt
    ok (done ++ later, cnt')
