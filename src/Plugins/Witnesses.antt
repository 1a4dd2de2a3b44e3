-- ===== src/Plugins/Witnesses.antt =====
-- The theorems on src/plugin/ at small documents.
use lingdong.Prelude.{
  is_among, ◌≡◌, refl, sym, ap, true, List, [], ◌∷◌, Bytes, codes, bytes_eq, starts_with, occurs,
  concat, none, some, Option, Result, ok, fail, thrown, no_fuel, arith,
}
use lingdong.Prelude.Map.{lookup, insert, contains}
use lingdong.Markdown.Document.{Element, code_block, horizontal_rule, image}
use lingdong.Plugins.{
  Tools, is_plantuml, plantuml_run, plantuml_step, plantuml_block, plantuml_picture, plantuml_image,
  stored_svg, svg_name, alt_text, diagram_desc2pic, diagram_lines, hex_digit, hex_bytes, hex_encode,
  each,
}
use lingdong.Plugins.Diagrams.{RunShown, plantuml_run-RunShown}
use lingdong.Plugins.Smms.{
  SmmsUploadHistory, History, Service, add_all, is_remote, local_path, is_local, show_upload,
  show_image, show_local, smms_step, smms_run,
}
use native.Mathlib.Decide.{ℕ_discrete}
use lingdong.Plugins.Smms.Api.{
  HistoryJson, to, Json, Reply, TokenJson, SmmsOpenApi, load_upload_history, cache_upload_history,
  to_all, fetch_api_token, fetch_upload_history, fetch_pages, read_shared,
}
use lingdong.Plugins.Smms.Cached.{or_else, load_upload_history-cache_upload_history}
use lingdong.Plugins.Smms.Pages.{page_reply, fetch_upload_history-paged, fetch_pages-no_fuel}
use lingdong.Plugins.Smms.Links.{Keeps, AllLinked, smms_run-Linked}

abbrev sample_tools : Tools
sample_tools = record {
  joined = concat;
  hash = λ s. codes "7";
  get = λ uri. some (codes "<svg/>");
  can_open = λ name. true;
  mmd2svg = λ s. none;
}

hex_test : hex_encode (codes "a~") ≡ codes "~h617e"
unfolding hex_encode hex_bytes hex_digit
hex_test = refl

abbrev diagram : List Element
diagram = code_block (codes "plantuml") [] (codes "a -> b" ∷ []) ∷ horizontal_rule ∷ []

plantuml_test : plantuml_run sample_tools (codes "s") [] diagram [] ≡ (
  true,
  image (codes "7") (codes "../plantuml-images/7.svg") [] ∷ horizontal_rule ∷ [],
  (codes "7.svg", codes "<svg/>") ∷ [],
)
unfolding plantuml_run each plantuml_step plantuml_block is_plantuml plantuml_picture plantuml_image
    stored_svg svg_name alt_text diagram_desc2pic diagram_lines hex_encode hex_bytes hex_digit
    concat contains insert bytes_eq
plantuml_test = refl

plantuml_run-RunShown_example :
    RunShown sample_tools
      (codes "../plantuml-images/")
      is_plantuml
      diagram
      []
      (plantuml_run sample_tools (codes "s") [] diagram [])
plantuml_run-RunShown_example = plantuml_run-RunShown sample_tools (codes "s") [] diagram []

abbrev uploaded : SmmsUploadHistory
uploaded = record {
  file_name = codes "a.png";
  store_name = [];
  hash = [];
  size = 0;
  created_at = [];
  url = codes "https://i/a.png";
  url4del = [];
}

abbrev sample_service : Service
sample_service = record {
  extension = λ p. codes ".png";
  filename = λ p. codes "a.png";
  upload = λ p. some uploaded;
}

abbrev pictures : List Element
pictures = image [] (codes "../images/a.png") [] ∷ image [] (codes "/images/a.png") [] ∷ []

smms_test :
    smms_run sample_service pictures []
    ≡ (image [] uploaded.url [] ∷ image [] uploaded.url [] ∷ [], (codes "a.png", uploaded) ∷ [])
unfolding smms_run smms_step show_local is_local is_remote is_among local_path show_image
    show_upload lookup insert occurs starts_with bytes_eq
smms_test = refl

smms_run-Linked_example :
    Keeps [] (smms_run sample_service pictures []).1
    × AllLinked sample_service
        (smms_run sample_service pictures []).1
        pictures
        (smms_run sample_service pictures []).0
smms_run-Linked_example = smms_run-Linked sample_service pictures []

-- A JSON library that writes one text only, that of the history which the run leaves.
abbrev left_jsons : List HistoryJson
left_jsons = to uploaded ∷ []

Histories-discrete : Discrete (List HistoryJson)
Histories-discrete = hlevel (ℕ_discrete)

abbrev written : (js : List HistoryJson) → Dec (js ≡ left_jsons) → Result Bytes
written js (yes same) = ok (codes "[h]")
written js (no other) = fail thrown

abbrev sample_json : Json
sample_json = record {
  parse_histories = λ s. ok left_jsons;
  dump_histories = λ js. written js (Histories-discrete js left_jsons);
}

written-read :
    (js : List HistoryJson) (s : Bytes) (d : Dec (js ≡ left_jsons))
    → written js d ≡ ok s
    → ok left_jsons ≡ ok js
written-read js s (yes same) e = ap ok (sym same)
written-read js s (no other) e = cc

left-written : (d : Dec (left_jsons ≡ left_jsons)) → written left_jsons d ≡ ok (codes "[h]")
left-written (yes same) = refl
left-written (no other) = absurd (other refl)

cache_run :
    cache_upload_history sample_json true (smms_run sample_service pictures []).1
    ≡ ok (some (codes "[h]"))
unfolding cache_upload_history to_all
cache_run = rw smms_test (rw (left-written (Histories-discrete left_jsons left_jsons)) refl)

abbrev name_of : Option SmmsUploadHistory → Bytes
name_of none = []
name_of (some h) = h.file_name

sample_service_named :
    (p : Bytes) (h : SmmsUploadHistory)
    → sample_service.upload p ≡ some h
    → h.file_name ≡ sample_service.filename p
sample_service_named p h e = sym (ap name_of e)

no_shared : read_shared sample_json none ≡ ok []
unfolding read_shared
no_shared = refl

load_upload_history-cache_upload_history_example :
    (loaded : History) × (load_upload_history sample_json none (some (codes "[h]")) (fail thrown) []
      ≡ ok loaded)
    × ((name : Bytes)
        → lookup name loaded
          ≡ or_else
              (lookup name (smms_run sample_service pictures []).1)
              (lookup name (add_all [] [])))
load_upload_history-cache_upload_history_example =
    load_upload_history-cache_upload_history sample_json sample_service pictures [] (codes "[h]")
      none [] (fail thrown) (λ js s. written-read js s (Histories-discrete js left_jsons))
      sample_service_named tt no_shared cache_run

-- Two pages of one upload each.
abbrev token_reply : Reply TokenJson
token_reply = record { status_code = 500; text = fail thrown }

abbrev sample_api : SmmsOpenApi
sample_api = record { username = []; password = []; api_token = codes "t" }

sample_token : fetch_api_token token_reply sample_api ≡ ok (codes "t", sample_api)
unfolding fetch_api_token
sample_token = refl

fetch_upload_history-paged_example :
    fetch_upload_history token_reply (λ token n p. page_reply 2 p (uploaded ∷ [])) 2 sample_api
    ≡ ok (uploaded ∷ uploaded ∷ [], sample_api)
fetch_upload_history-paged_example =
    fetch_upload_history-paged token_reply (λ token n p. page_reply 2 p (uploaded ∷ []))
      (λ p. uploaded ∷ []) 2 2 (codes "t") sample_api sample_api sample_token (omega arith)
      (omega arith) (omega arith) (λ n p k l. refl)

fetch_pages-no_fuel_example :
    fetch_pages (λ n p. page_reply 2 1 (uploaded ∷ [])) 1000 0 1 [] ≡ fail no_fuel
fetch_pages-no_fuel_example =
    fetch_pages-no_fuel (λ n p. page_reply 2 1 (uploaded ∷ [])) (uploaded ∷ []) [] 2 1000 0 1
      (omega arith) (omega arith) (omega arith) (λ n p. refl)
