-- ===== src/Plugins/Smms/Cached.antt =====
-- src/plugin/smms.hpp: what is written to the file of the upload history is read again.
use lingdong.Prelude.{
  ◌≡◌, refl, sym, ap, ◌∙◌, inl, inr, Bool, true, false, List, [], ◌∷◌, ◌++◌, map, Bytes, bytes_eq,
  bytes_eq_iff, Option, none, some, Result, ok, bind-eq-ok, Bool-cases, Option-cases, if◌then◌else◌,
  arith,
}
use lingdong.Prelude.Map.{lookup, insert, lookup-insert, lookup-insert_ne}
use lingdong.Markdown.Document.{Element, as_image}
use lingdong.Plugins.Smms.{
  SmmsUploadHistory, History, Service, is_local, img_file_name, local_path, show_upload, show_image,
  show_local, smms_step, smms_run, add_all,
}
use lingdong.Plugins.Smms.Api.{
  HistoryJson, from, to, new_history, from_all, Json, read_histories, read_shared, read_cached,
  load_upload_history, to_all, cache_upload_history,
}

pub from-to : (h base : SmmsUploadHistory) → from (to h) base ≡ ok h
unfolding from to
from-to h base = refl

pub from_all-map : (hs : List SmmsUploadHistory) → from_all (map to hs) ≡ ok hs
unfolding from_all
from_all-map [] = refl
from_all-map (h ∷ hs) = rw (from-to h new_history, from_all-map hs) refl

-- Each entry stands under its file name, and no name is there twice.
abbrev pub IsKeyed : History → Type 0
IsKeyed [] = Unit
IsKeyed ((name, h) ∷ history) =
    (h.file_name ≡ name) × (lookup name history ≡ none) × IsKeyed history

pub insert-IsKeyed :
    (name : Bytes) (h : SmmsUploadHistory) (history : History)
    → h.file_name ≡ name
    → IsKeyed history
    → IsKeyed (insert name h history)
unfolding lookup insert
insert-IsKeyed name h [] named k = (named, refl, tt)
insert-IsKeyed name h ((other, g) ∷ history) named (named', fresh, k) =
    let here = bytes_eq_iff other name in
    elim (Bool-cases (bytes_eq other name)) [
      | inl same ↦ rw same (named ∙ sym (here.0 same), fresh, k)
      | inr differs ↦ rw differs (
        named',
        lookup-insert_ne name other h history (λ e. cc (here.1 (sym e), differs)) ∙ fresh,
        insert-IsKeyed name h history named k,
      )
    ]

pub add_all-IsKeyed :
    (vec : List SmmsUploadHistory) (history : History)
    → IsKeyed history
    → IsKeyed (add_all vec history)
unfolding add_all
add_all-IsKeyed [] history k = k
add_all-IsKeyed (h ∷ vec) history k =
    add_all-IsKeyed vec (insert h.file_name h history) (insert-IsKeyed h.file_name h history refl k)

module _ (service : Service)
    (named : (p : Bytes) (h : SmmsUploadHistory)
      → service.upload p ≡ some h
      → h.file_name ≡ service.filename p) where
  show_upload-IsKeyed :
      (e : Element) (alt uri width : Bytes) (history : History)
      → IsKeyed history
      → IsKeyed
          (show_upload service (service.upload (local_path uri)) e (alt, uri, width) history).1
  unfolding show_upload
  show_upload-IsKeyed e alt uri width history k =
      elim (Option-cases (service.upload (local_path uri))) [
        | inl refused ↦ rw refused k
        | inr (h, taken) ↦ rw taken (
            insert-IsKeyed (img_file_name service uri) h history (named (local_path uri) h taken) k)
      ]

  show_local-IsKeyed :
      (e : Element) (cast : Option (Bytes × Bytes × Bytes)) (history : History)
      → IsKeyed history
      → IsKeyed (show_local service e cast history).1
  unfolding show_local show_image
  show_local-IsKeyed e none history k = k
  show_local-IsKeyed e (some (alt, uri, width)) history k =
      elim (Bool-cases (is_local service uri)) [
        | inr passed ↦ rw passed k
        | inl l ↦ rw l (elim (Option-cases (lookup (img_file_name service uri) history)) [
          | inl missing ↦ rw missing (show_upload-IsKeyed e alt uri width history k)
          | inr (h, there) ↦ rw there k
        ])
      ]

  smms_run-IsKeyed :
      (es : List Element) (history : History)
      → IsKeyed history
      → IsKeyed (smms_run service es history).1
  unfolding smms_run smms_step
  smms_run-IsKeyed [] history k = k
  smms_run-IsKeyed (e ∷ es) history k =
      smms_run-IsKeyed es (smms_step service e history).1
        (show_local-IsKeyed e (as_image e) history k)

abbrev entries : History → List SmmsUploadHistory
entries [] = []
entries ((name, h) ∷ history) = h ∷ entries history

to_all-map : (history : History) → to_all history ≡ map to (entries history)
unfolding to_all
to_all-map [] = refl
to_all-map ((name, h) ∷ history) = ap (◌∷◌ (to h)) (to_all-map history)

add_all-append :
    (vec vec' : List SmmsUploadHistory) (history : History)
    → add_all (vec ++ vec') history ≡ add_all vec' (add_all vec history)
unfolding add_all
add_all-append [] vec' history = refl
add_all-append (h ∷ vec) vec' history = add_all-append vec vec' (insert h.file_name h history)

abbrev pub or_else : Option SmmsUploadHistory → Option SmmsUploadHistory → Option SmmsUploadHistory
or_else (some h) old = some h
or_else none old = old

lookup-add_all :
    (name : Bytes) (history old : History)
    → IsKeyed history
    → lookup name (add_all (entries history) old) ≡ or_else (lookup name history) (lookup name old)
unfolding add_all lookup
lookup-add_all name [] old k = refl
lookup-add_all name ((other, h) ∷ history) old (named, fresh, k) =
    lookup-add_all name history (insert h.file_name h old) k
    ∙ ap (λ n. or_else (lookup name history) (lookup name (insert n h old))) named
    ∙ rw (lookup-insert other name h old) (go (bytes_eq other name) refl)
  where
    go :
        (same : Bool)
        → bytes_eq other name ≡ same
        → or_else (lookup name history) (if same then some h else lookup name old)
          ≡ or_else (if same then some h else lookup name history) (lookup name old)
    go true e =
        let missing : lookup name history ≡ none =
          ap (λ n. lookup n history) (sym ((bytes_eq_iff other name).0 e)) ∙ fresh in
        rw missing refl
    go false e = refl

module _ (json : Json) where
  read_histories-dump :
      (history : History) (text : Bytes)
      → json.parse_histories text ≡ ok (to_all history)
      → read_histories json text ≡ ok (entries history)
  unfolding read_histories
  read_histories-dump history text parsed =
      rw (parsed, to_all-map history) (from_all-map (entries history))

  -- Whatever a run does to a history whose entries stand under their own file names: where the text
  -- of the history is then written to the cache file, a later load succeeds, asks the service for
  -- nothing, and finds under each file name what the run left there, or else what the shared file
  -- has. The service gives each upload the name of its file, the texts that the JSON library writes
  -- are read again, and the shared file, if there is one, can be read.
  pub load_upload_history-cache_upload_history :
      (service : Service) (es : List Element) (history : History) (text : Bytes)
      (shared : Option Bytes) (shared_vec : List SmmsUploadHistory)
      (fetched : Result (List SmmsUploadHistory))
      → ((js : List HistoryJson) (s : Bytes)
          → json.dump_histories js ≡ ok s
          → json.parse_histories s ≡ ok js)
      → ((p : Bytes) (h : SmmsUploadHistory)
          → service.upload p ≡ some h
          → h.file_name ≡ service.filename p)
      → IsKeyed history
      → read_shared json shared ≡ ok shared_vec
      → cache_upload_history json true (smms_run service es history).1 ≡ ok (some text)
      → (loaded : History) × (load_upload_history json shared (some text) fetched [] ≡ ok loaded)
        × ((name : Bytes)
            → lookup name loaded
              ≡ or_else
                  (lookup name (smms_run service es history).1)
                  (lookup name (add_all shared_vec [])))
  unfolding cache_upload_history load_upload_history read_cached
  load_upload_history-cache_upload_history service es history text shared shared_vec fetched again
        named k readable written =
      let left = (smms_run service es history).1 in
      let (s, dumped, e) = bind-eq-ok (json.dump_histories (to_all left)) _ written in
      let same : s ≡ text = ground (arith, e) in
      let parsed : json.parse_histories text ≡ ok (to_all left) =
        again (to_all left) text (dumped ∙ ap ok same) in
      let cached = read_histories-dump left text parsed in
      let kept = smms_run-IsKeyed service named es history k in
      (
        add_all (shared_vec ++ entries left) [],
        rw (readable, cached) refl,
        λ name.
            ap (lookup name) (add_all-append shared_vec (entries left) [])
            ∙ lookup-add_all name left (add_all shared_vec []) kept,
      )
