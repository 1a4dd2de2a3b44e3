-- ===== src/Plugins/Smms.antt =====
-- src/plugin/smms.hpp: local images are uploaded, and the document shows the uploaded ones.
pub mod Links
pub mod Api
pub mod Cached
pub mod Pages
use lingdong.Prelude.{
  first_byte, is_among, ℕ, Bool, true, false, not, ◌&&◌, ◌||◌, List, [], ◌∷◌, ◌++◌, Bytes, codes,
  bytes_eq, starts_with, occurs, drop, Option, none, some, ◌==◌, if◌then◌else◌,
}
use lingdong.Prelude.Map.{lookup, insert}
use lingdong.Markdown.Document.{Element, image, as_image}

pub record SmmsUploadHistory : Type 0 where
  pub file_name : Bytes
  pub store_name : Bytes
  pub hash : Bytes
  pub size : ℕ
  pub created_at : Bytes
  pub url : Bytes
  pub url4del : Bytes

-- `upload_history_`, by file name.
abbrev pub History : Type 0
History = List (Bytes × SmmsUploadHistory)

-- The parts of a path, and what the service makes of an image, if the upload succeeds.
pub record Service : Type 0 where
  pub extension : Bytes → Bytes
  pub filename : Bytes → Bytes
  pub upload : Bytes → Option SmmsUploadHistory

abbrev pub smms_supported_exts : List Bytes
smms_supported_exts =
    codes ".jpg" ∷ codes ".jpeg" ∷ codes ".png" ∷ codes ".webp" ∷ codes ".gif" ∷ codes ".bmp" ∷ []

unfoldable pub is_remote : Bytes → Bool
is_remote uri = occurs (codes "https://") uri || occurs (codes "http://") uri

-- `img_path`.
unfoldable pub local_path : Bytes → Bytes
local_path uri =
    if starts_with (codes "../") uri
    then drop 1 uri
    else if first_byte uri == b'/'
    then codes "." ++ uri
    else uri

module _ (service : Service) where
  -- The images that the loop does not pass over.
  unfoldable pub is_local : Bytes → Bool
  is_local uri =
      not (is_remote uri) && is_among (service.extension (local_path uri)) smms_supported_exts

  abbrev pub img_file_name : Bytes → Bytes
  img_file_name uri = service.filename (local_path uri)

  unfoldable pub show_upload :
      Option SmmsUploadHistory → Element → Bytes × Bytes × Bytes → History → Element × History
  show_upload none e (alt, uri, width) history = (e, history)
  show_upload (some h) e (alt, uri, width) history =
      (image alt h.url width, insert (img_file_name uri) h history)

  unfoldable pub show_image :
      Option SmmsUploadHistory → Element → Bytes × Bytes × Bytes → History → Element × History
  show_image none e (alt, uri, width) history =
      show_upload (service.upload (local_path uri)) e (alt, uri, width) history
  show_image (some h) e (alt, uri, width) history = (image alt h.url width, history)

  unfoldable pub show_local : Element → Option (Bytes × Bytes × Bytes) → History → Element × History
  show_local e none history = (e, history)
  show_local e (some (alt, uri, width)) history =
      if is_local uri
      then show_image (lookup (img_file_name uri) history) e (alt, uri, width) history
      else (e, history)

  -- The body of the loop of `Smms::run`.
  unfoldable pub smms_step : Element → History → Element × History
  smms_step e history = show_local e (as_image e) history

  -- `Smms::run`, once the plugin is initialised.
  unfoldable pub smms_run : List Element → History → List Element × History
  smms_run [] history = ([], history)
  smms_run (e ∷ es) history =
      let (e', history') = smms_step e history in
      let (es', history'') = smms_run es history' in (e' ∷ es', history'')

unfoldable pub add_all : List SmmsUploadHistory → History → History
add_all [] history = history
add_all (v ∷ vec) history = add_all vec (insert v.file_name v history)
