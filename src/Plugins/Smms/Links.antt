-- ===== src/Plugins/Smms/Links.antt =====
-- src/plugin/smms.hpp: what `Smms::run` does to the elements and to the history.
use lingdong.Prelude.{
  ◌≡◌, ◌≢◌, refl, ◌⊎◌, ◌∙◌, inl, inr, true, List, [], ◌∷◌, Bytes, bytes_eq_iff, Option, none, some,
  Bool-cases, Option-cases,
}
use lingdong.Prelude.Map.{lookup, insert, lookup-insert, lookup-insert_ne}
use lingdong.Markdown.Document.{Element, image, as_image, as_image-eq}
use lingdong.Plugins.Smms.{
  SmmsUploadHistory, History, Service, is_local, img_file_name, local_path, show_upload, show_image,
  show_local, smms_step, smms_run,
}

-- What was uploaded once stays as it is.
abbrev pub Keeps : History → History → Type 0
Keeps history history' =
    (name : Bytes) (h : SmmsUploadHistory)
    → lookup name history ≡ some h
    → lookup name history' ≡ some h

module _ (service : Service) where
  -- An element stays as it is, or it is a local image and shows the upload of its file name.
  abbrev pub Linked : History → Element → Element → Type 0
  Linked history e e' =
      (e' ≡ e)
      ⊎ ((alt : Bytes) × (uri : Bytes) × (width : Bytes) × (h : SmmsUploadHistory) × (e
            ≡ image alt uri width)
          × (is_local service uri ≡ true)
          × (lookup (img_file_name service uri) history ≡ some h)
          × (e' ≡ image alt h.url width))

  abbrev pub AllLinked : History → List Element → List Element → Type 0
  AllLinked history [] [] = Unit
  AllLinked history (e ∷ es) (e' ∷ es') = Linked history e e' × AllLinked history es es'
  AllLinked history _ _ = ⊥

  abbrev StepLinked : Element → History → Element × History → Type 0
  StepLinked e history (e', history') = Keeps history history' × Linked history' e e'

  Linked-Keeps :
      (history history' : History) (e e' : Element)
      → Keeps history history'
      → Linked history e e'
      → Linked history' e e'
  Linked-Keeps history history' e e' keeps (inl same) = inl same
  Linked-Keeps history history' e e' keeps (inr (alt, uri, width, h, i, l, there, i')) =
      inr (alt, uri, width, h, i, l, keeps (img_file_name service uri) h there, i')

  insert-Keeps :
      (name : Bytes) (h : SmmsUploadHistory) (history : History)
      → lookup name history ≡ none
      → Keeps history (insert name h history)
  insert-Keeps name h history missing other g there =
      let ne : name ≢ other = λ same. cc (missing, there, same) in
      lookup-insert_ne name other h history ne ∙ there

  lookup-inserted :
      (name : Bytes) (h : SmmsUploadHistory) (history : History)
      → lookup name (insert name h history) ≡ some h
  lookup-inserted name h history =
      lookup-insert name name h history ∙ rw ((bytes_eq_iff name name).1 refl) refl

  show_upload-Linked :
      (upload : Option SmmsUploadHistory) (e : Element) (alt uri width : Bytes) (history : History)
      → e ≡ image alt uri width
      → is_local service uri ≡ true
      → lookup (img_file_name service uri) history ≡ none
      → StepLinked e history (show_upload service upload e (alt, uri, width) history)
  unfolding show_upload
  show_upload-Linked none e alt uri width history same l missing = (λ name h there. there, inl refl)
  show_upload-Linked (some h) e alt uri width history same l missing = (
    insert-Keeps (img_file_name service uri) h history missing,
    inr (alt, uri, width, h, same, l, lookup-inserted (img_file_name service uri) h history, refl),
  )

  show_local-Linked :
      (e : Element) (cast : Option (Bytes × Bytes × Bytes)) (history : History)
      → as_image e ≡ cast
      → StepLinked e history (show_local service e cast history)
  unfolding show_local show_image
  show_local-Linked e none history is = (λ name h there. there, inl refl)
  show_local-Linked e (some (alt, uri, width)) history is =
      let same = as_image-eq e is in
      elim (Bool-cases (is_local service uri)) [
        | inr passed ↦ rw passed (λ name h there. there, inl refl)
        | inl l ↦ rw l (elim (Option-cases (lookup (img_file_name service uri) history)) [
          | inl missing ↦ rw missing (
              show_upload-Linked (service.upload (local_path uri)) e alt uri width history same l
                missing)
          | inr (h, there) ↦
              rw there (λ name h k. k, inr (alt, uri, width, h, same, l, there, refl))
        ])
      ]

  smms_step-Linked :
      (e : Element) (history : History) → StepLinked e history (smms_step service e history)
  unfolding smms_step
  smms_step-Linked e history = show_local-Linked e (as_image e) history refl

  -- `Smms::run` keeps what the history has of each file name, and each element stays as it was, or
  -- is a local image of a supported type and shows the URL that the history now has of its name.
  pub smms_run-Linked :
      (es : List Element) (history : History)
      → Keeps history (smms_run service es history).1
        × AllLinked (smms_run service es history).1 es (smms_run service es history).0
  unfolding smms_run
  smms_run-Linked [] history = (λ name h there. there, tt)
  smms_run-Linked (e ∷ es) history =
      let (keeps, linked) = smms_step-Linked e history in
      let (e', history') = smms_step service e history in
      let (keeps', rest) = smms_run-Linked es history' in
      (
        λ name h there. keeps' name h (keeps name h there),
        (Linked-Keeps history' (smms_run service es history').1 e e' keeps' linked, rest),
      )
