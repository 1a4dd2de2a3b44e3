-- ===== src/Plugins/Diagrams.antt =====
-- src/plugin/plantuml.hpp and mermaid.hpp: each diagram that becomes an image has its file.
use lingdong.Prelude.{
  ◌≡◌, refl, ◌⊎◌, inl, inr, Bool, true, false, List, [], ◌∷◌, ◌++◌, Bytes, codes, Option, none,
  some, Bool-cases,
}
use lingdong.Prelude.Map.{contains, contains-insert, contains-inserted}
use lingdong.Markdown.Document.{Element, code_block, image, as_code_block, as_code_block-eq}
use lingdong.Plugins.{
  Tools, Files, Step, goes_on, gives_up, svg_name, diagram_desc2pic, plantuml_image, stored_svg,
  is_plantuml, plantuml_picture, plantuml_step, plantuml_block, mermaid_block, mermaid_image,
  mermaid_picture, is_mermaid, mermaid_step, each, plantuml_run, mermaid_run,
}

abbrev pub Grows : Files → Files → Type 0
Grows files files' = (name : Bytes) → contains name files ≡ true → contains name files' ≡ true

module _ (tools : Tools) (dir : Bytes) (is_diagram : Bytes → Bool) where
  -- An element stays as it is, or it is a code block of a diagram and becomes an image of a file of
  -- the directory that is there.
  abbrev pub Shown : Files → Element → Element → Type 0
  Shown files e e' =
      (e' ≡ e)
      ⊎ ((lang : Bytes) × (attrs : List (Bytes × Bytes)) × (block_lines : List Bytes)
          × (alt : Bytes) × (width : Bytes) × (e ≡ code_block lang attrs block_lines)
          × (is_diagram lang ≡ true)
          × (e' ≡ image alt (dir ++ svg_name tools block_lines) width)
          × (contains (svg_name tools block_lines) files ≡ true))

  abbrev pub AllShown : Files → List Element → List Element → Type 0
  AllShown files [] [] = Unit
  AllShown files (e ∷ es) (e' ∷ es') = Shown files e e' × AllShown files es es'
  AllShown files _ _ = ⊥

  abbrev pub StepShown : Element → Files → Step → Type 0
  StepShown e files (gives_up files') = Grows files files'
  StepShown e files (goes_on e' files') = Grows files files' × Shown files' e e'

  Shown-Grows :
      (files files' : Files) (e e' : Element)
      → Grows files files'
      → Shown files e e'
      → Shown files' e e'
  Shown-Grows files files' e e' more (inl same) = inl same
  Shown-Grows files files' e e' more (inr (lang, attrs, block_lines, alt, width, b, d, i, there)) =
      inr (lang, attrs, block_lines, alt, width, b, d, i, more (svg_name tools block_lines) there)

  AllShown-refl : (files : Files) (es : List Element) → AllShown files es es
  AllShown-refl files [] = tt
  AllShown-refl files (e ∷ es) = (inl refl, AllShown-refl files es)

  abbrev pub RunShown : List Element → Files → Bool × List Element × Files → Type 0
  RunShown es files (done, es', files') = Grows files files' × AllShown files' es es'

  each-go :
      (step : Element → Files → Step) (e : Element) (es : List Element) (files : Files)
      → StepShown e files (step e files)
      → ((files' : Files) → RunShown es files' (each step es files'))
      → RunShown (e ∷ es) files (each step (e ∷ es) files)
  unfolding each
  each-go step e es files now later = go (step e files) now
    where
      go :
          (s : Step)
          → StepShown e files s
          → RunShown (e ∷ es) files (elim s as (λ s. Bool × List Element × Files) [
            | gives_up files' ↦ (false, e ∷ es, files')
            | goes_on e' files' ↦
                let (done, es', files'') = each step es files' in (done, e' ∷ es', files'')
          ])
      go (gives_up files') more = (more, (inl refl, AllShown-refl files' es))
      go (goes_on e' files') (more, shown) =
          let (more', rest) = later files' in
          (
            λ name there. more' name (more name there),
            (Shown-Grows files' (each step es files').2 e e' more' shown, rest),
          )

  each-RunShown :
      (step : Element → Files → Step)
      → ((e : Element) (files : Files) → StepShown e files (step e files))
      → (es : List Element) (files : Files) → RunShown es files (each step es files)
  unfolding each
  each-RunShown step keeps [] files = (λ name there. there, tt)
  each-RunShown step keeps (e ∷ es) files =
      each-go step e es files (keeps e files) (λ files'. each-RunShown step keeps es files')

module _ (tools : Tools) (server header : Bytes) where
  abbrev PlantumlShown : Element → Files → Step → Type 0
  PlantumlShown = StepShown tools (codes "../plantuml-images/") is_plantuml

  plantuml_picture-Shown :
      (picture : Option Bytes) (e : Element) (lang : Bytes) (attrs : List (Bytes × Bytes))
      (block_lines : List Bytes) (files : Files)
      → e ≡ code_block lang attrs block_lines
      → is_plantuml lang ≡ true
      → PlantumlShown e files (plantuml_picture tools picture e attrs block_lines files)
  unfolding plantuml_picture stored_svg plantuml_image
  plantuml_picture-Shown none e lang attrs block_lines files same d = λ name there. there
  plantuml_picture-Shown (some svg) e lang attrs block_lines files same d =
      let name = svg_name tools block_lines in
      elim (Bool-cases (tools.can_open name)) [
        | inr shut ↦ rw shut (λ name there. there, inl refl)
        | inl open_ ↦ rw open_ (
          λ other there. contains-insert name other svg files there,
          inr (lang, attrs, block_lines, _, _, same, d, refl, contains-inserted name svg files),
        )
      ]

  plantuml_block-Shown :
      (e : Element) (cast : Option (Bytes × List (Bytes × Bytes) × List Bytes)) (files : Files)
      → as_code_block e ≡ cast
      → PlantumlShown e files (plantuml_block tools server header e cast files)
  unfolding plantuml_block plantuml_image
  plantuml_block-Shown e none files is = (λ name there. there, inl refl)
  plantuml_block-Shown e (some (lang, attrs, block_lines)) files is =
      let same = as_code_block-eq e is in
      elim (Bool-cases (is_plantuml lang)) [
        | inr other ↦ rw other (λ name there. there, inl refl)
        | inl d ↦ rw d (elim (Bool-cases (contains (svg_name tools block_lines) files)) [
          | inl there ↦
              rw there (λ name h. h, inr (lang, attrs, block_lines, _, _, same, d, refl, there))
          | inr new ↦ rw new (
              plantuml_picture-Shown (diagram_desc2pic tools server header block_lines) e lang attrs
                block_lines files same d)
        ])
      ]

  plantuml_step-Shown :
      (e : Element) (files : Files)
      → PlantumlShown e files (plantuml_step tools server header e files)
  unfolding plantuml_step
  plantuml_step-Shown e files = plantuml_block-Shown e (as_code_block e) files refl

  -- Whether `PlantUML::run` comes to its end or gives up: it removes no file, and each element
  -- stays as it was, or is a PlantUML block and becomes an image of a file that is there.
  pub plantuml_run-RunShown :
      (es : List Element) (files : Files)
      → RunShown tools
          (codes "../plantuml-images/")
          is_plantuml
          es
          files
          (plantuml_run tools server header es files)
  unfolding plantuml_run
  plantuml_run-RunShown es files =
      each-RunShown tools (codes "../plantuml-images/") is_plantuml
        (plantuml_step tools server header) plantuml_step-Shown es files

module _ (tools : Tools) where
  abbrev MermaidShown : Element → Files → Step → Type 0
  MermaidShown = StepShown tools (codes "/mermaid-images/") is_mermaid

  mermaid_picture-Shown :
      (picture : Option Bytes) (e : Element) (lang : Bytes) (attrs : List (Bytes × Bytes))
      (block_lines : List Bytes) (files : Files)
      → e ≡ code_block lang attrs block_lines
      → is_mermaid lang ≡ true
      → MermaidShown e files (mermaid_picture tools picture e attrs block_lines files)
  unfolding mermaid_picture mermaid_image
  mermaid_picture-Shown none e lang attrs block_lines files same d = (λ name there. there, inl refl)
  mermaid_picture-Shown (some svg) e lang attrs block_lines files same d =
      let name = svg_name tools block_lines in
      elim (Bool-cases (tools.can_open (tools.hash (tools.joined block_lines) ++ codes ".mmd"))) [
        | inr shut ↦ rw shut (λ name there. there, inl refl)
        | inl open_ ↦ rw open_ (
          λ other there. contains-insert name other svg files there,
          inr (lang, attrs, block_lines, _, _, same, d, refl, contains-inserted name svg files),
        )
      ]

  mermaid_block-Shown :
      (e : Element) (cast : Option (Bytes × List (Bytes × Bytes) × List Bytes)) (files : Files)
      → as_code_block e ≡ cast
      → MermaidShown e files (mermaid_block tools e cast files)
  unfolding mermaid_block mermaid_image
  mermaid_block-Shown e none files is = (λ name there. there, inl refl)
  mermaid_block-Shown e (some (lang, attrs, block_lines)) files is =
      let same = as_code_block-eq e is in
      elim (Bool-cases (is_mermaid lang)) [
        | inr other ↦ rw other (λ name there. there, inl refl)
        | inl d ↦ rw d (elim (Bool-cases (contains (svg_name tools block_lines) files)) [
          | inl there ↦
              rw there (λ name h. h, inr (lang, attrs, block_lines, _, _, same, d, refl, there))
          | inr new ↦ rw new (
              mermaid_picture-Shown (tools.mmd2svg (tools.joined block_lines)) e lang attrs
                block_lines files same d)
        ])
      ]

  mermaid_step-Shown :
      (e : Element) (files : Files) → MermaidShown e files (mermaid_step tools e files)
  unfolding mermaid_step
  mermaid_step-Shown e files = mermaid_block-Shown e (as_code_block e) files refl

  -- `Mermaid::run` removes no file, and each element stays as it was, or is a Mermaid block and
  -- becomes an image of a file that is there.
  pub mermaid_run-RunShown :
      (es : List Element) (files : Files)
      → RunShown tools (codes "/mermaid-images/") is_mermaid es files (mermaid_run tools es files)
  unfolding mermaid_run
  mermaid_run-RunShown es files =
      each-RunShown tools (codes "/mermaid-images/") is_mermaid (mermaid_step tools)
        mermaid_step-Shown es files
