-- ===== src/Plugins.antt =====
-- src/plugin/plantuml.hpp, mermaid.hpp and smms.hpp: the plugins that put images into a document.
pub mod Hex
pub mod Diagrams
pub mod Smms
mod Witnesses
use lingdong.Prelude.{
  ℕ, ◌+◌, ◌-◌, ◌/◌, ◌%◌, Bool, true, false, not, ◌&&◌, ◌||◌, List, [], ◌∷◌, ◌++◌, Bytes, codes,
  concat, bytes_eq, starts_with, occurs, drop, Option, none, some, ltb, ◌==◌, if◌then◌else◌,
}
use lingdong.Prelude.Map.{lookup, insert, contains}
use lingdong.Markdown.Document.{Element, image, as_code_block}

-- A digit of `std::hex`.
unfoldable pub hex_digit : ℕ → ℕ
hex_digit d = if ltb d 10 then b'0' + d else b'a' + (d - 10)

unfoldable pub hex_bytes : Bytes → Bytes
hex_bytes [] = []
hex_bytes (c ∷ s) = hex_digit (c / 16) ∷ hex_digit (c % 16) ∷ hex_bytes s

unfoldable pub hex_encode : Bytes → Bytes
hex_encode diagram_desc = codes "~h" ++ hex_bytes diagram_desc

unfoldable pub diagram_lines : List Bytes → Bytes
diagram_lines [] = []
diagram_lines (line ∷ lines) = line ++ (codes "\n" ++ diagram_lines lines)

-- What the plugins take from the libraries and the platform: `absl::StrJoin` with line ends, the
-- hash in decimal digits, the text of the answer to a request if its status is 200, whether a file
-- can be opened, and the SVG that mermaid-cli makes of a diagram if it succeeds.
pub record Tools : Type 0 where
  pub joined : List Bytes → Bytes
  pub hash : Bytes → Bytes
  pub get : Bytes → Option Bytes
  pub can_open : Bytes → Bool
  pub mmd2svg : Bytes → Option Bytes

-- The files of the directory of images, by name.
abbrev pub Files : Type 0
Files = List (Bytes × Bytes)

-- What the loop does at an element: it goes on, or the plugin returns false.
pub data Step : Type 0 where
  goes_on : Element → Files → Step
  gives_up : Files → Step

unfoldable pub is_plantuml : Bytes → Bool
is_plantuml lang_name =
    bytes_eq lang_name (codes "plantuml") || bytes_eq lang_name (codes "plantuml-svg")

unfoldable pub is_mermaid : Bytes → Bool
is_mermaid lang_name = bytes_eq lang_name (codes "mermaid")

module _ (tools : Tools) where
  -- `diagram_desc2pic`: the picture, if there is one.
  unfoldable pub diagram_desc2pic : Bytes → Bytes → List Bytes → Option Bytes
  diagram_desc2pic server header lines = tools.get (
      concat (
        codes "http://"
        ∷ server
        ∷ codes "/plantuml/svg/"
        ∷ hex_encode (
            concat (
              codes "@startuml\n"
              ∷ header
              ∷ codes "\n"
              ∷ diagram_lines lines
              ∷ codes "@enduml"
              ∷ []))
        ∷ []))

  unfoldable pub svg_name : List Bytes → Bytes
  svg_name lines = tools.hash (tools.joined lines) ++ codes ".svg"

  -- The loop over the attributes: the last one counts.
  unfoldable pub alt_text : Bytes → List (Bytes × Bytes) → Bytes
  alt_text alt [] = alt
  alt_text alt ((k, v) ∷ attrs) = alt_text (if bytes_eq k (codes "alt") then v else alt) attrs

  unfoldable pub width_text : Bytes → List (Bytes × Bytes) → Bytes
  width_text width [] = width
  width_text width ((k, v) ∷ attrs) =
      width_text (if bytes_eq k (codes "width") then v else width) attrs

  unfoldable pub plantuml_image : List (Bytes × Bytes) → List Bytes → Element
  plantuml_image attrs lines =
      image (alt_text (tools.hash (tools.joined lines)) attrs)
        (codes "../plantuml-images/" ++ svg_name lines) []

  -- A file that is new is written if it can be opened.
  unfoldable pub stored_svg : Element → Element → Bytes → Bytes → Files → Step
  stored_svg old new name svg files =
      if tools.can_open name then goes_on new (insert name svg files) else goes_on old files

  unfoldable pub plantuml_picture :
      Option Bytes → Element → List (Bytes × Bytes) → List Bytes → Files → Step
  plantuml_picture none e attrs lines files = gives_up files
  plantuml_picture (some svg) e attrs lines files =
      stored_svg e (plantuml_image attrs lines) (svg_name lines) svg files

  unfoldable pub plantuml_block :
      Bytes → Bytes → Element → Option (Bytes × List (Bytes × Bytes) × List Bytes) → Files → Step
  plantuml_block server header e none files = goes_on e files
  plantuml_block server header e (some (lang, attrs, lines)) files =
      let picture = diagram_desc2pic server header lines in
      if not (is_plantuml lang)
      then goes_on e files
      else if contains (svg_name lines) files
      then goes_on (plantuml_image attrs lines) files
      else plantuml_picture picture e attrs lines files

  -- The body of the loop of `PlantUML::run`.
  unfoldable pub plantuml_step : Bytes → Bytes → Element → Files → Step
  plantuml_step server header e files = plantuml_block server header e (as_code_block e) files

  unfoldable pub mermaid_image : List (Bytes × Bytes) → List Bytes → Element
  mermaid_image attrs lines =
      image (alt_text (tools.hash (tools.joined lines)) attrs)
        (codes "/mermaid-images/" ++ svg_name lines) (width_text (codes "100%") attrs)

  -- The picture of a diagram is new: the diagram is written to a file, from which mermaid-cli makes
  -- the SVG. Where either fails, the block stays.
  unfoldable pub mermaid_picture :
      Option Bytes → Element → List (Bytes × Bytes) → List Bytes → Files → Step
  mermaid_picture none e attrs lines files = goes_on e files
  mermaid_picture (some svg) e attrs lines files =
      if tools.can_open (tools.hash (tools.joined lines) ++ codes ".mmd")
      then goes_on (mermaid_image attrs lines) (insert (svg_name lines) svg files)
      else goes_on e files

  unfoldable pub mermaid_block :
      Element → Option (Bytes × List (Bytes × Bytes) × List Bytes) → Files → Step
  mermaid_block e none files = goes_on e files
  mermaid_block e (some (lang, attrs, lines)) files =
      let picture = tools.mmd2svg (tools.joined lines) in
      if not (is_mermaid lang)
      then goes_on e files
      else if contains (svg_name lines) files
      then goes_on (mermaid_image attrs lines) files
      else mermaid_picture picture e attrs lines files

  -- The body of the loop of `Mermaid::run`.
  unfoldable pub mermaid_step : Element → Files → Step
  mermaid_step e files = mermaid_block e (as_code_block e) files

-- The loop over the elements: whether it came to its end, the elements, and the files.
unfoldable pub each : (Element → Files → Step) → List Element → Files → Bool × List Element × Files
each step [] files = (true, [], files)
each step (e ∷ es) files = elim (step e files) [
  | gives_up files' ↦ (false, e ∷ es, files')
  | goes_on e' files' ↦ let (done, es', files'') = each step es files' in (done, e' ∷ es', files'')
]

-- `PlantUML::run` and `Mermaid::run`, behind their tests.
unfoldable pub plantuml_run :
    Tools → Bytes → Bytes → List Element → Files → Bool × List Element × Files
plantuml_run tools server header es files = each (plantuml_step tools server header) es files

unfoldable pub mermaid_run : Tools → List Element → Files → Bool × List Element × Files
mermaid_run tools es files = each (mermaid_step tools) es files
