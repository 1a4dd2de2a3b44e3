-- ===== src/HackerNews/Index/First.antt =====
-- src/storage/hn_hnsw.hpp: a loaded index finds for each id the story of the first version with it.
use lingdong.Prelude.{
  ℕ, zero, suc, ◌+◌, ◌%◌, ◌^◌, ◌≤◌, ◌≡◌, refl, sym, ap, ◌∙◌, Bool, true, false, List, [], ◌∷◌, ◌++◌,
  Option, none, some, Result, ok, fail, bind-ok, bind-eq-ok, length, ◌==◌, if◌then◌else◌, All,
  arith,
}
use lingdong.HackerNews.{HackerNewItem, new_item, ItemJson, from_json}
use lingdong.HackerNews.Index.{
  HnEmbMeta, new_meta, Version, load_meta, ForwardIndex, lookup_id, insert_id, insert_ids,
  parse_items, wait_loaded, load_stories, load_fwd, HnIndex, new_index, load_index,
}

abbrev pub first_of : Option HackerNewItem → Option HackerNewItem → Option HackerNewItem
first_of (some item) other = some item
first_of none other = other

first_of_assoc :
    (a b c : Option HackerNewItem) → first_of (first_of a b) c ≡ first_of a (first_of b c)
first_of_assoc none b c = refl
first_of_assoc (some item) b c = refl

first_of-none : (a : Option HackerNewItem) → a ≡ first_of a none
first_of-none none = refl
first_of-none (some item) = refl

pub lookup_id-insert_id :
    (k id : ℕ) (item : HackerNewItem) (fwd : ForwardIndex)
    → lookup_id k (insert_id id item fwd)
      ≡ first_of (lookup_id k fwd) (if id == k then some item else none)
unfolding lookup_id insert_id
lookup_id-insert_id k id item [] = ground arith
lookup_id-insert_id k id item ((other, old) ∷ fwd) =
    ground (arith, lookup_id-insert_id k id item fwd)

pub lookup_id-cons :
    (k id : ℕ) (item : HackerNewItem) (fwd : ForwardIndex)
    → lookup_id k ((id, item) ∷ fwd)
      ≡ first_of (if id == k then some item else none) (lookup_id k fwd)
unfolding lookup_id
lookup_id-cons k id item fwd = ground arith

lookup_id-insert_ids :
    (k : ℕ) (entries fwd : ForwardIndex)
    → lookup_id k (insert_ids entries fwd) ≡ first_of (lookup_id k fwd) (lookup_id k entries)
unfolding insert_ids lookup_id
lookup_id-insert_ids k [] fwd = first_of-none (lookup_id k fwd)
lookup_id-insert_ids k ((id, item) ∷ entries) fwd =
    lookup_id-insert_ids k entries (insert_id id item fwd)
    ∙ rw (lookup_id-insert_id k id item fwd, lookup_id-cons k id item entries)
        (first_of_assoc (lookup_id k fwd) _ _)

-- No two entries have one id.
abbrev pub IsDistinct : ForwardIndex → Type 0
IsDistinct [] = Unit
IsDistinct ((id, item) ∷ entries) = (lookup_id id entries ≡ none) × IsDistinct entries

length-insert_id :
    (id : ℕ) (item : HackerNewItem) (fwd : ForwardIndex)
    → lookup_id id fwd ≡ none
    → length (insert_id id item fwd) ≡ suc (length fwd)
unfolding lookup_id insert_id
length-insert_id id item [] e = refl
length-insert_id id item ((other, old) ∷ fwd) e = ground (arith, length-insert_id id item fwd)

-- None of the entries has its id in the index.
abbrev AllNew : ForwardIndex → ForwardIndex → Type 0
AllNew entries fwd = All (λ e. lookup_id e.0 fwd ≡ none) entries

AllNew-insert_id :
    (id : ℕ) (item : HackerNewItem) (entries fwd : ForwardIndex)
    → lookup_id id entries ≡ none
    → AllNew entries fwd
    → AllNew entries (insert_id id item fwd)
unfolding lookup_id
AllNew-insert_id id item [] fwd e new = tt
AllNew-insert_id id item ((other, old) ∷ entries) fwd e (fresh, new) = (
  ground (arith, lookup_id-insert_id other id item fwd),
  AllNew-insert_id id item entries fwd (ground (arith, e)) new,
)

length-insert_ids :
    (entries fwd : ForwardIndex)
    → IsDistinct entries
    → AllNew entries fwd
    → length (insert_ids entries fwd) ≡ length fwd + length entries
unfolding insert_ids
length-insert_ids [] fwd distinct new = omega arith
length-insert_ids ((id, item) ∷ entries) fwd (alone, distinct) (fresh, new) = omega (
  arith,
  length-insert_ids entries (insert_id id item fwd) distinct
      (AllNew-insert_id id item entries fwd alone new),
  length-insert_id id item fwd fresh,
)

AllNew-nil : (entries : ForwardIndex) → AllNew entries []
unfolding lookup_id
AllNew-nil [] = tt
AllNew-nil (e ∷ entries) = (refl, AllNew-nil entries)

pub length-parse_items :
    (story_lines : List (Result ItemJson)) {entries : ForwardIndex}
    → parse_items story_lines ≡ ok entries
    → length entries ≡ length story_lines
unfolding parse_items
length-parse_items [] e = ground (arith, e)
length-parse_items (line ∷ story_lines) {entries} e =
    let (j, there, e1) = bind-eq-ok line _ e in
    let (item, read, e2) = bind-eq-ok (from_json j new_item) _ e1 in
    let (rest, others, e3) = bind-eq-ok (parse_items story_lines) _ e2 in
    let made : (item.id, item) ∷ rest ≡ entries = ground (arith, e3) in
    ap length (sym made) ∙ ap suc (length-parse_items story_lines others)

wait_loaded-full :
    (fuel size line_cnt : ℕ) → line_cnt ≤ size → wait_loaded fuel size line_cnt ≡ ok tt
unfolding wait_loaded
wait_loaded-full zero size line_cnt h = ground arith
wait_loaded-full (suc fuel) size line_cnt h = ground arith

lookup_id-twice :
    (k : ℕ) (entries fwd : ForwardIndex)
    → lookup_id k (insert_ids (insert_ids entries []) fwd)
      ≡ first_of (lookup_id k fwd) (lookup_id k entries)
unfolding lookup_id
lookup_id-twice k entries fwd =
    lookup_id-insert_ids k (insert_ids entries []) fwd
    ∙ ap (first_of (lookup_id k fwd)) (lookup_id-insert_ids k entries [])

abbrev pub ok_or {ℓ} : {A : Type ℓ} → A → Result A → A
ok_or other (ok a) = a
ok_or other (fail e) = other

-- The entries that are made of the lines of a file, if it can be opened.
abbrev pub entries_of : Option (List (Result ItemJson)) → ForwardIndex
entries_of none = []
entries_of (some story_lines) = ok_or [] (parse_items story_lines)

-- Each line of the file is parsed, and no two have one id.
abbrev pub IsLoadable : Option (List (Result ItemJson)) → Type 0
IsLoadable none = Unit
IsLoadable (some story_lines) =
    (parse_items story_lines ≡ ok (entries_of (some story_lines)))
    × IsDistinct (entries_of (some story_lines))

-- The entries of all versions, one version after the other.
abbrev pub stories : List Version → ForwardIndex
stories [] = []
stories (v ∷ versions) = entries_of v.story_file ++ stories versions

lookup_id-append :
    (k : ℕ) (entries rest : ForwardIndex)
    → lookup_id k (entries ++ rest) ≡ first_of (lookup_id k entries) (lookup_id k rest)
unfolding lookup_id
lookup_id-append k [] rest = refl
lookup_id-append k ((id, item) ∷ entries) rest =
    lookup_id-cons k id item (entries ++ rest)
    ∙ rw (lookup_id-append k entries rest, lookup_id-cons k id item entries)
        (sym (first_of_assoc _ (lookup_id k entries) (lookup_id k rest)))

-- Each id is found where it was, or else in the entries.
abbrev pub IsMerged : ForwardIndex → ForwardIndex → ForwardIndex → Type 0
IsMerged fwd entries fwd' =
    (k : ℕ) → lookup_id k fwd' ≡ first_of (lookup_id k fwd) (lookup_id k entries)

load_stories-IsMerged :
    (fuel : ℕ) (story_file : Option (List (Result ItemJson))) (fwd : ForwardIndex)
    → IsLoadable story_file
    → (fwd' : ForwardIndex) × ((load_stories fuel story_file fwd ≡ ok fwd')
        × IsMerged fwd (entries_of story_file) fwd')
unfolding load_stories lookup_id
load_stories-IsMerged fuel none fwd h = (fwd, (refl, λ k. first_of-none (lookup_id k fwd)))
load_stories-IsMerged fuel (some story_lines) fwd (parsed, distinct) =
    let entries = entries_of (some story_lines) in
    let counted = length-insert_ids entries [] distinct (AllNew-nil entries) in
    let all = length-parse_items story_lines parsed in
    let full =
      wait_loaded-full fuel (length (insert_ids entries [])) (length story_lines % 2 ^ 32)
        (omega (arith, counted, all)) in
    (
      insert_ids (insert_ids entries []) fwd,
      (bind-ok _ parsed ∙ bind-ok _ full, λ k. lookup_id-twice k entries fwd),
    )

load_fwd-IsMerged :
    (fuel : ℕ) (versions : List Version) (fwd : ForwardIndex)
    → All (λ v. IsLoadable v.story_file) versions
    → (fwd' : ForwardIndex) × ((load_fwd fuel versions fwd ≡ ok fwd')
        × IsMerged fwd (stories versions) fwd')
unfolding load_fwd lookup_id
load_fwd-IsMerged fuel [] fwd all = (fwd, (refl, λ k. first_of-none (lookup_id k fwd)))
load_fwd-IsMerged fuel (v ∷ versions) fwd (loadable, all) =
    let (fwd1, (first, merged1)) = load_stories-IsMerged fuel v.story_file fwd loadable in
    let (fwd', (others, merged)) = load_fwd-IsMerged fuel versions fwd1 all in
    (
      fwd',
      (
        bind-ok _ first ∙ others,
        λ k.
            merged k
            ∙ rw (merged1 k, lookup_id-append k (entries_of v.story_file) (stories versions))
                (first_of_assoc (lookup_id k fwd) (lookup_id k (entries_of v.story_file)) _),
      ),
    )

-- Where the metadata of the versions is read, and each line of a story file that can be opened is
-- parsed, no two lines of one file with one id, the load of a new index answers whether the file of
-- the hnswlib index is there, however long the waits are; with that file, each id is then found at
-- the story of the first version that has it, and of no version if none has it, and another load
-- answers false and changes nothing.
pub load_index-IsMerged :
    (fuel : ℕ) (versions : List Version) (hnsw_there : Bool) (meta : HnEmbMeta)
    → load_meta versions new_meta ≡ ok meta
    → All (λ v. IsLoadable v.story_file) versions
    → (index : HnIndex) × ((load_index fuel versions hnsw_there new_index ≡ ok (hnsw_there, index))
        × (((k : ℕ) → lookup_id k index.fwd ≡ lookup_id k (stories versions))
            × (hnsw_there ≡ true → load_index fuel versions hnsw_there index ≡ ok (false, index))))
unfolding load_index lookup_id
load_index-IsMerged fuel versions hnsw_there meta read all =
    let (fwd, (loaded, merged)) = load_fwd-IsMerged fuel versions [] all in
    (
      record { loaded = hnsw_there; meta = meta; fwd = fwd },
      (bind-ok _ read ∙ bind-ok _ loaded, (merged, λ there. ground (arith, there))),
    )
