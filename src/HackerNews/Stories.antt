-- ===== src/HackerNews/Stories.antt =====
-- src/task/hacker_news.cpp: which stories `crawl_hn` writes.
use lingdong.Prelude.{
  is_among, ◌≡◌, refl, sym, subst, true, false, List, [], ◌∷◌, Bytes, bytes_eq, bytes_eq_iff,
  Option, none, some, All, Bool-cases, inl, inr, ◌⊎◌,
}
use lingdong.HackerNews.{HackerNewItem, ItemJson, to_json, is_story, crawl}

-- The lines have URLs that are neither among the marks nor twice among the lines.
abbrev pub Distinct : List Bytes → List ItemJson → Type 0
Distinct marks [] = Unit
Distinct marks (j ∷ js) =
    (url : Bytes) × (j.json_url ≡ some url)
    × (is_among url marks ≡ false)
    × Distinct (url ∷ marks) js

abbrev pub Fetched : HackerNewItem → List (Option HackerNewItem) → Type 0
Fetched item [] = ⊥
Fetched item (o ∷ items) = (o ≡ some item) ⊎ Fetched item items

-- The line is that of a story which was fetched.
abbrev pub IsLineOf : List (Option HackerNewItem) → ItemJson → Type 0
IsLineOf items j =
    (item : HackerNewItem) × (is_story item ≡ true) × (j ≡ to_json item) × Fetched item items

abbrev pub HasUrl : Bytes → ItemJson → Type 0
HasUrl url j = j.json_url ≡ some url

abbrev pub Written : Bytes → List ItemJson → Type 0
Written url [] = ⊥
Written url (j ∷ js) = HasUrl url j ⊎ Written url js

-- The URL of a story that was fetched is among the marks or in a line.
abbrev pub Covered : List Bytes → List ItemJson → Option HackerNewItem → Type 0
Covered marks js none = Unit
Covered marks js (some item) =
    is_story item ≡ true → (is_among item.url marks ≡ true) ⊎ Written item.url js

module _ (marks : List Bytes) (j : ItemJson) (url : Bytes) (same : j.json_url ≡ some url) where
  more-Covered :
      (js : List ItemJson) (o : Option HackerNewItem)
      → Covered (url ∷ marks) js o
      → Covered marks (j ∷ js) o
  unfolding is_among
  more-Covered js none = λ h. tt
  more-Covered js (some item) = λ h story. elim (h story) [
    | inr there ↦ inr (inr there)
    | inl marked ↦ elim (Bool-cases (bytes_eq item.url url)) [
      | inl eq ↦ inr (inl (cc ((bytes_eq_iff item.url url).0 eq, same)))
      | inr ne ↦ inl (rw ne at marked)
    ]
  ]

  All-Covered :
      (js : List ItemJson) (items : List (Option HackerNewItem))
      → All (Covered (url ∷ marks) js) items
      → All (Covered marks (j ∷ js)) items
  All-Covered js [] h = tt
  All-Covered js (o ∷ items) (first, rest) = (more-Covered js o first, All-Covered js items rest)

more-IsLineOf :
    (o : Option HackerNewItem) (items : List (Option HackerNewItem)) (js : List ItemJson)
    → All (IsLineOf items) js
    → All (IsLineOf (o ∷ items)) js
more-IsLineOf o items [] h = tt
more-IsLineOf o items (j ∷ js) ((item, story, line, there), rest) =
    ((item, story, line, inr there), more-IsLineOf o items js rest)

abbrev pub Selected : List (Option HackerNewItem) → List Bytes → List ItemJson → Type 0
Selected items marks js = Distinct marks js × All (IsLineOf items) js × All (Covered marks js) items

url-to_json : (item : HackerNewItem) → (to_json item).json_url ≡ some item.url
unfolding to_json
url-to_json item = refl

module _ (item : HackerNewItem) (items : List (Option HackerNewItem)) (marks : List Bytes) where
  crawl-other : is_story item ≡ false → crawl (some item ∷ items) marks ≡ crawl items marks
  unfolding crawl
  crawl-other other = rw other refl

  crawl-old :
      is_story item ≡ true
      → is_among item.url marks ≡ true
      → crawl (some item ∷ items) marks ≡ crawl items marks
  unfolding crawl
  crawl-old story old = rw story (rw old refl)

  crawl-fresh :
      is_story item ≡ true
      → is_among item.url marks ≡ false
      → crawl (some item ∷ items) marks ≡ to_json item ∷ crawl items (item.url ∷ marks)
  unfolding crawl
  crawl-fresh story fresh = rw story (rw fresh refl)

-- Of the items, in whatever order they are fetched, `crawl_hn` writes lines of stories only, no
-- URL twice and none that was marked, and each URL of a story that was fetched and not marked.
pub crawl-Selected :
    (items : List (Option HackerNewItem)) (marks : List Bytes)
    → Selected items marks (crawl items marks)
unfolding crawl
crawl-Selected [] marks = (tt, tt, tt)
crawl-Selected (none ∷ items) marks =
    let (distinct, lines, covered) = crawl-Selected items marks in
    (distinct, more-IsLineOf none items (crawl items marks) lines, (tt, covered))
crawl-Selected (some item ∷ items) marks =
    let (distinct, lines, covered) = crawl-Selected items marks in
    let others = more-IsLineOf (some item) items (crawl items marks) lines in
    elim (Bool-cases (is_story item)) [
      | inr other ↦
          subst (Selected (some item ∷ items) marks) (sym (crawl-other item items marks other))
            (distinct, others, (λ story. absurd (cc (story, other)), covered))
      | inl story ↦ elim (Bool-cases (is_among item.url marks)) [
        | inl old ↦
            subst (Selected (some item ∷ items) marks) (sym (crawl-old item items marks story old))
              (distinct, others, (λ s. inl old, covered))
        | inr fresh ↦
            let js = crawl items (item.url ∷ marks) in
            let (distinct', lines', covered') = crawl-Selected items (item.url ∷ marks) in
            subst (Selected (some item ∷ items) marks)
              (sym (crawl-fresh item items marks story fresh))
              (
                (item.url, url-to_json item, fresh, distinct'),
                ((item, story, refl, inl refl), more-IsLineOf (some item) items js lines'),
                (
                  λ s. inr (inl (url-to_json item)),
                  All-Covered marks (to_json item) item.url (url-to_json item) js items covered',
                ),
              )
      ]
    ]
