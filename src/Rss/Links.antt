-- ===== src/Rss/Links.antt =====
-- src/utils/rss.hpp: which documents `RSS::parse` can read.
use lingdong.Prelude.{
  first_byte, refl, inl, inr, Bool, true, false, List, [], ◌∷◌, Bytes, codes, All, Option, none,
  some, ◌==◌, Bool-cases,
}
use lingdong.Prelude.Decides.{Decides, Decides-bind, Decides-then}
use lingdong.Rss.{
  Xml, Rss, child, link_text, link_of, atom_entry, atom_entries, parse_atom, parse_root, parse,
}

module _ {El : Type 0} (xml : Xml El) where
  -- The link, if there is one, has a text or an address.
  abbrev pub HasAddress : Option Bytes → Option Bytes → Type 0
  HasAddress (some t) href = Unit
  HasAddress none (some t) = Unit
  HasAddress none none = ⊥

  abbrev pub HasLink : Option El → Type 0
  HasLink none = Unit
  HasLink (some e) = HasAddress (xml.get_text e) (xml.attribute (codes "href") e)

  abbrev pub EntryHasLink : El → Type 0
  EntryHasLink e = HasLink (child xml (codes "link") e)

  link_text-Decides : (t href : Option Bytes) → Decides (HasAddress t href) (link_text xml t href)
  unfolding link_text
  link_text-Decides (some t) href = inl (tt, (t, refl))
  link_text-Decides none none = inr ((λ h. h), refl)
  link_text-Decides none (some t) = inl (tt, (t, refl))

  link_of-Decides : (old : Bytes) (e : Option El) → Decides (HasLink e) (link_of xml old e)
  unfolding link_of
  link_of-Decides old none = inl (tt, (old, refl))
  link_of-Decides old (some e) = link_text-Decides (xml.get_text e) (xml.attribute (codes "href") e)

  atom_entries-Decides : (es : List El) → Decides (All EntryHasLink es) (atom_entries xml es)
  unfolding atom_entries atom_entry
  atom_entries-Decides [] = inl (tt, ([], refl))
  atom_entries-Decides (e ∷ es) =
      Decides-bind (atom_entry xml e) _
        (Decides-then (link_of xml [] (child xml (codes "link") e)) _
          (link_of-Decides [] (child xml (codes "link") e)))
        (λ entry first. Decides-then (atom_entries xml es) _ (atom_entries-Decides es))

  -- The links that are read of a document with this root: those of a feed and of its entries, if
  -- the name of the root begins with f.
  abbrev pub AtomHasLinks : Bool → El → Type 0
  AtomHasLinks false root = Unit
  AtomHasLinks true root = EntryHasLink root × All EntryHasLink (xml.children (codes "entry") root)

  abbrev pub HasLinks : Option (Option El) → Type 0
  HasLinks none = Unit
  HasLinks (some none) = ⊥
  HasLinks (some (some root)) = AtomHasLinks (first_byte (xml.name root) == b'f') root

  parse_atom-Decides :
      (root : El) (rss : Rss) → Decides (AtomHasLinks true root) (parse_atom xml root rss)
  unfolding parse_atom
  parse_atom-Decides root rss =
      Decides-bind (link_of xml rss.feed_link (child xml (codes "link") root)) _
        (link_of-Decides rss.feed_link (child xml (codes "link") root))
        (λ link first.
          Decides-then (atom_entries xml (xml.children (codes "entry") root)) _
            (atom_entries-Decides (xml.children (codes "entry") root)))

  -- `RSS::parse` returns on what is no XML, and on a document with a root element if the root's
  -- name does not begin with f, or if the first link in the root and in each of its entries has a
  -- text or an `href`. On any other document it reads a null pointer.
  pub parse-Decides :
      (doc : Option (Option El)) (rss : Rss) → Decides (HasLinks doc) (parse xml doc rss)
  unfolding parse parse_root
  parse-Decides none rss = inl (tt, (_, refl))
  parse-Decides (some none) rss = inr ((λ h. h), refl)
  parse-Decides (some (some root)) rss = elim (Bool-cases (first_byte (xml.name root) == b'f')) [
    | inl atom ↦ rw atom (parse_atom-Decides root rss)
    | inr other ↦ elim (Bool-cases (first_byte (xml.name root) == b'r')) [
      | inl r ↦ rw other (rw r (inl (tt, (_, refl))))
      | inr n ↦ rw other (rw n (inl (tt, (_, refl))))
    ]
  ]
