-- ===== src/Rss/Witnesses.antt =====
-- The theorem on src/utils/rss.hpp at a small document.
use lingdong.Prelude.{
  ℕ, ◌≡◌, refl, ◌&&◌, ◌==◌, [], ◌∷◌, codes, bytes_eq, none, some, ok, ◌>>=◌, if◌then◌else◌, length,
}
use lingdong.Prelude.Decides.{Decides}
use lingdong.Rss.{
  Xml, new_rss, link_text, link_of, atom_entry, atom_entries, parse_atom, parse_root, parse,
}
use lingdong.Rss.Links.{HasLinks, parse-Decides}

-- An element foo with two entries, of which the second has a link with an address.
abbrev small : Xml ℕ
small = record {
  name = λ e. codes "foo";
  children = λ tag e.
      if e == 0 && bytes_eq tag (codes "entry")
      then 1 ∷ 2 ∷ []
      else if e == 2 && bytes_eq tag (codes "link")
      then 3 ∷ []
      else [];
  get_text = λ e. none;
  attribute = λ tag e. some (codes "a");
}

-- It is read as if its name were feed.
foo_test : (parse small (some (some 0)) new_rss >>= λ rss. ok (length rss.entries)) ≡ ok 2
unfolding parse parse_root parse_atom atom_entries atom_entry link_of link_text bytes_eq
foo_test = refl

parse-Decides_example :
    Decides (HasLinks small (some (some 0))) (parse small (some (some 0)) new_rss)
parse-Decides_example = parse-Decides small (some (some 0)) new_rss
