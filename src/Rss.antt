-- ===== src/Rss.antt =====
-- src/utils/rss.hpp: reading a feed. The tree of XML elements is that of tinyxml2.
pub mod Links
mod Witnesses
use lingdong.Prelude.{
  first_byte, ℕ, Bool, true, false, List, [], ◌∷◌, ◌++◌, Bytes, codes, Option, none, some, Result,
  ok, fail, undefined, ◌>>=◌, ◌==◌, if◌then◌else◌, length,
}

-- What the code asks of an element: its name; its children of a name, which `FirstChildElement`
-- and `NextSiblingElement` give in turn; its text; and the value of an attribute.
pub record Xml (El : Type 0) : Type 0 where
  pub name : El → Bytes
  pub children : Bytes → El → List El
  pub get_text : El → Option Bytes
  pub attribute : Bytes → El → Option Bytes

pub record RssEntry : Type 0 where
  pub title : Bytes
  pub link : Bytes
  pub updated_time : Bytes
  pub content : Bytes

pub record Rss : Type 0 where
  pub feed_title : Bytes
  pub feed_link : Bytes
  pub feed_updated_time : Bytes
  pub entries : List RssEntry
  pub parse_result_code : ℕ
  pub parse_result_msg : Bytes

abbrev pub new_rss : Rss
new_rss = record {
  feed_title = [];
  feed_link = [];
  feed_updated_time = [];
  entries = [];
  parse_result_code = 0;
  parse_result_msg = codes "success";
}

unfoldable pub not_parsed : Rss → Rss
not_parsed rss = record rss {
  parse_result_code = 102;
  parse_result_msg = codes "failure to parse rss";
}

unfoldable pub no_feed : Rss → Rss
no_feed rss = record rss {
  parse_result_code = 103;
  parse_result_msg = codes "illegal rss/feed xml";
}

abbrev pub text_or : Option Bytes → Bytes → Bytes
text_or none old = old
text_or (some t) old = t

-- The first of some elements, or of others where there is none.
abbrev pub first_of {ℓ} : {A : Type ℓ} → List A → List A → Option A
first_of [] [] = none
first_of [] (f ∷ es) = some f
first_of (e ∷ es) others = some e

module _ {El : Type 0} (xml : Xml El) where
  -- What a field with the value `old` becomes: the text of the element, empty where it has none.
  abbrev pub text_of : Bytes → Option El → Bytes
  text_of old none = old
  text_of old (some e) = text_or (xml.get_text e) []

  abbrev pub child : Bytes → El → Option El
  child tag e = first_of (xml.children tag e) []

  -- A link without text has its address in `href`; where that is missing, a null pointer is read.
  unfoldable pub link_text : Option Bytes → Option Bytes → Result Bytes
  link_text (some t) href = ok t
  link_text none none = fail undefined
  link_text none (some t) = ok t

  unfoldable pub link_of : Bytes → Option El → Result Bytes
  link_of old none = ok old
  link_of old (some e) = link_text (xml.get_text e) (xml.attribute (codes "href") e)

  unfoldable pub atom_entry : El → Result RssEntry
  atom_entry e = do
    link ← link_of [] (child (codes "link") e)
    ok (record {
      title = text_of [] (child (codes "title") e);
      link = link;
      updated_time = text_of [] (child (codes "updated") e);
      content =
          text_of []
            (first_of (xml.children (codes "summary") e) (xml.children (codes "content") e));
    })

  unfoldable pub atom_entries : List El → Result (List RssEntry)
  atom_entries [] = ok []
  atom_entries (e ∷ es) = do entry ← atom_entry e; rest ← atom_entries es; ok (entry ∷ rest)

  unfoldable pub parse_atom : El → Rss → Result Rss
  parse_atom root rss = do
    link ← link_of rss.feed_link (child (codes "link") root)
    es ← atom_entries (xml.children (codes "entry") root)
    ok (record rss {
      feed_title = text_of rss.feed_title (child (codes "title") root);
      feed_link = link;
      feed_updated_time = text_of rss.feed_updated_time (child (codes "updated") root);
      entries = rss.entries ++ es;
    })

  unfoldable pub rss_item : El → RssEntry
  rss_item e = record {
    title = text_of [] (child (codes "title") e);
    link = text_of [] (first_of (xml.children (codes "link") e) (xml.children (codes "guid") e));
    updated_time = text_of [] (child (codes "pubDate") e);
    content = text_of [] (child (codes "description") e);
  }

  unfoldable pub rss_items : List El → List RssEntry
  rss_items [] = []
  rss_items (e ∷ es) = rss_item e ∷ rss_items es

  unfoldable pub parse_channel : Option El → Rss → Rss
  parse_channel none rss = no_feed rss
  parse_channel (some ch) rss = record rss {
    feed_title = text_of rss.feed_title (child (codes "title") ch);
    feed_link = text_of rss.feed_link (child (codes "link") ch);
    feed_updated_time =
        text_of rss.feed_updated_time
          (first_of (xml.children (codes "pubDate") ch) (xml.children (codes "lastBuildDate") ch));
    entries = rss.entries ++ rss_items (xml.children (codes "item") ch);
  }

  unfoldable pub parse_rss : El → Rss → Rss
  parse_rss root rss = parse_channel (child (codes "channel") root) rss

  unfoldable pub parse_root : El → Rss → Result Rss
  parse_root root rss =
      if first_byte (xml.name root) == b'f'
      then parse_atom root rss
      else if first_byte (xml.name root) == b'r'
      then ok (parse_rss root rss)
      else ok (no_feed rss)

  -- `RSS::parse`, on what the document is: no XML, or its root element if it has one.
  unfoldable pub parse : Option (Option El) → Rss → Result Rss
  parse none rss = ok (not_parsed rss)
  parse (some none) rss = fail undefined
  parse (some (some root)) rss = parse_root root rss
