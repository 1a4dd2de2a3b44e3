-- ===== src/Web/Feeds.antt =====
-- src/web.hpp: `rss_register_handler`, over src/utils/rss.hpp and the database.
pub mod Transaction
pub mod Registered
use lingdong.Prelude.{
  ℕ, Bool, true, false, not, List, [], ◌∷◌, ◌++◌, Bytes, codes, concat, bytes_eq, Option, none,
  some, Result, ok, fail, thrown, ◌>>=◌, is_empty, ◌==◌, if◌then◌else◌,
}
use lingdong.Prelude.Map.{lookup}
use lingdong.Http.Query.{parse_form}
use lingdong.Http.Request.{HttpRequest}
use lingdong.Http.Response.{
  HttpResponse, status_ok, bad_request, internal_err, with_code, with_header, with_body,
}
use lingdong.Rss.{Xml, Rss, RssEntry, new_rss, parse}
use lingdong.Web.{json_type}

abbrev pub form_type : Bytes
form_type = codes "application/x-www-form-urlencoded"

-- What is asked for: the address of the feed, its title and its tag.
pub record Wish : Type 0 where
  pub wished_url : Bytes
  pub wished_title : Bytes
  pub wished_tag : Bytes

-- What the handler takes from the libraries and the network: the members url, title and tag of a
-- JSON text, where they are there; the parts of a text between separators; the text of the answer
-- to a request, if its status is 200; the root element of an XML document, if it is one and has
-- one; the digits of an id; and the text of an answer with a code and a message.
pub record Tools (El : Type 0) : Type 0 where
  pub parse_json :
      Bytes → Result (Option (Result Bytes) × Option (Result Bytes) × Option (Result Bytes))
  pub str_split : Bytes → ℕ → List Bytes
  pub get : Bytes → Option Bytes
  pub xml : Xml El
  pub parse_xml : Bytes → Option (Option El)
  pub print_id : ℕ → Bytes
  pub dump_code : ℕ → Bytes → Bytes

-- An open database with the state `S`. A text of statements, or a commit, gives whether it went
-- well, where it does not throw; also where it throws it may have changed the state. A transaction
-- that cannot be begun throws, and so does a rollback where none is open. A query of ids gives
-- those of its rows.
pub record Database (S : Type 0) : Type 0 where
  pub exec : Bytes → S → Bool × S
  pub query_ids : Bytes → S → Result (List ℕ)
  pub begin : S → Option S
  pub commit : S → Bool × S
  pub rollback : S → Option S

abbrev pub member : Option (Result Bytes) → Result Bytes
member none = ok []
member (some get_it) = get_it

abbrev pub value_or_empty : Option Bytes → Bytes
value_or_empty none = []
value_or_empty (some s) = s

unfoldable pub select_sql : Bytes → Bytes
select_sql url =
    concat (codes "SELECT id FROM rss_subscription WHERE url=\"" ∷ url ∷ codes "\"" ∷ [])

unfoldable pub subscribe_sql : Bytes → Bytes → Bytes → Bytes → Bytes
subscribe_sql title url tag time = concat (
    codes "INSERT INTO rss_subscription (title, url, tag, updated_time) VALUES (\""
    ∷ title
    ∷ codes "\", \""
    ∷ url
    ∷ codes "\", \""
    ∷ tag
    ∷ codes "\", \""
    ∷ time
    ∷ codes "\")"
    ∷ [])

-- The message of code 100, in UTF-8.
abbrev pub registered_before : Bytes
registered_before =
    0xe5 ∷ 0xb7 ∷ 0xb2 ∷ 0xe8 ∷ 0xae ∷ 0xa2 ∷ 0xe9 ∷ 0x98 ∷ 0x85 ∷ 0xe8 ∷ 0xbf ∷ 0x87 ∷ []

module _ {El S : Type 0} (tools : Tools El) (db : Database S) where
  unfoldable pub item_sql : ℕ → RssEntry → Bytes
  item_sql id entry = concat (
      codes
        "INSERT INTO rss_item (subscription_id, title, url, content, has_read, updated_time) VALUES ("
      ∷ tools.print_id id
      ∷ codes ", \""
      ∷ entry.title
      ∷ codes "\", \""
      ∷ entry.link
      ∷ codes "\", \""
      ∷ entry.content
      ∷ codes "\", 0, \""
      ∷ entry.updated_time
      ∷ codes "\")"
      ∷ [])

  unfoldable pub json_wish : Bytes → Result Wish
  json_wish body = do
    (url, title, tag) ← tools.parse_json body
    u ← member url
    t ← member title
    g ← member tag
    ok (record { wished_url = u; wished_title = t; wished_tag = g })

  unfoldable pub form_wish : Bytes → Wish
  form_wish body =
      let params = parse_form tools.str_split body [] in
      record {
        wished_url = value_or_empty (lookup (codes "url") params);
        wished_title = value_or_empty (lookup (codes "title") params);
        wished_tag = value_or_empty (lookup (codes "tag") params);
      }

  -- The type of the content is looked up with `at`.
  unfoldable pub wish_of : Option Bytes → Bytes → Result Wish
  wish_of none body = fail thrown
  wish_of (some content_type) body =
      if bytes_eq content_type json_type
      then json_wish body
      else if bytes_eq content_type form_type
      then ok (form_wish body)
      else ok (record { wished_url = []; wished_title = []; wished_tag = [] })

  unfoldable pub answer_code : ℕ → Bytes → HttpResponse → HttpResponse
  answer_code code msg resp = (with_body (tools.dump_code code msg) resp).1

  -- The loop over the entries: whether it came to its end, and the state.
  unfoldable pub insert_entries : ℕ → List RssEntry → S → Bool × S
  insert_entries id [] s = (true, s)
  insert_entries id (entry ∷ entries) s =
      let (done, s') = db.exec (item_sql id entry) s in
      elim done [ false ↦ (false, s') | true ↦ insert_entries id entries s' ]

  -- The handler of the exceptions.
  unfoldable pub roll_back : S → Result (Bool × S)
  roll_back s = elim (db.rollback s) [ none ↦ fail thrown | some s' ↦ ok (false, s') ]

  -- Behind the loop: a commit, or a rollback where a statement or the commit throws.
  unfoldable pub end_transaction : Bool × S → Result (Bool × S)
  end_transaction (false, s) = roll_back s
  end_transaction (true, s) =
      let (done, s') = db.commit s in elim done [ false ↦ roll_back s' | true ↦ ok (true, s') ]

  unfoldable pub answer_added : Bool × S → HttpResponse → HttpResponse × S
  answer_added (true, s) resp = (answer_code 0 (codes "success") resp, s)
  answer_added (false, s) resp =
      (answer_code 500 (codes "Internal Error") (with_code internal_err resp), s)

  unfoldable pub add_entries : List ℕ → List RssEntry → HttpResponse → S → Result (HttpResponse × S)
  add_entries [] entries resp s = fail thrown
  add_entries (id ∷ ids) entries resp s = elim (db.begin s) [
    | none ↦ fail thrown
    | some t ↦ do
      ended ← end_transaction (insert_entries id entries t)
      ok (answer_added ended resp)
  ]

  unfoldable pub title_or : Bytes → Bytes → Bytes
  title_or [] feed_title = feed_title
  title_or (c ∷ s) feed_title = c ∷ s

  -- The part of the handler behind the first insertion.
  unfoldable pub add_feed : Wish → Rss → Bool × S → HttpResponse → Result (HttpResponse × S)
  add_feed wish rss (false, s) resp = fail thrown
  add_feed wish rss (true, s) resp = do
    ids ← db.query_ids (select_sql wish.wished_url) s
    add_entries ids rss.entries resp s

  unfoldable pub register_feed : Wish → Rss → HttpResponse → S → Result (HttpResponse × S)
  register_feed wish rss resp s =
      if not (rss.parse_result_code == 0)
      then ok (answer_code rss.parse_result_code rss.parse_result_msg resp, s)
      else (let sql =
            subscribe_sql (title_or wish.wished_title rss.feed_title) wish.wished_url
              wish.wished_tag rss.feed_updated_time in
          add_feed wish rss (db.exec sql s) resp)

  -- The part behind the request for the feed.
  unfoldable pub register_text : Wish → Option Bytes → HttpResponse → S → Result (HttpResponse × S)
  register_text wish none resp s = ok (answer_code 101 (codes "failure to access this url") resp, s)
  register_text wish (some text) resp s = do
    rss ← parse tools.xml (tools.parse_xml text) new_rss
    register_feed wish rss resp s

  unfoldable pub register_new : Wish → List ℕ → HttpResponse → S → Result (HttpResponse × S)
  register_new wish [] resp s = register_text wish (tools.get wish.wished_url) resp s
  register_new wish (id ∷ ids) resp s = ok (answer_code 100 registered_before resp, s)

  unfoldable pub register_wish : Wish → HttpResponse → S → Result (HttpResponse × S)
  register_wish wish resp s =
      if is_empty wish.wished_url then ok (with_code bad_request resp, s) else do
        ids ← db.query_ids (select_sql wish.wished_url) s
        register_new wish ids
            (with_code status_ok (with_header (codes "Content-Type") json_type resp)) s

  unfoldable pub rss_register_handler : HttpRequest → HttpResponse → S → Result (HttpResponse × S)
  rss_register_handler req resp s = do
    wish ← wish_of (lookup (codes "Content-Type") req.headers) req.body
    register_wish wish resp s
