-- ===== src/Web/Feeds/Registered.antt =====
-- src/web.hpp: what `rss_register_handler` leaves in the database, and what it answers.
use lingdong.Prelude.{
  ℕ, ◌≡◌, ◌≢◌, refl, subst, ◌⊎◌, inl, inr, Bool, true, false, List, [], ◌∷◌, All, Bytes, codes,
  Option, none, some, ok, bind-eq-ok, is_empty, ◌==◌, Bool-cases, arith,
}
use lingdong.Prelude.Map.{lookup}
use lingdong.Http.Request.{HttpRequest}
use lingdong.Http.Response.{HttpResponse, status_ok, bad_request, with_code, with_header, with_body}
use lingdong.Rss.{Rss, new_rss, parse}
use lingdong.Web.Feeds.Transaction.{ok_inj, IsPlain, Within, Says, AddedAll, add_entries-AddedAll}
use lingdong.Web.Feeds.{
  Wish, Tools, Database, select_sql, subscribe_sql, registered_before, wish_of, answer_code,
  title_or, add_feed, register_feed, register_text, register_new, register_wish,
  rss_register_handler,
}

module _ {El S : Type 0} (tools : Tools El) (db : Database S) where
  -- The feed of the wish is fetched, and is added with its entries.
  abbrev pub AddedFeed : Wish → S → HttpResponse → S → Type 0
  AddedFeed wish s resp s' =
      (text : Bytes) × (rss : Rss) × (s1 : S) × (tools.get wish.wished_url ≡ some text)
      × (parse tools.xml (tools.parse_xml text) new_rss ≡ ok rss)
      × (rss.parse_result_code ≡ 0)
      × (db.exec
            (subscribe_sql (title_or tools db wish.wished_title rss.feed_title) wish.wished_url
              wish.wished_tag rss.feed_updated_time)
            s
          ≡ (true, s1))
      × AddedAll tools db rss.entries s1 resp s'

  -- Nothing changes, and the answer is a bad request or says why.
  abbrev pub Refuses : S → HttpResponse → S → Type 0
  Refuses s resp s' =
      (s' ≡ s)
      × ((resp.code ≡ bad_request)
          ⊎ ((n : ℕ) × (msg : Bytes) × (n ≢ 0)
              × (resp.code ≡ status_ok)
              × Says tools db n msg resp))

  abbrev pub IsRegistered : Wish → S → HttpResponse × S → Type 0
  IsRegistered wish s (resp', s') = Refuses s resp' s' ⊎ AddedFeed wish s resp' s'

  module _ (undone : (s0 t s' : S) → Within tools db s0 t → db.rollback t ≡ some s' → s' ≡ s0)
      (plain : (url text : Bytes) (rss : Rss)
        → tools.get url ≡ some text
        → parse tools.xml (tools.parse_xml text) new_rss ≡ ok rss
        → All IsPlain rss.entries) where
    add_feed-AddedAll :
        (wish : Wish) (rss : Rss) (ran : Bool × S) (resp : HttpResponse) {r : HttpResponse × S}
        → All IsPlain rss.entries
        → resp.is_sealed ≡ false
        → resp.code ≡ status_ok
        → add_feed tools db wish rss ran resp ≡ ok r
        → (s1 : S) × (ran ≡ (true, s1)) × AddedAll tools db rss.entries s1 r.0 r.1
    unfolding add_feed
    add_feed-AddedAll wish rss (false, s) resp entries_plain fresh well e = cc
    add_feed-AddedAll wish rss (true, s1) resp entries_plain fresh well e =
        let (ids, asked, e') = bind-eq-ok (db.query_ids (select_sql wish.wished_url) s1) _ e in
        (
          s1,
          refl,
          add_entries-AddedAll tools db undone ids rss.entries resp s1 entries_plain fresh well e',
        )

    says-IsRegistered :
        (wish : Wish) (n : ℕ) (msg : Bytes) (resp : HttpResponse) (s : S) {r : HttpResponse × S}
        → resp.is_sealed ≡ false
        → resp.code ≡ status_ok
        → n ≢ 0
        → (answer_code tools db n msg resp, s) ≡ r
        → IsRegistered wish s r
    unfolding answer_code with_body
    says-IsRegistered wish n msg resp s fresh well bad e =
        subst (IsRegistered wish s) e (inl (refl, inr (n, msg, bad, rw fresh well, rw fresh refl)))

    register_feed-IsRegistered :
        (wish : Wish) (text : Bytes) (rss : Rss) (resp : HttpResponse) (s : S)
        {r : HttpResponse × S}
        → resp.is_sealed ≡ false
        → resp.code ≡ status_ok
        → tools.get wish.wished_url ≡ some text
        → parse tools.xml (tools.parse_xml text) new_rss ≡ ok rss
        → register_feed tools db wish rss resp s ≡ ok r
        → IsRegistered wish s r
    unfolding register_feed
    register_feed-IsRegistered wish text rss resp s {r} fresh well got parsed e =
        elim (Bool-cases (rss.parse_result_code == 0)) [
          | inr bad ↦
              says-IsRegistered wish rss.parse_result_code rss.parse_result_msg resp s fresh well
                (ground (arith, bad)) (ok_inj (rw bad at e))
          | inl good ↦
              let (s1, ran, added) =
                add_feed-AddedAll wish rss _ resp (plain wish.wished_url text rss got parsed) fresh
                  well (rw good at e) in
              inr (text, rss, s1, got, parsed, ground (arith, good), ran, added)
        ]

    register_text-IsRegistered :
        (wish : Wish) (got : Option Bytes) (resp : HttpResponse) (s : S) {r : HttpResponse × S}
        → resp.is_sealed ≡ false
        → resp.code ≡ status_ok
        → tools.get wish.wished_url ≡ got
        → register_text tools db wish got resp s ≡ ok r
        → IsRegistered wish s r
    unfolding register_text
    register_text-IsRegistered wish none resp s fresh well got e =
        says-IsRegistered wish 101 (codes "failure to access this url") resp s fresh well
          (λ z. absurd (omega arith)) (ok_inj e)
    register_text-IsRegistered wish (some text) resp s fresh well got e =
        let (rss, parsed, e') = bind-eq-ok (parse tools.xml (tools.parse_xml text) new_rss) _ e in
        register_feed-IsRegistered wish text rss resp s fresh well got parsed e'

    register_new-IsRegistered :
        (wish : Wish) (ids : List ℕ) (resp : HttpResponse) (s : S) {r : HttpResponse × S}
        → resp.is_sealed ≡ false
        → resp.code ≡ status_ok
        → register_new tools db wish ids resp s ≡ ok r
        → IsRegistered wish s r
    unfolding register_new
    register_new-IsRegistered wish [] resp s fresh well e =
        register_text-IsRegistered wish (tools.get wish.wished_url) resp s fresh well refl e
    register_new-IsRegistered wish (id ∷ ids) resp s fresh well e =
        says-IsRegistered wish 100 registered_before resp s fresh well (λ z. absurd (omega arith))
          (ok_inj e)

    register_wish-IsRegistered :
        (wish : Wish) (resp : HttpResponse) (s : S) {r : HttpResponse × S}
        → resp.is_sealed ≡ false
        → register_wish tools db wish resp s ≡ ok r
        → IsRegistered wish s r
    unfolding register_wish with_code with_header
    register_wish-IsRegistered wish resp s {r} fresh e =
        elim (Bool-cases (is_empty wish.wished_url)) [
          | inl nothing ↦
              subst (IsRegistered wish s) (ok_inj (rw nothing at e)) (inl (refl, inl refl))
          | inr there ↦
              let (ids, asked, e') =
                bind-eq-ok (db.query_ids (select_sql wish.wished_url) s) _ (rw there at e) in
              register_new-IsRegistered wish ids _ s fresh refl e'
        ]

  -- Where the handler returns, on a response without a body: either the database is as before, and
  -- the answer is 400, or 200 with a code that is not 0; or the feed of the address was fetched and
  -- read, its subscription was added, and then all its entries were added and committed, with code
  -- 0, or none was, with 500. No entry of a feed that is fetched has a quotation mark; and where a
  -- rollback goes well in a transaction in which only insertions of such entries have run or
  -- failed, and commits have failed, it takes the database back to where the transaction began.
  pub rss_register_handler-IsRegistered :
      (req : HttpRequest) (resp : HttpResponse) (s : S) {r : HttpResponse × S}
      → ((s0 t s' : S) → Within tools db s0 t → db.rollback t ≡ some s' → s' ≡ s0)
      → ((url text : Bytes) (rss : Rss)
          → tools.get url ≡ some text
          → parse tools.xml (tools.parse_xml text) new_rss ≡ ok rss
          → All IsPlain rss.entries)
      → resp.is_sealed ≡ false
      → rss_register_handler tools db req resp s ≡ ok r
      → (wish : Wish) × (wish_of tools db (lookup (codes "Content-Type") req.headers) req.body
          ≡ ok wish)
        × IsRegistered wish s r
  unfolding rss_register_handler
  rss_register_handler-IsRegistered req resp s undone plain fresh e =
      let (wish, wished, e') =
        bind-eq-ok (wish_of tools db (lookup (codes "Content-Type") req.headers) req.body) _ e in
      (wish, wished, register_wish-IsRegistered undone plain wish resp s fresh e')
