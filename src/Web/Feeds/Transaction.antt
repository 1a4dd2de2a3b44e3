-- ===== src/Web/Feeds/Transaction.antt =====
-- src/web.hpp: the transaction of `rss_register_handler` adds all entries of a feed or none.
use lingdong.Prelude.{
  ℕ, ◌≡◌, refl, ap, subst, ◌⊎◌, inl, inr, Bool, true, false, List, [], ◌∷◌, Bytes, codes, map,
  Lacks, All, some, ok, bind-eq-ok, Option-cases, Bool-cases, arith,
}
use lingdong.Http.Response.{HttpResponse, status_ok, internal_err, with_code, with_body}
use lingdong.Rss.{RssEntry}
use lingdong.Web.Feeds.{
  Tools, Database, item_sql, answer_code, insert_entries, roll_back, end_transaction, answer_added,
  add_entries,
}

pub ok_inj {ℓ} : {A : Type ℓ} {a b : A} → ok a ≡ ok b → a ≡ b
ok_inj e = cc e

-- No text of the entry has the quotation mark that ends it in the statement.
abbrev pub IsPlain : RssEntry → Type 0
IsPlain entry =
    Lacks b'"' entry.title
    × Lacks b'"' entry.link
    × Lacks b'"' entry.content
    × Lacks b'"' entry.updated_time

module _ {El S : Type 0} (tools : Tools El) (db : Database S) where
  -- The statements run one after another, and none of them fails.
  abbrev pub Runs : List Bytes → S → S → Type 0
  Runs [] s s' = s ≡ s'
  Runs (sql ∷ sqls) s s' = (t : S) × (db.exec sql s ≡ (true, t)) × Runs sqls t s'

  -- In the transaction that was begun at `s0`, statements for plain entries have run or failed, and
  -- commits have failed.
  pub data Within (s0 : S) : S → Type 0 where
    begun : {t : S} → db.begin s0 ≡ some t → Within s0 t
    inserted :
        {t : S} (id : ℕ) (entry : RssEntry)
        → IsPlain entry
        → Within s0 t
        → Within s0 (db.exec (item_sql tools db id entry) t).1
    not_committed : {t : S} → (db.commit t).0 ≡ false → Within s0 t → Within s0 (db.commit t).1

  -- The answer has this code and message.
  abbrev pub Says : ℕ → Bytes → HttpResponse → Type 0
  Says n msg resp = resp.body ≡ tools.dump_code n msg

  abbrev pub item_sqls : ℕ → List RssEntry → List Bytes
  item_sqls id entries = map (item_sql tools db id) entries

  -- The entries are added, all of them or none.
  abbrev pub AddedAll : List RssEntry → S → HttpResponse → S → Type 0
  AddedAll entries s1 resp s' =
      ((s' ≡ s1) × (resp.code ≡ internal_err) × Says 500 (codes "Internal Error") resp)
      ⊎ ((id : ℕ) × (b t : S) × (db.begin s1 ≡ some b)
          × Runs (item_sqls id entries) b t
          × (db.commit t ≡ (true, s'))
          × (resp.code ≡ status_ok)
          × Says 0 (codes "success") resp)

  -- The loop came to its end with all statements, or stopped within the transaction.
  abbrev Inserted : S → ℕ → List RssEntry → S → Bool × S → Type 0
  Inserted s0 id entries s r = Within s0 r.1 × (r.0 ≡ true → Runs (item_sqls id entries) s r.1)

  insert_entries-Inserted :
      (s0 : S) (id : ℕ) (entries : List RssEntry) (s : S)
      → All IsPlain entries
      → Within s0 s
      → Inserted s0 id entries s (insert_entries tools db id entries s)
  unfolding insert_entries
  insert_entries-Inserted s0 id [] s plain within = (within, λ e. refl)
  insert_entries-Inserted s0 id (entry ∷ entries) s (one, plain) within =
      let sql = item_sql tools db id entry in
      let next = inserted id entry one within in
      elim (Bool-cases (db.exec sql s).0) [
        | inr failed ↦ rw (failed, insert_entries) (next, λ e. cc)
        | inl ran ↦
            let (rest, all) = insert_entries-Inserted s0 id entries (db.exec sql s).1 plain next in
            rw (ran, insert_entries) (rest, λ e. ((db.exec sql s).1, refl, all e))
      ]

  -- The transaction ended with all statements of the entries, or left the state as it was.
  abbrev Ended : List RssEntry → S → Bool × S → Type 0
  Ended entries s0 (false, s') = s' ≡ s0
  Ended entries s0 (true, s') =
      (id : ℕ) × (b t : S) × (db.begin s0 ≡ some b)
      × Runs (item_sqls id entries) b t
      × (db.commit t ≡ (true, s'))

  module _ (undone : (s0 t s' : S) → Within s0 t → db.rollback t ≡ some s' → s' ≡ s0) where
    roll_back-Ended :
        (entries : List RssEntry) (s0 t : S) {r : Bool × S}
        → Within s0 t
        → roll_back tools db t ≡ ok r
        → Ended entries s0 r
    unfolding roll_back
    roll_back-Ended entries s0 t within e = elim (Option-cases (db.rollback t)) [
      | inl failed ↦ let bad = rw (failed, roll_back) at e in cc bad
      | inr (s', back) ↦
          subst (Ended entries s0) (ok_inj (rw (back, roll_back) at e)) (undone s0 t s' within back)
    ]

    end_transaction-Ended :
        (id : ℕ) (entries : List RssEntry) (s0 b : S) (q : Bool × S) {r : Bool × S}
        → db.begin s0 ≡ some b
        → Inserted s0 id entries b q
        → end_transaction tools db q ≡ ok r
        → Ended entries s0 r
    unfolding end_transaction
    end_transaction-Ended id entries s0 b (false, t) start (within, all) e =
        roll_back-Ended entries s0 t within e
    end_transaction-Ended id entries s0 b (true, t) start (within, all) e =
        elim (Bool-cases (db.commit t).0) [
          | inr failed ↦
              roll_back-Ended entries s0 (db.commit t).1 (not_committed failed within)
                (rw (failed, end_transaction) at e)
          | inl committed ↦
              let made = ok_inj (rw (committed, end_transaction) at e) in
              let done : db.commit t ≡ (true, (db.commit t).1) =
                ap (λ b. (b, (db.commit t).1)) committed in
              subst (Ended entries s0) made (id, b, t, start, all refl, done)
        ]

    answer_added-AddedAll :
        (entries : List RssEntry) (s : S) (resp : HttpResponse) (r : Bool × S)
        → resp.is_sealed ≡ false
        → resp.code ≡ status_ok
        → Ended entries s r
        → AddedAll entries s (answer_added tools db r resp).0 (answer_added tools db r resp).1
    unfolding answer_added answer_code with_body with_code
    answer_added-AddedAll entries s resp (true, s') fresh well (id, b, t, start, run, done) =
        inr (id, b, t, start, run, done, rw fresh well, rw fresh refl)
    answer_added-AddedAll entries s resp (false, s') fresh well same =
        inl (same, rw fresh refl, rw fresh refl)

    pub add_entries-AddedAll :
        (ids : List ℕ) (entries : List RssEntry) (resp : HttpResponse) (s : S)
        {r : HttpResponse × S}
        → All IsPlain entries
        → resp.is_sealed ≡ false
        → resp.code ≡ status_ok
        → add_entries tools db ids entries resp s ≡ ok r
        → AddedAll entries s r.0 r.1
    unfolding add_entries
    add_entries-AddedAll [] entries resp s plain fresh well e = cc
    add_entries-AddedAll (id ∷ ids) entries resp s {r} plain fresh well e =
        elim (Option-cases (db.begin s)) [
          | inl failed ↦ let bad = rw (failed, add_entries) at e in cc bad
          | inr (b, start) ↦
              let inserted = insert_entries-Inserted s id entries b plain (begun start) in
              let (q, ended, made) =
                bind-eq-ok (end_transaction tools db (insert_entries tools db id entries b)) _
                  (rw (start, add_entries) at e) in
              let is : answer_added tools db q resp ≡ r = ground (arith, made) in
              subst (λ r. AddedAll entries s r.0 r.1) is
                (answer_added-AddedAll entries s resp q fresh well
                  (end_transaction-Ended id entries s b _ start inserted ended))
        ]
