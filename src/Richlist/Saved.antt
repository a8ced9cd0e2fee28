-- ===== src/Richlist/Saved.antt =====
-- What IndexRichlist has done where it ends well.
mod Tests
use mantlemint.Prelude.{
  ℕ, false, ◌||◌, Option, none, some, List, [], ◌∷◌, Result, ok, err, Exec, ◌≡◌, refl, sym, ◌∙◌, ap,
  subst, inl, inr, Result-cases, err_is_not_ok, >>-ok, ◌>>◌, ◌==◌,
}
use mantlemint.Bytes.{Bytes}
use mantlemint.Tmdb.{TmDb}
use mantlemint.SafeBatch
use mantlemint.SafeBatch.{SafeBatchDb}
use mantlemint.Indexer.Keys.{richlist_key}
use mantlemint.Richlist.Ranker.{Sdk, BTree}
use mantlemint.Richlist.List.{Richlist, extract}
use mantlemint.Richlist.Index.{
  Setting, Listing, BlockEvents, index_richlist, update, prepare, apply_changes, set_height,
  with_extracted, on_json, save_latest, set_default,
}

module _ (k : Sdk) (b : BTree k) (c : Setting k b) (d : TmDb) where
  -- the batch after the JSON of the list is set under the height 0 and then under the height
  abbrev pub saved_twice : ℕ → Bytes → SafeBatchDb d → SafeBatchDb d
  saved_twice height json batch =
      (SafeBatch.set d (richlist_key height c.default_denom) json
        (SafeBatch.set d (richlist_key 0 c.default_denom) json batch).1).1

  abbrev pub IsSaved : ℕ → SafeBatchDb d → Listing k b c d → Type 0
  IsSaved height before s =
      (extracted : Richlist k b) × (json : Bytes) × (extract k b height c.richlist_length none
          s.list
        ≡ ok extracted)
      × (c.marshal extracted ≡ ok json)
      × (s.batch ≡ saved_twice height json before)

  saved :
      (height : ℕ) (json : Bytes) (s : Listing k b c d)
      → (save_latest k b c d height json s).0 ≡ ok tt
      → ((save_latest k b c d height json s).1.batch ≡ saved_twice height json s.batch)
        × ((save_latest k b c d height json s).1.list ≡ s.list)
  unfolding save_latest set_default
  saved height json s h =
      let (_, at) = >>-ok (set_default k b c d 0 json) (set_default k b c d height json) s h in
      (ap (λ q. q.1.batch) at, ap (λ q. q.1.list) at)

  with_extracted-IsSaved :
      (height : ℕ) (s : Listing k b c d)
      → (with_extracted k b c d height (save_latest k b c d height) s).0 ≡ ok tt
      → let out = (with_extracted k b c d height (save_latest k b c d height) s).1 in
        (out.list ≡ s.list) × IsSaved height s.batch out
  unfolding with_extracted on_json
  with_extracted-IsSaved height s h =
      elim (Result-cases (extract k b height c.richlist_length none s.list)) [
        | inr (e, f) ↦
            let at : (with_extracted k b c d height (save_latest k b c d height) s).0 ≡ err e =
              rw (f, with_extracted) refl in
            err_is_not_ok (sym at ∙ h)
        | inl (extracted, f) ↦ elim (Result-cases (c.marshal extracted)) [
          | inr (e, g) ↦
              let at : (with_extracted k b c d height (save_latest k b c d height) s).0 ≡ err e =
                rw (f, with_extracted, g) refl in
              err_is_not_ok (sym at ∙ h)
          | inl (json, g) ↦
              let at : with_extracted k b c d height (save_latest k b c d height) s
                  ≡ save_latest k b c d height json s =
                rw (f, with_extracted, g) refl in
              let (batch, list) = saved height json s (sym (ap (λ q. q.0) at) ∙ h) in
              let same = ap (λ q. q.1.list) at ∙ list in
              (
                same,
                (
                  extracted,
                  json,
                  ap (extract k b height c.richlist_length none) same ∙ f,
                  g,
                  ap (λ q. q.1.batch) at ∙ batch,
                ),
              )
        ]
      ]

  -- IndexRichlist with a list that is not of length 0, on a height other than 1, ends without an error.
  -- Then the list has the height, entries can be extracted from it and encoded, and the last two writes
  -- to the batch set the JSON of the first entries as the latest list and as the list at the height.
  pub index_richlist-IsSaved :
      (height : ℕ) (evc : Option BlockEvents) (s : Listing k b c d)
      → ((c.richlist_length == 0) || (height == 1)) ≡ false
      → (index_richlist k b c d height evc s).0 ≡ ok tt
      → let out = (index_richlist k b c d height evc s).1 in
        (out.list.height ≡ height) × ((before : SafeBatchDb d) × IsSaved height before out)
  unfolding index_richlist update set_height
  index_richlist-IsSaved height evc s n h =
      let at : index_richlist k b c d height evc s ≡ update k b c d height evc s = rw n refl in
      let save = with_extracted k b c d height (save_latest k b c d height) in
      let last : Exec (Listing k b c d) Unit = λ l. (set_height k b c d height >> save) l in
      let rest : Exec (Listing k b c d) Unit = λ l. (apply_changes k b c d evc >> last) l in
      let s1 = (prepare k b c d height s).1 in
      let s2 = (apply_changes k b c d evc s1).1 in
      let s3 = (set_height k b c d height s2).1 in
      let h1 = sym (ap (λ q. q.0) at) ∙ h in
      let (_, e1) = >>-ok (prepare k b c d height) rest s h1 in
      let h2 = sym (ap (λ q. q.0) e1) ∙ h1 in
      let (_, e2) = >>-ok (apply_changes k b c d evc) last s1 h2 in
      let h3 = sym (ap (λ q. q.0) e2) ∙ h2 in
      let (_, e3) = >>-ok (set_height k b c d height) save s2 h3 in
      let (same, all) = with_extracted-IsSaved height s3 (sym (ap (λ q. q.0) e3) ∙ h3) in
      let end = ap (λ q. q.1) (at ∙ e1 ∙ e2 ∙ e3) in
      (
        ap (λ l. l.list.height) end ∙ ap (λ l. l.height) same,
        (s3.batch, subst (IsSaved height s3.batch) (sym end) all),
      )
