-- ===== src/Store/Models/Replaced.antt =====
-- internal/store/account_models.go: which models an account has after a refresh.
use one_llm_router.Prelude.{
  ◌≡◌, refl, sym, ap, ◌∙◌, String, Bool, true, false, not, ◌&&◌, ◌||◌, Option, none, some, List, [],
  ◌∷◌, ◌++◌, str_eq, eq_iff, contains, arith, if_intro, Bool-cases, inl, inr,
}
use one_llm_router.Prelude.Int.{ℤ, eq_ℤ, eq_ℤ_iff}
use one_llm_router.Store.Models.{
  AccountModel, AccountModelDraft, Source, manual, upstream, other_source, is_manual, is_upstream,
  is_model_row, any_row, has_model, delete_rows, manual_ids, is_replaced, deduped, set_metadata,
  split_drafts, replace_upstream_models,
}

abbrev pub draft_ids : List AccountModelDraft → List String
draft_ids [] = []
draft_ids (draft ∷ drafts) = draft.id ∷ draft_ids drafts

any_row-append :
    (p : AccountModel → Bool) (xs ys : List AccountModel)
    → any_row p (xs ++ ys) ≡ any_row p xs || any_row p ys
any_row-append p [] ys = refl
any_row-append p (x ∷ xs) ys = ground (arith, any_row-append p xs ys)

not_manual : (source : Source) → is_upstream source ≡ true → is_manual source ≡ false
not_manual upstream h = refl
not_manual manual h = cc
not_manual (other_source s) h = refl

module _ (account : ℤ) (id : String) where
  -- An update of metadata takes no model away and adds none.
  any_row-set_metadata :
      (target : ℤ) (other : String) (meta : Option String) (rows : List AccountModel)
      → any_row (is_model_row account id) (set_metadata target other meta rows)
        ≡ any_row (is_model_row account id) rows
  any_row-set_metadata target other none rows = refl
  any_row-set_metadata target other (some meta) [] = refl
  any_row-set_metadata target other (some meta) (row ∷ rows) =
      let rest = any_row-set_metadata target other (some meta) rows in
      elim (Bool-cases (is_model_row target other row && is_manual row.source)) [
        | inl t ↦ rw (t, rest) refl
        | inr f ↦ rw (f, rest) refl
      ]

  skipped-same :
      (seen : List String) (draft : AccountModelDraft) (drafts : List AccountModelDraft)
      → (str_eq draft.id "" || contains seen draft.id) ≡ true
      → contains (draft_ids (deduped seen drafts)) id
        ≡ not (contains seen id) && not (str_eq id "") && contains (draft_ids drafts) id
      → contains (draft_ids (deduped seen drafts)) id
        ≡ not (contains seen id) && not (str_eq id "") && contains (draft_ids (draft ∷ drafts)) id
  skipped-same seen draft drafts skip rest = elim (Bool-cases (str_eq draft.id id)) [
    | inl own ↦
        let e = (eq_iff draft.id id).0 own in
        ground (arith, skip, rest, ap (λ s. str_eq s "") e, ap (contains seen) e)
    | inr other ↦ rw other rest
  ]

  kept-same :
      (seen : List String) (draft : AccountModelDraft) (drafts : List AccountModelDraft)
      → (str_eq draft.id "" || contains seen draft.id) ≡ false
      → contains (draft_ids (deduped (draft.id ∷ seen) drafts)) id
        ≡ not (contains (draft.id ∷ seen) id)
          && not (str_eq id "")
          && contains (draft_ids drafts) id
      → contains (draft_ids (draft ∷ deduped (draft.id ∷ seen) drafts)) id
        ≡ not (contains seen id) && not (str_eq id "") && contains (draft_ids (draft ∷ drafts)) id
  kept-same seen draft drafts keep rest = elim (Bool-cases (str_eq draft.id id)) [
    | inl own ↦
        let e = (eq_iff draft.id id).0 own in
        ground (arith, keep, rest, own, ap (λ s. str_eq s "") e, ap (contains seen) e)
    | inr other ↦ ground (arith, rest, other)
  ]

  contains-deduped :
      (seen : List String) (drafts : List AccountModelDraft)
      → contains (draft_ids (deduped seen drafts)) id
        ≡ not (contains seen id) && not (str_eq id "") && contains (draft_ids drafts) id
  contains-deduped seen [] = elim (Bool-cases (contains seen id)) [
    | inl t ↦ rw t refl
    | inr f ↦ ground arith
  ]
  contains-deduped seen (draft ∷ drafts) =
      if_intro
        (λ (l : List AccountModelDraft).
          contains (draft_ids l) id
          ≡ not (contains seen id)
            && not (str_eq id "")
            && contains (draft_ids (draft ∷ drafts)) id)
        (str_eq draft.id "" || contains seen draft.id)
        (λ skip. skipped-same seen draft drafts skip (contains-deduped seen drafts))
        (λ keep. kept-same seen draft drafts keep (contains-deduped (draft.id ∷ seen) drafts))

  -- The split leaves the models that were there or to insert, and those of the drafts.
  split_drafts-model :
      (target : ℤ) (manuals : List String) (drafts : List AccountModelDraft)
      (rows to_insert : List AccountModel)
      → (contains manuals id ≡ true
          → eq_ℤ target account ≡ true
          → any_row (is_model_row account id) rows ≡ true)
      → (let (kept, added) = split_drafts target manuals drafts rows to_insert in
          any_row (is_model_row account id) kept || any_row (is_model_row account id) added)
        ≡ (any_row (is_model_row account id) rows || any_row (is_model_row account id) to_insert)
          || (eq_ℤ target account && contains (draft_ids drafts) id)
  split_drafts-model target manuals [] rows to_insert known = ground arith
  split_drafts-model target manuals (draft ∷ drafts) rows to_insert known =
      if_intro
        (λ (p : List AccountModel × List AccountModel).
          (any_row (is_model_row account id) p.0 || any_row (is_model_row account id) p.1)
          ≡ (any_row (is_model_row account id) rows || any_row (is_model_row account id) to_insert)
            || (eq_ℤ target account && contains (draft_ids (draft ∷ drafts)) id))
        (contains manuals draft.id)
        (λ present.
          let same = any_row-set_metadata target draft.id draft.metadata rows in
          let rest =
            split_drafts-model target manuals drafts
              (set_metadata target draft.id draft.metadata rows) to_insert
              (λ c e. same ∙ known c e) in
          elim (Bool-cases (str_eq draft.id id)) [
            | inl own ↦
                let named : contains manuals id ≡ true =
                  sym (ap (contains manuals) ((eq_iff draft.id id).0 own)) ∙ present in
                elim (Bool-cases (eq_ℤ target account)) [
                  | inl here ↦ ground (arith, rest, same, own, known named here)
                  | inr there ↦ ground (arith, rest, same, there)
                ]
            | inr other ↦ ground (arith, rest, same, other)
          ])
        (λ absent.
          let new_row : AccountModel = record {
            account_id = target;
            model_id = draft.id;
            source = upstream;
            metadata = draft.metadata;
          } in
          let rest =
            split_drafts-model target manuals drafts rows (to_insert ++ new_row ∷ []) known in
          ground (arith, rest, any_row-append (is_model_row account id) to_insert (new_row ∷ [])))

  gone_manual :
      (target : ℤ) (row : AccountModel) (rows : List AccountModel)
      → is_replaced target row ≡ true
      → contains (manual_ids target (row ∷ rows)) id ≡ true
      → contains (manual_ids target rows) id ≡ true
  gone_manual target row rows gone h =
      let upstream_row : is_manual row.source ≡ false =
        not_manual row.source (ground (arith, gone)) in
      ground (arith, gone, h, upstream_row)

  other_manual :
      (target : ℤ) (row : AccountModel) (rows : List AccountModel)
      → is_model_row account id row ≡ false
      → eq_ℤ target account ≡ true
      → contains (manual_ids target (row ∷ rows)) id ≡ true
      → contains (manual_ids target rows) id ≡ true
  other_manual target row rows other here h =
      ground (arith, other, h, ap (λ t. eq_ℤ row.account_id t) ((eq_ℤ_iff target account).0 here))

  -- A manual row is not deleted.
  manual_ids-kept :
      (target : ℤ) (rows : List AccountModel)
      → contains (manual_ids target rows) id ≡ true
      → eq_ℤ target account ≡ true
      → any_row (is_model_row account id) (delete_rows (is_replaced target) rows) ≡ true
  manual_ids-kept target [] h here = cc
  manual_ids-kept target (row ∷ rows) h here =
      let kept = delete_rows (is_replaced target) rows in
      if_intro (λ (l : List AccountModel). any_row (is_model_row account id) l ≡ true)
        (is_replaced target row)
        (λ gone. manual_ids-kept target rows (gone_manual target row rows gone h) here)
        (λ stays. elim (Bool-cases (is_model_row account id row)) [
          | inl own ↦ rw own refl
          | inr other ↦
              rw other
                (manual_ids-kept target rows (other_manual target row rows other here h) here)
        ])

module _ (account target : ℤ) (id : String) (drafts : List AccountModelDraft)
    (rows : List AccountModel) where
  -- After a refresh of an account, an account has a model exactly if it had it in a row that the refresh
  -- does not replace, or it is that account and upstream lists the model. No model has the empty name.
  pub replaced_models :
      has_model account id (replace_upstream_models target drafts rows).rows
      ≡ has_model account id (delete_rows (is_replaced target) rows)
        || (eq_ℤ target account && not (str_eq id "") && contains (draft_ids drafts) id)
  unfolding has_model replace_upstream_models
  replaced_models =
      let manuals = manual_ids target rows in
      let kept = delete_rows (is_replaced target) rows in
      let parts = split_drafts target manuals (deduped [] drafts) kept [] in
      let split =
        split_drafts-model account id target manuals (deduped [] drafts) kept []
          (manual_ids-kept account id target rows) in
      let joined = any_row-append (is_model_row account id) parts.0 parts.1 in
      let drafted = contains-deduped account id [] drafts in
      elim (Bool-cases (str_eq id "")) [
        | inl empty ↦ ground (arith, empty)
        | inr named ↦ ground (arith, named, split, joined, drafted)
      ]
