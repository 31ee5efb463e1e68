-- ===== src/MemKv/Engine.antt =====
-- The engine in memory keeps what the storage interface promises.
use kubebrain.Base.{
  ◌≡◌, refl, ap, sym, ◌∙◌, List, none, some, false, arith, Option-cases, Bool-cases, some_injective,
  inl, inr, [], ◌∷◌,
}
use kubebrain.Base.Bytes.{Bytes, equal}
use kubebrain.Storage.{
  del, del_current, or_nil, Error, BatchOp, found, fetch_failed, key_not_found, is_uncertain,
}
use kubebrain.Storage.Contents.{Contents, apply_op, apply_ops, update}
use kubebrain.MemKv.{SkipList, Store, commit, store_get, mem_kv}
use kubebrain.MemKv.Refine.{view, commit-applied, commit-refused}

module _ (sl : SkipList) where
  store_get-found :
      (key val : Bytes) (s : Store sl)
      → (store_get sl key s).0 ≡ found val
      → view sl s key ≡ some val
  unfolding store_get
  store_get-found key val s h = ground (arith, h)

  store_get-not_found :
      (key : Bytes) (s : Store sl)
      → (store_get sl key s).0 ≡ fetch_failed key_not_found
      → view sl s key ≡ none
  unfolding store_get
  store_get-not_found key s h = ground (arith, h)

  commit-ok :
      (ops : List BatchOp) (s : Store sl)
      → (commit sl ops s).0 ≡ none
      → apply_ops ops (view sl s) ≡ some (view sl (commit sl ops s).1)
  commit-ok ops s h = elim (Option-cases (apply_ops ops (view sl s))) [
    | inl refused ↦ let ((e, failed, _), _) = commit-refused sl ops s refused in absurd (cc)
    | inr (m, done) ↦ done ∙ ap some (sym (commit-applied sl ops s m done).1)
  ]

  commit-failed :
      (ops : List BatchOp) (e : Error) (s : Store sl)
      → (commit sl ops s).0 ≡ some e
      → (view sl (commit sl ops s).1 ≡ view sl s) × (is_uncertain e ≡ false)
  commit-failed ops e s h = elim (Option-cases (apply_ops ops (view sl s))) [
    | inl refused ↦
        let ((f, failed, sure), same) = commit-refused sl ops s refused in
        (ap (view sl) same, ground (arith, failed, sure))
    | inr (m, done) ↦ let ok = (commit-applied sl ops s m done).0 in absurd (cc)
  ]

  del-ok :
      (key : Bytes) (s : Store sl)
      → (commit sl (del key ∷ []) s).0 ≡ none
      → view sl (commit sl (del key ∷ []) s).1 ≡ update (view sl s) key none
  unfolding apply_ops apply_op
  del-ok key s h = sym (some_injective (commit-ok (del key ∷ []) s h))

  del_current-ok :
      (entry : Bytes × Bytes) (s : Store sl)
      → (commit sl (del_current entry.0 entry.1 ∷ []) s).0 ≡ none
      → view sl (commit sl (del_current entry.0 entry.1 ∷ []) s).1 ≡ update (view sl s) entry.0 none
  unfolding apply_ops apply_op
  del_current-ok (key, val) s h = elim (Bool-cases (equal (or_nil (view sl s key)) val)) [
    | inl same ↦
        some_injective (sym (ground (arith, commit-ok (del_current key val ∷ []) s h, same)))
    | inr differs ↦ absurd (ground (arith, commit-ok (del_current key val ∷ []) s h, differs))
  ]

  -- The engine in memory shows its skip list as the map: reads leave it alone, a successful commit
  -- has applied the whole batch, a failed one nothing, and no error is uncertain.
  pub mem_kv-Contents : Contents (mem_kv sl)
  unfolding mem_kv
  mem_kv-Contents = record {
    view = view sl;
    view-get = λ key s. unfold store_get in refl;
    get-found = store_get-found;
    get-not_found = store_get-not_found;
    view-iter = λ start end timestamp limit s. refl;
    commit-ok = commit-ok;
    commit-failed = λ ops e s h sure. (commit-failed ops e s h).0;
    commit-uncertain =
        λ ops e s h open_. absurd (ground (arith, (commit-failed ops e s h).1, open_));
    commit-cas_failed = λ ops e s h cas. (commit-failed ops e s h).1;
    view-get_timestamp_oracle = λ s. refl;
    view-get_partitions = λ start end s. refl;
    del-ok = λ key s h. del-ok key s h;
    del-failed = λ key e s h. inl (commit-failed (del key ∷ []) e s h).0;
    del_current-ok = λ entry s h. del_current-ok entry s h;
    del_current-failed =
        λ entry e s h. inl (commit-failed (del_current entry.0 entry.1 ∷ []) e s h).0;
  }

  pub mem_kv-view :
      (s : (mem_kv sl).State) (key : Bytes)
      → mem_kv-Contents.view s key ≡ (unfold mem_kv in view sl s key)
  unfolding mem_kv mem_kv-Contents
  mem_kv-view s key = refl
