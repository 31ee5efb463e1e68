-- ===== src/MemKv/Refine.antt =====
-- A batch on the engine in memory applies all of its operations to the map, or none.
use kubebrain.Base.{
  ℕ, ◌+◌, ◌≡◌, refl, ap, subst, ◌∙◌, List, [], ◌∷◌, Option, none, some, Bool, true, false,
  if◌then◌else◌, arith, Bool-cases, Option-cases, inl, inr,
}
use mathlib.Core.Path.{fun_ext}
use mathlib.Core.Option.{some-injective}
use kubebrain.Base.Bytes.{Bytes, equal, equal→eq, equal_refl}
use kubebrain.Storage.{
  Error, BatchOp, put_if_not_exist, cas, put, del, del_current, is_uncertain, cas_failed, conflict,
}
use kubebrain.Storage.Contents.{Map, update, apply_op, apply_ops}
use kubebrain.MemKv.{
  SkipList, CacheVal, Cache, lookup, insert, Store, Batch, begin_batch_write, batch_get, batch_step,
  batch_op, batch_ops, flush_entry, flush, batch_commit, commit, live, deleted,
}

abbrev is_none : Option Bytes → Bool
is_none none = true
is_none (some a) = false

pub lookup-insert :
    (key j : Bytes) (v : CacheVal) (cache : Cache)
    → lookup j (insert key v cache) ≡ (if equal key j then some v else lookup j cache)
unfolding lookup insert
lookup-insert key j v [] = refl
lookup-insert key j v ((i, w) ∷ cache) = ground (
  arith,
  lookup-insert key j v cache,
  equal→eq i key,
  equal→eq i j,
  equal→eq key j,
  equal_refl j,
  equal_refl key,
)

module _ (sl : SkipList) where
  -- the map that a store stands for
  abbrev pub view : Store sl → Map
  view s = sl.get s.skl

  -- what a batch makes of the map of its store
  abbrev overlay : Cache → Map → Map
  overlay cache m key = elim (lookup key cache) [ none ↦ m key | some v ↦ v.val ]

  -- Deleted keys, and only those, have no value.
  abbrev IsProper : CacheVal → Type 0
  IsProper v = v.is_deleted ≡ is_none v.val

  abbrev AreProper : Cache → Type 0
  AreProper [] = Unit
  AreProper ((k, v) ∷ cache) = IsProper v × AreProper cache

  overlay-insert :
      (key j : Bytes) (v : CacheVal) (cache : Cache) (m : Map)
      → overlay (insert key v cache) m j ≡ update (overlay cache m) key v.val j
  overlay-insert key j v cache m = ground (arith, lookup-insert key j v cache)

  -- Walking the cache writes the overlay to the store.
  view-flush :
      (cache : Cache) (s : Store sl) (j : Bytes)
      → AreProper cache
      → view (flush sl cache s) j ≡ overlay cache (view s) j
  unfolding flush flush_entry lookup
  view-flush [] s j p = refl
  view-flush ((k, v) ∷ cache) s j p =
      let ih = view-flush cache s j p.1 in
      elim (Option-cases v.val) [
        | inl gone ↦
            let dead : v.is_deleted ≡ true = p.0 ∙ ap is_none gone in
            ground (arith, gone, dead, sl.get-remove k (flush sl cache s).skl j, ih)
        | inr (w, here) ↦
            let alive : v.is_deleted ≡ false = p.0 ∙ ap is_none here in
            ground (arith, here, alive, sl.get-set k w (flush sl cache s).skl j, ih)
      ]

  insert-AreProper :
      (key : Bytes) (v : CacheVal) (cache : Cache)
      → IsProper v
      → AreProper cache
      → AreProper (insert key v cache)
  unfolding insert
  insert-AreProper key v [] p ps = (p, tt)
  insert-AreProper key v ((j, w) ∷ cache) p ps = elim (Bool-cases (equal j key)) [
    | inl same ↦ rw same (p, ps.1)
    | inr other ↦ rw other (ps.0, insert-AreProper key v cache p ps.1)
  ]

  -- A batch without an error stands for a map, and keeps its store.
  record Stands (b : Batch sl) (s : Store sl) (m : Map) : Type 0 where
    no_err : b.err ≡ none
    proper : AreProper b.cache
    same : b.store ≡ s
    map : (key : Bytes) → overlay b.cache (view b.store) key ≡ m key

  module _ {b : Batch sl} {s : Store sl} {m : Map} (r : Stands b s m) where
    batch_get-map : (key : Bytes) → batch_get sl b key ≡ m key
    unfolding batch_get
    batch_get-map key = r.map key

    write-Stands :
        (key : Bytes) (v : CacheVal) (n : ℕ)
        → IsProper v
        → Stands (record b { cache = insert key v b.cache; op_count = n }) s (update m key v.val)
    write-Stands key v n p = record {
      no_err = r.no_err;
      proper = insert-AreProper key v b.cache p r.proper;
      same = r.same;
      map = λ j.
          overlay-insert key j v b.cache (view b.store)
          ∙ ap (λ o. if equal key j then v.val else o) (r.map j);
    }

    wrote :
        (key : Bytes) (v : CacheVal) (b' : Batch sl) (m' : Map)
        → IsProper v
        → b' ≡ record b { cache = insert key v b.cache; op_count = b.op_count + 1 }
        → update m key v.val ≡ m'
        → Stands b' s m'
    wrote key v b' m' p e f = subst (Stands b' s) f (rw e (write-Stands key v (b.op_count + 1) p))

    -- An operation whose condition holds is done.
    batch_step-Stands :
        (op : BatchOp) (m' : Map) → apply_op op m ≡ some m' → Stands (batch_step sl op b) s m'
    unfolding batch_step apply_op
    batch_step-Stands (put_if_not_exist key val ttl) m' h =
        wrote key (live sl val ttl) _ m' refl (ground (arith, batch_get-map key, h))
          (ground (arith, h))
    batch_step-Stands (cas key new_val old_val ttl) m' h =
        wrote key (live sl new_val ttl) _ m' refl (ground (arith, batch_get-map key, h))
          (ground (arith, h))
    batch_step-Stands (put key val ttl) m' h =
        wrote key (live sl val ttl) _ m' refl refl (some-injective _ _ h)
    batch_step-Stands (del key) m' h = wrote key (deleted sl) _ m' refl refl (some-injective _ _ h)
    batch_step-Stands (del_current key val) m' h =
        wrote key (deleted sl) _ m' refl (ground (arith, batch_get-map key, h)) (ground (arith, h))

    -- An operation whose condition fails sets an error that is not uncertain.
    batch_step-refused :
        (op : BatchOp)
        → apply_op op m ≡ none
        → (e : Error) × ((batch_step sl op b).err ≡ some e) × (is_uncertain e ≡ false)
    unfolding batch_step apply_op is_uncertain
    batch_step-refused (put_if_not_exist key val ttl) h =
        (conflict b.op_count key (m key), ground (arith, batch_get-map key, h), refl)
    batch_step-refused (cas key new_val old_val ttl) h = (
      conflict b.op_count key (elim (m key) [ none ↦ none | some old ↦ some old_val ]),
      ground (arith, batch_get-map key, h),
      refl,
    )
    batch_step-refused (put key val ttl) h = cc
    batch_step-refused (del key) h = cc
    batch_step-refused (del_current key val) h =
        (cas_failed, ground (arith, batch_get-map key, h), refl)

  batch_op-clean :
      (op : BatchOp) (b : Batch sl) → b.err ≡ none → batch_op sl op b ≡ batch_step sl op b
  unfolding batch_op
  batch_op-clean op b h = ground arith

  batch_op-err : (op : BatchOp) (b : Batch sl) (e : Error) → b.err ≡ some e → batch_op sl op b ≡ b
  unfolding batch_op
  batch_op-err op b e h = ground arith

  batch_commit-clean :
      (b : Batch sl) → b.err ≡ none → batch_commit sl b ≡ (none, flush sl b.cache b.store)
  unfolding batch_commit
  batch_commit-clean b h = ground arith

  batch_commit-err :
      (b : Batch sl) (e : Error) → b.err ≡ some e → batch_commit sl b ≡ (some e, b.store)
  unfolding batch_commit
  batch_commit-err b e h = ground arith

  batch_ops-err :
      (ops : List BatchOp) (b : Batch sl) (e : Error)
      → b.err ≡ some e
      → (batch_ops sl ops b).err ≡ some e
  unfolding batch_ops
  batch_ops-err [] b e h = h
  batch_ops-err (op ∷ ops) b e h = rw (batch_op-err op b e h, batch_ops) (batch_ops-err ops b e h)

  store-batch_step : (op : BatchOp) (b : Batch sl) → (batch_step sl op b).store ≡ b.store
  unfolding batch_step
  store-batch_step (put_if_not_exist key val ttl) b = ground arith
  store-batch_step (cas key new_val old_val ttl) b = ground arith
  store-batch_step (put key val ttl) b = refl
  store-batch_step (del key) b = refl
  store-batch_step (del_current key val) b = ground arith

  store-batch_ops : (ops : List BatchOp) (b : Batch sl) → (batch_ops sl ops b).store ≡ b.store
  unfolding batch_ops batch_op
  store-batch_ops [] b = refl
  store-batch_ops (op ∷ ops) b =
      store-batch_ops ops (batch_op sl op b) ∙ ground (arith, store-batch_step op b)

  batch_ops-Stands :
      (ops : List BatchOp) (b : Batch sl) (s : Store sl) (m m' : Map)
      → Stands b s m
      → apply_ops ops m ≡ some m'
      → Stands (batch_ops sl ops b) s m'
  unfolding batch_ops apply_ops
  batch_ops-Stands [] b s m m' r h = subst (Stands b s) (some-injective _ _ h) r
  batch_ops-Stands (op ∷ ops) b s m m' r h = elim (Option-cases (apply_op op m)) [
    | inl refused ↦ absurd (ground (arith, refused, h))
    | inr (n, done) ↦ rw (batch_op-clean op b r.no_err) (
        batch_ops-Stands ops (batch_step sl op b) s n m' (batch_step-Stands r op n done)
          (ground (arith, done, h)))
  ]

  batch_ops-refused :
      (ops : List BatchOp) (b : Batch sl) (s : Store sl) (m : Map)
      → Stands b s m
      → apply_ops ops m ≡ none
      → (e : Error) × ((batch_ops sl ops b).err ≡ some e) × (is_uncertain e ≡ false)
  unfolding batch_ops apply_ops
  batch_ops-refused [] b s m r h = absurd (cc)
  batch_ops-refused (op ∷ ops) b s m r h = elim (Option-cases (apply_op op m)) [
    | inl refused ↦
        let (e, set, sure) = batch_step-refused r op refused in
        rw (batch_op-clean op b r.no_err, batch_ops)
          (e, batch_ops-err ops (batch_step sl op b) e set, sure)
    | inr (n, done) ↦
        rw (batch_op-clean op b r.no_err, batch_ops)
          (batch_ops-refused ops (batch_step sl op b) s n (batch_step-Stands r op n done)
            (ground (arith, done, h)))
  ]

  begin-Stands : (s : Store sl) → Stands (begin_batch_write sl s) s (view s)
  unfolding begin_batch_write lookup
  begin-Stands s = record { no_err = refl; proper = tt; same = refl; map = λ key. refl }

  -- If every condition of a batch holds as its operations are applied one after the other, the
  -- commit succeeds and the store holds the result.
  pub commit-applied :
      (ops : List BatchOp) (s : Store sl) (m : Map)
      → apply_ops ops (view s) ≡ some m
      → ((commit sl ops s).0 ≡ none) × (view (commit sl ops s).1 ≡ m)
  unfolding commit
  commit-applied ops s m h =
      let r = batch_ops-Stands ops (begin_batch_write sl s) s (view s) m (begin-Stands s) h in
      let clean = batch_commit-clean (batch_ops sl ops (begin_batch_write sl s)) r.no_err in
      (
        ap (λ p. p.0) clean,
        ap (λ (p : Option Error × Store sl). view p.1) clean
            ∙ (fun_ext λ j.
                view-flush (batch_ops sl ops (begin_batch_write sl s)).cache
                  (batch_ops sl ops (begin_batch_write sl s)).store j r.proper
                ∙ r.map j),
      )

  -- If a condition of a batch fails, the commit returns an error that is not uncertain, and the
  -- store, timers included, is left as it was.
  pub commit-refused :
      (ops : List BatchOp) (s : Store sl)
      → apply_ops ops (view s) ≡ none
      → ((e : Error) × ((commit sl ops s).0 ≡ some e) × (is_uncertain e ≡ false))
        × ((commit sl ops s).1 ≡ s)
  unfolding commit
  commit-refused ops s h =
      let (e, set, sure) =
        batch_ops-refused ops (begin_batch_write sl s) s (view s) (begin-Stands s) h in
      let failed = batch_commit-err (batch_ops sl ops (begin_batch_write sl s)) e set in
      (
        (e, ap (λ p. p.0) failed, sure),
        ap (λ p. p.1) failed
            ∙ store-batch_ops ops (begin_batch_write sl s)
            ∙ (unfold begin_batch_write in refl),
      )
