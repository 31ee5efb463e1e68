-- ===== src/Scanner/Reads/Rounds.antt =====
-- What a reading worker of pkg/backend/scanner passes on, round by round.
use kubebrain.Base.{
  ℕ, ◌+◌, ◌≡◌, ◌⊎◌, refl, inl, inr, List, [], ◌∷◌, Option, none, some, Bool, true, false, not, ◌&&◌,
  length, ltb, leb, if◌then◌else◌, arith, All, Bool-cases, ap, ◌∙◌, sym, subst,
}
use kubebrain.Base.Bytes.{equal}
use kubebrain.Message.{KeyValue}
use kubebrain.Storage.{Error, KvStorage}
use kubebrain.Scanner.Receiver.{
  need_more, append, flush, collect, is_unlimited, need_more-unlimited, flush-full, collect-full,
  collect-more, is_unlimited-append,
}
use kubebrain.Scanner.Worker.{
  WorkerConfig, Scan, eof, visit, process_prev, compact_tombstone, compact_index, remember, loop,
  finish, conclude,
}
use kubebrain.Scanner.Steps.{HasNoExpiry, loop-step, loop-full}
use kubebrain.Scanner.Visible.{Before, HasRevision, entry_of, entries_of, shown, replaced, visible}
use kubebrain.Scanner.Visible.Order.{replaced-other}

-- a read: no compaction, and so no lifetimes
pub record IsRead (conf : WorkerConfig) : Type 0 where
  pub no_compaction : conf.compact ≡ false
  pub no_timeout : conf.timeout_revision ≡ 0

module _ (K : KvStorage) where
  pub no_expiry : (conf : WorkerConfig) → IsRead conf → HasNoExpiry K conf
  no_expiry conf h = ground (arith, h.no_timeout)

  pub visit-above :
      (conf : WorkerConfig) (v : KeyValue) (sc : Scan K)
      → ltb conf.revision v.revision ≡ true
      → visit K conf (entry_of v) v.key v.revision sc ≡ sc
  unfolding visit
  visit-above conf v sc h = rw h refl

  pub visit-same :
      (conf : WorkerConfig) (v : KeyValue) (sc : Scan K)
      → IsRead conf
      → ltb conf.revision v.revision ≡ false
      → equal v.key sc.prev_user_key ≡ true
      → visit K conf (entry_of v) v.key v.revision sc ≡ remember K (entry_of v) v.key v.revision sc
  unfolding visit process_prev compact_tombstone compact_index
  visit-same conf v sc h above same = rw (above, same, h.no_compaction) refl

  abbrev pub prev_of : Scan K → KeyValue
  prev_of sc = record { key = sc.prev_user_key; value = sc.prev_value; revision = sc.prev_revision }

  module _ (conf : WorkerConfig) (h : IsRead conf) where
    abbrev pub outcome_of : List KeyValue → Scan K → Option ((ℕ × Option Error) × Scan K)
    outcome_of vs sc = conclude K conf (loop K conf (entries_of vs) none sc)

    -- What a run leaves, with `kvs` to pass on: the receiver that has them, with the storage as before.
    pub record Passes (sc : Scan K) (kvs : List KeyValue) (o : Option ((ℕ × Option Error) × Scan K))
        : Type 0 where
      pub end : (ℕ × Option Error) × Scan K
      pub ran : o ≡ some end
      pub passed : end.1.receiver ≡ flush (collect sc.receiver kvs)
      pub kept : end.1.kv ≡ sc.kv
      pub no_error : end.0.1 ≡ none
      pub counted : is_unlimited sc.receiver ≡ true → end.0.0 ≡ sc.count + length kvs

    -- One scan stands for another: with the same to pass on in the end.
    pub Passes-from :
        (sc sc' : Scan K) (kvs kvs' : List KeyValue) (o : Option ((ℕ × Option Error) × Scan K))
        → collect sc'.receiver kvs' ≡ collect sc.receiver kvs
        → sc'.kv ≡ sc.kv
        → is_unlimited sc'.receiver ≡ is_unlimited sc.receiver
        → sc'.count + length kvs' ≡ sc.count + length kvs
        → Passes sc' kvs' o
        → Passes sc kvs o
    Passes-from sc sc' kvs kvs' o same kv un cnt p = record {
      end = p.end;
      ran = p.ran;
      passed = p.passed ∙ ap flush same;
      kept = p.kept ∙ kv;
      no_error = p.no_error;
      counted = λ u. p.counted (un ∙ u) ∙ cnt;
    }

    pub Passes-full :
        (vs : List KeyValue) (sc : Scan K) (kvs : List KeyValue)
        → need_more sc.receiver ≡ false
        → Passes sc kvs (outcome_of vs sc)
    Passes-full vs sc kvs h = record {
      end = ((0, none), sc);
      ran = ap (conclude K conf) (loop-full K conf vs none sc h) ∙ unfold conclude finish in refl;
      passed = sym (ap flush (collect-full sc.receiver kvs h) ∙ flush-full sc.receiver h);
      kept = refl;
      no_error = refl;
      counted = λ u. absurd (ground (arith, h, need_more-unlimited sc.receiver u));
    }

    abbrev pub is_shown_prev : Scan K → Bool
    is_shown_prev sc = ltb 0 sc.prev_revision && not (equal sc.prev_value conf.tombstone)

    -- the scan after its last version was passed on
    abbrev pub passed_prev : Scan K → Scan K
    passed_prev sc = record sc {
      receiver = append sc.prev_user_key sc.prev_value sc.prev_revision sc.receiver;
      count = sc.count + 1;
    }

    pub visible-last :
        (sc : Scan K)
        → leb sc.prev_revision conf.revision ≡ true
        → visible conf.revision conf.tombstone (prev_of sc ∷ [])
          ≡ (if is_shown_prev sc then prev_of sc ∷ [] else [])
    unfolding visible shown replaced
    visible-last sc h = ground (arith, h)

    finish-shown :
        (sc : Scan K)
        → need_more sc.receiver ≡ true
        → is_shown_prev sc ≡ true
        → finish K conf eof sc ≡ (
          (sc.count + 1, none),
          record (passed_prev sc) { receiver = flush (passed_prev sc).receiver },
        )
    unfolding finish
    finish-shown sc more h = ground (arith, more, h)

    finish-hidden :
        (sc : Scan K)
        → is_shown_prev sc ≡ false
        → finish K conf eof sc ≡ ((sc.count, none), record sc { receiver = flush sc.receiver })
    unfolding finish
    finish-hidden sc h = ground (arith, h)

    pub loop-last :
        (sc : Scan K)
        → need_more sc.receiver ≡ true
        → Passes sc (if is_shown_prev sc then prev_of sc ∷ [] else []) (outcome_of [] sc)
    unfolding loop conclude collect
    loop-last sc more = elim (Bool-cases (is_shown_prev sc)) [
      | inl yes_ ↦ record {
        end = (
          (sc.count + 1, none),
          record (passed_prev sc) { receiver = flush (passed_prev sc).receiver },
        );
        ran = rw more (ap some (finish-shown sc more yes_));
        passed = rw (yes_, more) refl;
        kept = refl;
        no_error = refl;
        counted = λ u. rw yes_ refl;
      }
      | inr no_ ↦ record {
        end = ((sc.count, none), record sc { receiver = flush sc.receiver });
        ran = rw more (ap some (finish-hidden sc no_));
        passed = rw no_ refl;
        kept = refl;
        no_error = refl;
        counted = λ u. rw no_ (omega arith);
      }
    ]

    pub outcome-step :
        (v : KeyValue) (vs : List KeyValue) (sc sc' : Scan K)
        → HasRevision v
        → need_more sc.receiver ≡ true
        → visit K conf (entry_of v) v.key v.revision sc ≡ sc'
        → outcome_of (v ∷ vs) sc ≡ outcome_of vs sc'
    outcome-step v vs sc sc' b more e =
        ap (conclude K conf) (loop-step K conf v vs none sc sc' (no_expiry conf h) b more e)

    pub visit-other :
        (v : KeyValue) (sc : Scan K)
        → ltb conf.revision v.revision ≡ false
        → equal v.key sc.prev_user_key ≡ false
        → visit K conf (entry_of v) v.key v.revision sc
          ≡ remember K
              (entry_of v)
              v.key
              v.revision
              (if is_shown_prev sc then passed_prev sc else sc)
    unfolding visit process_prev compact_tombstone compact_index
    visit-other v sc above other = rw (above, other, h.no_compaction) refl

    pub visible-other :
        (v : KeyValue) (vs : List KeyValue) (sc : Scan K)
        → leb sc.prev_revision conf.revision ≡ true
        → (sc.prev_revision ≡ 0) ⊎ (replaced conf.revision sc.prev_user_key (v ∷ vs) ≡ false)
        → visible conf.revision conf.tombstone (prev_of sc ∷ v ∷ vs) ≡ (
            if is_shown_prev sc
            then prev_of sc ∷ visible conf.revision conf.tombstone (v ∷ vs)
            else visible conf.revision conf.tombstone (v ∷ vs))
    unfolding visible shown
    visible-other v vs sc hl hr = ground (arith, hl, hr)

    pub Passes-eq :
        (sc : Scan K) {kvs kvs' : List KeyValue} {o o' : Option ((ℕ × Option Error) × Scan K)}
        → kvs ≡ kvs'
        → o ≡ o'
        → Passes sc kvs' o'
        → Passes sc kvs o
    Passes-eq sc {kvs = kvs} {o' = o'} e f p =
        subst (Passes sc kvs) (sym f) (subst (λ l. Passes sc l o') (sym e) p)

    pub prev_of-not_replaced :
        (v : KeyValue) (vs : List KeyValue) (sc : Scan K)
        → All (Before v) vs
        → (sc.prev_revision ≡ 0) ⊎ All (Before (prev_of sc)) (v ∷ vs)
        → equal v.key sc.prev_user_key ≡ false
        → (sc.prev_revision ≡ 0) ⊎ (replaced conf.revision sc.prev_user_key (v ∷ vs) ≡ false)
    prev_of-not_replaced v vs sc b (inl z) ne = inl z
    prev_of-not_replaced v vs sc b (inr a) ne =
        inr (replaced-other conf.revision (prev_of sc) v vs a.0 b ne)

    -- The version before the one at hand is passed on or not, and the scan goes on behind it.
    pub Passes-other :
        (v : KeyValue) (kvs : List KeyValue) (sc : Scan K)
        (o : Option ((ℕ × Option Error) × Scan K))
        → need_more sc.receiver ≡ true
        → Passes
            (remember K
              (entry_of v)
              v.key
              v.revision
              (if is_shown_prev sc then passed_prev sc else sc))
            kvs
            o
        → Passes sc (if is_shown_prev sc then prev_of sc ∷ kvs else kvs) o
    Passes-other v kvs sc o more p = go (is_shown_prev sc) p
      where
        go :
            (b : Bool)
            → Passes
                (remember K (entry_of v) v.key v.revision (if b then passed_prev sc else sc))
                kvs
                o
            → Passes sc (if b then prev_of sc ∷ kvs else kvs) o
        go true q =
            Passes-from sc (remember K (entry_of v) v.key v.revision (passed_prev sc))
              (prev_of sc ∷ kvs) kvs o (sym (collect-more sc.receiver (prev_of sc) kvs more)) refl
              (is_unlimited-append sc.prev_user_key sc.prev_value sc.prev_revision sc.receiver)
              (omega arith) q
        go false q =
            Passes-from sc (remember K (entry_of v) v.key v.revision sc) kvs kvs o refl refl refl
              refl q

    pub prev_of-tail :
        (v : KeyValue) (vs : List KeyValue) (sc : Scan K)
        → (sc.prev_revision ≡ 0) ⊎ All (Before (prev_of sc)) (v ∷ vs)
        → (sc.prev_revision ≡ 0) ⊎ All (Before (prev_of sc)) vs
    prev_of-tail v vs sc (inl z) = inl z
    prev_of-tail v vs sc (inr a) = inr a.1
