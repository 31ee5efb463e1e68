-- ===== src/Range/Pages.antt =====
-- What List of pkg/backend/range.go answers, over the scanner.
use kubebrain.Base.{
  ℕ, zero, suc, ◌<◌, ◌≤◌, ◌≡◌, refl, List, [], ◌∷◌, none, some, Bool, true, false, ◌&&◌, length,
  take, ltb, ◌==◌, if◌then◌else◌, Ordering, arith, All, ap, ◌∙◌, sym,
}
use kubebrain.Base.Bytes.{Bytes, cmp}
use kubebrain.Message.{KeyValue}
use kubebrain.Coder.{encode_object_key}
use kubebrain.Tso.{Tso, get_revision}
use kubebrain.Storage.{KvStorage, listed}
use kubebrain.Range.{Result, reply}
use kubebrain.Range.Page.{RangeResponse, read_limit, page}
use kubebrain.Range.Lists.{read_revision, list_request}
use kubebrain.Scanner.Partitions.{ScannerConfig, ScannerState, begin_scan}
use kubebrain.Scanner.Visible.{Ordered, HasRevision, entries_of, visible}
use kubebrain.Scanner.Ranges.{range-limited}

module _ {A : Type 0} where
  take_more : (n : ℕ) (xs : List A) → ltb n (length (take (suc n) xs)) ≡ ltb n (length xs)
  take_more n [] = refl
  take_more zero (x ∷ xs) = ground arith
  take_more (suc n) (x ∷ xs) = ground (arith, take_more n xs)

  take_less : (n : ℕ) (xs : List A) → take n (take (suc n) xs) ≡ take n xs
  take_less zero xs = refl
  take_less (suc n) [] = refl
  take_less (suc n) (x ∷ xs) = ap (λ l. x ∷ l) (take_less n xs)

  take_all : (n : ℕ) (xs : List A) → length xs ≤ n → take n xs ≡ xs
  take_all zero [] h = refl
  take_all zero (x ∷ xs) h = absurd (omega arith)
  take_all (suc n) [] h = refl
  take_all (suc n) (x ∷ xs) h = ap (λ l. x ∷ l) (take_all n xs (omega arith))

page-take :
    (cur_revision limit : ℕ) (kvs : List KeyValue)
    → 0 < limit
    → limit < 9223372036854775807
    → page cur_revision limit (reply (take (suc limit) kvs))
      ≡ reply (record {
        header_revision = cur_revision;
        more = ltb limit (length kvs);
        kvs = take limit kvs;
      })
unfolding page
page-take cur_revision limit kvs pos fits =
    ap
      (λ b.
        if◌then◌else◌ {A = Result RangeResponse} b
          (reply (response true (take limit (take (suc limit) kvs))))
          (reply (response false (take (suc limit) kvs))))
      more_test
    ∙ by_length (ltb limit (length kvs)) refl
  where
    response : Bool → List KeyValue → RangeResponse
    response more found = record { header_revision = cur_revision; more = more; kvs = found }

    more_test :
        (ltb 0 (read_limit limit) && ltb limit (length (take (suc limit) kvs)))
        ≡ ltb limit (length kvs)
    more_test = ground (arith, pos, fits, take_more limit kvs)

    by_length :
        (b : Bool)
        → ltb limit (length kvs) ≡ b
        → (if◌then◌else◌ {A = Result RangeResponse} b
            (reply (response true (take limit (take (suc limit) kvs))))
            (reply (response false (take (suc limit) kvs))))
          ≡ reply (response b (take limit kvs))
    by_length true longer = ap (λ l. reply (response true l)) (take_less limit kvs)
    by_length false all =
        ap (λ l. reply (response false l))
          (take_all (suc limit) kvs (ground (arith, all))
            ∙ sym (take_all limit kvs (ground (arith, all))))

module _ (K : KvStorage) (config : ScannerConfig) where
  -- A list request with a limit, below the greatest int64, and a proper range, where the engine gives a timestamp, the compact
  -- record allows the revision and the iterator lists some versions in the order of the storage: the
  -- answer has the first of the visible versions at that revision (the published one for 0), as many
  -- as the limit, and says whether there are more.
  pub list_request-page :
      (key end : Bytes) (revision limit tso : ℕ) (n : Tso) (st : ScannerState K) (s s' : K.State)
      (vs : List KeyValue)
      → 0 < limit
      → limit < 9223372036854775807
      → 0 < length end
      → cmp key end ≡ Ordering.lt
      → begin_scan K config (read_revision revision n) false st.kv ≡ (some (tso, none), s)
      → K.iter (encode_object_key key 0) (encode_object_key end 0) tso 0 s
        ≡ (listed (record { entries = entries_of vs; ends = none }), s')
      → All HasRevision vs
      → Ordered vs
      → list_request K config key end revision limit n st
        ≡ some (
          reply (record {
            header_revision = get_revision n;
            more = ltb limit (length (visible (read_revision revision n) config.tombstone vs));
            kvs = take limit (visible (read_revision revision n) config.tombstone vs);
          }),
          record st { kv = s' },
        )
  unfolding list_request
  list_request-page key end revision limit tso n st s s' vs pos fits len lt begun it hr ho =
      let seen = visible (read_revision revision n) config.tombstone vs in
      rw
        (
          list_request,
          not_empty,
          lt,
          more,
          range-limited K config (encode_object_key key 0) (encode_object_key end 0)
              (read_revision revision n) (suc limit) tso st s s' vs (omega arith) begun it hr ho,
        )
        (ap (λ r. some (r, record st { kv = s' })) (page-take (get_revision n) limit seen pos fits))
    where
      not_empty : (length end == 0) ≡ false
      not_empty = ground (arith, len)

      more : read_limit limit ≡ suc limit
      more = ground (arith, pos, fits)
