-- ===== src/Scanner/Receiver.antt =====
-- pkg/backend/scanner/receiver.go: what becomes of the results of a scan. A stream is the list of the
-- responses that were sent on it.
use kubebrain.Base.{
  ℕ, ◌+◌, ◌-◌, List, [], ◌∷◌, ◌++◌, Option, none, Bool, true, false, not, ◌||◌, length, take, ltb,
  leb, if◌then◌else◌, ◌≡◌, refl, inl, inr, arith, Bool-cases, zero, suc, length-append, ap, sym,
  ◌∙◌, append-nil, append_assoc, ◌<◌,
}
use kubebrain.Base.Bytes.{Bytes}
use kubebrain.Message.{KeyValue}
use kubebrain.Storage.{Error}

abbrev pub range_stream_batch : ℕ
range_stream_batch = 300

pub record StreamRangeResponse : Type 0 where
  pub header_revision : ℕ
  pub kvs : List KeyValue
  pub more : Bool
  pub err : Option Error

-- emptyResultReceiver, commonResultReceiver and streamResultReceiver
pub data Receiver : Type 0 where
  empty_result : Receiver
  common_result : (result : List KeyValue) (limit : ℕ) → Receiver
  stream_result :
      (read_rev : ℕ) (batch : List KeyValue) (stream : List StreamRangeResponse) → Receiver

abbrev pub is_limited : ℕ → Bool
is_limited limit = ltb 0 limit

unfoldable pub need_more : Receiver → Bool
need_more (common_result result limit) = not (is_limited limit) || ltb (length result) limit
need_more _ = true

abbrev pub batch_response : ℕ → List KeyValue → StreamRangeResponse
batch_response read_rev batch = record {
  header_revision = read_rev;
  kvs = batch;
  more = true;
  err = none;
}

unfoldable pub append : (key value : Bytes) (revision : ℕ) → Receiver → Receiver
append key value revision empty_result = empty_result
append key value revision (common_result result limit) =
    common_result (result ++ record { key = key; value = value; revision = revision } ∷ []) limit
append key value revision (stream_result read_rev batch stream) =
    let batch' : List KeyValue =
      batch ++ record { key = key; value = value; revision = revision } ∷ [] in
    if leb range_stream_batch (length batch')
    then stream_result read_rev [] (stream ++ batch_response read_rev batch' ∷ [])
    else stream_result read_rev batch' stream

unfoldable pub flush : Receiver → Receiver
flush (stream_result read_rev [] stream) = stream_result read_rev [] stream
flush (stream_result read_rev (kv ∷ batch) stream) =
    stream_result read_rev [] (stream ++ batch_response read_rev (kv ∷ batch) ∷ [])
flush r = r

unfoldable pub close : Receiver → Receiver
unfolding flush
close r = flush r

unfoldable pub reset : Receiver → Receiver
reset empty_result = empty_result
reset (common_result result limit) = common_result [] limit
reset (stream_result read_rev batch stream) = stream_result read_rev [] stream

-- A fork of a stream receiver has the stream, and no revision. What it sends is told apart from what
-- the others send until it is merged.
unfoldable pub fork : Receiver → Receiver
fork empty_result = empty_result
fork (common_result result limit) = common_result [] limit
fork (stream_result read_rev batch stream) = stream_result 0 [] []

-- A result never exceeds its limit, so the difference is exact. The stream is shared: merging does
-- nothing to it, and what the fork sent is on it.
unfoldable pub merge : Receiver → Receiver → Receiver
merge (common_result result limit) (common_result sub _) =
    if not (is_limited limit) || leb (length result + length sub) limit
    then common_result (result ++ sub) limit
    else common_result (result ++ take (limit - length result) sub) limit
merge (stream_result read_rev batch stream) (stream_result _ _ sent) =
    stream_result read_rev batch (stream ++ sent)
merge r _ = r

-- A receiver that never has enough.
abbrev pub is_unlimited : Receiver → Bool
is_unlimited (common_result result limit) = not (is_limited limit)
is_unlimited _ = true

-- What a receiver becomes if the results are offered to it one after the other, until it has enough.
unfoldable pub collect : Receiver → List KeyValue → Receiver
unfolding need_more append
collect r [] = r
collect r (kv ∷ kvs) =
    let rest = collect (append kv.key kv.value kv.revision r) kvs in if need_more r then rest else r

pub need_more-unlimited : (r : Receiver) → is_unlimited r ≡ true → need_more r ≡ true
unfolding need_more
need_more-unlimited empty_result h = refl
need_more-unlimited (common_result result limit) h = ground (arith, h)
need_more-unlimited (stream_result read_rev batch stream) h = refl

pub is_unlimited-append :
    (key value : Bytes) (revision : ℕ) (r : Receiver)
    → is_unlimited (append key value revision r) ≡ is_unlimited r
unfolding append
is_unlimited-append key value revision empty_result = refl
is_unlimited-append key value revision (common_result result limit) = refl
is_unlimited-append key value revision (stream_result read_rev batch stream) =
    elim (Bool-cases (
      leb range_stream_batch
        (length (batch ++ record { key = key; value = value; revision = revision } ∷ [])))) [
          | inl full ↦ rw full refl
          | inr room ↦ rw room refl
        ]

pub is_unlimited-reset : (r : Receiver) → is_unlimited (reset r) ≡ is_unlimited r
unfolding reset
is_unlimited-reset empty_result = refl
is_unlimited-reset (common_result result limit) = refl
is_unlimited-reset (stream_result read_rev batch stream) = refl

-- A receiver that has enough has nothing to send.
pub flush-full : (r : Receiver) → need_more r ≡ false → flush r ≡ r
unfolding need_more flush
flush-full empty_result h = refl
flush-full (common_result result limit) h = refl
flush-full (stream_result read_rev batch stream) h = ground (arith, h)

pub collect-full : (r : Receiver) (kvs : List KeyValue) → need_more r ≡ false → collect r kvs ≡ r
unfolding collect
collect-full r [] h = refl
collect-full r (kv ∷ kvs) h = rw h refl

pub collect-more :
    (r : Receiver) (kv : KeyValue) (kvs : List KeyValue)
    → need_more r ≡ true
    → collect r (kv ∷ kvs) ≡ collect (append kv.key kv.value kv.revision r) kvs
unfolding collect
collect-more r kv kvs h = rw h refl

-- With no limit, all results are kept.
pub collect-unlimited :
    (result kvs : List KeyValue)
    → collect (common_result result 0) kvs ≡ common_result (result ++ kvs) 0
unfolding collect need_more append
collect-unlimited result [] = ap (λ l. common_result l 0) (sym (append-nil result))
collect-unlimited result (kv ∷ kvs) =
    collect-unlimited (result ++ kv ∷ []) kvs
    ∙ ap (λ l. common_result l 0) (append_assoc result (kv ∷ []) kvs)

-- With a limit, the first are, as many as there is room for.
pub collect-limited :
    (limit room : ℕ) (result kvs : List KeyValue)
    → 0 < limit
    → limit ≡ length result + room
    → collect (common_result result limit) kvs ≡ common_result (result ++ take room kvs) limit
unfolding need_more append
collect-limited limit zero result kvs h e =
    collect-full (common_result result limit) kvs (ground (arith, h, e))
    ∙ ap (λ l. common_result l limit) (sym (append-nil result))
collect-limited limit (suc room) result [] h e =
    unfold collect in ap (λ l. common_result l limit) (sym (append-nil result))
collect-limited limit (suc room) result (kv ∷ kvs) h e =
    collect-more (common_result result limit) kv kvs (ground (arith, h, e))
    ∙ collect-limited limit room (result ++ kv ∷ []) kvs h
        (omega (arith, e, length-append result (kv ∷ [])))
    ∙ ap (λ l. common_result l limit) (append_assoc result (kv ∷ []) (take room kvs))
