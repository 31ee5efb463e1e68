-- ===== src/Scanner/Compaction/Run.antt =====
-- A compacting run of a worker of pkg/backend/scanner over what its iterator lists.
use kubebrain.Base.{
  ℕ, ◌<◌, ◌≤◌, ◌≡◌, ◌≢◌, ◌⊎◌, refl, inl, inr, List, [], ◌∷◌, Option, none, some, true, ◌&&◌, not,
  ltb, if◌then◌else◌, length, arith, All, Bool-cases, ap, ◌∙◌,
}
use kubebrain.Base.Bytes.{Bytes, equal}
use kubebrain.Message.{KeyValue}
use kubebrain.Storage.{KvStorage, Error, listed}
use kubebrain.Storage.Contents.{Contents}
use kubebrain.Scanner.Receiver.{Receiver, need_more, reset}
use kubebrain.Scanner.Worker.{
  WorkerConfig, Scan, Ended, eof, enough, stopped, end_of, start_scan, loop, visit, finish,
  conclude, run_iterated,
}
use kubebrain.Scanner.Steps.{HasNoExpiry, loop-step, loop-full}
use kubebrain.Scanner.Visible.{Ordered, HasRevision, entry_of, entries_of, visible}
use kubebrain.Scanner.Visible.Stored.{lookup_version, stored, visible-stored}
use kubebrain.Scanner.Compaction.{PlainRemovals, stored_keys}
use kubebrain.Scanner.Compaction.Visit.{key_of}
use kubebrain.Scanner.Compaction.Visited.{visit-Visited}
use kubebrain.Scanner.Compaction.Swept.{IsAt, Swept, Swept-stop, Swept-above}
use kubebrain.Scanner.Compaction.Below.{visit-IsAt, Swept-below}

-- A worker that compacts, over what its iterator listed.
pub record CanCompact (K : KvStorage) (conf : WorkerConfig) : Type 0 where
  pub compacts : conf.compact ≡ true
  pub no_expiry : HasNoExpiry K conf
  pub plain : PlainRemovals K

-- Listed versions that the storage has: in its order, and of objects whose keys are not empty.
pub record IsListed (K : KvStorage) (C : Contents K) (s : K.State) (vs : List KeyValue)
    : Type 0 where
  pub ordered : Ordered vs
  pub revisions : All HasRevision vs
  pub keys : All (λ v. 0 < length v.key) vs
  pub present : All (λ v. lookup_version (C.view s) v ≢ none) vs

module _ (K : KvStorage) (C : Contents K) (conf : WorkerConfig) where
  above-IsAt :
      (v : KeyValue) (vs : List KeyValue) (sc : Scan K)
      → IsAt K C conf sc (v ∷ vs)
      → IsAt K C conf sc vs
  above-IsAt v vs sc at = record {
    ordered = at.ordered.1;
    revisions = at.revisions.1;
    keys = at.keys.1;
    present = at.present.1;
    prev = (λ pos. (at.prev.0 pos).1, at.prev.1, at.prev.2);
  }

  visit-above :
      (v : KeyValue) (sc : Scan K)
      → ltb conf.revision v.revision ≡ true
      → visit K conf (entry_of v) v.key v.revision sc ≡ sc
  unfolding visit
  visit-above v sc h = rw h refl

  loop-Swept :
      (vs : List KeyValue) (ends : Option Error) (sc : Scan K)
      → CanCompact K conf
      → IsAt K C conf sc vs
      → (out : Ended × Scan K) × (loop K conf (entries_of vs) ends sc ≡ some out)
        × Swept K C conf sc vs out.1
  unfolding loop
  loop-Swept [] ends sc can at = (
    (if need_more sc.receiver then end_of K ends else enough, sc),
    refl,
    Swept-stop K C conf sc [] at,
  )
  loop-Swept (v ∷ vs) ends sc can at = elim (Bool-cases (need_more sc.receiver)) [
    | inr full ↦
        ((enough, sc), loop-full K conf (v ∷ vs) ends sc full, Swept-stop K C conf sc (v ∷ vs) at)
    | inl more ↦ elim (Bool-cases (ltb conf.revision v.revision)) [
      | inl above ↦
          let (out, ran, q) = loop-Swept vs ends sc can (above-IsAt v vs sc at) in
          (
            out,
            loop-step K conf v vs ends sc sc can.no_expiry at.revisions.0 more
                  (visit-above v sc above)
                ∙ ran,
            Swept-above K C conf v vs sc out.1 above at q,
          )
      | inr below ↦
          let sc1 = visit K conf (entry_of v) v.key v.revision sc in
          let vis = visit-Visited K C conf v sc can.plain can.compacts at.keys.0 below in
          let (out, ran, q) =
            loop-Swept vs ends sc1 can (visit-IsAt K C conf v vs sc sc1 below at vis) in
          (
            out,
            loop-step K conf v vs ends sc sc1 can.no_expiry at.revisions.0 more refl ∙ ran,
            Swept-below K C conf v vs sc sc1 out.1 below at vis q,
          )
    ]
  ]

  finish-kv : (ended : Ended) (sc : Scan K) → (finish K conf ended sc).1.kv ≡ sc.kv
  unfolding finish
  finish-kv (stopped e) sc = refl
  finish-kv enough sc = refl
  finish-kv eof sc =
      elim (Bool-cases (
        ltb 0 sc.prev_revision
        && (not (equal sc.prev_value conf.tombstone) && need_more sc.receiver))) [
          | inl last ↦ rw last refl
          | inr hidden ↦ rw hidden refl
        ]

  start-IsAt :
      (vs : List KeyValue) (receiver : Receiver) (last : Bytes) (s : K.State)
      → IsListed K C s vs
      → IsAt K C conf (start_scan K receiver last s) vs
  start-IsAt vs receiver last s h = record {
    ordered = h.ordered;
    revisions = h.revisions;
    keys = h.keys;
    present = h.present;
    prev = (λ pos. absurd (omega (arith, pos)), omega arith, omega arith);
  }

  -- A compaction at a revision with no expiry, by the engine's lifetimes or for lack of a timeout
  -- revision, over any engine in which a removal may fail at any time, done or not, and in which one by
  -- the key alone never answers that a compare failed: a worker over some listed versions that the
  -- storage has, in its order and with keys that are not empty, ends, whether the iterator does so or
  -- fails, and a read at the revision or a later one sees in the versions that are left exactly what it
  -- sees in all of them; keys that are not of a listed version are as before, and a listed one is as before or
  -- gone.
  pub run_iterated-compacts :
      (vs : List KeyValue) (ends : Option Error) (receiver : Receiver) (last : Bytes) (s : K.State)
      → CanCompact K conf
      → IsListed K C s vs
      → (out : (ℕ × Option Error) × Scan K) × (run_iterated K conf
            (listed (record { entries = entries_of vs; ends = ends }))
            receiver
            last
            s
          ≡ some out)
        × ((r : ℕ)
            → conf.revision ≤ r
            → visible r conf.tombstone (stored (stored_keys K C out.1) vs)
              ≡ visible r conf.tombstone vs)
        × ((j : Bytes) → All (λ v. j ≢ key_of v) vs → stored_keys K C out.1 j ≡ C.view s j)
        × ((j : Bytes) → (stored_keys K C out.1 j ≡ none) ⊎ (stored_keys K C out.1 j ≡ C.view s j))
  unfolding run_iterated conclude
  run_iterated-compacts vs ends receiver last s can h =
      let sc = start_scan K (reset receiver) last s in
      let (out, ran, q) = loop-Swept vs ends sc can (start-IsAt vs (reset receiver) last s h) in
      let kept = ap C.view (finish-kv out.0 out.1) in
      (
        finish K conf out.0 out.1,
        ap (conclude K conf) ran,
        λ r le.
            ap (λ m. visible r conf.tombstone (stored m vs)) kept
            ∙ visible-stored conf.revision r conf.tombstone (stored_keys K C out.1) vs le q.trimmed,
        λ j ne. ap (λ m. m j) kept ∙ q.rest j (λ pos. absurd (omega (arith, pos))) ne,
        λ j. elim (q.shrinks j) [
          | inl gone ↦ inl (ap (λ m. m j) kept ∙ gone)
          | inr same ↦ inr (ap (λ m. m j) kept ∙ same)
        ],
      )
