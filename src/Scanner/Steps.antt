-- ===== src/Scanner/Steps.antt =====
-- One round of the loop of a worker of pkg/backend/scanner, at a version that does not expire.
use kubebrain.Base.{◌≡◌, refl, List, [], ◌∷◌, Option, some, true, false, ◌||◌, ◌==◌, ap, ◌∙◌}
use kubebrain.Message.{KeyValue}
use kubebrain.Coder.Roundtrip.{decode-encode_object_key}
use kubebrain.Storage.{KvStorage, Error}
use kubebrain.Scanner.Receiver.{need_more}
use kubebrain.Scanner.Worker.{
  WorkerConfig, Scan, enough, step, step_decoded, after_expiry, compact_if_expired, visit, loop,
}
use kubebrain.Scanner.Visible.{HasRevision, entry_of, entries_of}

module _ (K : KvStorage) (conf : WorkerConfig) where
  -- The engine removes expired keys itself, or nothing is old enough.
  abbrev pub HasNoExpiry : Type 0
  HasNoExpiry = (K.support_ttl || conf.timeout_revision == 0) ≡ true

  pub step-visit :
      (v : KeyValue) (sc : Scan K)
      → HasNoExpiry
      → HasRevision v
      → step K conf (entry_of v) sc ≡ some (visit K conf (entry_of v) v.key v.revision sc)
  unfolding step step_decoded after_expiry compact_if_expired
  step-visit v sc h b =
      ap (λ d. step_decoded K conf (entry_of v) d sc) (decode-encode_object_key v.key v.revision b)
      ∙ rw h refl

  pub loop-step :
      (v : KeyValue) (vs : List KeyValue) (ends : Option Error) (sc sc' : Scan K)
      → HasNoExpiry
      → HasRevision v
      → need_more sc.receiver ≡ true
      → visit K conf (entry_of v) v.key v.revision sc ≡ sc'
      → loop K conf (entries_of (v ∷ vs)) ends sc ≡ loop K conf (entries_of vs) ends sc'
  unfolding loop
  loop-step v vs ends sc sc' h b more e = rw (loop, more, step-visit v sc h b ∙ ap some e) refl

  pub loop-full :
      (vs : List KeyValue) (ends : Option Error) (sc : Scan K)
      → need_more sc.receiver ≡ false
      → loop K conf (entries_of vs) ends sc ≡ some (enough, sc)
  unfolding loop
  loop-full [] ends sc h = rw h refl
  loop-full (v ∷ vs) ends sc h = rw (h, loop) refl
