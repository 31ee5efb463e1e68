-- ===== src/Watch/Delivery.antt =====
-- A watch delivers every event from its revision on, once and in order: the replay of the cache and
-- the filtered broadcast fit together.
use mathlib.Core.Option.{some-injective}
use kubebrain.Base.{
  ℕ, ◌+◌, ◌-◌, ◌≤◌, ◌<◌, ◌≡◌, ◌≢◌, refl, ap, sym, subst, ◌∙◌, List, [], ◌∷◌, ◌++◌, some, length,
  take, drop, arith, All, All-append, All-map, concat, append_assoc, take-append-drop, drop-append,
  length-drop, All-drop,
}
use kubebrain.Base.Bytes.{Bytes}
use kubebrain.Message.{Event}
use kubebrain.Tso.{Tso, uint64_mod}
use kubebrain.WatchCache.{Ring}
use kubebrain.WatchCache.Contents.{Holds, last_n}
use kubebrain.WatchCache.Find.{IsIncreasing, last}
use kubebrain.Watch.{streaming, filter_by_prefix, process_events, watch}
use kubebrain.Watch.Batches.{catch_up_events_lem}
use kubebrain.Watch.Started.{
  Started, quiet, replayed, before-lt, select-below, upto-last, Started-empty, Started-window,
}
use kubebrain.Watch.Filters.{
  watched, select-watched, select, select-append, process_events-select, from_revision-above,
  IsIncreasing-right, IsIncreasing-left, IsIncreasing-drop, All-append_right,
}

append-nil_right : (xs ys : List Event) → xs ++ ys ≡ [] → ys ≡ []
append-nil_right [] ys e = e
append-nil_right (x ∷ xs) ys e = cc

module _ (p : Bytes) (rev : ℕ) (past future : List Event) (stream : List (List Event)) (n : ℕ)
    (inc : IsIncreasing (past ++ future)) (known : n ≤ length past)
    (broadcast : concat stream ≡ drop n (past ++ future)) where
  processed :
      (from : ℕ)
      → concat (process_events stream p from) ≡ select p from (drop n past) ++ select p from future
  processed from =
      process_events-select stream p from
        (subst IsIncreasing (sym broadcast) (IsIncreasing-drop n (past ++ future) inc))
      ∙ ap (select p from) (broadcast ∙ drop-append n past future known)
      ∙ select-append p from (drop n past) future

  -- nothing of the past is wanted
  quiet_delivery :
      select p rev past ≡ [] → concat (process_events stream p rev) ≡ select p rev (past ++ future)
  quiet_delivery none_wanted =
      processed rev
      ∙ ap (λ t. t ++ select p rev future)
          (append-nil_right (select p rev (take n past)) (select p rev (drop n past)) (
              sym (select-append p rev (take n past) (drop n past))
              ∙ ap (select p rev) (take-append-drop n past)
              ∙ none_wanted)
            ∙ sym none_wanted)
      ∙ sym (select-append p rev past future)

  -- all of the past that is wanted has been replayed
  replay_delivery :
      (from : ℕ)
      → All (λ y. y.revision < from) past
      → All (λ y. from ≤ y.revision) future
      → rev ≤ from
      → select p rev past ++ concat (process_events stream p from) ≡ select p rev (past ++ future)
  replay_delivery from old new le =
      ap (λ t. select p rev past ++ t) (processed from)
      ∙ ap (λ t. select p rev past ++ (t ++ select p from future))
          (select-below p from (drop n past) (All-drop _ n past old))
      ∙ ap (λ t. select p rev past ++ filter_by_prefix t p)
          (from_revision-above from future new
            ∙ sym (from_revision-above rev future (All-map future (λ y h. omega (arith, h)) new)))
      ∙ sym (select-append p rev past future)

after-last :
    (xs ys : List Event) (new : Event)
    → IsIncreasing (xs ++ ys)
    → last xs ≡ some new
    → All (λ y. new.revision < y.revision) ys
unfolding last
after-last [] ys new s l = absurd (cc)
after-last (x ∷ []) ys new s l =
    subst (λ (z : Event). All (λ y. z.revision < y.revision) ys) (some-injective _ _ l) s.0
after-last (x ∷ y ∷ xs) ys new s l = after-last (y ∷ xs) ys new s.1 l

last-All :
    (P : Event → Type 0) (xs : List Event) (new : Event) → All P xs → last xs ≡ some new → P new
unfolding last
last-All P [] new a l = absurd (cc)
last-All P (x ∷ []) new a l = subst P (some-injective _ _ l) a.0
last-All P (x ∷ y ∷ xs) new a l = last-All P (y ∷ xs) new a.1 l

module _ (p : Bytes) (rev : ℕ) (older h future : List Event) (stream sent : List (List Event))
    (n from : ℕ) (inc : IsIncreasing ((older ++ h) ++ future)) (known : n ≤ length (older ++ h))
    (broadcast : concat stream ≡ drop n ((older ++ h) ++ future))
    (small : All (λ y. y.revision + 1 < uint64_mod) (older ++ h))
    (dropped : All (λ y. y.revision < rev) older) where
  wanted : select p rev (older ++ h) ≡ select p rev h
  wanted =
      select-append p rev older h ∙ ap (λ t. t ++ select p rev h) (select-below p rev older dropped)

  Started-delivery :
      Started h p rev sent from
      → concat sent ++ concat (process_events stream p from) ≡ select p rev ((older ++ h) ++ future)
  Started-delivery (quiet none_sent same none_wanted) =
      rw (none_sent, same)
        (quiet_delivery p rev (older ++ h) future stream n inc known broadcast
          (wanted ∙ none_wanted))
  Started-delivery (replayed new l le sends next) =
      let (batches, e, whole, _) = catch_up_events_lem (select p rev h) in
      let same : batches ≡ sent = some-injective _ _ (sym e ∙ sends) in
      let from_next : from ≡ new.revision + 1 =
        omega (arith, next, last-All _ h new (All-append_right _ older h small) l) in
      ap (λ b. concat b ++ concat (process_events stream p from)) (sym same)
      ∙ ap (λ t. t ++ concat (process_events stream p from)) (whole ∙ sym wanted)
      ∙ replay_delivery p rev (older ++ h) future stream n inc known broadcast from
          (All-append _ older h (All-map older (λ y b. omega (arith, b, le, from_next)) dropped) (
            All-map h (λ y b. omega (arith, b, from_next))
              (upto-last h new
                (IsIncreasing-right older h (IsIncreasing-left (older ++ h) future inc)) l)))
          (All-map future (λ y b. omega (arith, b, from_next))
            (after-last h future new
              (IsIncreasing-right older (h ++ future)
                (subst IsIncreasing (append_assoc older h future) inc))
              l))
          (omega (arith, le, from_next))

-- What the start of the watch shows of the events in the cache and of those that left it.
window-Started :
    (r : Ring) (t : Tso) (p : Bytes) (rev from : ℕ) (sent : List (List Event))
    (older h : List Event)
    → Holds r h
    → IsIncreasing (older ++ h)
    → (h ≡ [] → older ≡ [])
    → rev ≢ 0
    → watch r t p rev ≡ some (streaming sent from)
    → Started h p rev sent from × All (λ y. y.revision < rev) older
window-Started r t p rev from sent older [] v inc alone positive w =
    (Started-empty r t p rev from sent positive v w, rw (alone refl) tt)
window-Started r t p rev from sent older (x ∷ h) v inc alone positive w =
    let (s, le) =
      Started-window r t p rev from sent positive x h v (IsIncreasing-right older (x ∷ h) inc) w in
    (s, All-map older (λ y b. omega (arith, b, le)) (before-lt older h x inc))

drop-nil→take-nil :
    (l : ℕ) (xs : List Event) → 0 < l → drop (length xs - l) xs ≡ [] → take (length xs - l) xs ≡ []
drop-nil→take-nil l xs p e =
    let z : length xs - l ≡ 0 = omega (arith, p, ap length e, length-drop (length xs - l) xs) in
    ap (λ k. take k xs) z

-- A watch is started with a revision other than 0 on a cache that holds the last events of the
-- past, and receives from the hub every event after the first `n` of the past, batch by batch;
-- revisions increase over the past and the future and do not wrap. If Watch returns a channel, then
-- what is sent on it, the replay and then the filtered batches, is exactly the events of the past
-- and the future whose key begins with the bytes of the prefix and that have the revision or a later
-- one, each once and in order.
pub watch_delivers :
    (r : Ring) (t : Tso) (p : Bytes) (rev from n : ℕ) (past future : List Event)
    (stream sent : List (List Event))
    → Holds r (last_n r.l past)
    → IsIncreasing (past ++ future)
    → All (λ y. y.revision + 1 < uint64_mod) past
    → n ≤ length past
    → concat stream ≡ drop n (past ++ future)
    → rev ≢ 0
    → watch r t p rev ≡ some (streaming sent from)
    → concat sent ++ concat (process_events stream p from) ≡ watched p rev (past ++ future)
unfolding last_n
watch_delivers r t p rev from n past future stream sent v inc small known broadcast positive w =
    let d : ℕ = length past - r.l in
    let whole : past ≡ take d past ++ drop d past = sym (take-append-drop d past) in
    let inc' = subst (λ q. IsIncreasing (q ++ future)) whole inc in
    let (s, dropped) =
      window-Started r t p rev from sent (take d past) (drop d past) v
        (IsIncreasing-left (take d past ++ drop d past) future inc')
        (drop-nil→take-nil r.l past v.room) positive w in
    subst (λ q. concat sent ++ concat (process_events stream p from) ≡ select p rev (q ++ future))
      (sym whole)
      (Started-delivery p rev (take d past) (drop d past) future stream sent n from inc'
        (subst (λ q. n ≤ length q) whole known)
        (subst (λ q. concat stream ≡ drop n (q ++ future)) whole broadcast)
        (subst (All (λ y. y.revision + 1 < uint64_mod)) whole small) dropped s)
    ∙ select-watched p rev (past ++ future)
