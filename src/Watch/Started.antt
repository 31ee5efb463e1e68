-- ===== src/Watch/Started.antt =====
-- How a watch starts: what it finds in the cache, and what it replays of it.
use mathlib.Core.List.{map}
use kubebrain.Base.{
  ℕ, ◌+◌, ◌%◌, ◌≤◌, ◌<◌, ◌≡◌, ◌≢◌, refl, ap, ◌∙◌, List, [], ◌∷◌, ◌++◌, some, length, ltb, arith,
  All, All-map, Bool-cases, inl, inr, ltb→lt, ltb-false→le,
}
use kubebrain.Base.Bytes.{Bytes}
use kubebrain.Message.{Event}
use kubebrain.Tso.{Tso, uint64_mod}
use kubebrain.WatchCache.{Ring}
use kubebrain.WatchCache.Contents.{Holds}
use kubebrain.WatchCache.Find.{
  IsIncreasing, from_revision, last, last-split, find_spec, find_events_lem,
}
use kubebrain.Watch.{streaming, filter_by_prefix, catch_up_events, deref, replay, start_from, watch}
use kubebrain.Watch.Batches.{catch_up_events_lem}
use kubebrain.Watch.Filters.{select, from_revision-below, IsIncreasing-right, All-append_right}

pub deref-map : (xs : List Event) → deref (map some xs) ≡ some xs
unfolding deref
deref-map [] = refl
deref-map (x ∷ xs) = ground (arith, deref-map xs)

-- the events around one of an increasing list
pub before-lt :
    (xs ys : List Event) (x : Event)
    → IsIncreasing (xs ++ x ∷ ys)
    → All (λ y. y.revision < x.revision) xs
before-lt [] ys x s = tt
before-lt (z ∷ xs) ys x s = ((All-append_right _ xs (x ∷ ys) s.0).0, before-lt xs ys x s.1)

pub after-lt :
    (xs ys : List Event) (x : Event)
    → IsIncreasing (xs ++ x ∷ ys)
    → All (λ y. x.revision < y.revision) ys
after-lt xs ys x s = (IsIncreasing-right xs (x ∷ ys) s).0

pub select-below :
    (p : Bytes) (rev : ℕ) (xs : List Event) → All (λ y. y.revision < rev) xs → select p rev xs ≡ []
select-below p rev xs a =
    ap (λ t. filter_by_prefix t p) (from_revision-below rev xs a) ∙ unfold filter_by_prefix in refl

pub upto-last :
    (xs : List Event) (new : Event)
    → IsIncreasing xs
    → last xs ≡ some new
    → All (λ y. y.revision ≤ new.revision) xs
unfolding last
upto-last [] new s l = tt
upto-last (x ∷ []) new s l = (ground arith, tt)
upto-last (x ∷ y ∷ xs) new s l =
    let rest = upto-last (y ∷ xs) new s.1 l in (omega (arith, s.0.0, rest.0), rest)

-- What a watch that streams has found in the cache, which holds `h`, the later part of `past`.
pub data Started (h : List Event) (p : Bytes) (rev : ℕ) (sent : List (List Event)) (from : ℕ)
    : Type 0 where
  quiet : sent ≡ [] → from ≡ rev → select p rev h ≡ [] → Started h p rev sent from
  replayed :
      (new : Event)
      → last h ≡ some new
      → rev ≤ new.revision
      → catch_up_events (select p rev h) ≡ some sent
      → from ≡ (new.revision + 1) % uint64_mod
      → Started h p rev sent from

-- A watch that streams has found the requested revision not below the oldest event.
abbrev Covers : List Event → ℕ → Type 0
Covers [] rev = Unit
Covers (x ∷ h) rev = x.revision ≤ rev

module _ (r : Ring) (t : Tso) (p : Bytes) (rev from : ℕ) (sent : List (List Event))
    (positive : rev ≢ 0) where
  pub Started-empty :
      Holds r [] → watch r t p rev ≡ some (streaming sent from) → Started [] p rev sent from
  unfolding watch start_from find_spec
  Started-empty v w =
      quiet (ground (arith, find_events_lem [] rev v tt))
        (ground (arith, find_events_lem [] rev v tt))
        (unfold from_revision filter_by_prefix in refl)

  pub replay-Started :
      (h : List Event) (new : Event)
      → last h ≡ some new
      → rev ≤ new.revision
      → replay (select p rev h) new.revision rev ≡ some (streaming sent from)
      → Started h p rev sent from
  unfolding replay
  replay-Started h new l le w =
      let (batches, e, _, _) = catch_up_events_lem (select p rev h) in
      elim (Bool-cases (ltb 0 (length (select p rev h)))) [
        | inl more ↦ replayed new l le (ground (arith, e, more)) (ground (arith, e, more))
        | inr done ↦ quiet (ground (arith, done)) (ground (arith, done)) (ground (arith, done))
      ]

  pub Started-window :
      (x : Event) (h : List Event)
      → Holds r (x ∷ h)
      → IsIncreasing (x ∷ h)
      → watch r t p rev ≡ some (streaming sent from)
      → Started (x ∷ h) p rev sent from × (x.revision ≤ rev)
  unfolding watch start_from find_spec
  Started-window x h v inc w =
      let (_, new, _, l) = last-split x h in
      let upto = upto-last (x ∷ h) new inc l in
      let found = find_events_lem (x ∷ h) rev v inc in
      elim (Bool-cases (ltb new.revision rev)) [
        | inl high ↦ (
          quiet (ground (arith, found, l, high)) (ground (arith, found, l, high)) (
              select-below p rev (x ∷ h)
                (All-map (x ∷ h) (λ y b. omega (arith, b, ltb→lt _ _ high)) upto)),
          omega (arith, upto.0, ltb→lt _ _ high),
        )
        | inr reached ↦ (
          replay-Started (x ∷ h) new l (ltb-false→le _ _ reached)
              (ground (arith, found, l, reached, deref-map (from_revision rev (x ∷ h)))),
          ground (arith, found, l, reached),
        )
      ]
