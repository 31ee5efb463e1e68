-- ===== src/Watch/Filters.antt =====
-- The filters of the broadcast batches, against the plain selection of events.
use kubebrain.Base.{
  ℕ, zero, suc, ◌≤◌, ◌<◌, ◌≡◌, refl, ap, sym, ◌∙◌, List, [], ◌∷◌, ◌++◌, length, drop, ltb,
  if◌then◌else◌, Bool, ◌&&◌, take, leb, arith, All, concat, Bool-cases, inl, inr, ltb-false→le,
}
use kubebrain.Base.Bytes.{Bytes, has_prefix, equal}
use kubebrain.Message.{Event}
use kubebrain.WatchCache.Find.{IsIncreasing, from_revision, from-above}
use kubebrain.Watch.{filter_by_prefix, filter_by_revision, process_events}

pub from_revision-append :
    (rev : ℕ) (xs ys : List Event)
    → from_revision rev (xs ++ ys) ≡ from_revision rev xs ++ from_revision rev ys
unfolding from_revision
from_revision-append rev [] ys = refl
from_revision-append rev (x ∷ xs) ys = ground (arith, from_revision-append rev xs ys)

pub filter_by_prefix-append :
    (p : Bytes) (xs ys : List Event)
    → filter_by_prefix (xs ++ ys) p ≡ filter_by_prefix xs p ++ filter_by_prefix ys p
unfolding filter_by_prefix
filter_by_prefix-append p [] ys = refl
filter_by_prefix-append p (x ∷ xs) ys = ground (arith, filter_by_prefix-append p xs ys)

pub from_revision-above :
    (rev : ℕ) (xs : List Event) → All (λ y. rev ≤ y.revision) xs → from_revision rev xs ≡ xs
unfolding from_revision
from_revision-above rev [] a = refl
from_revision-above rev (x ∷ xs) a = ground (arith, a.0, from_revision-above rev xs a.1)

pub from_revision-below :
    (rev : ℕ) (xs : List Event) → All (λ y. y.revision < rev) xs → from_revision rev xs ≡ []
unfolding from_revision
from_revision-below rev [] a = refl
from_revision-below rev (x ∷ xs) a = ground (arith, a.0, from_revision-below rev xs a.1)

pub All-append_left {κ} : (P : Event → Type κ) (xs ys : List Event) → All P (xs ++ ys) → All P xs
All-append_left P [] ys a = tt
All-append_left P (x ∷ xs) ys a = (a.0, All-append_left P xs ys a.1)

pub All-append_right {κ} : (P : Event → Type κ) (xs ys : List Event) → All P (xs ++ ys) → All P ys
All-append_right P [] ys a = a
All-append_right P (x ∷ xs) ys a = All-append_right P xs ys a.1

pub IsIncreasing-right : (xs ys : List Event) → IsIncreasing (xs ++ ys) → IsIncreasing ys
IsIncreasing-right [] ys s = s
IsIncreasing-right (x ∷ xs) ys s = IsIncreasing-right xs ys s.1

pub IsIncreasing-left : (xs ys : List Event) → IsIncreasing (xs ++ ys) → IsIncreasing xs
IsIncreasing-left [] ys s = tt
IsIncreasing-left (x ∷ xs) ys s = (All-append_left _ xs ys s.0, IsIncreasing-left xs ys s.1)

pub IsIncreasing-drop : (n : ℕ) (xs : List Event) → IsIncreasing xs → IsIncreasing (drop n xs)
IsIncreasing-drop zero xs s = s
IsIncreasing-drop (suc n) [] s = tt
IsIncreasing-drop (suc n) (x ∷ xs) s = IsIncreasing-drop n xs s.1

-- On a batch with increasing revisions, looking at the head selects the events from a revision on.
pub filter_by_revision-from :
    (rev : ℕ) (xs : List Event) → IsIncreasing xs → filter_by_revision xs rev ≡ from_revision rev xs
unfolding filter_by_revision from_revision
filter_by_revision-from rev [] s = refl
filter_by_revision-from rev (x ∷ xs) s = elim (Bool-cases (ltb x.revision rev)) [
  | inl low ↦ ground (arith, low, filter_by_revision-from rev xs s.1)
  | inr high ↦ ground (arith, high, (from-above rev x xs (ltb-false→le _ _ high) s.0).0)
]

-- The selected events, of one list.
abbrev pub select : Bytes → ℕ → List Event → List Event
select p rev xs = filter_by_prefix (from_revision rev xs) p

pub select-append :
    (p : Bytes) (rev : ℕ) (xs ys : List Event)
    → select p rev (xs ++ ys) ≡ select p rev xs ++ select p rev ys
select-append p rev xs ys =
    ap (λ t. filter_by_prefix t p) (from_revision-append rev xs ys)
    ∙ filter_by_prefix-append p (from_revision rev xs) (from_revision rev ys)

keep_batch :
    (evs : List Event) (rest : List (List Event))
    → concat (if ltb 0 (length evs) then evs ∷ rest else rest) ≡ evs ++ concat rest
keep_batch [] rest = refl
keep_batch (x ∷ evs) rest = ground arith

-- The first bytes of the key are those of the prefix, and the revision is not below the given one.
unfoldable pub is_watched : Bytes → ℕ → Event → Bool
unfolding equal
is_watched p rev x = equal (take (length p) x.kv.key) p && leb rev x.revision

unfoldable pub watched : Bytes → ℕ → List Event → List Event
unfolding is_watched
watched p rev [] = []
watched p rev (x ∷ xs) =
    let rest = watched p rev xs in if is_watched p rev x then x ∷ rest else rest

has_prefix-take : (s p : Bytes) → has_prefix s p ≡ equal (take (length p) s) p
unfolding has_prefix equal
has_prefix-take s [] = ground arith
has_prefix-take [] (p ∷ ps) = refl
has_prefix-take (x ∷ s) (p ∷ ps) = ground (arith, has_prefix-take s ps)

pub select-watched : (p : Bytes) (rev : ℕ) (xs : List Event) → select p rev xs ≡ watched p rev xs
unfolding filter_by_prefix from_revision watched
select-watched p rev [] = refl
select-watched p rev (x ∷ xs) = ground (arith, has_prefix-take x.kv.key p, select-watched p rev xs)

pub process_events-select :
    (input : List (List Event)) (p : Bytes) (rev : ℕ)
    → IsIncreasing (concat input)
    → concat (process_events input p rev) ≡ select p rev (concat input)
unfolding process_events
process_events-select [] p rev s = unfold from_revision filter_by_prefix in refl
process_events-select (evs ∷ input) p rev s =
    keep_batch (filter_by_prefix (filter_by_revision evs rev) p) (process_events input p rev)
    ∙ ap (λ t. filter_by_prefix t p ++ concat (process_events input p rev))
        (filter_by_revision-from rev evs (IsIncreasing-left evs (concat input) s))
    ∙ ap (λ t. select p rev evs ++ t)
        (process_events-select input p rev (IsIncreasing-right evs (concat input) s))
    ∙ sym (select-append p rev evs (concat input))

-- The batches that processEvents passes on hold, of the events received, exactly those whose key
-- begins with the bytes of the prefix and whose revision is not below the given one, in the order
-- received, if revisions increase along the input.
pub process_events_lem :
    (input : List (List Event)) (p : Bytes) (rev : ℕ)
    → IsIncreasing (concat input)
    → concat (process_events input p rev) ≡ watched p rev (concat input)
process_events_lem input p rev s =
    process_events-select input p rev s ∙ select-watched p rev (concat input)
