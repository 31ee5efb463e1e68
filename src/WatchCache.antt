-- ===== src/WatchCache.antt =====
-- pkg/backend/ring.go: the window of recent events from which a watch catches up.
-- `s` and `e` count events and are reduced modulo the length only as indices; they stay far below
-- 2^63, where the source's int64 would wrap. A nil event is `none`, and so is a panic.
pub mod Contents
mod Copy
pub mod Find
mod Tests
use kubebrain.Base.{
  ℕ, zero, ◌+◌, ◌-◌, ◌%◌, List, [], ◌++◌, Option, none, some, Bool, true, false, length, get_or,
  set, take, drop, replicate, ltb, leb, ◌==◌, if◌then◌else◌,
}
use kubebrain.Base.Search.{search_index}
use kubebrain.Message.{Event}

pub record Ring : Type 0 where
  pub s : ℕ
  pub e : ℕ
  pub l : ℕ
  pub arr : List (Option Event)

unfoldable pub new_ring : ℕ → Ring
new_ring l = record { s = 0; e = 0; l = l; arr = replicate l none }

unfoldable pub index : Ring → ℕ → ℕ
index r i = i % r.l

unfoldable pub add : Ring → Event → Ring
unfolding index
add r event = record r {
  arr = set r.arr (index r r.e) (some event);
  s = if r.e == r.s + r.l then r.s + 1 else r.s;
  e = r.e + 1;
}

unfoldable pub reset : Ring → Ring
reset r = record r { s = 0; e = 0 }

unfoldable pub is_empty : Ring → Bool
is_empty r = r.e == 0

unfoldable pub newest : Ring → Option Event
unfolding index
newest r = get_or r.arr (index r (r.e - 1)) none

unfoldable pub oldest : Ring → Option Event
unfolding index
oldest r = get_or r.arr (index r r.s) none

pub record FindRet : Type 0 where
  pub empty : Bool
  pub high : Bool
  pub low : Bool
  pub newest : Option Event
  pub oldest : Option Event
  pub events : List (Option Event)

abbrev pub no_ret : FindRet
no_ret = record {
  empty = false;
  high = false;
  low = false;
  newest = none;
  oldest = none;
  events = [];
}

-- Go's copy: as many items as both slices have room for.
abbrev pub copy : List (Option Event) → List (Option Event) → List (Option Event)
copy dst src = take (length dst) src ++ drop (length src) dst

-- the test of the binary search: on a slot, and at the i-th event of the window
unfoldable pub slot_at_least : ℕ → Option Event → Option Bool
slot_at_least revision none = none
slot_at_least revision (some ev) = some (leb revision ev.revision)

unfoldable pub at_least : Ring → ℕ → ℕ → Option Bool
unfolding index slot_at_least
at_least r revision i = slot_at_least revision (get_or r.arr (index r (r.s + i)) none)

-- `m` events from slot `start` up to slot `stop`: one slice, or two if the window goes round.
unfoldable pub copy_slices : List (Option Event) → ℕ → ℕ → ℕ → ℕ → Option (List (Option Event))
copy_slices arr l start stop m =
    let room = replicate m none in
    if ltb start stop
    then some (copy room (take (stop - start) (drop start arr)))
    else let first = copy room (drop start arr) in
      if ltb (length first) (l - start)
      then none
      else some (take (l - start) first ++ copy (drop (l - start) first) (take stop arr))

-- The events from the idx-th of the window on.
unfoldable pub copy_from : Ring → ℕ → Option (List (Option Event))
unfolding index
copy_from r idx = copy_slices r.arr r.l (index r (r.s + idx)) (index r r.e) (r.e - r.s - idx)

-- The part of `FindEvents` behind the bounds: the revision lies in the window.
unfoldable pub find_within : Ring → ℕ → FindRet → Option FindRet
unfolding at_least copy_from copy_slices
find_within r revision ret = elim (search_index (r.e - r.s) (at_least r revision)) [
  | none ↦ none
  | some idx ↦ elim (copy_from r idx) [
    | none ↦ none
    | some events ↦ some (record ret { events = events })
  ]
]

unfoldable pub find_events : Ring → ℕ → Option FindRet
unfolding is_empty newest oldest find_within
find_events r revision =
    if is_empty r then some (record no_ret { empty = true }) else elim (newest r) [
      | none ↦ none
      | some new ↦
          let ret = record no_ret { newest = some new; oldest = oldest r } in
          if ltb new.revision revision then some (record ret { high = true }) else elim (oldest r) [
            | none ↦ none
            | some old ↦
                if ltb revision old.revision
                then some (record ret { low = true })
                else find_within r revision ret
          ]
    ]
