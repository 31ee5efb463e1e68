-- ===== src/RetryQueue.antt =====
-- pkg/backend/retry/queue.go: the linked queue of uncertain events. Nodes lie on a heap, the list of
-- all nodes allocated so far; an address is a position in it. The event is only stored here, so its
-- type is left open; the time is that of its arrival.
pub mod Fifo
mod Tests
use kubebrain.Base.{
  ℕ, List, [], ◌∷◌, ◌++◌, Option, none, some, length, get_elem?, set, if◌then◌else◌,
}
use kubebrain.Base.Int.{ℤ, pos, suc_ℤ, pred_ℤ, is_zero}

pub record EventNode (A : Type 0) : Type 0 where
  pub event : A
  pub time : ℕ
  pub next : Option ℕ

pub record EventQueue (A : Type 0) : Type 0 where
  pub heap : List (EventNode A)
  pub queue_size : ℤ
  pub head : Option ℕ
  pub tail : Option ℕ

-- `if e.head == nil { e.head = node }`
abbrev pub head_or : Option ℕ → ℕ → Option ℕ
head_or none node = some node
head_or (some h) node = some h

module _ {A : Type 0} where
  unfoldable pub new_queue : List (EventNode A) → EventQueue A
  new_queue heap = record { heap = heap; queue_size = pos 0; head = none; tail = none }

  unfoldable pub size : EventQueue A → ℤ
  size q = q.queue_size

  -- `e.tail.next = node`, if there is a tail
  abbrev pub link_tail : Option ℕ → ℕ → List (EventNode A) → List (EventNode A)
  link_tail none node heap = heap
  link_tail (some t) node heap = elim (get_elem? heap t) [
    | none ↦ heap
    | some n ↦ set heap t (record n { next = some node })
  ]

  unfoldable pub push : A → ℕ → EventQueue A → EventQueue A
  push event now q =
      let node = length q.heap in
      record {
        heap =
            link_tail q.tail node q.heap ++ record { event = event; time = now; next = none } ∷ [];
        queue_size = suc_ℤ q.queue_size;
        head = head_or q.head node;
        tail = some node;
      }

  unfoldable pub node_at : List (EventNode A) → Option ℕ → Option (EventNode A)
  node_at heap none = none
  node_at heap (some a) = get_elem? heap a

  -- `none` is the panic of reading `e.head.next` through nil.
  unfoldable pub pop : EventQueue A → Option (EventQueue A)
  unfolding node_at
  pop q =
      let n = pred_ℤ q.queue_size in
      if is_zero n
      then some (record q { queue_size = n; head = none; tail = none })
      else elim (node_at q.heap q.head) [
        | none ↦ none
        | some h ↦ some (record q { queue_size = n; head = h.next })
      ]

  unfoldable pub get_head : EventQueue A → Option (EventNode A)
  unfolding node_at
  get_head q = node_at q.heap q.head
