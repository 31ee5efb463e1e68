-- ===== src/RetryQueue/Fifo.antt =====
-- The linked queue is a first-in, first-out queue.
use kubebrain.Base.{
  ℕ, suc, ◌+◌, ◌≡◌, refl, ap, sym, ◌∙◌, List, [], ◌∷◌, ◌++◌, Option, none, some, length, get_elem?,
  set, arith, length-append, append_assoc, append-nil,
}
use kubebrain.Base.Int.{pos, suc_ℤ}
use kubebrain.RetryQueue.{EventNode, EventQueue, link_tail, head_or, push, pop, get_head}

-- an event with the time of its arrival
abbrev pub Item : Type 0 → Type 0
Item A = A × ℕ

module _ {A : Type 0} where
  -- The nodes of consecutive addresses from `a` on, each pointing to the one behind it.
  abbrev pub linked : ℕ → List (Item A) → List (EventNode A)
  linked a [] = []
  linked a (x ∷ []) = record { event = x.0; time = x.1; next = none } ∷ []
  linked a (x ∷ y ∷ items) =
      record { event = x.0; time = x.1; next = some (suc a) } ∷ linked (suc a) (y ∷ items)

  abbrev pub first_address : ℕ → List (Item A) → Option ℕ
  first_address a [] = none
  first_address a (x ∷ items) = some a

  abbrev pub last_address : ℕ → List (Item A) → Option ℕ
  last_address a [] = none
  last_address a (x ∷ items) = some (a + length items)

-- The queue holds these items, the oldest first; behind `old` the heap holds only its nodes.
pub record Holds {A : Type 0} (q : EventQueue A) (items : List (Item A)) : Type 0 where
  pub old : List (EventNode A)
  pub nodes : q.heap ≡ old ++ linked (length old) items
  pub count : q.queue_size ≡ pos (length items)
  pub first : q.head ≡ first_address (length old) items
  pub last : q.tail ≡ last_address (length old) items

module _ {A : Type 0} where
  length-linked : (a : ℕ) (items : List (Item A)) → length (linked a items) ≡ length items
  length-linked a [] = refl
  length-linked a (x ∷ []) = refl
  length-linked a (x ∷ y ∷ items) = ap suc (length-linked (suc a) (y ∷ items))

  get_elem?-append_length :
      (xs ys : List (EventNode A)) (n : EventNode A) → get_elem? (xs ++ n ∷ ys) (length xs) ≡ some n
  get_elem?-append_length [] ys n = refl
  get_elem?-append_length (x ∷ xs) ys n = get_elem?-append_length xs ys n

  set-append_length :
      (xs ys : List (EventNode A)) (n m : EventNode A)
      → set (xs ++ n ∷ ys) (length xs) m ≡ xs ++ m ∷ ys
  set-append_length [] ys n m = refl
  set-append_length (x ∷ xs) ys n m = ap (λ t. x ∷ t) (set-append_length xs ys n m)

  link_tail-append :
      (old rest : List (EventNode A)) (n : EventNode A) (t node : ℕ)
      → t ≡ length old
      → link_tail (some t) node (old ++ n ∷ rest) ≡ old ++ record n { next = some node } ∷ rest
  link_tail-append old rest n t node e = rw e (
      ground (
        arith,
        get_elem?-append_length old rest n,
        set-append_length old rest n (record n { next = some node }),
      ))

  -- Linking the last node to the next address and adding a node there lengthens the chain.
  linked-link_tail :
      (a t node : ℕ) (old : List (EventNode A)) (x : Item A) (items : List (Item A)) (y : Item A)
      → length old ≡ a
      → t ≡ a + length items
      → node ≡ suc t
      → link_tail (some t) node (old ++ linked a (x ∷ items))
          ++ record { event = y.0; time = y.1; next = none } ∷ []
        ≡ old ++ linked a (x ∷ items ++ y ∷ [])
  linked-link_tail a t node old x [] y h e f =
      let g : node ≡ suc a = omega (arith, e, f) in
      ap (λ l. l ++ record { event = y.0; time = y.1; next = none } ∷ [])
        (link_tail-append old [] (record { event = x.0; time = x.1; next = none }) t node
          (omega (arith, h, e)))
      ∙ append_assoc old _ _
      ∙ ap
          (λ n.
            old
            ++ record { event = x.0; time = x.1; next = some n }
              ∷ record { event = y.0; time = y.1; next = none }
              ∷ [])
          g
  linked-link_tail a t node old x (z ∷ items) y h e f =
      let n : EventNode A = record { event = x.0; time = x.1; next = some (suc a) } in
      ap (λ l. link_tail (some t) node l ++ record { event = y.0; time = y.1; next = none } ∷ [])
        (sym (append_assoc old (n ∷ []) (linked (suc a) (z ∷ items))))
      ∙ linked-link_tail (suc a) t node (old ++ n ∷ []) z items y
          (omega (arith, h, length-append old (n ∷ []))) (omega (arith, e)) f
      ∙ append_assoc old (n ∷ []) (linked (suc a) (z ∷ items ++ y ∷ []))

one_more : (n : ℕ) → n + 1 ≡ suc n
one_more n = omega arith

-- A push at the back: the queue holds one more item, behind the others.
pub push-Holds :
    {A : Type 0} {q : EventQueue A} (items : List (Item A)) (event : A) (now : ℕ)
    → Holds q items
    → Holds (push event now q) (items ++ (event, now) ∷ [])
unfolding push
push-Holds {A} {q} [] event now v = record {
  old = v.old;
  nodes = ground (arith, v.last, v.nodes, append-nil v.old);
  count = ap suc_ℤ v.count;
  first = ground (arith, v.first, v.nodes, append-nil v.old);
  last = ap some (omega (arith, ap length v.nodes, ap length (append-nil v.old)));
}
push-Holds {A} {q} (x ∷ items) event now v =
    let size : length q.heap ≡ length v.old + suc (length items) = omega (
      arith,
      ap length v.nodes,
      length-append v.old (linked (length v.old) (x ∷ items)),
      length-linked (length v.old) (x ∷ items),
    ) in
    let longer : length (items ++ (event, now) ∷ []) ≡ length items + 1 =
      length-append items ((event, now) ∷ []) in
    record {
      old = v.old;
      nodes =
          rw (v.last, v.nodes)
            (linked-link_tail (length v.old) (length v.old + length items)
              (length (v.old ++ linked (length v.old) (x ∷ items))) v.old x items (event, now) refl
              refl (omega (arith, size, ap length v.nodes)));
      count = ap suc_ℤ v.count ∙ ap pos (omega (arith, longer));
      first = ap (λ h. head_or h (length q.heap)) v.first;
      last = ap some (omega (arith, size, longer));
    }

-- the event and the arrival time at the head
unfoldable pub head_item : {A : Type 0} → EventQueue A → Option (Item A)
unfolding get_head
head_item q = elim (get_head q) [ none ↦ none | some n ↦ some (n.event, n.time) ]

-- The head of a queue that is not empty is the oldest item, and a pop removes exactly that one.
pub pop-Holds :
    {A : Type 0} {q : EventQueue A} (x : Item A) (items : List (Item A))
    → Holds q (x ∷ items)
    → (q' : EventQueue A) × (head_item q ≡ some x) × (pop q ≡ some q') × Holds q' items
unfolding pop head_item
pop-Holds {A} {q} x [] v = (
  record q { queue_size = pos 0; head = none; tail = none },
  ground (
    arith,
    v.first,
    v.nodes,
    get_elem?-append_length v.old [] (record { event = x.0; time = x.1; next = none }),
  ),
  ground (arith, v.count),
  record { old = q.heap; nodes = sym (append-nil q.heap); count = refl; first = refl; last = refl },
)
pop-Holds {A} {q} x (y ∷ items) v =
    let n : EventNode A = record { event = x.0; time = x.1; next = some (suc (length v.old)) } in
    let at : get_elem? q.heap (length v.old) ≡ some n =
      ap (λ l. get_elem? l (length v.old)) v.nodes
      ∙ get_elem?-append_length v.old (linked (suc (length v.old)) (y ∷ items)) n in
    let more : length (v.old ++ n ∷ []) ≡ suc (length v.old) =
      length-append v.old (n ∷ []) ∙ one_more (length v.old) in
    (
      record q { queue_size = pos (suc (length items)); head = some (suc (length v.old)) },
      ground (arith, v.first, at),
      ground (arith, v.count, v.first, at),
      record {
        old = v.old ++ n ∷ [];
        nodes =
            rw more (
              v.nodes
              ∙ sym (append_assoc v.old (n ∷ []) (linked (suc (length v.old)) (y ∷ items))));
        count = refl;
        first = ap some (sym more);
        last = v.last ∙ ap some (omega (arith, more));
      },
    )

-- On an empty queue there is no head, and a pop panics.
pub pop-empty : {A : Type 0} {q : EventQueue A} → Holds q [] → (head_item q ≡ none) × (pop q ≡ none)
unfolding pop head_item
pop-empty v = ground (arith, v.count, v.first)
