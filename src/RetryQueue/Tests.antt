-- ===== src/RetryQueue/Tests.antt =====
-- A queue of two items behind one that was taken, and the theorems at it.
use kubebrain.Base.{ℕ, ◌≡◌, refl, [], ◌∷◌, none, some}
use kubebrain.Base.Int.{pos}
use kubebrain.RetryQueue.{EventQueue, new_queue, push, pop}
use kubebrain.RetryQueue.Fifo.{Holds, head_item, push-Holds, pop-Holds, pop-empty}

abbrev two_left : EventQueue ℕ
two_left = record {
  heap =
      record { event = 7; time = 1; next = some 1 }
      ∷ record { event = 8; time = 2; next = some 2 }
      ∷ record { event = 9; time = 4; next = none }
      ∷ [];
  queue_size = pos 2;
  head = some 1;
  tail = some 2;
}

two_left_run : pop (push 9 4 (push 8 2 (push 7 1 (new_queue [])))) ≡ some two_left
unfolding pop push new_queue
two_left_run = refl

two_left-Holds : Holds two_left ((8, 2) ∷ (9, 4) ∷ [])
two_left-Holds = record {
  old = record { event = 7; time = 1; next = some 1 } ∷ [];
  nodes = refl;
  count = refl;
  first = refl;
  last = refl;
}

push-Holds_example : Holds (push 5 6 two_left) ((8, 2) ∷ (9, 4) ∷ (5, 6) ∷ [])
push-Holds_example = push-Holds ((8, 2) ∷ (9, 4) ∷ []) 5 6 two_left-Holds

pop-Holds_example :
    (q' : EventQueue ℕ) × (head_item two_left ≡ some (8, 2))
    × (pop two_left ≡ some q')
    × Holds q' ((9, 4) ∷ [])
pop-Holds_example = pop-Holds (8, 2) ((9, 4) ∷ []) two_left-Holds

empty-Holds : Holds {A = ℕ} (new_queue []) []
unfolding new_queue
empty-Holds = record { old = []; nodes = refl; count = refl; first = refl; last = refl }

pop-empty_example : (head_item {A = ℕ} (new_queue []) ≡ none) × (pop {A = ℕ} (new_queue []) ≡ none)
pop-empty_example = pop-empty empty-Holds
