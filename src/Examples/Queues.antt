-- ===== src/Examples/Queues.antt =====
-- Runs of the theorems on the priority queue, with the log lines of the comment in the source.
use lproxy.Base.{ℕ, ◌≡◌, refl, List, [], ◌∷◌, none}
use lproxy.Log.Queue.{PriorityQueue, push, new_queue}

-- A line is its number and its level: 3 FATAL, 2 ERROR, 1 WARN, 0 INFO.
abbrev level : (ℕ × ℕ) → ℕ
level line = line.1

abbrev lines : List (ℕ × ℕ)
lines = (1, 0) ∷ (2, 1) ∷ (3, 2) ∷ (4, 3) ∷ (5, 3) ∷ (6, 2) ∷ []

pushed : PriorityQueue (ℕ × ℕ)
pushed = push (6, 2) (push (5, 3) (push (4, 3) (push (3, 2) (push (2, 1) (push (1, 0) new_queue)))))

pushed-lines : pushed ≡ record { c = lines; max_value = none }
unfolding pushed push new_queue
pushed-lines = refl
