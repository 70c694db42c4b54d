-- ===== src/Examples/Stores.antt =====
-- A store of one element: a second `push` waits, and a `pop` wakes it. Then the store of the log lines,
-- where a line of FATAL overtakes.
use lproxy.Base.{ℕ, ◌<◌, ◌≤◌, ◌≡◌, refl, List, [], ◌∷◌, ◌++◌, length, ok, none, arith}
use lproxy.Log.Queue
use lproxy.Log.Queue.{PriorityQueue, new_queue, find, find_max, at, erase, top, size, empty}
use lproxy.Log.Queue.Order.{in_order}
use lproxy.Log.Queue.Ranked.{insert_ranked}
use lproxy.Log.Store.{
  Store, pushed, popped, new_store, full, wake, notify_full, notify_empty, push, pop, Reach, here,
  next, push_called, pop_called, push_turn, pop_turn,
}
use lproxy.Log.Store.Serves.{Serves}
use lproxy.Log.Store.Fifo
use lproxy.Log.Store.Fifo.{queue, front, ins, outs, put_last, queue-IsContainer, store-in_order}
use lproxy.Log.Store.Prioritized.{log_queue, store-by_priority}
use lproxy.Log.Store.Waking.{Lowered, store-no_lost_wakeup}
use lproxy.Log.Store.Raised.{Larger, reserve-strands}

abbrev called : Store ℕ (List ℕ)
called = record (new_store queue 1) { pushing = 8 ∷ 7 ∷ [] }

abbrev stored : Store ℕ (List ℕ)
stored = push queue 7 (record called { pushing = 8 ∷ [] })

abbrev waits : Store ℕ (List ℕ)
waits = push queue 8 (record stored { pushing = [] })

abbrev popper : Store ℕ (List ℕ)
popper = record waits { popping = 1 }

abbrev woken : Store ℕ (List ℕ)
woken = record {
  store = [];
  capacity = 1;
  pushing = 8 ∷ [];
  waiting_full = [];
  popping = 0;
  waiting_empty = 0;
  history = popped 7 ∷ pushed 7 ∷ [];
}

waits-Reach : Reach queue Lowered (new_store queue 1) waits
unfolding queue new_store push full notify_empty
waits-Reach =
    next
      (next (next (next here (push_called _ 7)) (push_called _ 8))
        (push_turn called (8 ∷ []) 7 [] refl))
      (push_turn stored [] 8 [] refl)

-- What the run comes to: the `pop` takes 7 out and wakes the thread that pushes 8.
woken-Reach : Reach queue Lowered (new_store queue 1) woken
unfolding queue front Fifo.pop new_store push full notify_empty pop notify_full wake
woken-Reach = next (next waits-Reach (pop_called _)) (pop_turn popper woken 0 0 refl refl)

store-in_order_example : outs woken.history ++ woken.store ≡ ins woken.history
store-in_order_example = store-in_order 1 woken woken-Reach

store-no_lost_wakeup_example :
    (0 < length woken.waiting_full
      → queue.size woken.store < woken.capacity
      → 0 < length woken.pushing)
    × (0 < woken.waiting_empty → 0 < queue.size woken.store → 0 < woken.popping)
    × (queue.size woken.store ≤ 1)
    × ((t : Store ℕ (List ℕ)) × (pop queue 0 woken ≡ ok t))
store-no_lost_wakeup_example =
    store-no_lost_wakeup queue put_last queue-IsContainer 1 woken 0 woken-Reach

reserve-strands_example :
    (s : Store ℕ (List ℕ)) × Reach queue Larger (new_store queue 1) s
    × (0 < length s.waiting_full)
    × (queue.size s.store < s.capacity)
    × (s.pushing ≡ [])
    × (s.popping ≡ 0)
reserve-strands_example = reserve-strands queue put_last queue-IsContainer 1 7 2 (omega arith)

-- A line is its number and its level: 3 FATAL, 0 INFO.
abbrev line_level : (ℕ × ℕ) → ℕ
line_level line = line.1

abbrev lines : Store (ℕ × ℕ) (PriorityQueue (ℕ × ℕ))
lines = new_store (log_queue line_level (3 ∷ [])) 4

abbrev lines_called : Store (ℕ × ℕ) (PriorityQueue (ℕ × ℕ))
lines_called = record lines { pushing = (2, 3) ∷ (1, 0) ∷ []; popping = 1 }

abbrev line_stored : Store (ℕ × ℕ) (PriorityQueue (ℕ × ℕ))
line_stored =
    push (log_queue line_level (3 ∷ [])) (1, 0) (record lines_called { pushing = (2, 3) ∷ [] })

abbrev lines_stored : Store (ℕ × ℕ) (PriorityQueue (ℕ × ℕ))
lines_stored = push (log_queue line_level (3 ∷ [])) (2, 3) (record line_stored { pushing = [] })

abbrev overtaken : Store (ℕ × ℕ) (PriorityQueue (ℕ × ℕ))
overtaken = record {
  store = record { c = (1, 0) ∷ []; max_value = none };
  capacity = 4;
  pushing = [];
  waiting_full = [];
  popping = 0;
  waiting_empty = 0;
  history = popped (2, 3) ∷ pushed (2, 3) ∷ pushed (1, 0) ∷ [];
}

overtaken-Reach : Reach (log_queue line_level (3 ∷ [])) Lowered lines overtaken
unfolding log_queue new_queue Queue.push find find_max at erase top Queue.pop size empty new_store
    push full notify_empty pop notify_full wake
overtaken-Reach =
    next
      (next
        (next (next (next (next here (push_called _ (1, 0))) (push_called _ (2, 3))) (pop_called _))
          (push_turn lines_called ((2, 3) ∷ []) (1, 0) [] refl))
        (push_turn line_stored [] (2, 3) [] refl))
      (pop_turn lines_stored overtaken 0 0 refl refl)

store-by_priority_example :
    Serves
      (insert_ranked line_level (3 ∷ []))
      overtaken.history
      (in_order line_level (3 ∷ []) overtaken.store.c)
store-by_priority_example = store-by_priority line_level (3 ∷ []) 4 overtaken overtaken-Reach
