-- ===== src/Log/Store/Prioritized.antt =====
-- core/log/logstore_priority.h: core/store/store.h on the priority queue of core/log/priority_queue.h.
-- `vfactor` is the argument of `LogQueue::settings`, of which LogStore_priority makes one of FATAL.
use mathlib.Core.Bool.{true≢false}
use lproxy.Base.{ℕ, ◌≡◌, refl, sym, false, List, [], ◌∷◌, Option, none, some}
use lproxy.Log.Queue.{PriorityQueue, new_queue, push, pop, top, size, empty, find_max, erase}
use lproxy.Log.Queue.Order.{in_order, in_order-nil, find_max-takes, top-found}
use lproxy.Log.Queue.Ranked.{insert_ranked, length-insert_ranked, in_order-push, length-in_order}
use lproxy.Log.Store.{Container, Store, new_store, Reach}
use lproxy.Log.Store.Serves.{Serves, IsContainer, Taken}
use lproxy.Log.Store.Linear.{store-Serves}

module _ {A : Type 0} (factor_of : A → ℕ) (vfactor : List ℕ) where
  unfoldable pub log_queue : Container A (PriorityQueue A)
  log_queue = record {
    new = new_queue;
    push = push;
    front = top factor_of vfactor;
    pop = pop;
    empty = empty;
    size = size;
  }

  abbrev pub ordered : PriorityQueue A → List A
  ordered q = in_order factor_of vfactor q.c

  takes :
      (c : List A) (place : Option ℕ)
      → log_queue.empty (record { c = c; max_value = place }) ≡ false
      → Taken
          (insert_ranked factor_of vfactor)
          log_queue
          ordered
          (record { c = c; max_value = place })
  unfolding log_queue empty pop
  takes [] place h = absurd (true≢false h)
  takes (z ∷ c) place h =
      let t = find_max-takes factor_of vfactor z c in
      let i = find_max factor_of vfactor (z ∷ c) in
      record {
        value = t.value;
        found = record { c = z ∷ c; max_value = some i };
        rest = record { c = erase (z ∷ c) i; max_value = none };
        fronts = top-found factor_of vfactor (z ∷ c) place t.value t.at_place;
        pops = refl;
        first = t.first;
      }

  pub log_queue-IsContainer : IsContainer (insert_ranked factor_of vfactor) log_queue
  unfolding log_queue new_queue push empty size
  log_queue-IsContainer = record {
    order = ordered;
    new_order = in_order-nil factor_of vfactor;
    push_order = λ x q. in_order-push factor_of vfactor x q.c;
    size_order = λ q. sym (length-in_order factor_of vfactor q.c);
    empty_size = λ q. refl;
    inserted = length-insert_ranked factor_of vfactor;
    takes = λ q. takes q.c q.max_value;
  }

  -- Whatever turns the threads of a store on the priority queue take, in whatever order, and however
  -- the capacity is changed, what is in it is what the elements that went in and out leave of a list
  -- in which an element goes behind all those of its factor and of the factors before it, and the
  -- first one comes out.
  pub store-by_priority :
      {Allowed : ℕ → ℕ → Type 0} (capacity : ℕ) (s : Store A (PriorityQueue A))
      → Reach log_queue Allowed (new_store log_queue capacity) s
      → Serves (insert_ranked factor_of vfactor) s.history (in_order factor_of vfactor s.store.c)
  unfolding log_queue-IsContainer
  store-by_priority capacity s r =
      store-Serves log_queue (insert_ranked factor_of vfactor) log_queue-IsContainer capacity s r
