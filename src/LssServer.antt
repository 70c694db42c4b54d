-- ===== src/LssServer.antt =====
-- core/lss/lss_server.h: the class that accepts connections and makes a session of each. The class of
-- the sessions is its template argument. The handlers of asio run to their end one after the other,
-- those of the right sockets on a thread of their own; an exception that leaves one is logged, and
-- `run` is called again, so that the others go on.
pub mod Served
use lproxy.Base.{ℕ, Bool, true, false, ◌&&◌, if◌then◌else◌, ◌≡◌, List, [], ◌∷◌, ◌++◌}

-- The constructor and the two calls on a session. `A` is what the calls that they make answer.
pub record SessionClass (A SESSION : Type 0) : Type 0 where
  pub new_session : A → SESSION
  pub start : A → SESSION → SESSION
  pub close : A → SESSION → SESSION

pub data Thread : Type 0 where
  not_joinable joinable : Thread

-- `accepting` are the sessions that wait in `async_accept` of `acceptor_`, `sessions` those for which
-- it has ended.
pub record LssServer (SESSION : Type 0) : Type 0 where
  pub listening : Bool
  pub accepting : List SESSION
  pub sessions : List SESSION
  pub left_stopped : Bool
  pub right_stopped : Bool
  pub thread_right : Thread

module _ {A SESSION : Type 0} (class : SessionClass A SESSION) where
  -- The constructor stops both services. The signal sets are local to it, so that their waits end
  -- with it.
  unfoldable pub new_server : LssServer SESSION
  new_server = record {
    listening = false;
    accepting = [];
    sessions = [];
    left_stopped = true;
    right_stopped = true;
    thread_right = not_joinable;
  }

  unfoldable pub start_accept : A → LssServer SESSION → LssServer SESSION
  start_accept a s = record s { accepting = s.accepting ++ class.new_session a ∷ [] }

  unfoldable pub handle_accept : A → SESSION → Bool → LssServer SESSION → LssServer SESSION
  unfolding start_accept
  handle_accept a new_session error s =
      let handled = if error then class.close a new_session else class.start a new_session in
      start_accept a (record s { sessions = s.sessions ++ handled ∷ [] })

  -- Up to the loop of `run`, which lets the handlers run; `setup_error` is an exception of the
  -- address or of the acceptor. A thread that was there is joined.
  unfoldable pub run : A → Bool → LssServer SESSION → LssServer SESSION
  unfolding start_accept
  run a setup_error s =
      if setup_error then record s { listening = false } else record (start_accept a s) {
        listening = true;
        left_stopped = false;
        right_stopped = false;
        thread_right = joinable;
      }

  unfoldable pub stop : LssServer SESSION → LssServer SESSION
  stop s = record s { left_stopped = true; right_stopped = true; thread_right = not_joinable }

  unfoldable pub stopped : LssServer SESSION → Bool
  stopped s = s.left_stopped && s.right_stopped

  module _ (SessionStep : SESSION → SESSION → Type 0) where
    -- An `async_accept` ends, with an error or without, or a handler of a session runs.
    pub data Step : LssServer SESSION → LssServer SESSION → Type 0 where
      accepted :
          (s : LssServer SESSION) (before : List SESSION) (x : SESSION) (rest : List SESSION)
          (error : Bool) (a : A)
          → s.left_stopped ≡ false
          → s.accepting ≡ before ++ x ∷ rest
          → Step s (handle_accept a x error (record s { accepting = before ++ rest }))
      handled :
          (s : LssServer SESSION) (before : List SESSION) (x y : SESSION) (rest : List SESSION)
          → stopped s ≡ false
          → s.sessions ≡ before ++ x ∷ rest
          → SessionStep x y
          → Step s (record s { sessions = before ++ y ∷ rest })

    pub data Reach (s : LssServer SESSION) : LssServer SESSION → Type 0 where
      here : Reach s s
      next : {t u : LssServer SESSION} → Reach s t → Step t u → Reach s u
