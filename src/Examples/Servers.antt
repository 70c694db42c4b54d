-- ===== src/Examples/Servers.antt =====
-- Runs of the theorems on the sessions of a server: one is accepted, and comes to `status_data`.
use lproxy.Base.{ℕ, ◌≡◌, refl, false, some, List, [], ◌∷◌, length}
use lproxy.Server.State as Far
use lproxy.Server.World as World
use lproxy.Server.World.{started}
use lproxy.Server.Left.{start}
use lproxy.LssServer.{
  LssServer, new_server, run, start_accept, handle_accept, stopped, Reach, here, next, accepted,
  handled,
}
use lproxy.Server.Served.{Asked, session_class, sessions-keyed}
use lproxy.Local.State as Near
use lproxy.Local.World as NearWorld
use lproxy.Local.Right as NearRight
use lproxy.Local.Served as NearServed
use lproxy.Local.Served.{sessions-sized}
use lproxy.Examples.Ends.{far, near}
use lproxy.Examples.Arrivals as Arrivals
use lproxy.Examples.Sessions.{has_key, has_key-Reach, has_key-status}

abbrev asked : Asked
asked = record {
  cmd = Far.cmd_connect;
  port = 0;
  reply = 0;
  endpoint_error = false;
  left = false;
  tcp = false;
  udp = false;
}

-- A server that runs, with one session.
abbrev serving : Far.Session → LssServer Far.Session
serving s = record (run session_class asked false (new_server session_class)) { sessions = s ∷ [] }

Reaches :
    (s : Far.Session)
    → World.Reach far (started Far.cmd_connect 0 0) s
    → Reach session_class
        (World.Step far)
        (run session_class asked false (new_server session_class))
        (serving s)
unfolding run new_server start_accept session_class handle_accept stopped started start
Reaches s World.here =
    next here (accepted _ [] (Far.new_session Far.cmd_connect 0 0) [] false asked refl refl)
Reaches s (World.next r x) = next (Reaches _ r) (handled _ [] _ s [] refl refl x)

sessions-keyed_example :
    (length (serving has_key).accepting ≡ 1) × ((key : List ℕ) × (has_key.aes_encryptor ≡ some key))
sessions-keyed_example =
    sessions-keyed far asked (serving has_key) [] [] has_key (Reaches has_key has_key-Reach) refl
      has_key-status

-- The local end, in the same way.
abbrev near_asked : NearServed.Asked
near_asked = record { endpoint_error = false; left = false; right = false }

abbrev near_serving : Near.Session → LssServer Near.Session
near_serving s =
    record (run (NearServed.session_class near) near_asked false
      (new_server (NearServed.session_class near))) { sessions = s ∷ [] }

near-Reaches :
    (s : Near.Session)
    → NearWorld.Reach near (NearWorld.started near) s
    → Reach
        (NearServed.session_class near)
        (NearWorld.Step near)
        (run
          (NearServed.session_class near)
          near_asked
          false
          (new_server (NearServed.session_class near)))
        (near_serving s)
unfolding run new_server start_accept NearServed.session_class handle_accept stopped
    NearWorld.started NearRight.start
near-Reaches s NearWorld.here =
    next here (accepted _ [] Near.new_session [] false near_asked refl refl)
near-Reaches s (NearWorld.next r x) = next (near-Reaches _ r) (handled _ [] _ s [] refl refl x)

sessions-sized_example :
    (length (near_serving Arrivals.has_key).accepting ≡ 1) × (length Arrivals.has_key.data_key ≡ 32)
sessions-sized_example =
    sessions-sized near near_asked (near_serving Arrivals.has_key) [] [] Arrivals.has_key
      (near-Reaches Arrivals.has_key Arrivals.has_key-Reach) refl Arrivals.has_key-status
