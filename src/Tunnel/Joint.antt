-- ===== src/Tunnel/Joint.antt =====
-- A session of the local end and one of the server, and the connection between them. A write hands its
-- packet over to the connection at any time before it completes, which is with an error or not; a read
-- takes the packet in front. All completes on its own, in any order.
pub mod Runs
use lproxy.Base.{ℕ, zero, suc, [], ◌+◌, ◌≤◌, ◌≡◌, Bool, true, false, List, ◌∷◌, ◌++◌, length}
use lproxy.Packet.{Packet, buffers}
use lproxy.Packet.Codec.{Holds}
use lproxy.Session.Stream.{IsSized}
use lproxy.Local.State as Near
use lproxy.Local.World as NearWorld
use lproxy.Server.State as Far
use lproxy.Server.World as FarWorld

pub record Joint : Type 0 where
  pub near : Near.Session
  pub far : Far.Session
  -- The packets on their way to the server, and to the local end.
  pub up : List Packet
  pub down : List Packet
  -- Which of the operations that are pending have handed their packet over, by their position.
  pub near_sent : List Bool
  pub far_sent : List Bool

-- Whether an operation of the local end, or of the server, reads from the connection or writes to it.
unfoldable pub near_reads : Near.Op → Bool
near_reads (Near.read_right n) = true
near_reads (Near.read_right_rest n packet) = true
near_reads _ = false

unfoldable pub near_writes : Near.Op → Bool
near_writes (Near.write_right packet bound) = true
near_writes _ = false

unfoldable pub far_reads : Far.Op → Bool
far_reads (Far.read_left n) = true
far_reads (Far.read_left_rest n packet) = true
far_reads _ = false

unfoldable pub far_writes : Far.Op → Bool
far_writes (Far.write_left packet bound) = true
far_writes _ = false

-- The marks of pending operations; those behind the end are not set.
unfoldable pub is_sent : ℕ → List Bool → Bool
is_sent i [] = false
is_sent zero (b ∷ marks) = b
is_sent (suc i) (b ∷ marks) = is_sent i marks

unfoldable pub mark : ℕ → List Bool → List Bool
mark zero [] = true ∷ []
mark zero (b ∷ marks) = true ∷ marks
mark (suc i) [] = false ∷ mark i []
mark (suc i) (b ∷ marks) = b ∷ mark i marks

unfoldable pub unmark : ℕ → List Bool → List Bool
unmark i [] = []
unmark zero (b ∷ marks) = marks
unmark (suc i) (b ∷ marks) = b ∷ unmark i marks

-- A read into the five buffers of a packet with `n` bytes of data, that brings the packet `q`, which
-- announces its size, and nothing else into the buffer `p`.
pub record Brings (q : Packet) (n : ℕ) (error : Bool) (bytes : ℕ) (p : Packet) : Type 0 where
  pub sized : IsSized q
  pub succeeds : error ≡ false
  pub size : bytes ≡ 4 + length q.payload
  pub fits : bytes ≤ 4 + n
  pub held : Holds p bytes (buffers q)

module _ (near : Near.Env) (far : Far.Env) where
  pub data Step : Joint → Joint → Type 0 where
    near_turn :
        (j : Joint) (before : List Near.Op) (op : Near.Op) (rest : List Near.Op)
        (c : NearWorld.Completion)
        → j.near.issued ≡ before ++ op ∷ rest
        → (near_reads op ≡ true → c.error ≡ true)
        → (near_writes op ≡ true → c.error ≡ false → is_sent (length before) j.near_sent ≡ true)
        → Step j (record j {
          near = (NearWorld.complete near j.near before op rest c).1;
          near_sent = unmark (length before) j.near_sent;
        })
    far_turn :
        (j : Joint) (before : List Far.Op) (op : Far.Op) (rest : List Far.Op)
        (d : FarWorld.Completion)
        → j.far.issued ≡ before ++ op ∷ rest
        → (far_reads op ≡ true → d.error ≡ true)
        → (far_writes op ≡ true → d.error ≡ false → is_sent (length before) j.far_sent ≡ true)
        → Step j (record j {
          far = (FarWorld.complete far j.far before op rest d).1;
          far_sent = unmark (length before) j.far_sent;
        })
    near_sends :
        (j : Joint) (q : Packet) (before rest : List Near.Op) (bound : Near.AfterRightWrite)
        → j.near.issued ≡ before ++ Near.write_right q bound ∷ rest
        → is_sent (length before) j.near_sent ≡ false
        → Step j (record j { up = j.up ++ q ∷ []; near_sent = mark (length before) j.near_sent })
    far_sends :
        (j : Joint) (q : Packet) (before rest : List Far.Op) (bound : Far.AfterLeftWrite)
        → j.far.issued ≡ before ++ Far.write_left q bound ∷ rest
        → is_sent (length before) j.far_sent ≡ false
        → Step j (record j { down = j.down ++ q ∷ []; far_sent = mark (length before) j.far_sent })
    near_receives :
        (j : Joint) (q : Packet) (others : List Packet) (n : ℕ) (before rest : List Near.Op)
        (c : NearWorld.Completion)
        → j.near.issued ≡ before ++ Near.read_right n ∷ rest
        → j.down ≡ q ∷ others
        → Brings q n c.error c.bytes c.packet
        → Step j (record j {
          near = (NearWorld.complete near j.near before (Near.read_right n) rest c).1;
          down = others;
          near_sent = unmark (length before) j.near_sent;
        })
    far_receives :
        (j : Joint) (q : Packet) (others : List Packet) (n : ℕ) (before rest : List Far.Op)
        (d : FarWorld.Completion)
        → j.far.issued ≡ before ++ Far.read_left n ∷ rest
        → j.up ≡ q ∷ others
        → Brings q n d.error d.bytes d.packet
        → Step j (record j {
          far = (FarWorld.complete far j.far before (Far.read_left n) rest d).1;
          up = others;
          far_sent = unmark (length before) j.far_sent;
        })

  pub data Reach (j : Joint) : Joint → Type 0 where
    here : Reach j j
    next : {k l : Joint} → Reach j k → Step k l → Reach j l

  -- Two sessions, with nothing on its way.
  abbrev pub still : Near.Session → Far.Session → Joint
  still l s = record { near = l; far = s; up = []; down = []; near_sent = []; far_sent = [] }

  -- A client that was accepted by the local end, and a connection that was accepted by the server.
  abbrev pub accepted : Far.Socks5Cmd → ℕ → ℕ → Joint
  accepted cmd port reply = still (NearWorld.started near) (FarWorld.started cmd port reply)
