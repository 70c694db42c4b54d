-- ===== src/Tunnel/Agreement/NearTurns.antt =====
-- The completions of the local end against `NearOk`: those that do not read from the connection.
use mathlib.Core.Bool.{true≢false}
use lproxy.Packet.{Packet}
use lproxy.Base.{
  some, ℕ, refl, ◌≡◌, true, false, Option, List, [], ◌∷◌, ◌++◌, All, All-append, All-front,
}
use lproxy.Base.Handler.Keeps.{Keeps, ret-Keeps}
use lproxy.Session.{Exception}
use lproxy.Local.State as Near
use lproxy.Local.State.{
  Session, Env, Op, AfterRightWrite, AfterLeftWrite, AfterLeftRead, hello_handler, exchange_handler,
  right_write_handler, cancel_handler, left_write_socks5_step1_handler, left_write_handler,
  right_read_handler, left_read_socks5_step1, left_read_handler, resolve_right, connect_any,
  connect_right, read_right, read_right_rest, write_right, read_left, write_left, cancel_left,
  cancel_right, close_left, close_right,
}
use lproxy.Local.Right.{right_read}
use lproxy.Local.World.{Completion, after_right, after_left, left_has_read, handler, complete}
use lproxy.Server.State as Far
use lproxy.Tunnel.Joint.{near_reads}
use lproxy.Tunnel.Agreement.{NearSound, NearOk, reads_on, forwards}
use lproxy.Tunnel.Agreement.NearKept.{
  Ok, cancel-Keeps, after_hello-Keeps, after_exchange-Keeps, after_left_write-Keeps, resolved-Keeps,
  right_connected-Keeps, after_right_write-Keeps, step1_read-Keeps, step1_written-Keeps,
  left_read-Keeps,
}

-- The operations that are left when one of them completes.
pub All-without :
    {A : Type 0} (P : A → Type 0) (before rest : List A) (x : A)
    → All P (before ++ x ∷ rest)
    → P x × All P (before ++ rest)
All-without P before rest x h =
    let (a, b) = All-front P before (x ∷ rest) h in (b.0, All-append P before rest a b.1)

module _ (near : Near.Env) (far : Far.Env) (encryptor : Option (List ℕ)) (key : List ℕ) where
  abbrev Kept : (Near.M (Unit {0})) → Type 0
  Kept m = Keeps {E = Exception} (Ok near far encryptor key) m

  pub after_right-Keeps :
      (bound : AfterRightWrite) (c : Completion)
      → (forwards bound ≡ true → encryptor ≡ some key)
      → Kept (after_right near bound c)
  unfolding after_right
  after_right-Keeps hello_handler c h = after_hello-Keeps near far encryptor key c.error
  after_right-Keeps exchange_handler c h = after_exchange-Keeps near far encryptor key c.error
  after_right-Keeps right_write_handler c h =
      after_right_write-Keeps near far encryptor key (h refl) c.error
  after_right-Keeps cancel_handler c h = cancel-Keeps near far encryptor key

  after_left-Keeps :
      (bound : AfterLeftWrite) (c : Completion)
      → reads_on bound ≡ false
      → encryptor ≡ some key
      → Kept (after_left near bound c)
  unfolding after_left reads_on
  after_left-Keeps left_write_socks5_step1_handler c e held =
      step1_written-Keeps near far encryptor key held c.error
  after_left-Keeps left_write_handler c e held =
      after_left_write-Keeps near far encryptor key c.error
  after_left-Keeps (right_read_handler n packet) c e held = absurd (true≢false e)

  left_has_read-Keeps :
      (bound : AfterLeftRead) (c : Completion)
      → encryptor ≡ some key
      → Kept (left_has_read near bound c)
  unfolding left_has_read
  left_has_read-Keeps left_read_socks5_step1 c held =
      step1_read-Keeps near far encryptor key held c.error c.bytes_read
  left_has_read-Keeps left_read_handler c held =
      left_read-Keeps near far encryptor key held c.error c.bytes c.bytes_read

  refused-Keeps :
      (c : Completion) (n : ℕ) (p : Packet) (rest : List ℕ)
      → c.error ≡ true
      → Kept (right_read near c.rand c.error n p rest)
  unfolding right_read
  refused-Keeps c n p rest e = rw e (cancel-Keeps near far encryptor key)

  handler-Keeps :
      (op : Op) (c : Completion)
      → (near_reads op ≡ true → c.error ≡ true)
      → NearSound near far encryptor key op
      → Kept (handler near op c)
  unfolding handler near_reads
  handler-Keeps (resolve_right name port) c alone h =
      resolved-Keeps near far encryptor key c.error c.endpoints
  handler-Keeps (connect_any endpoints) c alone h =
      right_connected-Keeps near far encryptor key c.error c.endpoints
  handler-Keeps (connect_right endpoint rest) c alone h =
      right_connected-Keeps near far encryptor key c.error rest
  handler-Keeps (read_right n) c alone h = refused-Keeps c c.bytes c.packet [] (alone refl)
  handler-Keeps (read_right_rest n packet) c alone h =
      refused-Keeps c c.bytes packet c.bytes_read (alone refl)
  handler-Keeps (write_right packet bound) c alone (_, h) = after_right-Keeps bound c h
  handler-Keeps (read_left n bound) c alone h = left_has_read-Keeps bound c h
  handler-Keeps (write_left text bound) c alone (e, h) = after_left-Keeps bound c e h
  handler-Keeps cancel_left c alone h = ret-Keeps _ _ _
  handler-Keeps cancel_right c alone h = ret-Keeps _ _ _
  handler-Keeps close_left c alone h = ret-Keeps _ _ _
  handler-Keeps close_right c alone h = ret-Keeps _ _ _

  -- What is left when an operation completes, and the operation.
  pub without-NearOk :
      (l : Session) (before : List Op) (op : Op) (rest : List Op)
      → l.issued ≡ before ++ op ∷ rest
      → NearOk near far encryptor key l
      → NearSound near far encryptor key op
        × NearOk near far encryptor key (record l { issued = before ++ rest })
  without-NearOk l before op rest e h =
      let (sound, others) =
        All-without (NearSound near far encryptor key) before rest op (rw e at h.sound) in
      (sound, record { data_key = h.data_key; sound = others; agreed = h.agreed; own = h.own })

  pub near_turn-NearOk :
      (l : Session) (before : List Op) (op : Op) (rest : List Op) (c : Completion)
      → l.issued ≡ before ++ op ∷ rest
      → (near_reads op ≡ true → c.error ≡ true)
      → NearOk near far encryptor key l
      → NearOk near far encryptor key (complete near l before op rest c).1
  unfolding complete Keeps
  near_turn-NearOk l before op rest c e alone h =
      let (sound, others) = without-NearOk l before op rest e h in
      handler-Keeps op c alone sound (record l { issued = before ++ rest }) others
