-- ===== src/Session.antt =====
-- core/lss/session.h: what both session classes share. The status, the exceptions that a handler
-- catches, the integrity check of a packet, and the cut of a packet that has been dealt with.
-- Both `left_read_handler` (server) and `right_read_handler` (local) wrap these in the same code,
-- which is here too: a prologue that joins what a second read has brought, and an epilogue that
-- prepares a second read.
pub mod Framing
pub mod Stream
use lproxy.Base.{
  ℕ, suc, ◌+◌, ◌-◌, Bool, true, false, ltb, leb, ◌==◌, if◌then◌else◌, List, [], ◌∷◌, ◌++◌, length,
  take, drop, get_or, Outcome, ok, throw, fault,
}
use lproxy.Packet.{Packet, data_len, buffers, resize}

-- lproxy::readbuffer.
abbrev pub max_length : ℕ
max_length = 4096

abbrev pub length_handshake : ℕ
length_handshake = 1024

pub data Status : Type 0 where
  status_not_connected status_connected status_hello status_auth status_data : Status

-- An `int`: `negsuc n` is -(n + 1).
pub data ℤ : Type 0 where
  pos : ℕ → ℤ
  negsuc : ℕ → ℤ

-- a - b, as an `int`.
unfoldable pub sub_ℕ : ℕ → ℕ → ℤ
sub_ℕ a b = if leb b a then pos (a - b) else negsuc (b - a - 1)

unfoldable pub is_positive : ℤ → Bool
is_positive (pos n) = ltb 0 n
is_positive (negsuc n) = false

unfoldable pub is_negative : ℤ → Bool
is_negative (pos n) = false
is_negative (negsuc n) = true

unfoldable pub to_size : ℤ → ℕ
to_size (pos n) = n
to_size (negsuc n) = 0

-- `0 - less`, for a number below 0.
unfoldable pub negated : ℤ → ℤ
negated (pos n) = pos 0
negated (negsuc n) = pos (suc n)

-- The exceptions of session.h and socks5_protocol.h; `other_exception` is any other.
pub data Exception : Type 0 where
  wrong_lss_status : Status → Status → Exception
  wrong_packet_type : Exception
  incomplete_data : ℤ → Exception
  illegal_data_type : Exception
  unsupported_version : Exception
  other_exception : Exception

abbrev pub Result {ℓ} : Type ℓ → Type ℓ
Result A = Outcome Exception A

unfoldable pub status_code : Status → ℕ
status_code status_not_connected = 0
status_code status_connected = 1
status_code status_hello = 2
status_code status_auth = 3
status_code status_data = 4

unfoldable pub assert_status : Status → Status → Result (Unit {0})
unfolding status_code
assert_status current wanted =
    if status_code current == status_code wanted
    then ok tt
    else throw (wrong_lss_status wanted current)

-- `incomplete_data(0xffffffff)` holds the `int` -1.
unfoldable pub lss_pack_integrity_check : ℕ → Packet → Result (Unit {0})
unfolding sub_ℕ is_positive
lss_pack_integrity_check bytes_transferred lss_data =
    if ltb bytes_transferred 4
    then throw (incomplete_data (negsuc 0))
    else let less = sub_ℕ (data_len lss_data + 4) bytes_transferred in
      if is_positive less then throw (incomplete_data less) else ok tt

-- `cut_lss`: the answer, and the packet that it leaves. The caller's `lss_len` is at most the size
-- of the buffers, so that the reads at `start_pos` are within them.
unfoldable pub cut_lss : ℕ → ℕ → Packet → Bool × Packet
unfolding buffers
cut_lss start_pos lss_len lss =
    if ltb lss_len (start_pos + 4)
    then (false, lss)
    else let buf = buffers lss in
      (
        true,
        record {
          version = get_or buf start_pos 0;
          type = get_or buf (start_pos + 1) 0;
          data_len_high_byte = get_or buf (start_pos + 2) 0;
          data_len_low_byte = get_or buf (start_pos + 3) 0;
          payload = take (lss_len - (start_pos + 4)) (drop (start_pos + 4) buf);
        },
      )

-- The prologue: what was read into `rest` is appended to the packet that was incomplete.
unfoldable pub rectify : ℕ → Packet → List ℕ → ℕ × Packet
rectify bytes_transferred lss rest =
    if ltb 0 (length rest)
    then (
      bytes_transferred + (length lss.payload + 4),
      record lss { payload = lss.payload ++ rest },
    )
    else (bytes_transferred, lss)

-- The epilogue: the packet keeps what was received of it. Where `bytes_transferred` is not below
-- the size of the packet, the code changes nothing.
unfoldable pub trim_incomplete : ℕ → Packet → Packet
unfolding resize
trim_incomplete bytes_transferred lss =
    if ltb bytes_transferred (length lss.payload + 4)
    then record lss { payload = resize (bytes_transferred - 4) lss.payload }
    else lss
