-- ===== src/Session/Stream/Delivery.antt =====
-- The bytes of a stream of packets, and of one packet in pieces.
use lproxy.Base.{◌⊎◌, ℕ, suc, ◌+◌, ◌≤◌, ◌<◌, ◌≡◌, List, [], ◌∷◌, ◌++◌, length, arith}
use lproxy.Packet.{Packet, data_len, buffers}
use lproxy.Packet.Codec.{Holds}
use lproxy.Session.Stream.{IsSized}

abbrev pub stream : List Packet → List ℕ
stream [] = []
stream (q ∷ qs) = buffers q ++ stream qs

abbrev pub AllSized : List Packet → Type 0
AllSized [] = Unit {0}
AllSized (q ∷ qs) = IsSized q × AllSized qs

-- A packet with data for the other side.
abbrev pub IsData : Packet → Type 0
IsData q = (q.type ≡ 0x06) ⊎ (q.type ≡ 0x17)

abbrev pub AllData : List Packet → Type 0
AllData [] = Unit {0}
AllData (q ∷ qs) = IsData q × AllData qs

pub length-buffers : (q : Packet) → length (buffers q) ≡ 4 + length q.payload
unfolding buffers
length-buffers q = omega arith

abbrev pub flat : List (List ℕ) → List ℕ
flat [] = []
flat (c ∷ cs) = c ++ flat cs

abbrev pub NonEmpty : List (List ℕ) → Type 0
NonEmpty [] = Unit {0}
NonEmpty (c ∷ cs) = (0 < length c) × NonEmpty cs

pub header :
    (p q : Packet) (n : ℕ) (s more : List ℕ)
    → 4 ≤ n
    → Holds p n s
    → s ++ more ≡ buffers q
    → data_len p ≡ data_len q
unfolding buffers data_len
header p q (suc (suc (suc (suc n)))) s more k h e = let e' = rw (← h.read) at e in ground arith
header p q _ s more k h e = absurd (omega arith)
