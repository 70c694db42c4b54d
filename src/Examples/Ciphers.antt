-- ===== src/Examples/Ciphers.antt =====
-- Runs of the theorems on the ciphers, with block ciphers and key streams that are easy to compute.
use lproxy.Base.{
  ℕ, ◌+◌, ◌-◌, ◌%◌, ◌≡◌, ◌≢◌, ◌⊎◌, refl, arith, Bool, true, false, Option, none, some, List, [],
  ◌∷◌, ◌++◌, length, take, replicate, codes, ok, throw, fault, length-append, length-replicate,
  take-length-append,
}
use lproxy.Packet.{Packet, data_len}
use lproxy.Local.Pack.{unpack_reply_hello}
use lproxy.Tunnel.KeySize.{hello-zero_block}
use lproxy.Crypto.{decrypt_exception, encrypt_all, decrypt_all}
use lproxy.Crypto.Xor.{Xor, new_xor, encrypt, xor}
use lproxy.Crypto.Xor.Positions.{xor-roundtrip}
use lproxy.Crypto.Xor.OneStream.{join, xor-one_stream}
use lproxy.Crypto.Aes.{Aes, aes, new_raw}
use lproxy.Crypto.Aes as Aes
use lproxy.Crypto.Aes.KeyStream.{xor_bytes, encrypt_all-repeats, aes-roundtrip}
use lproxy.Crypto.Rsa as Rsa
use lproxy.Crypto.Rsa.Blocks.{Pairs, rsa-roundtrip}
use lproxy.Examples.Ends.{empty_packet}

abbrev sender : Xor
sender = record { key = codes "key"; encry_loc = 0; decry_loc = 0; is_synchro = true }

abbrev words : List (List ℕ)
words = codes "hello" ∷ codes "lproxy" ∷ []

sender-new : sender ≡ new_xor (codes "key") true
unfolding new_xor
sender-new = refl

xor-roundtrip_example :
    (dests : List (List ℕ)) × ((encrypt_all xor words sender).0 ≡ ok dests)
    × ((decrypt_all xor dests sender).0 ≡ ok words)
xor-roundtrip_example = xor-roundtrip sender sender words refl refl refl (omega arith)

xor-one_stream_example :
    (dests : List (List ℕ)) × (t : Xor) × (encrypt_all xor words sender ≡ (ok dests, t))
    × (encrypt (join words) sender ≡ (ok (join dests), t))
xor-one_stream_example = xor-one_stream sender words refl (omega arith)

abbrev md5 : List ℕ → List ℕ
md5 text = replicate 32 65

abbrev ctr_mode : List ℕ → List ℕ → ℕ → ℕ
ctr_mode key ctr i = (length key + length ctr + i) % 256

abbrev cipher_object : Aes
cipher_object = record { aes_key = replicate 32 7; ctr = replicate 16 65 }

encrypt_all-repeats_example :
    (one two : List ℕ) × (encrypt_all
        (aes md5 ctr_mode)
        (codes "hello" ∷ codes "lproxy" ∷ [])
        cipher_object
      ≡ (ok (one ∷ two ∷ []), cipher_object))
    × (xor_bytes one two ≡ xor_bytes (codes "hello") (codes "lproxy"))
encrypt_all-repeats_example =
    encrypt_all-repeats md5 ctr_mode cipher_object (codes "hello") (codes "lproxy")

abbrev raw_key : List ℕ
raw_key = replicate 32 7

aes-roundtrip_example :
    (length raw_key ≡ 32)
      × ((s : Aes) × (new_raw md5 ctr_mode raw_key ≡ ok s)
          × ((dests : List (List ℕ)) × ((encrypt_all (aes md5 ctr_mode) words s).0 ≡ ok dests)
              × ((decrypt_all (aes md5 ctr_mode) dests s).0 ≡ ok words))
          × ((dest : List ℕ) × (Aes.encrypt md5 ctr_mode (codes "hello") s ≡ (ok dest, s))
              × (length dest ≡ length (codes "hello"))))
    ⊎ (length raw_key ≢ 32) × (new_raw md5 ctr_mode raw_key ≡ fault)
aes-roundtrip_example = aes-roundtrip md5 ctr_mode raw_key (codes "hello") words (λ input. refl)

-- A block of 128 bytes: the size, the text and zeros.
abbrev encrypt_block : ℕ → List ℕ → List ℕ → Option (List ℕ)
encrypt_block draw key text = some (length text ∷ text ++ replicate (127 - length text) 0)

abbrev decrypt_block : List ℕ → List ℕ → Option (List ℕ)
decrypt_block key [] = none
decrypt_block key (size ∷ rest) = some (take size rest)

block-Pairs : Pairs encrypt_block decrypt_block [] []
block-Pairs = record {
  block = λ draw text h.
      let pad = replicate (127 - length text) 0 in
      (
        length text ∷ text ++ pad,
        refl,
        omega (arith, h, length-append text pad, length-replicate {A = ℕ} (127 - length text) 0),
        rw (take-length-append text pad) refl,
      );
}

abbrev long_text : List ℕ
long_text = replicate 100 97

-- The keys of the examples are those without digits.
abbrev loads : List ℕ → Bool
loads [] = true
loads (x ∷ key) = false

rsa-roundtrip_example :
    (sender receiver other : Rsa.Rsa) × (cipher : List ℕ) × (Rsa.with_public loads 1024 []
      ≡ ok sender)
    × (Rsa.with_strings loads loads 1024 [] [] ≡ ok receiver)
    × (Rsa.with_bytes loads loads 1024 [] [] ≡ ok other)
    × ((Rsa.encrypt encrypt_block decrypt_block long_text sender).0 ≡ ok cipher)
    × ((Rsa.decrypt encrypt_block decrypt_block cipher receiver).0 ≡ ok long_text)
    × ((Rsa.decrypt encrypt_block decrypt_block cipher other).0 ≡ throw decrypt_exception)
rsa-roundtrip_example =
    rsa-roundtrip encrypt_block decrypt_block [] [] block-Pairs loads loads long_text refl refl
      (omega arith)

-- A text of 11272191 bytes is 131072 blocks, of which the last lacks a byte; `float` has not the
-- places for that.
overcounted : Rsa.max_loop 11272191 86 ≡ 131073
unfolding Rsa.max_loop
overcounted = refl

abbrev bad_hello : Packet
bad_hello = record empty_packet { type = 1; data_len_low_byte = 2; payload = 1 ∷ 80 ∷ [] }

hello-zero_block_example :
    (unpack_reply_hello bad_hello ≡ ok (336, []))
    × ((true ≡ false) × (Rsa.with_public loads 336 [] ≡ throw tt)
        ⊎ (true ≡ true)
          × ((rsa : Rsa.Rsa) × (Rsa.with_public loads 336 [] ≡ ok rsa)
              × ((Rsa.encrypt encrypt_block decrypt_block (codes "key") rsa).0 ≡ fault)))
unfolding data_len
hello-zero_block_example =
    hello-zero_block loads encrypt_block decrypt_block bad_hello 80 [] (codes "key") refl refl
      (omega arith) (omega arith)
