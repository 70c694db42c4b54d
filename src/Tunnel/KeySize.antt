-- ===== src/Tunnel/KeySize.antt =====
-- The key size that the local end takes from the server's hello, in the RSA cipher that it makes of
-- it.
use lproxy.Base.{
  ℕ, ◌+◌, ◌≤◌, ◌<◌, ◌≡◌, refl, ltb, le→ltb, Option, ap, suc, false, if◌then◌else◌, ◌-◌, List, [],
  ◌∷◌, length, take_all, ok, throw, fault, Bool, true, Bool-cases, inl, inr, ◌⊎◌, arith, ◌==◌,
}
use lproxy.Packet.{Packet, data_len}
use lproxy.Local.Pack.{unpack_reply_hello}
use lproxy.Crypto.Rsa.{Rsa, encrypt, with_public, max_block_size, max_loop, encrypt_loop, sub_size}

zero_block : (keysize : ℕ) → 336 ≤ keysize → keysize < 344 → max_block_size keysize ≡ 0
unfolding max_block_size sub_size
zero_block keysize a b = omega (arith, a, b)

-- A hello whose key size is one of 336 to 343 bits is read as that size and the key behind it. Where
-- the key does not load, the constructor of the RSA cipher throws; where it does, the cipher that the
-- local end makes of them divides by zero in `encrypt`, whatever it is to encrypt. The packet
-- announces what its buffer holds.
pub hello-zero_block :
    (loads : List ℕ → Bool) (encrypt_block : ℕ → List ℕ → List ℕ → Option (List ℕ))
    (decrypt_block : List ℕ → List ℕ → Option (List ℕ)) (reply : Packet) (low : ℕ)
    (key src : List ℕ)
    → reply.payload ≡ 1 ∷ low ∷ key
    → data_len reply ≡ length key + 2
    → 80 ≤ low
    → low < 88
    → (unpack_reply_hello reply ≡ ok (256 + low, key))
      × ((loads key ≡ false) × (with_public loads (256 + low) key ≡ throw tt)
          ⊎ (loads key ≡ true)
            × ((rsa : Rsa) × (with_public loads (256 + low) key ≡ ok rsa)
                × ((encrypt encrypt_block decrypt_block src rsa).0 ≡ fault)))
unfolding unpack_reply_hello encrypt with_public
hello-zero_block loads encrypt_block decrypt_block reply low key src p d a b =
    let short : ltb (length key + 2) 2 ≡ false = le→ltb (length key + 2) 2 (omega arith) in
    let fits : ltb (suc (suc (length key))) (length key + 2) ≡ false = le→ltb _ _ (omega arith) in
    let rest : length key + 2 - 2 ≡ length key = omega arith in
    let made : Rsa = record {
      public_key = key;
      private_key = [];
      keysize = 256 + low;
      flag_private_key_set = false;
    } in
    let divides : (encrypt encrypt_block decrypt_block src made).0 ≡ fault =
      ap
        (λ block.
          if block == 0
          then fault
          else encrypt_loop encrypt_block decrypt_block key src block (max_loop (length src) block)
              0)
        (zero_block (256 + low) (omega (arith, a)) (omega (arith, b))) in
    (
      rw (d, p, short, fits, rest, take_all (length key) key (omega arith)) refl,
      elim (Bool-cases (loads key)) [
        | inl e ↦ inr (e, (made, rw e refl, divides))
        | inr e ↦ inl (e, rw e refl)
      ],
    )
