-- ===== src/Examples/Codecs.antt =====
-- Runs of the theorems on Rc4 and Base64, with a key stream and an encoder that are easy to compute.
use lproxy.Base.{
  ℕ, suc, ◌+◌, ◌-◌, ◌≡◌, ◌==◌, refl, ap, ap₂, arith, true, false, some, List, [], ◌∷◌, length,
  codes, ok, map, bit_xor, bit_xor_cancel, All,
}
use lproxy.Crypto.{encrypt_all, decrypt_all}
use lproxy.Crypto.Rc4.{Rc4, new_rc4, rc4, rc4-roundtrip}
use lproxy.Crypto.Base64.{base64, base64-roundtrip, remove, line_feed, remove-All}

-- A key stream of one byte that counts up with every call.
abbrev crypt : ℕ → List ℕ → List ℕ × ℕ
crypt state text = (map (λ x. bit_xor x state) text, suc state)

crypted :
    (state : ℕ) (text : List ℕ)
    → map (λ x. bit_xor x state) (map (λ x. bit_xor x state) text) ≡ text
crypted state [] = refl
crypted state (x ∷ text) = ap₂ (λ y ys. y ∷ ys) (bit_xor_cancel x state) (crypted state text)

crypt-undoes :
    (state : ℕ) (text : List ℕ) → crypt state (crypt state text).0 ≡ (text, (crypt state text).1)
crypt-undoes state text = ap (λ t. (t, suc state)) (crypted state text)

abbrev keyed : Rc4 length crypt
keyed = record { key = codes "key"; en_state = 3; de_state = 3 }

keyed-new : new_rc4 length crypt (some (codes "key")) ≡ ok keyed
unfolding new_rc4
keyed-new = refl

abbrev words : List (List ℕ)
words = codes "hello" ∷ codes "lproxy" ∷ []

rc4-roundtrip_example :
    ((dests : List (List ℕ)) × ((encrypt_all (rc4 length crypt) words keyed).0 ≡ ok dests)
      × ((decrypt_all (rc4 length crypt) dests keyed).0 ≡ ok words))
    × ((dests : List (List ℕ)) × ((encrypt_all (rc4 length crypt) words keyed).0 ≡ ok dests)
        × ((decrypt_all (rc4 length crypt) dests keyed).0 ≡ ok words))
rc4-roundtrip_example =
    rc4-roundtrip length crypt crypt-undoes (codes "key") keyed keyed words keyed-new keyed-new

-- Codes above that of the line feed, with a line feed in front.
abbrev encode : List ℕ → List ℕ
encode text = line_feed ∷ map (λ x. x + 11) text

abbrev decode : List ℕ → List ℕ
decode text = map (λ x. x - 11) (remove line_feed text)

remove-nothing : (xs : List ℕ) → All (λ x. (x == line_feed) ≡ false) xs → remove line_feed xs ≡ xs
unfolding remove
remove-nothing [] h = refl
remove-nothing (x ∷ xs) (e, h) = rw e (ap (λ t. x ∷ t) (remove-nothing xs h))

decoded : (text : List ℕ) → decode (encode text) ≡ text
unfolding remove
decoded [] = refl
decoded (x ∷ text) =
    let e : (x + 11 == 10) ≡ false = ground arith in
    let back : x + 11 - 11 ≡ x = omega arith in rw (e, back) (ap (λ t. x ∷ t) (decoded text))

ignored : (text : List ℕ) → decode (remove line_feed text) ≡ decode text
ignored text =
    ap (map (λ x. x - 11)) (remove-nothing (remove line_feed text) (remove-All line_feed text))

hello_through_base64 :
    (dest : List ℕ) × ((base64 encode decode).encrypt (codes "hello") (record { lf = false })
      ≡ (ok dest, record { lf = false }))
    × ((base64 encode decode).decrypt dest (record { lf = true })
        ≡ (ok (codes "hello"), record { lf = true }))
    × ((false ≡ false) → All (λ x. (x == line_feed) ≡ false) dest)
hello_through_base64 =
    base64-roundtrip encode decode decoded ignored (record { lf = false }) (record { lf = true })
      (codes "hello")
