-- ===== src/Crypto/Xor/OneStream.antt =====
-- The messages of a sender that goes on in its key, as one stream of bytes.
use lproxy.Base.{
  sym, ℕ, ◌+◌, ◌%◌, ◌<◌, ◌≡◌, refl, ap, ◌∙◌, true, List, [], ◌∷◌, ◌++◌, length, arith, add-mod-mod,
  mod-lt, mod-eq_of_lt, ok, if◌then◌else◌, length-append,
}
use lproxy.Crypto.{encrypt_all}
use lproxy.Crypto.Xor.{Xor, xor_from, encrypt, xor}
use lproxy.Crypto.Xor.Positions.{xor_from-append, xor_from_shift, encrypt-ok}

abbrev pub join : List (List ℕ) → List ℕ
join [] = []
join (xs ∷ rest) = xs ++ join rest

encrypt-synchro :
    (src : List ℕ) (s : Xor)
    → s.is_synchro ≡ true
    → 0 < length s.key
    → encrypt src s ≡ (
      ok (xor_from s.key s.encry_loc 0 src),
      record s { encry_loc = (length src + s.encry_loc) % length s.key },
    )
encrypt-synchro src s m h =
    encrypt-ok src s h
    ∙ ap
        (λ b. (
          ok (xor_from s.key s.encry_loc 0 src),
          record s {
            encry_loc = if b then (length src + s.encry_loc) % length s.key else s.encry_loc;
          },
        ))
        m

-- The messages of a sender that goes on in its key.
record Run (a : Xor) (messages : List (List ℕ)) : Type 0 where
  dests : List (List ℕ)
  calls :
      encrypt_all xor messages a
      ≡ (ok dests, record a { encry_loc = (length (join messages) + a.encry_loc) % length a.key })
  whole : join dests ≡ xor_from a.key a.encry_loc 0 (join messages)

run :
    (a : Xor) (messages : List (List ℕ))
    → a.is_synchro ≡ true
    → a.encry_loc < length a.key
    → Run a messages
unfolding encrypt_all xor xor_from
run a [] m h =
    let z : 0 + a.encry_loc ≡ a.encry_loc = omega arith in
    let stays : (0 + a.encry_loc) % length a.key ≡ a.encry_loc = rw z (mod-eq_of_lt h) in
    record {
      dests = [];
      calls = ap (λ l. (ok [], record a { encry_loc = l })) (sym stays);
      whole = refl;
    }
run a (src ∷ rest) m h =
    let k = length a.key in
    let positive : 0 < k = omega (arith, h) in
    let loc = (length src + a.encry_loc) % k in
    let e = encrypt-synchro src a m positive in
    let r =
      run (record a { encry_loc = loc }) rest m (mod-lt (length src + a.encry_loc) positive) in
    let place : (length (join rest) + loc) % k ≡ (length (src ++ join rest) + a.encry_loc) % k =
      add-mod-mod (length (join rest)) (length src + a.encry_loc) k
      ∙ ap (λ t. t % k) (omega (arith, length-append src (join rest))) in
    record {
      dests = xor_from a.key a.encry_loc 0 src ∷ r.dests;
      calls = rw (e, r.calls, place) refl;
      whole =
          rw
            (
              xor_from-append a.key a.encry_loc 0 src (join rest),
              r.whole,
              xor_from_shift a.key a.encry_loc (length src) 0 (0 + length src) (join rest) refl,
            )
            refl;
    }

-- In the synchronous mode the messages are one stream: encrypted one after the other they give, put
-- together, the bytes and the state that one call on all of them gives. The position is within the
-- key.
pub xor-one_stream :
    (a : Xor) (messages : List (List ℕ))
    → a.is_synchro ≡ true
    → a.encry_loc < length a.key
    → (dests : List (List ℕ)) × (t : Xor) × (encrypt_all xor messages a ≡ (ok dests, t))
      × (encrypt (join messages) a ≡ (ok (join dests), t))
xor-one_stream a messages m h =
    let r = run a messages m h in
    (
      r.dests,
      record a { encry_loc = (length (join messages) + a.encry_loc) % length a.key },
      r.calls,
      rw (encrypt-synchro (join messages) a m (omega (arith, h)), r.whole) refl,
    )
