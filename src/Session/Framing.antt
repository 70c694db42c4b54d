-- ===== src/Session/Framing.antt =====
-- The packet buffer seen as the bytes received and not dealt with. `Holds p n s` says that the
-- handler, called with `n` bytes transferred, has received the bytes `s`.
use lproxy.Base.{
  le→leb, ℕ, zero, suc, ◌+◌, ◌-◌, ◌≤◌, ◌<◌, ◌≡◌, refl, ap, ap₂, sym, ◌∙◌, true, inl, inr,
  Bool-cases, ltb, List, ◌∷◌, ◌++◌, length, take, drop, replicate, get_or, length-append,
  length-take, length-drop, length-replicate, take-append_ge, take-append_le, take_all,
  take-length-append, take-take_le, arith, le→ltb,
}
use lproxy.Base.{ok, throw}
use lproxy.Packet.{Packet, data_len, buffers, resize}
use lproxy.Packet.Codec.{Holds}
use lproxy.Session.{
  sub_ℕ, pos, negsuc, incomplete_data, lss_pack_integrity_check, cut_lss, rectify, trim_incomplete,
}

pub sub_ℕ-pos : (a b c : ℕ) → a ≡ b + c → sub_ℕ a b ≡ pos c
unfolding sub_ℕ
sub_ℕ-pos a b c h = let e : a - b ≡ c = omega arith in rw (le→leb b a (omega arith), e) refl

-- A second read brings a chunk of at most `n` bytes into a zeroed buffer of `n` bytes.
unfoldable pub rest_buffer : ℕ → List ℕ → List ℕ
rest_buffer n chunk = chunk ++ replicate (n - length chunk) 0

-- The check passes exactly when the header and the payload that it announces are there.
pub integrity_check-ok :
    (n : ℕ) (p : Packet) → 4 + data_len p ≤ n → lss_pack_integrity_check n p ≡ ok tt
unfolding lss_pack_integrity_check
integrity_check-ok n p h = ground arith

pub integrity_check-incomplete :
    (n : ℕ) (p : Packet)
    → 4 ≤ n
    → n < 4 + data_len p
    → lss_pack_integrity_check n p ≡ throw (incomplete_data (pos (data_len p + 4 - n)))
unfolding lss_pack_integrity_check
integrity_check-incomplete n p h k = ground arith

pub integrity_check-short :
    (n : ℕ) (p : Packet) → n < 4 → lss_pack_integrity_check n p ≡ throw (incomplete_data (negsuc 0))
unfolding lss_pack_integrity_check
integrity_check-short n p h = ground arith

take-resize : (n : ℕ) (d : List ℕ) → n ≤ length d → take n (resize n d) ≡ take n d
unfolding resize
take-resize n d h =
    take-append_le n (take n d) _ (omega (arith, length-take n d))
    ∙ take-take_le n n d (omega arith)

length-resize : (n : ℕ) (d : List ℕ) → n ≤ length d → length (resize n d) ≡ n
unfolding resize
length-resize n d h = omega (
  arith,
  length-append (take n d) (replicate (n - length d) 0),
  length-take n d,
  length-replicate {0} {A = ℕ} (n - length d) 0,
)

-- Cutting the buffer to what was received keeps it, and leaves no room behind it.
pub trim_incomplete-Holds :
    (n : ℕ) (p : Packet) (s : List ℕ)
    → 4 ≤ n
    → Holds p n s
    → Holds (trim_incomplete n p) n s × (length (trim_incomplete n p).payload + 4 ≡ n)
unfolding trim_incomplete buffers
trim_incomplete-Holds (suc (suc (suc (suc n)))) p s h v =
    elim (Bool-cases (ltb (suc (suc (suc (suc n)))) (length p.payload + 4))) [
      | inl e ↦ rw e (
        record {
          within = omega (arith, size);
          read =
              ap (λ t. p.version ∷ p.type ∷ p.data_len_high_byte ∷ p.data_len_low_byte ∷ t)
                (ap (λ k. take n (resize k p.payload)) cut ∙ take-resize n p.payload (omega arith))
              ∙ v.read;
        },
        omega (arith, size),
      )
      | inr e ↦ rw e (v, ground arith)
    ]
  where
    cut : suc (suc (suc (suc n))) - 4 ≡ n
    cut = omega arith

    size :
        n + 4 ≤ length p.payload + 4 → length (resize (suc (suc (suc (suc n))) - 4) p.payload) ≡ n
    size h = ap (λ k. length (resize k p.payload)) cut ∙ length-resize n p.payload (omega arith)
trim_incomplete-Holds _ p s h v = absurd (omega arith)

-- A second read of a chunk extends what was received by the chunk, and by no more.
pub rectify-Holds :
    (n less : ℕ) (p : Packet) (s chunk : List ℕ)
    → length p.payload + 4 ≡ n
    → Holds p n s
    → 0 < length chunk
    → length chunk ≤ less
    → let (n', p') = rectify (length chunk) p (rest_buffer less chunk) in
      (n' ≡ n + length chunk) × Holds p' n' (s ++ chunk)
unfolding rectify rest_buffer buffers
rectify-Holds n less p s chunk e v h k = rw nonempty (
  omega arith,
  record {
    within = omega (arith, length-append p.payload (chunk ++ zeros), length-append chunk zeros);
    read =
        take-append_ge _ (buffers p) (chunk ++ zeros) (omega arith)
        ∙ ap₂ ◌++◌ (sym (take_all n (buffers p) (omega arith)) ∙ v.read)
            (ap (λ k. take k (chunk ++ zeros)) back ∙ take-length-append chunk zeros);
  },
)
  where
    zeros : List ℕ
    zeros = replicate (less - length chunk) 0

    back : length chunk + (length p.payload + 4) - length (buffers p) ≡ length chunk
    back = omega arith

    nonempty : ltb 0 (length (chunk ++ zeros)) ≡ true
    nonempty = ground (arith, length-append chunk zeros)

slice :
    (start n : ℕ) (xs : List ℕ)
    → start + 4 ≤ n
    → n ≤ length xs
    → get_or xs start 0
        ∷ get_or xs (start + 1) 0
        ∷ get_or xs (start + 2) 0
        ∷ get_or xs (start + 3) 0
        ∷ take (n - (start + 4)) (drop (start + 4) xs)
      ≡ drop start (take n xs)
slice zero (suc (suc (suc (suc n)))) (a ∷ b ∷ c ∷ d ∷ xs) h k =
    let e : suc (suc (suc (suc n))) - 4 ≡ n = omega arith in ap (λ m. a ∷ b ∷ c ∷ d ∷ take m xs) e
slice (suc start) (suc n) (x ∷ xs) h k =
    let e1 : suc start + 1 ≡ suc (start + 1) = omega arith in
    let e2 : suc start + 2 ≡ suc (start + 2) = omega arith in
    let e3 : suc start + 3 ≡ suc (start + 3) = omega arith in
    let e4 : suc start + 4 ≡ suc (start + 4) = omega arith in
    let e5 : suc n - suc (start + 4) ≡ n - (start + 4) = omega arith in
    rw (e1, e2, e3, e4, e5) (slice start n xs (omega arith) (omega arith))
slice _ _ _ h k = absurd (omega arith)

-- The cut drops the packet that was dealt with, and keeps what was received behind it.
pub cut_lss-Holds :
    (start n : ℕ) (p : Packet) (s : List ℕ)
    → Holds p n s
    → start + 4 ≤ n
    → let (more, q) = cut_lss start n p in (more ≡ true) × Holds q (n - start) (drop start s)
unfolding cut_lss buffers
cut_lss-Holds start n p s v h = rw (le→ltb _ _ h) (
  refl,
  record {
    within = omega (
      arith,
      length-take (n - (start + 4)) (drop (start + 4) (buffers p)),
      length-drop (start + 4) (buffers p),
    );
    read =
        ap (take (n - start)) (slice start n (buffers p) h (omega arith))
        ∙ take_all (n - start) (drop start (take n (buffers p)))
            (omega (arith, length-drop start (take n (buffers p)), length-take n (buffers p)))
        ∙ ap (drop start) v.read;
  },
)
