-- ===== src/Socks5/Ident.antt =====
-- The greeting of RFC 1928: version, number of methods, methods; and the choice of a method.
use lproxy.Base.{
  ℕ, zero, suc, ◌+◌, ◌≤◌, ◌<◌, ◌≡◌, ◌==◌, Bool-cases, ◌≢◌, refl, ap, false, All, inl, inr, ◌⊎◌,
  true, some, List, [], ◌∷◌, ◌++◌, length, take, replicate, ok, arith, length-append,
  length-replicate, take-length-append,
}
use lproxy.Socks5.{IdentReq, ident_req, offers_no_auth, ident_resp_pack}

-- The greeting as a client writes it.
abbrev pub greeting : List ℕ → List ℕ
greeting methods = 5 ∷ length methods ∷ methods

offers_no_auth-padded :
    (sent : List ℕ) (number pad : ℕ)
    → length sent < number
    → number ≤ length sent + pad
    → offers_no_auth (take number (sent ++ replicate pad 0)) ≡ true
unfolding offers_no_auth
offers_no_auth-padded [] zero pad h k = elim h [ ]
offers_no_auth-padded [] (suc n) zero h k = absurd (omega arith)
offers_no_auth-padded [] (suc n) (suc pad) h k = refl
offers_no_auth-padded (x ∷ xs) zero pad h k = elim h [ ]
offers_no_auth-padded (x ∷ xs) (suc n) pad h k =
    ground (arith, offers_no_auth-padded xs n pad (omega arith) (omega arith))

-- The method 0x00 is not among the methods, or it stands at a place.
pub offers_cases :
    (methods : List ℕ)
    → ((offers_no_auth methods ≡ false) × All (λ m. m ≢ 0x00) methods)
      ⊎ ((offers_no_auth methods ≡ true)
          × ((before after : List ℕ) × (methods ≡ before ++ 0x00 ∷ after)))
unfolding offers_no_auth
offers_cases [] = inl (refl, tt)
offers_cases (m ∷ methods) = elim (Bool-cases (m == 0)) [
  | inl e ↦
      let zero_method : m ≡ 0 = ground (arith, e) in
      inr (rw e refl, ([], methods, ap (λ x. x ∷ methods) zero_method))
  | inr e ↦ elim (offers_cases methods) [
    | inl (f, others) ↦ inl (rw (e, f) refl, ((λ h. ground (arith, e, h)), others))
    | inr (f, (before, after, split)) ↦
        inr (rw (e, f) refl, (m ∷ before, after, ap (λ ms. m ∷ ms) split))
  ]
]

-- A greeting is read back with its methods, whatever bytes of the buffer follow it.
pub ident_req-greeting :
    (methods rest : List ℕ)
    → 0 < length methods + length rest
    → ident_req (some (greeting methods ++ rest))
      ≡ ok (record { version = 5; number_of_methods = length methods; methods = methods })
unfolding ident_req
ident_req-greeting methods rest h =
    ground (arith, take-length-append methods rest, length-append methods rest)

-- A greeting that is cut short within its methods, in a buffer that goes on with enough zeros, is
-- accepted, and answered with the method 0x00.
pub ident_req-padded :
    (number : ℕ) (sent : List ℕ) (pad : ℕ)
    → length sent < number
    → number ≤ length sent + pad
    → (r : IdentReq) × (ident_req (some (5 ∷ number ∷ (sent ++ replicate pad 0))) ≡ ok r)
      × (ident_resp_pack (some r) ≡ 5 ∷ 0 ∷ [])
unfolding ident_req ident_resp_pack
ident_req-padded number sent pad h k =
    let m = take number (sent ++ replicate pad 0) in
    (
      record { version = 5; number_of_methods = number; methods = m },
      ground (arith, length-append sent (replicate pad 0), length-replicate {0} {A = ℕ} pad 0),
      rw (offers_no_auth-padded sent number pad h k),
    )
