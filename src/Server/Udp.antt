-- ===== src/Server/Udp.antt =====
-- The connection of a UDP request: `udp_resolve_handler`, and `udp_connect_handler` after a success.
use lproxy.Base.{ℕ, ◌≡◌, refl, false, List, [], ◌∷◌, ◌++◌, cond, fault}
use lproxy.Server.State.{Session, Env, connect_udp}
use lproxy.Server.Right.{udp_resolved, udp_connected, answer_with, dereferenced}
use lproxy.Server.World.{Completion, complete, handler}

module _ (env : Env) (c : Completion) (good : c.error ≡ false) where
  -- `udp_resolve_handler` connects to the first endpoint of a name. When that succeeds, the session
  -- takes the address of the endpoint behind it for the destination, and answers; where the name has
  -- one endpoint, it goes through the end of the list.
  pub udp_connected-behind :
      (endpoint second : ℕ) (more : List ℕ) (s : Session)
      → let one = (udp_resolved env false (endpoint ∷ []) s).1 in
        let several = (udp_resolved env false (endpoint ∷ second ∷ more) s).1 in
        let answer = answer_with env (cond c.answers.udp_open_error 0x01 0x00) in
        (one.issued ≡ s.issued ++ connect_udp endpoint [] ∷ [])
        × ((complete env one s.issued (connect_udp endpoint []) [] c).0 ≡ fault)
        × (several.issued ≡ s.issued ++ connect_udp endpoint (second ∷ more) ∷ [])
        × (complete env several s.issued (connect_udp endpoint (second ∷ more)) [] c
            ≡ answer (record s { issued = s.issued ++ []; dest_name = c.address_of second }))
  unfolding udp_resolved complete handler udp_connected dereferenced
  udp_connected-behind endpoint second more s = (refl, rw good refl, refl, rw good refl)
