-- ===== src/Server/World/Keyed.antt =====
-- No session is in `status_data` without a data key, so that the null encryptor is never used.
use lproxy.Base.Handler.Keeps.{Keeps, parts, if-Keeps, bind-Keeps, read-Keeps}
use lproxy.Server.Answer.{socks5_resp_to_local}
use lproxy.Server.Pack.{say_and_cancel, pack_data_with, pack_data}
use lproxy.Base.{
  ℕ, Bool, true, false, ◌||◌, cond, ◌≡◌, ◌≢◌, refl, Option, none, some, List, [], ◌∷◌, ◌++◌, ok,
  throw, fault, Outcome, arith, if◌then◌else◌,
}
use lproxy.Base.Handler.{update}
use lproxy.Packet.{Packet}
use lproxy.Session.{Exception, status_data}
use lproxy.Server.State.{
  Env, Session, Op, write_left, exchange_handler, issue, cancel, AfterLeftWrite, hello_handler,
  left_write_handler, cancel_handler,
}

abbrev pub has_key : Option (List ℕ) → Bool
has_key none = false
has_key (some key) = true

abbrev pub answers_exchange : AfterLeftWrite → Bool
answers_exchange exchange_handler = true
answers_exchange hello_handler = false
answers_exchange left_write_handler = false
answers_exchange cancel_handler = false

-- Whether the operation is the write of a `reply::exchange`.
abbrev pub is_exchange : Op → Bool
is_exchange (write_left p next) = answers_exchange next
is_exchange _ = false

abbrev pub any_exchange : List Op → Bool
any_exchange [] = false
any_exchange (op ∷ ops) = is_exchange op || any_exchange ops

pub any_exchange-append :
    (xs ys : List Op) → any_exchange (xs ++ ys) ≡ (any_exchange xs || any_exchange ys)
any_exchange-append [] ys = refl
any_exchange-append (x ∷ xs) ys = ground (arith, any_exchange-append xs ys)

pub record Keyed (s : Session) : Type 0 where
  pub by_status : s.status ≡ status_data → has_key s.aes_encryptor ≡ true
  pub by_exchange : any_exchange s.issued ≡ true → has_key s.aes_encryptor ≡ true

-- A change of other members.
pub update-Keeps :
    (f : Session → Session)
    → ((s : Session) → (f s).status ≡ s.status)
    → ((s : Session) → (f s).aes_encryptor ≡ s.aes_encryptor)
    → ((s : Session) → (f s).issued ≡ s.issued)
    → Keeps {E = Exception} Keyed (update f)
unfolding Keeps
update-Keeps f st aes iss s h = ground (arith, st s, aes s, iss s)

pub issue-Keeps : (op : Op) → is_exchange op ≡ false → Keeps Keyed (issue op)
unfolding Keeps
issue-Keeps op e s h = ground (arith, any_exchange-append s.issued (op ∷ []))

pub ruleset pieces = (parts, issue-Keeps, update-Keeps, refl)

pub cancel-Keeps : Keeps Keyed cancel
unfolding cancel
cancel-Keeps = search pieces

pub say_and_cancel-Keeps : (p : Packet) → Keeps Keyed (say_and_cancel p)
say_and_cancel-Keeps p = issue-Keeps _ refl

module _ (env : Env) where
  pack_data_with-Keeps :
      (o : Option (List ℕ)) (text : List ℕ) (len : ℕ) → Keeps Keyed (pack_data_with env o text len)
  unfolding pack_data_with
  pack_data_with-Keeps none text len = search (pieces, say_and_cancel-Keeps)
  pack_data_with-Keeps (some key) text len = search pieces

  pub pack_data-Keeps : (text : List ℕ) (len : ℕ) → Keeps Keyed (pack_data env text len)
  unfolding pack_data
  pack_data-Keeps text len =
      bind-Keeps Keyed _ _ (read-Keeps Keyed _ _) (λ o. pack_data_with-Keeps o text len)

  pub socks5_resp_to_local-Keeps : Keeps Keyed (socks5_resp_to_local env)
  unfolding socks5_resp_to_local
  socks5_resp_to_local-Keeps = search (pieces, pack_data-Keeps) depth 14
