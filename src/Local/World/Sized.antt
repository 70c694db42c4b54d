-- ===== src/Local/World/Sized.antt =====
-- No session of the local end is in `status_data` without a data key of 32 bytes.
use lproxy.Base.Handler.Keeps.{Keeps, parts, if-Keeps, bind-Keeps, read-Keeps}
use lproxy.Base.{
  ℕ, Bool, true, false, cond, ◌≡◌, ◌≢◌, refl, List, length, ok, throw, fault, Outcome, arith,
  if◌then◌else◌, sym, ◌∙◌,
}
use lproxy.Base.Handler.{update}
use lproxy.Session.{Exception, status_data}
use lproxy.Local.State.{Session, Op, issue, cancel}

pub record Sized (s : Session) : Type 0 where
  pub by_status : s.status ≡ status_data → length s.data_key ≡ 32

-- A change of other members.
pub update-Keeps :
    (f : Session → Session)
    → ((s : Session) → (f s).status ≡ s.status)
    → ((s : Session) → (f s).data_key ≡ s.data_key)
    → Keeps {E = Exception} Sized (update f)
unfolding Keeps
update-Keeps f st key s h = ground (arith, st s, key s)

-- A change to another status.
pub leave-Keeps :
    (f : Session → Session)
    → ((s : Session) → (f s).status ≢ status_data)
    → Keeps {E = Exception} Sized (update f)
unfolding Keeps
leave-Keeps f st s h = record { by_status = λ e. absurd (st s e) }

pub issue-Keeps : (op : Op) → Keeps Sized (issue op)
unfolding Keeps
issue-Keeps op s h = record { by_status = h.by_status }

pub ruleset pieces = (parts, issue-Keeps, update-Keeps, refl)

pub cancel-Keeps : Keeps Sized cancel
unfolding cancel
cancel-Keeps = search pieces
