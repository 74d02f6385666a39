-- ===== src/Load.antt =====
-- `Sender.run` of experiments/isolation/load.py: how one planned event is sent. The target is not
-- known here: `outcomes` says what each attempt meets.
pub mod Attempts
pub mod Pool
use event_driven_order_syste.Base.{
  ℕ, zero, suc, ◌+◌, Bool, true, false, ◌&&◌, ◌||◌, Option, none, some, List, [], ◌∷◌, ◌==◌, nat_eq,
  ltb, leb, if◌then◌else◌,
}

pub data Target : Type 0 where
  source mock : Target

-- What an attempt meets: an exception of the connection, or a status with the `createdAt` of the
-- body, which is missing where the body is not the JSON that is read.
pub data Outcome : Type 0 where
  raised : Outcome
  replied : (status : ℕ) (created_at : Option ℕ) → Outcome

-- The fields of the record that the attempts write.
pub record Record : Type 0 where
  pub attempts : ℕ
  pub status : Option ℕ
  pub created_at : Option ℕ
  pub failed : Bool

abbrev pub fresh : Record
fresh = record { attempts = 0; status = none; created_at = none; failed = false }

-- `status == 200 or 400 <= status < 500`
unfoldable pub is_final : ℕ → Bool
is_final status = (status == 200) || (leb 400 status && ltb status 500)

-- The body of the `try`: the status to test for the `break`, and the record. The source's answer
-- is read before the status is written, so a body without `createdAt` counts as an exception.
unfoldable pub attempt : Target → Outcome → Record → Option ℕ × Record
attempt target raised r = (none, record r { status = none; failed = true })
attempt Target.mock (replied status created) r = (some status, record r { status = some status })
attempt Target.source (replied status none) r =
    if status == 200
    then (none, record r { status = none; failed = true })
    else (some status, record r { status = some status })
attempt Target.source (replied status (some t)) r =
    if status == 200
    then (some status, record r { status = some status; created_at = some t })
    else (some status, record r { status = some status })

unfoldable pub stops : Option ℕ → Bool
unfolding is_final
stops none = false
stops (some status) = is_final status

-- `for attempt in range(n, n + left)`
unfoldable pub send : Target → (ℕ → Outcome) → (n left : ℕ) → Record → Record
unfolding attempt stops
send target outcomes n zero r = r
send target outcomes n (suc left) r =
    let (status, r') = attempt target (outcomes n) (record r { attempts = n }) in
    let rest = send target outcomes (n + 1) left r' in if stops status then r' else rest

unfoldable pub run : Target → (ℕ → Outcome) → Record
unfolding send
run target outcomes = send target outcomes 1 5 fresh
