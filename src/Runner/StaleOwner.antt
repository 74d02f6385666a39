-- ===== src/Runner/StaleOwner.antt =====
-- `_stale_owner` of experiments/isolation/runner.py: the step that stops the JVM of an operation
-- after its seller call, and lets it continue when the other one has taken the work over.
pub mod Restores
use event_driven_order_syste.Base.{
  ℕ, zero, suc, ◌+◌, String, Bool, true, false, not, ◌&&◌, Option, none, some, List, [], ◌∷◌, ◌++◌,
  leb, nat_eq, string_eq, ◌==◌, if◌then◌else◌,
}
use event_driven_order_syste.RunCheck.Run.{Planned}

-- `topo.PARTNERS[:2]`
pub data Host : Type 0 where
  first second : Host

abbrev pub other : Host → Host
other first = second
other second = first

-- A partner host: its JVM is stopped by a signal, and the gate's file is there.
pub record Partner : Type 0 where
  pub is_stopped : Bool
  pub is_armed : Bool

-- The entries of timeline.json that the step makes.
pub data Entry : Type 0 where
  gate_armed : String → Entry
  injection_invalid : Entry
  owner_stopped : Host → Entry
  takeover_committed : Entry
  takeover_unconfirmed : Entry
  owner_resumed : Host → Entry

pub record State : Type 0 where
  pub partner : Host → Partner
  pub commands : ℕ
  pub events : List Entry
  pub stale_owner : Option Host

-- The world: which command over ssh succeeds, on which host the gate is reached in time, and
-- whether the other instance commits the event in time.
pub record World : Type 0 where
  pub succeeds : ℕ → Bool
  pub reached : Option Host
  pub takes_over : Bool

abbrev pub Action : Type 0
Action = State → Bool × State

-- A statement, and after it the rest, unless it raised.
infixr 4 ◌then_do◌
abbrev pub ◌then_do◌ : Action → Action → Action
f then_do g = λ s. let (ok, s') = f s in if ok then g s' else (false, s')

abbrev pub host_beq : Host → Host → Bool
host_beq first first = true
host_beq second second = true
host_beq _ _ = false

abbrev pub set_partner : Host → (Partner → Partner) → State → State
set_partner h f s = record s {
  partner = λ k. if host_beq h k then f (s.partner k) else s.partner k;
}

-- `topo.run(host, ...)`: a command that fails has no effect and raises.
unfoldable pub command : World → Host → (Partner → Partner) → Action
command world h f s =
    let s' = record s { commands = s.commands + 1 } in
    if world.succeeds s.commands then (true, set_partner h f s') else (false, s')

-- `topo.run(host, ..., check=False)`: the failure is not looked at.
unfoldable pub try_command : World → Host → (Partner → Partner) → Action
unfolding command
try_command world h f s = (true, (command world h f s).1)

abbrev pub arm : Partner → Partner
arm p = record p { is_armed = true }

abbrev pub disarm : Partner → Partner
disarm p = record p { is_armed = false }

abbrev pub stop : Partner → Partner
stop p = record p { is_stopped = true }

abbrev pub continue : Partner → Partner
continue p = record p { is_stopped = false }

abbrev pub note : Entry → Action
note e s = (true, record s { events = s.events ++ e ∷ [] })

abbrev pub set_stale_owner : Host → Action
set_stale_owner h s = (true, record s { stale_owner = some h })

-- The first planned creation for a small seller 5 s after the beginning of the scenario; none
-- ends the step with StopIteration.
unfoldable pub target : (begin : ℕ) → (big_seller : String) → List Planned → Option String
target begin big_seller [] = none
target begin big_seller (p ∷ ps) =
    let rest = target begin big_seller ps in
    if leb (begin + 5000) p.planned_offset_ms
      && not (p.event.seller_id == big_seller)
      && (p.event.sequence == 1)
    then some p.event.event_id
    else rest

-- The gate was not reached.
unfoldable pub give_up : World → Action
unfolding try_command
give_up world =
    note injection_invalid
    then_do try_command world first disarm
    then_do try_command world second disarm

-- The stopped JVM goes on.
unfoldable pub resume : World → Host → Action
unfolding command
resume world held =
    command world held continue then_do note (owner_resumed held) then_do set_stale_owner held

-- The other instance has taken the work over, or had the time for it.
unfoldable pub release : World → Host → Action
unfolding command resume
release world held =
    note (owner_stopped held)
    then_do note (if world.takes_over then takeover_committed else takeover_unconfirmed)
    then_do command world held disarm
    then_do resume world held

-- The gate was reached on a host.
unfoldable pub hold : World → Host → Action
unfolding command release
hold world held =
    command world held stop then_do command world (other held) disarm then_do release world held

unfoldable pub after_gate : World → Option Host → Action
unfolding give_up hold
after_gate world none = give_up world
after_gate world (some held) = hold world held

unfoldable pub stale_owner : World → Option String → Action
unfolding command after_gate
stale_owner world none = λ s. (false, s)
stale_owner world (some event_id) =
    command world first arm
    then_do command world second arm
    then_do note (gate_armed event_id)
    then_do after_gate world world.reached
