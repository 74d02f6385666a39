-- ===== src/Runner/StaleOwner/Restores.antt =====
-- The stale-owner step (experiments/isolation/runner.py) leaves the partner hosts as they were.
use event_driven_order_syste.Base.{
  ℕ, ◌+◌, ◌≡◌, refl, inl, inr, String, Bool, true, false, Option, none, some, [], ◌∷◌, ◌++◌,
  if◌then◌else◌, Bool-cases,
}
use event_driven_order_syste.Runner.StaleOwner.{
  Host, first, second, other, Partner, State, World, command, try_command, give_up, hold,
  after_gate, stale_owner, Action, disarm, arm, resume, release, note, owner_resumed, owner_stopped,
  gate_armed, takeover_committed, takeover_unconfirmed, set_stale_owner, continue, stop, ◌then_do◌,
  set_partner,
}

-- A partner that runs and has no gate.
abbrev pub IsFree : Partner → Type 0
IsFree p = (p.is_stopped ≡ false) × (p.is_armed ≡ false)

both : (P : Host → Type 0) → P first → P second → (h : Host) → P h
both P p q first = p
both P p q second = q

-- What holds after a statement that did not raise.
abbrev Post : (State → Type 0) → Bool × State → Type 0
Post P (ok, s) = ok ≡ true → P s

command_rule :
    (P : State → Type 0) (world : World) (h : Host) (f : Partner → Partner) (g : Action) (s : State)
    → Post P (g (set_partner h f (record s { commands = s.commands + 1 })))
    → Post P ((command world h f then_do g) s)
unfolding command
command_rule P world h f g s k = elim (Bool-cases (world.succeeds s.commands)) [
  | inl e ↦ rw e k
  | inr e ↦ rw e (λ ok. absurd (cc ok))
]

abbrev ran : Host → (Partner → Partner) → State → State
ran h f s = set_partner h f (record s { commands = s.commands + 1 })

abbrev Free : State → Type 0
Free s = (h : Host) → IsFree (s.partner h)

-- From a state in which only the held partner may be stopped and none is armed.
resume_restores :
    (world : World) (held : Host) (s : State)
    → ((h : Host) → (s.partner h).is_armed ≡ false)
    → (s.partner (other held)).is_stopped ≡ false
    → Post Free (resume world held s)
unfolding resume
resume_restores world held s calm runs =
    command_rule Free world held continue (note (owner_resumed held) then_do set_stale_owner held) s
      (λ _. freed held calm runs)
  where
    freed :
        (held : Host)
        → ((h : Host) → (s.partner h).is_armed ≡ false)
        → (s.partner (other held)).is_stopped ≡ false
        → Free (ran held continue s)
    freed first calm runs first = (refl, calm first)
    freed first calm runs second = (runs, calm second)
    freed second calm runs first = (runs, calm first)
    freed second calm runs second = (refl, calm second)

-- From a state in which only the held partner may be stopped and only it may be armed.
release_restores :
    (world : World) (held : Host) (s : State)
    → IsFree (s.partner (other held))
    → Post Free (release world held s)
unfolding release
release_restores world held s free =
    let entry = if world.takes_over then takeover_committed else takeover_unconfirmed in
    let s' : State = record s { events = (s.events ++ owner_stopped held ∷ []) ++ entry ∷ [] } in
    command_rule Free world held disarm (resume world held) s'
      (resume_restores world held (ran held disarm s') (calm held free) (runs held free))
  where
    calm :
        (held : Host)
        → IsFree (s.partner (other held))
        → (h : Host) → ((ran held disarm s).partner h).is_armed ≡ false
    calm first free first = refl
    calm first free second = free.1
    calm second free first = free.1
    calm second free second = refl

    runs :
        (held : Host)
        → IsFree (s.partner (other held))
        → ((ran held disarm s).partner (other held)).is_stopped ≡ false
    runs first free = free.0
    runs second free = free.0

hold_restores :
    (world : World) (held : Host) (s : State)
    → ((h : Host) → (s.partner h).is_stopped ≡ false)
    → Post Free (hold world held s)
unfolding hold
hold_restores world held s running =
    let s₁ = ran held stop s in
    let s₂ = ran (other held) disarm s₁ in
    command_rule Free world held stop (command world (other held) disarm then_do release world held)
      s
      (command_rule Free world (other held) disarm (release world held) s₁
        (release_restores world held s₂ (freed held running)))
  where
    freed :
        (held : Host)
        → ((h : Host) → (s.partner h).is_stopped ≡ false)
        → IsFree ((ran (other held) disarm (ran held stop s)).partner (other held))
    freed first running = (running second, refl)
    freed second running = (running first, refl)

give_up_restores :
    (world : World) (s : State)
    → ((h : Host) → (s.partner h).is_stopped ≡ false)
    → (world.succeeds s.commands ≡ true)
    → (world.succeeds (s.commands + 1) ≡ true)
    → Post Free (give_up world s)
unfolding give_up try_command
give_up_restores world s running e f =
    let s' = ran second disarm (ran first disarm s) in
    rw (e, f) (λ _. both (λ h. IsFree (s'.partner h)) (running first, refl) (running second, refl))

-- When the step ends without an exception, and its clean-up commands succeed where it ignores
-- their failure, both partners run and no gate is left, whether the gate was reached or not and
-- whether the other instance took the work over or not.
pub stale_owner_restores :
    (world : World) (target : Option String) (s : State)
    → ((h : Host) → (s.partner h).is_stopped ≡ false)
    → ((world.reached ≡ none) → (n : ℕ) → world.succeeds n ≡ true)
    → (stale_owner world target s).0 ≡ true
    → (h : Host) → IsFree ((stale_owner world target s).1.partner h)
unfolding stale_owner after_gate
stale_owner_restores world none s running clean ok = absurd (cc ok)
stale_owner_restores world (some event_id) s running clean ok =
    let s₁ = ran first arm s in
    let s₂ = ran second arm s₁ in
    let s₃ : State = record s₂ { events = s₂.events ++ gate_armed event_id ∷ [] } in
    command_rule Free world first arm
      (command world second arm
        then_do note (gate_armed event_id)
        then_do after_gate world world.reached)
      s
      (command_rule Free world second arm
        (note (gate_armed event_id) then_do after_gate world world.reached) s₁
        (last s₃ world.reached refl
          (both (λ h. (s₃.partner h).is_stopped ≡ false) (running first) (running second))))
      ok
  where
    last :
        (s₃ : State) (reached : Option Host)
        → world.reached ≡ reached
        → ((h : Host) → (s₃.partner h).is_stopped ≡ false)
        → Post Free (after_gate world reached s₃)
    last s₃ none e r = give_up_restores world s₃ r (clean e s₃.commands) (clean e (s₃.commands + 1))
    last s₃ (some held) e r = hold_restores world held s₃ r
