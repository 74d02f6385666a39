-- ===== src/Observer/Rule.antt =====
-- The alert of a sample, by the samples of the run before it (experiments/isolation/observer.py).
use event_driven_order_syste.Base.{
  ℕ, ap, ◌≡◌, refl, Bool, true, false, Option, none, some, List, [], ◌∷◌,
}
use event_driven_order_syste.Observer.{
  Alert, Tick, paused, sampled, Source, Watch, start, is_valid, has_overdue, judge_valid,
  judge_sample, watch, watch_all,
}

-- What a sample shows, without the loop's variables.
pub data Shown : Type 0 where
  stale clear overdue : Shown

unfoldable pub shown : Bool → Bool → Shown
shown false _ = Shown.stale
shown true false = Shown.clear
shown true true = Shown.overdue

-- What the last sample of a list of ticks shows; paused ticks do not count.
unfoldable pub last_shown : List Tick → Option Shown → Option Shown
unfolding shown
last_shown [] last = last
last_shown (paused ∷ ts) last = last_shown ts last
last_shown (sampled time source ∷ ts) last =
    last_shown ts (some (shown (is_valid time source) (has_overdue source)))

-- The documented rule: a stale snapshot is UNKNOWN, a second overdue sample in a row is ALERT, a
-- first one after a stale snapshot is still UNKNOWN, everything else is NORMAL.
unfoldable pub rule : Shown → Option Shown → Alert
rule Shown.stale last = Alert.unknown
rule Shown.clear last = Alert.normal
rule Shown.overdue (some Shown.overdue) = Alert.alert
rule Shown.overdue (some Shown.stale) = Alert.unknown
rule Shown.overdue (some Shown.clear) = Alert.normal
rule Shown.overdue none = Alert.normal

-- What the two variables hold after a sample that shows `last`.
abbrev Remembers : Option Shown → Watch → Type 0
Remembers none w = w ≡ start
Remembers (some Shown.stale) w =
    (w.previous_overdue ≡ false) × (w.previous_state ≡ some Alert.unknown)
Remembers (some Shown.clear) w =
    (w.previous_overdue ≡ false) × (w.previous_state ≡ some Alert.normal)
Remembers (some Shown.overdue) w = w.previous_overdue ≡ true

judge_sample-Remembers :
    (v o : Bool) (w : Watch) → Remembers (some (shown v o)) (judge_sample v o w).1
unfolding judge_sample judge_valid shown
judge_sample-Remembers false o w = (refl, refl)
judge_sample-Remembers true false w = (refl, refl)
judge_sample-Remembers true true w = refl

watch_all-Remembers :
    (ts : List Tick) (last : Option Shown) (w : Watch)
    → Remembers last w
    → Remembers (last_shown ts last) (watch_all ts w)
unfolding watch_all watch last_shown
watch_all-Remembers [] last w h = h
watch_all-Remembers (paused ∷ ts) last w h = watch_all-Remembers ts last w h
watch_all-Remembers (sampled time source ∷ ts) last w h =
    let v = is_valid time source in
    let o = has_overdue source in
    watch_all-Remembers ts (some (shown v o)) (judge_sample v o w).1 (judge_sample-Remembers v o w)

judge_sample-rule :
    (v o : Bool) (last : Option Shown) (w : Watch)
    → Remembers last w
    → (judge_sample v o w).0 ≡ rule (shown v o) last
unfolding judge_sample judge_valid shown rule
judge_sample-rule false o last w h = refl
judge_sample-rule true false last w h = refl
judge_sample-rule true true none w h = rw h refl
judge_sample-rule true true (some Shown.stale) w h = rw h.0 (rw h.1 refl)
judge_sample-rule true true (some Shown.clear) w h = rw h.0 (rw h.1 refl)
judge_sample-rule true true (some Shown.overdue) w h = rw h refl

-- After any ticks of the loop, the alert of a sample is what the documented rule says of this
-- sample and the last one before it, with paused ticks left out.
pub watch-rule :
    (ts : List Tick) (time : ℕ) (source : Option Source)
    → (watch (sampled time source) (watch_all ts start)).0
      ≡ some (rule (shown (is_valid time source) (has_overdue source)) (last_shown ts none))
unfolding watch
watch-rule ts time source = ap some (
    judge_sample-rule (is_valid time source) (has_overdue source) (last_shown ts none)
      (watch_all ts start) (watch_all-Remembers ts none start refl))
