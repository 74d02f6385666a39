-- ===== src/Observer.antt =====
-- The alert rule of `main` (experiments/isolation/observer.py): what each tick of the sampling loop
-- judges, with the two variables that the loop carries from tick to tick.
pub mod Rule
use event_driven_order_syste.Base.{
  ℕ, ◌+◌, Bool, true, false, not, ◌&&◌, Option, none, some, List, [], ◌∷◌, ltb, leb, if◌then◌else◌,
}

pub data Alert : Type 0 where
  normal alert unknown : Alert

-- The answer of `/experiment/observe`, as far as the rule reads it: `overdue` of each seller.
pub record Source : Type 0 where
  pub snapshot_at : ℕ
  pub overdue : List ℕ

-- A tick of the loop: the pause file exists, or the source was asked at `time`, without an answer
-- where the request raised.
pub data Tick : Type 0 where
  paused : Tick
  sampled : (time : ℕ) (source : Option Source) → Tick

pub record Watch : Type 0 where
  pub previous_overdue : Bool
  pub previous_state : Option Alert

abbrev pub start : Watch
start = record { previous_overdue = false; previous_state = none }

abbrev pub stale_ms : ℕ
stale_ms = 3000

abbrev pub sum : List ℕ → ℕ
sum [] = 0
sum (n ∷ ns) = n + sum ns

-- `sample['time'] - source['snapshotAt'] <= STALE_MS`, and `False` after an exception
unfoldable pub is_valid : ℕ → Option Source → Bool
is_valid time none = false
is_valid time (some s) = leb time (s.snapshot_at + stale_ms)

unfoldable pub has_overdue : Option Source → Bool
has_overdue none = false
has_overdue (some s) = ltb 0 (sum s.overdue)

abbrev pub is_unknown : Option Alert → Bool
is_unknown (some Alert.unknown) = true
is_unknown _ = false

-- The alert of a valid sample.
unfoldable pub judge_valid : (overdue : Bool) → Watch → Alert
judge_valid overdue w =
    if overdue && w.previous_overdue
    then Alert.alert
    else (if overdue && is_unknown w.previous_state then Alert.unknown else Alert.normal)

unfoldable pub judge_sample : (valid overdue : Bool) → Watch → Alert × Watch
unfolding judge_valid
judge_sample false overdue w =
    (Alert.unknown, record { previous_overdue = false; previous_state = some Alert.unknown })
judge_sample true overdue w = (
  judge_valid overdue w,
  record { previous_overdue = overdue; previous_state = some (judge_valid overdue w) },
)

-- One tick: the sample's alert, nothing while the loop is paused, and the variables after it.
unfoldable pub watch : Tick → Watch → Option Alert × Watch
unfolding is_valid has_overdue judge_sample
watch paused w = (none, w)
watch (sampled time source) w =
    let (judged, w') = judge_sample (is_valid time source) (has_overdue source) w in
    (some judged, w')

-- The variables after the ticks of a run.
unfoldable pub watch_all : List Tick → Watch → Watch
unfolding watch
watch_all [] w = w
watch_all (t ∷ ts) w = watch_all ts (watch t w).1
