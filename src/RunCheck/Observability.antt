-- ===== src/RunCheck/Observability.antt =====
-- The observability verdict of `check` (experiments/isolation/check.py): the alert of each sample
-- against the backlog rebuilt from acceptance and effect times.
pub mod Truth
pub mod Episodes
use event_driven_order_syste.Base.{
  ℕ, ◌+◌, ◌-◌, ◌*◌, String, Bool, true, false, not, ◌&&◌, Option, none, some, List, [], ◌∷◌, ◌++◌,
  map, leb, ltb, ◌==◌, string_eq, nat_eq, if◌then◌else◌, max,
}
use event_driven_order_syste.Base.Dict.{Dict, lookup, insert, contains, counter}
use event_driven_order_syste.Base.Lists.{length, take}
use event_driven_order_syste.Base.Sort.{sort_by}
use event_driven_order_syste.Event.{Event}
use event_driven_order_syste.MockApi.Tables.{EffectRow}
use event_driven_order_syste.Observer.{Alert}
use event_driven_order_syste.RunCheck.Run.{Run, Published, accepted, planned_events}
use event_driven_order_syste.RunCheck.Safety.{effects_by_event}
use event_driven_order_syste.RunCheck.Window.{bisect_right}

abbrev pub target_ms : ℕ
target_ms = 1500

abbrev pub grace_ms : ℕ
grace_ms = 3000

-- A line of metrics.jsonl with a source: the oldest age of each seller's backlog and the alert.
pub record Sample : Type 0 where
  pub time : ℕ
  pub ages : Dict String ℕ
  pub alert : Option Alert

abbrev created_at : Published → ℕ
created_at v = elim v.created_at [ none ↦ 0 | some t ↦ t ]

-- `{k: v['createdAt'] for k, v in accepted.items()}`; an accepted event has the time.
unfoldable pub created : Run → Dict String ℕ
created r = map (λ (entry : String × Published). (entry.0, created_at entry.1)) (accepted r)

first_at : List EffectRow → ℕ
first_at [] = 0
first_at (row ∷ rows) = row.effect_at

-- `{k: v[0]['effect_at'] for k, v in effects_by_event.items()}`; no list there is empty.
unfoldable pub effect_at : Run → Dict String ℕ
unfolding first_at
effect_at r =
    map (λ (entry : String × List EffectRow). (entry.0, first_at entry.1)) (effects_by_event r)

abbrev pub created_le : String × ℕ → String × ℕ → Bool
created_le a b = leb a.1 b.1

-- `sorted(created.items(), key=lambda kv: kv[1])`
unfoldable pub by_creation : Dict String ℕ → List (String × ℕ)
by_creation items = sort_by created_le items

-- `effect_at.get(k, math.inf) > t`
unfoldable pub is_waiting : Dict String ℕ → (t : ℕ) → String → Bool
is_waiting effects t k = elim (lookup k effects) [ none ↦ true | some done ↦ ltb t done ]

-- `d.setdefault(k, v)`
abbrev pub set_default : String → ℕ → Dict String ℕ → Dict String ℕ
set_default k v d = if contains k d then d else insert k v d

-- The loop over `order[:n]`: the overdue events, and the oldest age of each seller. An accepted
-- event that was not planned stops the checker with a KeyError, here `none`.
unfoldable pub scan :
    (planned : Dict String Event) (effects : Dict String ℕ) (t : ℕ)
    → List (String × ℕ)
    → (overdue : ℕ) (oldest : Dict String ℕ) → Option (ℕ × Dict String ℕ)
unfolding is_waiting
scan planned effects t [] overdue oldest = some (overdue, oldest)
scan planned effects t ((k, c) ∷ rest) overdue oldest = elim (is_waiting effects t k) [
  | false ↦ scan planned effects t rest overdue oldest
  | true ↦ elim (lookup k planned) [
    | none ↦ none
    | some e ↦
        scan planned effects t rest (if leb (c + target_ms) t then overdue + 1 else overdue)
          (set_default e.seller_id (t - c) oldest)
  ]
]

-- `order[:bisect_right(created_sorted, t)]`
unfoldable pub known_at : (t : ℕ) → List (String × ℕ) → List (String × ℕ)
unfolding bisect_right
known_at t order = take (bisect_right (λ c. leb c t) (map (λ (kv : String × ℕ). kv.1) order)) order

pub record Row : Type 0 where
  pub t : ℕ
  pub truth : Bool
  pub state : Option Alert
  pub errors : List ℕ

abbrev pub distance : ℕ → ℕ → ℕ
distance a b = (a - b) + (b - a)

-- `[abs(ages.get(seller, 0) - age) for seller, age in oldest_truth.items()]`
unfoldable pub age_errors : (ages oldest : Dict String ℕ) → List ℕ
age_errors ages oldest =
    map (λ (entry : String × ℕ). distance (counter entry.0 ages) entry.1) oldest

unfoldable pub row_from : Sample → Option (ℕ × Dict String ℕ) → Option Row
unfolding age_errors
row_from s none = none
row_from s (some (overdue, oldest)) = some (record {
  t = s.time;
  truth = ltb 0 overdue;
  state = s.alert;
  errors = age_errors s.ages oldest;
})

unfoldable pub row_of : Run → Sample → Option Row
unfolding created effect_at by_creation known_at scan row_from
row_of r s =
    row_from s (
      scan (planned_events r) (effect_at r) s.time (known_at s.time (by_creation (created r))) 0 [])

-- The variables of the loop over the rows.
pub record Judge : Type 0 where
  pub missed_ms : ℕ
  pub false_ms : ℕ
  pub episode_start : Option ℕ
  pub detected : Option ℕ
  pub detections : List ℕ

abbrev pub judge_start : Judge
judge_start = record {
  missed_ms = 0;
  false_ms = 0;
  episode_start = none;
  detected = none;
  detections = [];
}

abbrev pub is_alert : Option Alert → Bool
is_alert (some Alert.alert) = true
is_alert _ = false

abbrev pub is_normal : Option Alert → Bool
is_normal (some Alert.normal) = true
is_normal _ = false

-- `if r['truth'] and episode_start is None`: an episode begins.
unfoldable pub begin_episode : ℕ → Judge → Judge
begin_episode t j = elim j.episode_start [
  | none ↦ record j { episode_start = some t; detected = none }
  | some start ↦ j
]

-- The first alert of an episode.
unfoldable pub detect : Row → (start : ℕ) → Judge → Judge
detect r start j = elim j.detected [
  | some d ↦ j
  | none ↦
      if is_alert r.state
      then record j {
        detected = some (r.t - start);
        detections = j.detections ++ (r.t - start) ∷ [];
      }
      else j
]

unfoldable pub miss : Row → (start : ℕ) → Judge → Judge
miss r start j =
    if is_normal r.state && ltb (start + grace_ms) r.t
    then record j { missed_ms = j.missed_ms + 1000 }
    else j

abbrev pub start_of : Option ℕ → ℕ → ℕ
start_of none t = t
start_of (some start) t = start

-- One turn of the loop.
unfoldable pub judge_row : Row → Judge → Judge
unfolding begin_episode detect miss
judge_row r j =
    if r.truth
    then (let start = start_of j.episode_start r.t in
        miss r start (detect r start (begin_episode r.t j)))
    else record j {
      false_ms = if is_alert r.state then j.false_ms + 1000 else j.false_ms;
      episode_start = none;
    }

unfoldable pub judge_rows : List Row → Judge → Judge
unfolding judge_row
judge_rows [] j = j
judge_rows (r ∷ rs) j = judge_rows rs (judge_row r j)

-- `passed=missed_ms == 0`
unfoldable pub observability_passed : List Row → Bool
unfolding judge_rows
observability_passed rows = (judge_rows rows judge_start).missed_ms == 0
