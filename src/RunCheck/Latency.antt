-- ===== src/RunCheck/Latency.antt =====
-- The latency verdict of `check` (experiments/isolation/check.py): the accepted events by planned
-- phase and by group of sellers, and the rate at which they miss the target.
pub mod Verdict
use event_driven_order_syste.Base.{
  ℕ, ◌+◌, ◌*◌, ◌-◌, ◌/◌, String, Bool, true, false, not, ◌&&◌, Option, none, some, List, [], ◌∷◌,
  map, ltb, leb, ◌==◌, string_eq, pair_eq, if◌then◌else◌,
}
use event_driven_order_syste.Base.Dict.{Dict, lookup, insert, contains}
use event_driven_order_syste.Base.Group.{group_by}
use event_driven_order_syste.Base.Int.{ℤ, sub_ℕ, ltb_ℤ}
use event_driven_order_syste.Base.Lists.{length, count_if, keep, all, any, get_elem?}
use event_driven_order_syste.Base.Opt.{◌>>=◌, map_all, present}
use event_driven_order_syste.Base.Sort.{sort_by}
use event_driven_order_syste.RunCheck.Observability.{target_ms, created, effect_at}
use event_driven_order_syste.RunCheck.Run.{Run, Planned}
use event_driven_order_syste.RunCheck.Stats.{rank_index, Quantile, q50, q95, q99}

-- An entry of `run['phaseBounds']`: the offset at which a phase begins, and its name.
abbrev pub Bound : Type 0
Bound = ℕ × String

-- The pairs from the last to the first, where `name_ge` is `>=` on strings.
abbrev pub bound_ge : (name_ge : String → String → Bool) → Bound → Bound → Bool
bound_ge name_ge a b =
    if ltb b.0 a.0 then true else (if ltb a.0 b.0 then false else name_ge a.1 b.1)

-- `next(name for begin, name in bounds if offset >= begin)`, which raises when there is none.
unfoldable pub phase_at : (offset : ℕ) → List Bound → Option String
phase_at offset [] = none
phase_at offset ((begin, name) ∷ bounds) =
    let later = phase_at offset bounds in if leb begin offset then some name else later

-- The phase of an event is that of its own planned time, when the run has bounds.
abbrev pub relabel : (bounds : List Bound) → Planned → Option Planned
unfolding phase_at
relabel [] p = some p
relabel (b ∷ bounds) p = do
  phase ← phase_at p.planned_offset_ms (b ∷ bounds)
  some (record p { phase = phase })

load_planned_rows : List Planned → Dict String Planned → Dict String Planned
load_planned_rows [] d = d
load_planned_rows (p ∷ ps) d = load_planned_rows ps (insert p.event.event_id p d)

-- `planned`, after the loop that labels the events of the trace.
unfoldable pub planned_rows :
    (name_ge : String → String → Bool) → List Bound → Run → Option (Dict String Planned)
unfolding load_planned_rows sort_by phase_at
planned_rows name_ge bounds r = do
  rows ← map_all (relabel (sort_by (bound_ge name_ge) bounds)) r.trace
  some (load_planned_rows rows [])

-- An accepted event with what the cohorts read of it: `effect` is `effect_at.get(k)`, and
-- `completed` is `obligations.get(k, {}).get('completed_at')`.
pub record Member : Type 0 where
  pub phase : String
  pub seller : String
  pub created : ℕ
  pub effect : Option ℕ
  pub completed : Option ℕ

abbrev pub Obligations : Type 0
Obligations = Dict String (Option ℕ)

abbrev pub completed_at : Obligations → String → Option ℕ
completed_at obligations k = elim (lookup k obligations) [ none ↦ none | some t ↦ t ]

-- An accepted event that was not planned stops the checker with a KeyError.
unfoldable pub member_of :
    (planned : Dict String Planned) → Run → Obligations → String × ℕ → Option Member
unfolding effect_at
member_of planned r obligations (k, c) = do
  p ← lookup k planned
  some (record {
    phase = p.phase;
    seller = p.event.seller_id;
    created = c;
    effect = lookup k (effect_at r);
    completed = completed_at obligations k;
  })

unfoldable pub members_of :
    (name_ge : String → String → Bool) → List Bound → Run → Obligations → Option (List Member)
unfolding planned_rows member_of created
members_of name_ge bounds r obligations = do
  planned ← planned_rows name_ge bounds r
  map_all (member_of planned r obligations) (created r)

-- `(effect_at.get(k, math.inf) - created[k]) > TARGET_MS`
abbrev pub is_late : Member → Bool
is_late m = elim m.effect [ none ↦ true | some t ↦ ltb (m.created + target_ms) t ]

-- `((completed_at or math.inf) - created[k]) > TARGET_MS`
abbrev pub is_late_inside : Member → Bool
is_late_inside m = elim m.completed [
  | none ↦ true
  | some t ↦ if ltb 0 t then ltb (m.created + target_ms) t else true
]

abbrev pub is_missing : Member → Bool
is_missing m = elim m.effect [ none ↦ true | some t ↦ false ]

abbrev pub since : ℕ → Option ℕ → Option ℤ
since c none = none
since c (some t) = some (sub_ℕ t c)

abbrev pub not_above : ℤ → ℤ → Bool
not_above a b = not (ltb_ℤ b a)

-- `pct` of integers: a clock that is behind makes a latency negative.
unfoldable pub signed_pct : List ℤ → Quantile → Option ℤ
unfolding sort_by
signed_pct values q = get_elem? (sort_by not_above values) (rank_index q (length values))

-- An entry of `latency`; a rate is in units of 0.00001.
pub record Entry : Type 0 where
  pub n : ℕ
  pub delivered : ℕ
  pub censored : ℕ
  pub p50_ms : Option ℤ
  pub p95_ms : Option ℤ
  pub p99_ms : Option ℤ
  pub miss_rate : ℕ
  pub misses : ℕ
  pub internal_p99_ms : Option ℤ
  pub internal_miss_rate : ℕ

abbrev pub cohort_of : (fault_seller : String) → Member → String × String
cohort_of fault_seller m = (m.phase, if m.seller == fault_seller then "fault" else "normal")

abbrev pub entry_meets : Option Entry → Bool
entry_meets none = false
entry_meets (some e) = leb e.miss_rate 1000

-- `round5 m n` is `round(m / n, 5)`.
module _ (round5 : (misses n : ℕ) → ℕ) where
  unfoldable pub entry_of : List Member → Entry
  unfolding signed_pct
  entry_of cohort =
      let n = length cohort in
      let delivered = present (map (λ (m : Member). since m.created m.effect) cohort) in
      let internal = present (map (λ (m : Member). since m.created m.completed) cohort) in
      let misses = count_if is_late cohort in
      record {
        n = n;
        delivered = length delivered;
        censored = count_if is_missing cohort;
        p50_ms = signed_pct delivered q50;
        p95_ms = signed_pct delivered q95;
        p99_ms = signed_pct delivered q99;
        miss_rate = round5 misses n;
        misses = misses;
        internal_p99_ms = signed_pct internal q99;
        internal_miss_rate = round5 (count_if is_late_inside cohort) n;
      }

  -- `latency`, by the pairs of a phase and a group; no cohort there is empty.
  unfoldable pub latency : (fault_seller : String) → List Member → Dict (String × String) Entry
  unfolding entry_of
  latency fault_seller members =
      map (λ (cohort : (String × String) × List Member). (cohort.0, entry_of cohort.1))
        (group_by (cohort_of fault_seller) members)

  -- `latencyPassed`: None without judged phases.
  unfoldable pub latency_passed :
      (fault_seller : String) (judged : List String) → List Member → Option Bool
  unfolding latency
  latency_passed fault_seller [] members = none
  latency_passed fault_seller (phase ∷ phases) members =
      let entries = latency fault_seller members in
      some (all (λ p. entry_meets (lookup (p, "normal") entries)) (phase ∷ phases))

-- Counts of each seller in the judged phases: its events and its misses.
abbrev pub Counts : Type 0
Counts = ℕ × ℕ

abbrev pub or_zeros : Option Counts → Counts
or_zeros none = (0, 0)
or_zeros (some c) = c

unfoldable pub per_seller :
    (judged : List String) → List Member → Dict String Counts → Dict String Counts
per_seller judged [] d = d
per_seller judged (m ∷ ms) d =
    let (n, misses) = or_zeros (lookup m.seller d) in
    per_seller judged ms (
      if any (λ p. p == m.phase) judged
      then insert m.seller (n + 1, misses + (if is_late m then 1 else 0)) d
      else d)
