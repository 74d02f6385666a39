-- ===== src/MockApi/Threads/Counts.antt =====
-- What `/stats` shows of the handler threads: the number of active calls, and attempt ids that no
-- two calls share.
use event_driven_order_syste.Base.{
  ℕ, ◌+◌, ◌-◌, ◌≤◌, ◌≡◌, refl, String, Bool, false, some, List, [], ◌∷◌, ◌++◌, ◌==◌, ==_iff,
  string_eq, nat_eq, if◌then◌else◌, arith, ltb, pair_eq,
}
use event_driven_order_syste.Base.Dict.{Dict, lookup, counter, lookup-insert}
use event_driven_order_syste.Base.Lists.{count_if}
use event_driven_order_syste.Event.{event_eq}
use event_driven_order_syste.MockApi.Ledger.{Ledger, enqueue, write_round, write_queue, store}
use event_driven_order_syste.MockApi.Tables.{Statement}
use event_driven_order_syste.MockApi.Handler.{
  Call, Verdict, Policy, Request, arrive, decide, moved, applied, judge, order_key,
}
use event_driven_order_syste.MockApi.Threads.{
  Thread, counted, asleep, decided, System, Step, arrives, starts, decides, queues, commits, Reach,
  idle, next,
}

-- A call between its two sections under the lock.
abbrev pub is_active : String → Thread → Bool
is_active seller (counted c) = c.event.seller_id == seller
is_active seller (asleep c) = c.event.seller_id == seller
is_active seller (decided c d) = false

abbrev pub has_attempt : ℕ → Thread → Bool
has_attempt id (counted c) = c.attempt == id
has_attempt id (asleep c) = c.attempt == id
has_attempt id (decided c d) = c.attempt == id

count_if-middle {ℓ} :
    {A : Type ℓ} (p : A → Bool) (front back : List A) (x : A)
    → count_if p (front ++ x ∷ back) ≡ (if p x then 1 else 0) + count_if p (front ++ back)
count_if-middle p [] back x = refl
count_if-middle p (y ∷ front) back x = omega (arith, count_if-middle p front back x)

arrive-counts :
    (r : Request) (controls : Dict String Policy) (now : ℕ) (l l' : Ledger) (c : Call)
    (seller : String)
    → arrive r controls now l ≡ some (c, l')
    → (counter seller l'.active
        ≡ (if c.event.seller_id == seller then 1 else 0) + counter seller l.active)
      × (c.attempt ≡ l.next_attempt)
      × (l'.next_attempt ≡ l.next_attempt + 1)
unfolding arrive counter
arrive-counts r controls now l l' c seller h = ground (
  arith,
  lookup-insert r.body.seller_id seller (counter r.body.seller_id l.active + 1) l.active,
  ==_iff r.body.seller_id seller,
)

moved-keeps :
    (v : Verdict) (c : Call) (l : Ledger)
    → ((moved v c.event l).active ≡ l.active) × ((moved v c.event l).next_attempt ≡ l.next_attempt)
unfolding moved applied
moved-keeps Verdict.fault c l = (refl, refl)
moved-keeps Verdict.replay c l = (refl, refl)
moved-keeps Verdict.conflict c l = (refl, refl)
moved-keeps Verdict.out_of_order c l = (refl, refl)
moved-keeps Verdict.apply c l = (refl, refl)

decide-counts :
    (c : Call) (t u : ℕ) (l : Ledger) (seller : String)
    → (counter seller (decide c t u l).1.active
        ≡ counter seller l.active - (if c.event.seller_id == seller then 1 else 0))
      × ((decide c t u l).1.next_attempt ≡ l.next_attempt)
unfolding decide counter
decide-counts c t u l seller =
    let v = judge c (lookup c.event.event_id l.effects) (lookup (order_key c.event) l.orders) in
    let (active, attempt) = moved-keeps v c l in
    (
      ground (
        arith,
        active,
        lookup-insert c.event.seller_id seller
            (counter c.event.seller_id (moved v c.event l).active - 1) (moved v c.event l).active,
        ==_iff c.event.seller_id seller,
      ),
      attempt,
    )

-- A round of the writer touches neither.
write_round-counts :
    (disk : Bool) (l l' : Ledger)
    → write_round disk l ≡ some l'
    → (l'.active ≡ l.active) × (l'.next_attempt ≡ l.next_attempt)
unfolding write_round write_queue store
write_round-counts disk l l' h = ground arith

-- The counter of active calls is exact, and an attempt id that is given out belongs to one thread
-- at most.
pub record IsCounted (s : System) : Type 0 where
  pub active :
      (seller : String) → counter seller s.ledger.active ≡ count_if (is_active seller) s.threads
  pub attempts :
      (id : ℕ)
      → count_if (has_attempt id) s.threads ≤ (if ltb id s.ledger.next_attempt then 1 else 0)

enqueue-counts :
    (ss : List Statement) (l : Ledger)
    → ((enqueue ss l).1.active ≡ l.active) × ((enqueue ss l).1.next_attempt ≡ l.next_attempt)
unfolding enqueue
enqueue-counts ss l = (refl, refl)

Step-IsCounted : {s t : System} → Step s t → IsCounted s → IsCounted t
unfolding enqueue
Step-IsCounted (arrives s r controls now c l e) h = record {
  active = λ seller.
      omega (arith, (arrive-counts r controls now s.ledger l c seller e).0, h.active seller);
  attempts = λ id.
      let (active, attempt, later) = arrive-counts r controls now s.ledger l c "" e in
      let before = h.attempts id in ground (arith, attempt, later, before);
}
Step-IsCounted (starts l front back c) h = record {
  active = λ seller. omega (
    arith,
    h.active seller,
    count_if-middle (is_active seller) front back (counted c),
    count_if-middle (is_active seller) front back (asleep c),
  );
  attempts = λ id. omega (
    arith,
    h.attempts id,
    count_if-middle (has_attempt id) front back (counted c),
    count_if-middle (has_attempt id) front back (asleep c),
  );
}
Step-IsCounted (decides l front back c t u) h = record {
  active = λ seller. omega (
    arith,
    h.active seller,
    (decide-counts c t u l seller).0,
    count_if-middle (is_active seller) front back (asleep c),
    count_if-middle (is_active seller) front back (decided c (decide c t u l).0),
  );
  attempts = λ id. rw (decide-counts c t u l "").1 (
      omega (
        arith,
        h.attempts id,
        count_if-middle (has_attempt id) front back (asleep c),
        count_if-middle (has_attempt id) front back (decided c (decide c t u l).0),
      ));
}
Step-IsCounted (queues l front back c d) h = record {
  active = λ seller.
      omega (arith, h.active seller, count_if-middle (is_active seller) front back (decided c d));
  attempts =
      λ id. omega (arith, h.attempts id, count_if-middle (has_attempt id) front back (decided c d));
}
Step-IsCounted (commits s disk l e) h = record {
  active = λ seller. rw (write_round-counts disk s.ledger l e).0 (h.active seller);
  attempts = λ id. rw (write_round-counts disk s.ledger l e).1 (h.attempts id);
}

-- From a ledger without active calls, whatever requests arrive, in whatever interleaving of the
-- handler threads and the writer, the number of active calls of each seller is the number of
-- threads that are counted and not yet decided, and no two threads have the same attempt id.
pub Reach-IsCounted : (l : Ledger) (s : System) → l.active ≡ [] → Reach l s → IsCounted s
unfolding counter lookup
Reach-IsCounted l s none_active idle = record {
  active = λ seller. rw none_active refl;
  attempts = λ id. omega arith;
}
Reach-IsCounted l s none_active (next before step) =
    Step-IsCounted step (Reach-IsCounted l _ none_active before)
