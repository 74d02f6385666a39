-- ===== src/Load/Pool/Joined.antt =====
-- What is in `results` when `main` of experiments/isolation/load.py has joined its senders.
use event_driven_order_syste.Base.{
  ℕ, suc, ◌+◌, ◌≡◌, refl, Bool, Option, none, some, List, [], ◌∷◌, ◌++◌, inl, inr, arith, ◌⊎◌,
  if◌then◌else◌,
}
use event_driven_order_syste.Base.Lists.{length, count_if, length-append}
use event_driven_order_syste.Base.Opt.{present}
use event_driven_order_syste.Load.Pool.{
  TraceEntry, WorkItem, work_of, Pool, Step, puts_entry, puts_none, gets_entry, gets_none, appends,
  Reached, idle_pool, next_pool,
}

count_if-append :
    (p : WorkItem → Bool) (xs ys : List WorkItem)
    → count_if p (xs ++ ys) ≡ count_if p xs + count_if p ys
count_if-append p [] ys = omega arith
count_if-append p (x ∷ xs) ys = omega (arith, count_if-append p xs ys)

abbrev pub nones : List (Option WorkItem) → ℕ
nones [] = 0
nones (none ∷ q) = suc (nones q)
nones (some x ∷ q) = nones q

-- The entries stand before the Nones.
abbrev EntriesFirst : List (Option WorkItem) → Type 0
EntriesFirst [] = Unit
EntriesFirst (none ∷ q) = length (present q) ≡ 0
EntriesFirst (some x ∷ q) = EntriesFirst q

pub nones-append : (q r : List (Option WorkItem)) → nones (q ++ r) ≡ nones q + nones r
nones-append [] r = omega arith
nones-append (none ∷ q) r = omega (arith, nones-append q r)
nones-append (some x ∷ q) r = nones-append q r

count_if-present :
    (p : WorkItem → Bool) (q r : List (Option WorkItem))
    → count_if p (present (q ++ r)) ≡ count_if p (present q) + count_if p (present r)
count_if-present p [] r = omega arith
count_if-present p (none ∷ q) r = count_if-present p q r
count_if-present p (some x ∷ q) r = omega (arith, count_if-present p q r)

pub length-present :
    (q r : List (Option WorkItem))
    → length (present (q ++ r)) ≡ length (present q) + length (present r)
length-present [] r = omega arith
length-present (none ∷ q) r = length-present q r
length-present (some x ∷ q) r = omega (arith, length-present q r)

EntriesFirst-entry :
    (q : List (Option WorkItem)) (x : WorkItem) → nones q ≡ 0 → EntriesFirst (q ++ some x ∷ [])
EntriesFirst-entry [] x h = tt
EntriesFirst-entry (none ∷ q) x h = absurd (omega arith)
EntriesFirst-entry (some y ∷ q) x h = EntriesFirst-entry q x h

EntriesFirst-none : (q : List (Option WorkItem)) → EntriesFirst q → EntriesFirst (q ++ none ∷ [])
EntriesFirst-none [] h = refl
EntriesFirst-none (none ∷ q) h = omega (arith, length-present q (none ∷ []))
EntriesFirst-none (some y ∷ q) h = EntriesFirst-none q h

EntriesFirst-empty : (q : List (Option WorkItem)) → length (present q) ≡ 0 → EntriesFirst q
EntriesFirst-empty [] h = tt
EntriesFirst-empty (none ∷ q) h = h
EntriesFirst-empty (some x ∷ q) h = absurd (omega arith)

count_if-nothing : (p : WorkItem → Bool) (xs : List WorkItem) → length xs ≡ 0 → count_if p xs ≡ 0
count_if-nothing p [] h = refl
count_if-nothing p (x ∷ xs) h = absurd (omega arith)

drained_sum : (gone n a b : ℕ) → (gone ≡ 0) ⊎ (a + b ≡ 0) → gone ≡ suc n → (a ≡ 0) × (b ≡ 0)
drained_sum gone n a b (inl e) h = absurd (omega arith)
drained_sum gone n a b (inr e) h = (omega arith, omega arith)

-- Each None that is put or still to put is for a sender that has not returned.
pub record IsBalanced (work : List WorkItem) (threads : ℕ) (s : Pool) : Type 0 where
  pub balance : s.marks + nones s.queue ≡ s.idle + length s.busy
  pub senders : s.idle + length s.busy + s.gone ≡ threads
  pub puts : (length s.todo ≡ 0) ⊎ (s.marks ≡ threads)
  pub drained : (s.gone ≡ 0) ⊎ (length s.todo + length (present s.queue) ≡ 0)
  pub entries_first : EntriesFirst s.queue
  pub kept :
      (p : WorkItem → Bool)
      → count_if p s.results + count_if p s.busy + count_if p (present s.queue) + count_if p s.todo
        ≡ count_if p work

-- An entry is put only while no None is on the queue and no sender has returned.
no_nones :
    (n marks nones active gone threads : ℕ)
    → marks + nones ≡ active
    → active + gone ≡ threads
    → (suc n ≡ 0) ⊎ (marks ≡ threads)
    → (nones ≡ 0) × (gone ≡ 0)
no_nones n marks nones active gone threads h k (inl e) = absurd (omega arith)
no_nones n marks nones active gone threads h k (inr e) = (omega arith, omega arith)

-- A None is taken only when every entry has been put.
all_put :
    (n marks nones active gone threads : ℕ)
    → marks + suc nones ≡ active
    → active + gone ≡ threads
    → (n ≡ 0) ⊎ (marks ≡ threads)
    → n ≡ 0
all_put n marks nones active gone threads h k (inl e) = e
all_put n marks nones active gone threads h k (inr e) = absurd (omega arith)

count_if-middle :
    (p : WorkItem → Bool) (front back : List WorkItem) (x : WorkItem)
    → count_if p (front ++ x ∷ back) ≡ (if p x then 1 else 0) + count_if p (front ++ back)
count_if-middle p [] back x = refl
count_if-middle p (y ∷ front) back x = omega (arith, count_if-middle p front back x)

step-IsBalanced :
    (work : List WorkItem) (threads : ℕ) (s t : Pool)
    → Step s t
    → IsBalanced work threads s
    → IsBalanced work threads t
step-IsBalanced work threads s t (puts_entry u x todo) b =
    let (none_left, none_gone) =
      no_nones (length todo) u.marks (nones u.queue) (u.idle + length u.busy) u.gone threads
        b.balance b.senders b.puts in
    record {
      balance = omega (arith, b.balance, nones-append u.queue (some x ∷ []));
      senders = b.senders;
      puts = inr (omega (arith, b.balance, b.senders));
      drained = inl none_gone;
      entries_first = EntriesFirst-entry u.queue x none_left;
      kept = λ p. omega (arith, b.kept p, count_if-present p u.queue (some x ∷ []));
    }
step-IsBalanced work threads s t (puts_none u marks) b = record {
  balance = omega (arith, b.balance, nones-append u.queue (none ∷ []));
  senders = b.senders;
  puts = inl refl;
  drained = ground (arith, b.drained, length-present u.queue (none ∷ []));
  entries_first = EntriesFirst-none u.queue b.entries_first;
  kept = λ p. omega (arith, b.kept p, count_if-present p u.queue (none ∷ []));
}
step-IsBalanced work threads s t (gets_entry u x queue idle) b = record {
  balance = omega (arith, b.balance);
  senders = omega (arith, b.senders);
  puts = b.puts;
  drained = ground (arith, b.drained);
  entries_first = b.entries_first;
  kept = λ p. omega (arith, b.kept p);
}
step-IsBalanced work threads s t (gets_none u queue idle) b =
    let put =
      all_put (length u.todo) u.marks (nones queue) (suc idle + length u.busy) u.gone threads
        b.balance b.senders b.puts in
    record {
      balance = omega (arith, b.balance);
      senders = omega (arith, b.senders);
      puts = inl put;
      drained = inr (omega (arith, put, b.entries_first));
      entries_first = EntriesFirst-empty queue b.entries_first;
      kept = b.kept;
    }
step-IsBalanced work threads s t (appends u front back x) b = record {
  balance = omega (arith, b.balance, length-append front (x ∷ back), length-append front back);
  senders = omega (arith, b.senders, length-append front (x ∷ back), length-append front back);
  puts = b.puts;
  drained = b.drained;
  entries_first = b.entries_first;
  kept = λ p.
      omega (arith, b.kept p, count_if-middle p front back x, count_if-append p u.results (x ∷ []));
}

pub Reached-IsBalanced :
    (work : List WorkItem) (threads : ℕ) (s : Pool)
    → Reached work threads s
    → IsBalanced work threads s
Reached-IsBalanced work threads s idle_pool = record {
  balance = omega arith;
  senders = omega arith;
  puts = inr refl;
  drained = inl refl;
  entries_first = tt;
  kept = λ p. omega arith;
}
Reached-IsBalanced work threads s (next_pool {s = u} r step) =
    step-IsBalanced work threads u s step (Reached-IsBalanced work threads u r)

-- Whatever the order of the threads' steps, once all of one or more senders have returned,
-- `results` holds each entry of the trace exactly as often as the trace does, whatever is counted.
pub results-AreSent :
    (start_at : ℕ) (entries : List TraceEntry) (n : ℕ) (s : Pool)
    → Reached (work_of start_at entries) (suc n) s
    → s.gone ≡ suc n
    → (p : WorkItem → Bool) → count_if p s.results ≡ count_if p (work_of start_at entries)
results-AreSent start_at entries n s r joined p =
    let b = Reached-IsBalanced (work_of start_at entries) (suc n) s r in
    let (no_todo, no_queue) =
      drained_sum s.gone n (length s.todo) (length (present s.queue)) b.drained joined in
    omega (
      arith,
      b.kept p,
      count_if-nothing p s.busy (omega (arith, b.senders)),
      count_if-nothing p s.todo no_todo,
      count_if-nothing p (present s.queue) no_queue,
    )
