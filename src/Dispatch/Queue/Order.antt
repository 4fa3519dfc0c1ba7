-- ===== src/Dispatch/Queue/Order.antt =====
-- What the memory queue guarantees: the least entry first, and first in, first out within a
-- priority (packages/dispatcher/stockstat_dispatcher/queue.py).
use mathlib.Core.List.{Permᴰ, Memᴰ, map-append}
use mathlib.Core.List.Memᴰ
use mathlib.Core.List.Permᴰ
use mathlib.Core.Option.{some-injective}
use mathlib.Core.Path.{subst₂}
use native.Mathlib.Decide.{ℕ_discrete}
use stock_statistic.Common.{
  sym, ap, Bool-cases, ℕ, ◌≢◌, ◌<◌, ◌≤◌, ◌≡◌, refl, ◌⊎◌, inl, inr, Bool, true, false, some, List,
  [], ◌∷◌, ◌++◌, ◌==◌, if◌then◌else◌, arith,
}
use stock_statistic.Common.Lists.{All}
use stock_statistic.Common.Integer.{◌<ℤ◌, eq_of_parts}
use stock_statistic.Protocol.Task.{TaskSpec}
use stock_statistic.Dispatch.Queue.{
  Entry, TaskQueue, precedes, enqueue, least, without, pop, arrived_specs,
}

-- Of lower priority number, or of the same one and enqueued earlier.
abbrev pub Precedes : Entry → Entry → Type 0
Precedes a b = (a.priority <ℤ b.priority) ⊎ ((a.priority ≡ b.priority) × (a.counter < b.counter))

-- The counters rise from `lo` and do not pass `hi`.
abbrev pub IsAscending : ℕ → ℕ → List Entry → Type 0
IsAscending lo hi [] = lo ≤ hi
IsAscending lo hi (e ∷ es) = (lo < e.counter) × IsAscending e.counter hi es

abbrev pub IsValid : TaskQueue → Type 0
IsValid q = IsAscending 0 q.counter q.entries

IsAscending-snoc :
    (lo hi : ℕ) (e : Entry) (es : List Entry)
    → IsAscending lo hi es
    → hi < e.counter
    → IsAscending lo e.counter (es ++ e ∷ [])
IsAscending-snoc lo hi e [] h lt = omega arith
IsAscending-snoc lo hi e (f ∷ es) h lt = (h.0, IsAscending-snoc f.counter hi e es h.1 lt)

pub enqueue-IsValid : (spec : TaskSpec) (q : TaskQueue) → IsValid q → IsValid (enqueue spec q)
unfolding enqueue
enqueue-IsValid spec q h = IsAscending-snoc 0 q.counter _ q.entries h (omega arith)

IsAscending-weaken :
    (lo lo' hi : ℕ) (es : List Entry) → lo' ≤ lo → IsAscending lo hi es → IsAscending lo' hi es
IsAscending-weaken lo lo' hi [] le h = omega arith
IsAscending-weaken lo lo' hi (e ∷ es) le h = (omega arith, h.1)

IsAscending-without :
    (c lo hi : ℕ) (es : List Entry) → IsAscending lo hi es → IsAscending lo hi (without c es)
unfolding without
IsAscending-without c lo hi [] h = h
IsAscending-without c lo hi (e ∷ es) h =
    ground (arith, IsAscending-weaken e.counter lo hi es, IsAscending-without c e.counter hi es)

-- `m` comes no later than `e`.
abbrev NotAfter : Entry → Entry → Type 0
NotAfter m e = precedes e m ≡ false

NotAfter-Precedes : (m e : Entry) → NotAfter m e → e.counter ≢ m.counter → Precedes m e
NotAfter-Precedes m e h ne = ground (arith, eq_of_parts m.priority e.priority)

NotAfter-trans : (a b c : Entry) → NotAfter a b → NotAfter b c → NotAfter a c
NotAfter-trans a b c h k = ground arith

NotAfter-min :
    (a e f : Entry) → NotAfter a (if precedes f e then f else e) → NotAfter a e × NotAfter a f
NotAfter-min a e f h = ground arith

least-NotAfter : (e : Entry) (es : List Entry) → All (NotAfter (least e es)) (e ∷ es)
unfolding least
least-NotAfter e [] = (ground arith, tt)
least-NotAfter e (f ∷ es) =
    let rest = least-NotAfter (if precedes f e then f else e) es in
    let both = NotAfter-min (least e (f ∷ es)) e f rest.0 in (both.0, (both.1, rest.1))

kept_mem :
    (b : Bool) (m e f : Entry) (es : List Entry)
    → Memᴰ m ((if b then f else e) ∷ es)
    → Memᴰ m (e ∷ f ∷ es)
kept_mem true m e f es h = Memᴰ.tail h
kept_mem false m e f es h = elim (Memᴰ.cases_cons h) [
  | inl same ↦ Memᴰ.head same
  | inr later ↦ Memᴰ.tail (Memᴰ.tail later)
]

least-mem : (e : Entry) (es : List Entry) → Memᴰ (least e es) (e ∷ es)
unfolding least
least-mem e [] = Memᴰ.head refl
least-mem e (f ∷ es) =
    kept_mem (precedes f e) (least e (f ∷ es)) e f es (least-mem (if precedes f e then f else e) es)

mem-lt :
    (lo hi : ℕ) (m : Entry) (es : List Entry) → IsAscending lo hi es → Memᴰ m es → lo < m.counter
mem-lt lo hi m [] h mem = absurd (Memᴰ.not-nil mem)
mem-lt lo hi m (e ∷ es) h mem = elim (Memᴰ.cases_cons mem) [
  | inl same ↦ rw same h.0
  | inr later ↦ omega (arith, h.0, mem-lt e.counter hi m es h.1 later)
]

without_head : (c : ℕ) (e : Entry) (es : List Entry) → e.counter ≡ c → without c (e ∷ es) ≡ es
unfolding without
without_head c e es h = ground arith

without_tail :
    (c : ℕ) (e : Entry) (es : List Entry) → e.counter ≢ c → without c (e ∷ es) ≡ e ∷ without c es
unfolding without
without_tail c e es h = ground arith

without_perm :
    (lo hi : ℕ) (m : Entry) (es : List Entry)
    → IsAscending lo hi es
    → Memᴰ m es
    → Permᴰ es (m ∷ without m.counter es)
without_perm lo hi m [] h mem = absurd (Memᴰ.not-nil mem)
without_perm lo hi m (e ∷ es) h mem = elim (Memᴰ.cases_cons mem) [
  | inl same ↦
      rw (without_head m.counter e es (ap (λ (x : Entry). x.counter) (sym same)))
        (Permᴰ.cons (sym same) (Permᴰ.refl es))
  | inr later ↦
      let above = mem-lt e.counter hi m es h.1 later in
      rw (without_tail m.counter e es (omega (arith, above))) (
        Permᴰ.trans (Permᴰ.cons refl (without_perm e.counter hi m es h.1 later))
          (Permᴰ.swap refl refl))
]

-- Behind the removed entry every counter differs from its counter.
others_differ :
    (c lo hi : ℕ) (es : List Entry) → IsAscending lo hi es → c ≤ lo → All (λ e. e.counter ≢ c) es
others_differ c lo hi [] h le = tt
others_differ c lo hi (e ∷ es) h le =
    (omega arith, others_differ c e.counter hi es h.1 (omega arith))

without_differ :
    (c lo hi : ℕ) (es : List Entry) → IsAscending lo hi es → All (λ e. e.counter ≢ c) (without c es)
without_differ c lo hi [] h = unfold without in tt
without_differ c lo hi (e ∷ es) h = elim (ℕ_discrete e.counter c) [
  | yes same ↦ rw (without_head c e es same) (others_differ c e.counter hi es h.1 (omega arith))
  | no other ↦ rw (without_tail c e es other) (other, without_differ c e.counter hi es h.1)
]

All-without : (P : Entry → Type 0) (c : ℕ) (es : List Entry) → All P es → All P (without c es)
unfolding without
All-without P c [] h = tt
All-without P c (e ∷ es) h = elim (Bool-cases (e.counter == c)) [
  | inl same ↦ rw same h.1
  | inr other ↦ rw other (h.0, All-without P c es h.1)
]

All-precede :
    (m : Entry) (es : List Entry)
    → All (NotAfter m) es
    → All (λ e. e.counter ≢ m.counter) es
    → All (Precedes m) es
All-precede m [] h k = tt
All-precede m (e ∷ es) h k = (NotAfter-Precedes m e h.0 k.0, All-precede m es h.1 k.1)

-- What `pop` gives, in one record.
pub record IsFirst (q : TaskQueue) (e : Entry) (q' : TaskQueue) : Type 0 where
  pub first : All (Precedes e) q'.entries
  pub same : Permᴰ q.entries (e ∷ q'.entries)
  pub valid : IsValid q'

pop_entries :
    (es : List Entry) (c : ℕ) (e : Entry) (q' : TaskQueue)
    → IsAscending 0 c es
    → pop (record { entries = es; counter = c }) ≡ some (e, q')
    → IsFirst (record { entries = es; counter = c }) e q'
unfolding pop
pop_entries [] c e q' h p = cc
pop_entries (f ∷ es) c e q' h p =
    let m = least f es in
    let q'' : TaskQueue = record { entries = without m.counter (f ∷ es); counter = c } in
    let mine : IsFirst (record { entries = f ∷ es; counter = c }) m q'' = record {
      first =
          All-precede m (without m.counter (f ∷ es))
            (All-without (NotAfter m) m.counter (f ∷ es) (least-NotAfter f es))
            (without_differ m.counter 0 c (f ∷ es) h);
      same = without_perm 0 c m (f ∷ es) h (least-mem f es);
      valid = IsAscending-without m.counter 0 c (f ∷ es) h;
    } in
    let both = some-injective _ _ p in
    subst₂ (λ a b. IsFirst (record { entries = f ∷ es; counter = c }) a b)
      (ap (λ (x : Entry × TaskQueue). x.0) both) (ap (λ (x : Entry × TaskQueue). x.1) both) mine

-- An entry that a valid queue gives up precedes every entry that stays: it has a lower priority
-- number, or the same one and came earlier. The queue loses that entry and no other, and stays
-- valid.
pub pop-IsFirst :
    (q : TaskQueue) (e : Entry) (q' : TaskQueue) → IsValid q → pop q ≡ some (e, q') → IsFirst q e q'
pop-IsFirst q e q' h p = pop_entries q.entries q.counter e q' h p

-- What is enqueued arrives after the rest.
pub arrived_specs-enqueue :
    (s : TaskSpec) (q : TaskQueue) → arrived_specs (enqueue s q) ≡ arrived_specs q ++ s ∷ []
unfolding enqueue
arrived_specs-enqueue s q = map-append _ q.entries _
