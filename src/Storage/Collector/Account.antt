-- ===== src/Storage/Collector/Account.antt =====
-- What `run_once` reports (packages/storage/stockstat_backend/scheduler/collector.py).
use stock_statistic.Common.{ℕ, suc, ◌+◌, ◌≡◌, refl, sym, ◌∙◌, List, [], ◌∷◌, ◌++◌, arith}
use stock_statistic.Common.Lists.{length}
use stock_statistic.Storage.Collector.{
  Subscription, Collector, Results, Failure, Tried, gave, threw, Sources, collect, tally,
  collect_each, run_once,
}

-- The failures of a subscription that was tried and of the rest.
abbrev pub with_failure : Subscription → Tried ℕ → List Failure → List Failure
with_failure sub (gave n) rest = rest
with_failure sub (threw message) rest = record { symbol = sub.symbol; error = message } ∷ rest

-- The counts and the errors of a report, in terms of one before `n` subscriptions were tried.
pub record Reports (n : ℕ) (failures : List Failure) (r r' : Results) : Type 0 where
  pub errors : r'.errors ≡ r.errors ++ failures
  pub failed : r'.failed ≡ r.failed + length failures
  pub all : r'.success + r'.failed ≡ r.success + r.failed + n

append_nil : (xs : List Failure) → xs ++ [] ≡ xs
append_nil [] = refl
append_nil (x ∷ xs) = rw (append_nil xs) refl

append_snoc : (xs ys : List Failure) (x : Failure) → (xs ++ x ∷ []) ++ ys ≡ xs ++ x ∷ ys
append_snoc [] ys x = refl
append_snoc (z ∷ xs) ys x = rw (append_snoc xs ys x) refl

module _ {S : Type 0} (sources : Sources S) where
  -- The failures of the subscriptions in their order, each tried in the state that the ones before
  -- it left.
  unfoldable pub failures : List Subscription → S → List Failure
  failures [] s = []
  failures (sub ∷ subs) s =
      let (tried, s') = collect sources sub s in with_failure sub tried (failures subs s')

  Reports-tally :
      (n : ℕ) (sub : Subscription) (tried : Tried ℕ) (fs : List Failure) (r r' : Results)
      → Reports n fs (tally sources sub tried r) r'
      → Reports (suc n) (with_failure sub tried fs) r r'
  Reports-tally n sub (gave m) fs r r' h = record {
    errors = h.errors;
    failed = h.failed;
    all = omega (arith, h.all);
  }
  Reports-tally n sub (threw message) fs r r' h = record {
    errors = h.errors ∙ append_snoc r.errors fs _;
    failed = omega (arith, h.failed);
    all = omega (arith, h.all);
  }

  collect_each-Reports :
      (subs : List Subscription) (s : S) (r : Results)
      → Reports (length subs) (failures subs s) r (collect_each sources subs (r, s)).0
  unfolding collect_each failures
  collect_each-Reports [] s r = record {
    errors = sym (append_nil r.errors);
    failed = omega arith;
    all = omega arith;
  }
  collect_each-Reports (sub ∷ subs) s r =
      let (tried, s') = collect sources sub s in
      Reports-tally (length subs) sub tried (failures subs s') r _
        (collect_each-Reports subs s' (tally sources sub tried r))

  -- A collection tries every subscription, in order, whatever the others do: its errors are those
  -- of the subscriptions that fail, it counts them, and the others are its successes.
  pub run_once-Reports :
      (c : Collector) (s : S)
      → Reports
          (length c.subscriptions)
          (failures c.subscriptions s)
          (record { success = 0; failed = 0; errors = [] })
          (run_once sources c s).0
  unfolding run_once
  run_once-Reports c s = collect_each-Reports c.subscriptions s _
