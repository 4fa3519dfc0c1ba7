-- ===== src/Backtest/Searches/Windows.antt =====
-- The windows of a forward validation
-- (packages/compute/stockstat_compute/backtest/walkforward.py).
use stock_statistic.Common.{
  ℕ, zero, suc, ◌+◌, ◌*◌, ◌≤◌, ◌<◌, ◌≡◌, refl, sym, ◌∙◌, true, false, Option, none, some, List, [],
  ◌∷◌, leb, if◌then◌else◌, arith, inl, inr, Bool-cases,
}
use mathlib.Core.Option.{some-injective}
use stock_statistic.Backtest.Searches.WalkForward.{windows_from}

abbrev pub get_elem? {ℓ} : {A : Type ℓ} → List A → ℕ → Option A
get_elem? [] i = none
get_elem? (x ∷ xs) zero = some x
get_elem? (x ∷ xs) (suc i) = get_elem? xs i

-- The window with a number, where it ends within the bars.
abbrev pub window_at : (n test_window step start k : ℕ) → Option (ℕ × ℕ)
window_at n test_window step start k =
    let from : ℕ = start + k * step in
    if leb (from + test_window) n then some (from, from + test_window) else none

abbrev pub WindowsFound : (n test_window step start : ℕ) → Option (List (ℕ × ℕ)) → Type 0
WindowsFound n test_window step start found =
    (windows : List (ℕ × ℕ)) × (found ≡ some windows)
    × ((k : ℕ) → get_elem? windows k ≡ window_at n test_window step start k)

window_at-suc :
    (n test_window step start k : ℕ)
    → window_at n test_window step (start + step) k ≡ window_at n test_window step start (suc k)
window_at-suc n test_window step start k =
    let e : start + step + k * step ≡ start + suc k * step = grind arith in rw e refl

none_past :
    (n test_window step start k : ℕ)
    → leb (start + test_window) n ≡ false
    → window_at n test_window step start k ≡ none
none_past n test_window step start k h =
    let past : leb (start + k * step + test_window) n ≡ false = ground arith in rw past refl

WindowsWindowsFound-cons :
    (n test_window step start : ℕ) (found : Option (List (ℕ × ℕ)))
    → leb (start + test_window) n ≡ true
    → WindowsFound n test_window step (start + step) found
    → WindowsFound n test_window step start
        (elim found [ none ↦ none | some ws ↦ some ((start, start + test_window) ∷ ws) ])
WindowsWindowsFound-cons n test_window step start none fits (ws, e, at) = cc
WindowsWindowsFound-cons n test_window step start (some vs) fits (ws, e, at) =
    ((start, start + test_window) ∷ vs, refl, each)
  where
    each :
        (k : ℕ)
        → get_elem? ((start, start + test_window) ∷ vs) k ≡ window_at n test_window step start k
    each zero = let here : start + 0 * step ≡ start = omega arith in rw (here, fits) refl
    each (suc k) = rw (some-injective vs ws e) (at k) ∙ window_at-suc n test_window step start k

-- With as much fuel as there are bars left and one more, and a step above zero, the windows are
-- found: each begins a step after the one before it, the first at the given start, and they are
-- all those that end within the bars.
pub windows_from-WindowsFound :
    (fuel n test_window step start : ℕ)
    → 0 < step
    → n < fuel + start
    → WindowsFound n test_window step start (windows_from (suc fuel) n test_window step start)
unfolding windows_from
windows_from-WindowsFound zero n test_window step start pos h =
    let past : leb (start + test_window) n ≡ false = ground arith in
    rw past ([], refl, λ k. sym (none_past n test_window step start k past))
windows_from-WindowsFound (suc fuel) n test_window step start pos h =
    elim (Bool-cases (leb (start + test_window) n)) [
      | inl fits ↦ rw fits (
          WindowsWindowsFound-cons n test_window step start _ fits (
            windows_from-WindowsFound fuel n test_window step (start + step) pos
              (omega (arith, h, pos))))
      | inr past ↦ rw past ([], refl, λ k. sym (none_past n test_window step start k past))
    ]

-- A step of zero, which a test window of zero gives where no step is given, never ends.
pub windows_from_endless : (fuel n start : ℕ) → start ≤ n → windows_from fuel n 0 0 start ≡ none
unfolding windows_from
windows_from_endless zero n start h = refl
windows_from_endless (suc fuel) n start h =
    let fits : leb (start + 0) n ≡ true = ground arith in
    let same : start + 0 ≡ start = omega arith in
    let rest = windows_from_endless fuel n (start + 0) (omega (arith, h)) in rw (fits, rest) refl
