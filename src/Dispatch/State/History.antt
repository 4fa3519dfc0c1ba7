-- ===== src/Dispatch/State/History.antt =====
-- The task history keeps the last thousand entries
-- (packages/dispatcher/stockstat_dispatcher/core.py).
use stock_statistic.Common.{
  ℕ, zero, suc, ◌+◌, ◌-◌, ◌≤◌, ◌<◌, sym, false, ◌≡◌, refl, ap, ◌∙◌, List, [], ◌∷◌, ◌++◌, arith, ltb,
  Bool-cases, inl, inr,
}
use stock_statistic.Common.Lists.{length, drop, length-append, length-drop, drop-append_le}
use stock_statistic.Dispatch.State.{HistoryEntry, history_max, keep_last}

-- The last `m` items.
abbrev pub last {ℓ} : {A : Type ℓ} → ℕ → List A → List A
last m xs = drop (length xs - m) xs

-- The history after the entries were recorded one by one.
unfoldable pub record_all : List HistoryEntry → List HistoryEntry → List HistoryEntry
unfolding keep_last
record_all h [] = h
record_all h (e ∷ es) = record_all (keep_last h e) es

drop_nil {ℓ} : {A : Type ℓ} (n : ℕ) → drop {A = A} n [] ≡ []
drop_nil zero = refl
drop_nil (suc n) = refl

drop-drop {ℓ} : {A : Type ℓ} (m n : ℕ) (xs : List A) → drop m (drop n xs) ≡ drop (n + m) xs
drop-drop m zero xs = let same : m ≡ zero + m = omega arith in ap (λ (k : ℕ). drop k xs) same
drop-drop m (suc n) [] = drop_nil m ∙ sym (drop_nil (suc n + m))
drop-drop m (suc n) (x ∷ xs) =
    let same : suc (n + m) ≡ suc n + m = omega arith in
    drop-drop m n xs ∙ ap (λ (k : ℕ). drop k (x ∷ xs)) same

last_snoc {ℓ} :
    {A : Type ℓ} (m : ℕ) (xs : List A) (x : A)
    → 0 < m
    → last m (last m xs ++ x ∷ []) ≡ last m (xs ++ x ∷ [])
last_snoc m xs x h =
    let n : ℕ = length xs - m in
    let shorter = length-append (drop n xs) (x ∷ []) in
    let longer = length-append xs (x ∷ []) in
    let moved = drop-append_le n xs (x ∷ []) (omega arith) in
    let total : n + (length (drop n xs ++ x ∷ []) - m) ≡ length (xs ++ x ∷ []) - m =
      omega (arith, shorter, longer, length-drop n xs) in
    rw (← moved) (
      drop-drop (length (drop n (xs ++ x ∷ [])) - m) n (xs ++ x ∷ [])
      ∙ ap (λ (k : ℕ). drop k (xs ++ x ∷ [])) (rw (← moved) at total))

no_excess : (n : ℕ) → ltb history_max n ≡ false → zero ≡ n - history_max
no_excess n h = ground arith

append_nil : (xs : List HistoryEntry) → xs ++ [] ≡ xs
append_nil [] = refl
append_nil (x ∷ xs) = ap (λ l. x ∷ l) (append_nil xs)

append_snoc : (xs ys : List HistoryEntry) (x : HistoryEntry) → (xs ++ x ∷ []) ++ ys ≡ xs ++ x ∷ ys
append_snoc [] ys x = refl
append_snoc (y ∷ xs) ys x = ap (λ l. y ∷ l) (append_snoc xs ys x)

keep_last_lem :
    (h : List HistoryEntry) (e : HistoryEntry) → keep_last h e ≡ last history_max (h ++ e ∷ [])
unfolding keep_last
keep_last_lem h e = elim (Bool-cases (ltb history_max (length (h ++ e ∷ [])))) [
  | inl full ↦ rw full refl
  | inr room ↦
      rw room (ap (λ (k : ℕ). drop k (h ++ e ∷ [])) (no_excess (length (h ++ e ∷ [])) room))
]

record_all_lem :
    (xs : List HistoryEntry) (es : List HistoryEntry)
    → record_all (last history_max xs) es ≡ last history_max (xs ++ es)
unfolding record_all
record_all_lem xs [] = ap (last history_max) (sym (append_nil xs))
record_all_lem xs (e ∷ es) =
    ap (λ h. record_all h es)
      (keep_last_lem (last history_max xs) e ∙ last_snoc history_max xs e (omega arith))
    ∙ record_all_lem (xs ++ e ∷ []) es
    ∙ ap (last history_max) (append_snoc xs es e)

-- A history that starts empty holds the last thousand of all entries that were recorded, in order.
pub record_all-eq-last : (es : List HistoryEntry) → record_all [] es ≡ last history_max es
record_all-eq-last es = record_all_lem [] es

-- It never holds more than a thousand.
pub length-keep_last :
    (h : List HistoryEntry) (e : HistoryEntry) → length (keep_last h e) ≤ history_max
length-keep_last h e =
    rw keep_last_lem (omega (arith, length-drop (length (h ++ e ∷ []) - history_max) (h ++ e ∷ [])))
