-- ===== src/Dispatch/SliceId/Parent.antt =====
-- The parent of a slice is its task, and slices of one task have different ids
-- (packages/dispatcher/stockstat_dispatcher/shard.py and core.py).
use stock_statistic.Common.{
  ℕ, zero, suc, ◌+◌, ◌*◌, ◌-◌, ◌/◌, ◌%◌, ◌≤◌, ◌≡◌, ◌≢◌, refl, ap, sym, ◌∙◌, ◌≢◌, none, some, [],
  ◌∷◌, ◌++◌, arith, ltb, Bool-cases, inl, inr,
}
use stock_statistic.Common.Lists.{All}
use stock_statistic.Common.Text.{Text, starts_with}
use stock_statistic.Dispatch.SliceId.{digits, decimal, mark, slice_id, before_last, parent_id}

-- No hyphen.
abbrev NoHyphen : Text → Type 0
NoHyphen t = All (λ c. c ≢ 45) t

NoHyphen-snoc : (t : Text) (c : ℕ) → NoHyphen t → c ≢ 45 → NoHyphen (t ++ c ∷ [])
NoHyphen-snoc [] c h k = (k, tt)
NoHyphen-snoc (d ∷ t) c h k = (h.0, NoHyphen-snoc t c h.1 k)

digits-NoHyphen : (fuel n : ℕ) → NoHyphen (digits fuel n)
unfolding digits
digits-NoHyphen zero n = (omega arith, tt)
digits-NoHyphen (suc fuel) n = elim (Bool-cases (ltb n 10)) [
  | inl small ↦ rw small (omega arith, tt)
  | inr large ↦ rw large (
      NoHyphen-snoc (digits fuel (n / 10)) (48 + n % 10) (digits-NoHyphen fuel (n / 10))
        (omega arith))
]

decimal-NoHyphen : (n : ℕ) → NoHyphen (decimal n)
unfolding decimal
decimal-NoHyphen n = digits-NoHyphen n n

before_last-NoHyphen : (t : Text) → NoHyphen t → before_last t ≡ none
unfolding before_last starts_with
before_last-NoHyphen [] h = refl
before_last-NoHyphen (c ∷ t) h = ground (arith, before_last-NoHyphen t h.1, h.0)

before_last-mark : (t : Text) → NoHyphen t → before_last (mark ++ t) ≡ some []
unfolding before_last starts_with
before_last-mark t h = ground (arith, before_last-NoHyphen t h)

before_last-append : (s t : Text) → before_last t ≡ some [] → before_last (s ++ t) ≡ some s
unfolding before_last
before_last-append [] t h = h
before_last-append (c ∷ s) t h = rw (before_last-append s t h) refl

-- The parent of every slice id is the id of the task, whatever the task's id is.
pub parent_id-slice_id : (task_id : Text) (i : ℕ) → parent_id (slice_id task_id i) ≡ task_id
unfolding parent_id slice_id
parent_id-slice_id task_id i =
    let found : before_last (task_id ++ (mark ++ decimal i)) ≡ some task_id =
      before_last-append task_id (mark ++ decimal i)
        (before_last-mark (decimal i) (decimal-NoHyphen i)) in
    rw (found, parent_id) refl

-- The number that a text of digits stands for, on top of `n`.
value : ℕ → Text → ℕ
value n [] = n
value n (c ∷ t) = value (n * 10 + (c - 48)) t

value_snoc : (n : ℕ) (t : Text) (c : ℕ) → value n (t ++ c ∷ []) ≡ value n t * 10 + (c - 48)
unfolding value
value_snoc n [] c = refl
value_snoc n (d ∷ t) c = value_snoc (n * 10 + (d - 48)) t c

value-digits : (fuel n : ℕ) → n ≤ fuel → value 0 (digits fuel n) ≡ n
unfolding value digits
value-digits zero n h = ground arith
value-digits (suc fuel) n h = elim (Bool-cases (ltb n 10)) [
  | inl small ↦ rw small (omega arith)
  | inr large ↦ rw large (rw value_snoc (omega (arith, value-digits fuel (n / 10) (ground arith))))
]

append_cancel : (s t u : Text) → s ++ t ≡ s ++ u → t ≡ u
append_cancel [] t u h = h
append_cancel (c ∷ s) t u h = append_cancel s t u (cc)

value-decimal : (n : ℕ) → value 0 (decimal n) ≡ n
unfolding decimal
value-decimal n = value-digits n n (omega arith)

slice_id_injective : (task_id : Text) (i j : ℕ) → slice_id task_id i ≡ slice_id task_id j → i ≡ j
unfolding slice_id
slice_id_injective task_id i j h =
    let same : decimal i ≡ decimal j =
      append_cancel mark (decimal i) (decimal j)
        (append_cancel task_id (mark ++ decimal i) (mark ++ decimal j) h) in
    sym (value-decimal i) ∙ ap (value 0) same ∙ value-decimal j

-- Slices of a task that have different numbers have different ids.
pub slice_id-ne : (task_id : Text) (i j : ℕ) → i ≢ j → slice_id task_id i ≢ slice_id task_id j
slice_id-ne task_id i j different same = different (slice_id_injective task_id i j same)
