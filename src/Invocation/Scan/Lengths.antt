-- ===== src/Invocation/Scan/Lengths.antt =====
-- No part of a text is longer than the text
-- (packages/invocation/stockstat/dsl/parser.py).
use stock_statistic.Common.{
  ℕ, suc, ◌+◌, ◌≤◌, ◌≡◌, refl, Bool, true, false, ◌&&◌, ◌==◌, List, [], ◌∷◌, ◌++◌, if◌then◌else◌,
  arith,
}
use stock_statistic.Common.Lists.{length, length-append, All}
use stock_statistic.Common.Text.{Text}
use stock_statistic.Common.Integer.{pos}
use stock_statistic.Invocation.Scan.{
  Lexical, strip_left, strip_right, strip, Splitting, split_step, split_loop, split_end, split_args,
  is_open, is_close, is_nought, partition, but_last, inner_of, word_of,
}

unfoldable pub AllShort : ℕ → List Text → Type 0
AllShort n ts = All (λ t. length t ≤ n) ts

AllShort-append :
    (n : ℕ) (ts : List Text) (t : Text) → AllShort n ts → length t ≤ n → AllShort n (ts ++ t ∷ [])
unfolding AllShort
AllShort-append n [] t h k = (k, tt)
AllShort-append n (s ∷ ts) t h k = (h.0, AllShort-append n ts t h.1 k)

-- What is cut off, and what is left, has no more characters than there are.
AllFit : ℕ → Splitting → (rest : Text) → Type 0
unfolding AllShort
AllFit n s rest = AllShort n s.parts × (length s.current + length rest ≤ n)

pub of_if {ℓ κ} :
    {A : Type ℓ} (P : A → Type κ) (b : Bool) {x y : A} → P x → P y → P (if b then x else y)
of_if P true h k = h
of_if P false h k = k

AllFit-split_step :
    (n : ℕ) (s : Splitting) (c : ℕ) (rest : Text)
    → AllFit n s (c ∷ rest)
    → AllFit n (split_step s c) rest
unfolding AllFit
AllFit-split_step n s c rest (h, k) =
    let more : length (s.current ++ c ∷ []) + length rest ≤ n =
      omega (arith, k, length-append s.current (c ∷ [])) in
    let P : Splitting → Type 0 = λ s'. AllFit n s' rest in
    of_if P (is_open c) (h, more)
      (of_if P (is_close c) (h, more)
        (of_if P (c == 44 && is_nought s.depth)
          (AllShort-append n s.parts s.current h (omega (arith, k)), omega (arith, k)) (h, more)))

AllFit-split_loop : (n : ℕ) (s : Splitting) (t : Text) → AllFit n s t → AllFit n (split_loop s t) []
AllFit-split_loop n s [] h = h
AllFit-split_loop n s (c ∷ t) h =
    AllFit-split_loop n (split_step s c) t (AllFit-split_step n s c t h)

module _ (l : Lexical) where
  pub length-strip_left : (t : Text) → length (strip_left l t) ≤ length t
  length-strip_left [] = omega arith
  length-strip_left (c ∷ t) = ground (arith, length-strip_left t)

  length-strip_right : (t : Text) → length (strip_right l t) ≤ length t
  length-strip_right [] = omega arith
  length-strip_right (c ∷ t) = ground (arith, length-strip_right t)

  pub length-strip : (t : Text) → length (strip l t) ≤ length t
  length-strip t = omega (arith, length-strip_left t, length-strip_right (strip_left l t))

pub length-partition : (c : ℕ) (t : Text) → length (partition c t).1 ≤ length t
length-partition c [] = omega arith
length-partition c (d ∷ t) = ground (arith, length-partition c t)

length-but_last : (c : ℕ) (t : Text) → length (but_last c t) ≡ length t
length-but_last c [] = refl
length-but_last c (d ∷ t) = omega (arith, length-but_last d t)

pub length-word_of : (t : Text) → length (word_of t).1 ≤ length t
length-word_of [] = omega arith
length-word_of (c ∷ t) = ground (arith, length-word_of t)

pub length-inner_of : (s : Text) (n : ℕ) → length s ≤ suc n → length (inner_of s) ≤ n
length-inner_of [] n h = omega arith
length-inner_of (c ∷ []) n h = omega arith
length-inner_of (c ∷ d ∷ t) n h = omega (arith, h, length-but_last d t)

module _ (l : Lexical) where
  AllShort-split_end : (n : ℕ) (s : Splitting) → AllFit n s [] → AllShort n (split_end l s)
  unfolding AllFit
  AllShort-split_end n s (h, k) =
      elim (strip l s.current)
        as (λ c. AllShort n (elim c [ [] ↦ s.parts | _ ∷ _ ↦ s.parts ++ s.current ∷ [] ])) [
          | [] ↦ h
          | _ ∷ _ ↦ AllShort-append n s.parts s.current h (omega (arith, k))
        ]

  pub AllShort-split_args : (n : ℕ) (t : Text) → length t ≤ n → AllShort n (split_args l t)
  unfolding split_args AllFit
  AllShort-split_args n t h =
      let s : Splitting = record { parts = []; depth = pos 0; current = [] } in
      AllShort-split_end n (split_loop s t) (AllFit-split_loop n s t (tt, omega (arith, h)))
