-- ===== src/Invocation/Dsl/Ends.antt =====
-- The parser always ends (packages/invocation/stockstat/dsl/parser.py).
use stock_statistic.Common.{
  ℕ, zero, suc, ◌≤◌, ◌<◌, ◌≡◌, refl, Bool, true, false, not, ◌||◌, ◌==◌, Option, none, some, List,
  [], ◌∷◌, if◌then◌else◌, arith, Option-cases, inl, inr,
}
use stock_statistic.Common.Lists.{length}
use stock_statistic.Common.Text.{Text, codes}
use stock_statistic.Invocation.Scan.{
  Lexical, strip_left, strip, split_args, partition, inner_of, between, word_of, is_letter, has,
  is_identifier,
}
use stock_statistic.Invocation.Scan.Lengths.{
  AllShort, of_if, length-partition, length-inner_of, length-word_of, length-strip_left,
  length-strip, AllShort-split_args,
}
use stock_statistic.Invocation.Dsl.{
  Node, Nodes, Fields, Parsed, parsed, invalid, exhausted, and_then, add_part, add_parts,
  parse_args, after_name, match_call, call_of, parse_call, add_items, list_of, other_value,
  value_of, parse_value, parse, no_nodes, no_fields, number_node,
}

abbrev pub ends {ℓ} : {A : Type ℓ} → Parsed A → Bool
ends exhausted = false
ends _ = true

ends-and_then {ℓ κ} :
    {A : Type ℓ} {B : Type κ} (r : Parsed A) (f : A → Parsed B)
    → ends r ≡ true
    → ((x : A) → ends (f x) ≡ true)
    → ends (and_then r f) ≡ true
ends-and_then (parsed x) f h k = k x
ends-and_then (invalid message) f h k = refl
ends-and_then exhausted f h k = h

abbrev AllEnd : ℕ → (Text → Parsed Node) → Type 0
AllEnd n value = (t : Text) → length t ≤ n → ends (value t) ≡ true

module _ (l : Lexical) where
  ends-add_part :
      (value : Text → Parsed Node) (n : ℕ) (part : Text) (state : Nodes × Fields)
      → AllEnd n value
      → length part ≤ n
      → ends (add_part l value part state) ≡ true
  ends-add_part value n [] state h k = refl
  ends-add_part value n (c ∷ part) (args, kwargs) h k =
      of_if (λ r. ends r ≡ true)
        (has 40 (c ∷ part) || (c == 91 || c == 123) || not (has 61 (c ∷ part)))
        (ends-and_then (value (c ∷ part)) _ (h (c ∷ part) k) (λ n'. refl))
        (let rest = (partition 61 (c ∷ part)).1 in
          ends-and_then (value (strip l rest)) _
            (h (strip l rest)
              (omega (arith, k, length-strip l rest, length-partition 61 (c ∷ part))))
            (λ n'. refl))

  ends-add_parts :
      (value : Text → Parsed Node) (n : ℕ) (parts : List Text) (state : Nodes × Fields)
      → AllEnd n value
      → AllShort n parts
      → ends (add_parts l value parts state) ≡ true
  unfolding AllShort
  ends-add_parts value n [] state h k = refl
  ends-add_parts value n (part ∷ parts) state h k =
      ends-and_then (add_part l value (strip l part) state) (add_parts l value parts)
        (ends-add_part value n (strip l part) state h (omega (arith, k.0, length-strip l part)))
        (λ state'. ends-add_parts value n parts state' h k.1)

  ends-parse_args :
      (value : Text → Parsed Node) (n : ℕ) (t : Text)
      → AllEnd n value
      → length t ≤ n
      → ends (parse_args l value t) ≡ true
  unfolding parse_args
  ends-parse_args value n [] h k = refl
  ends-parse_args value n (c ∷ t) h k =
      ends-add_parts value n (split_args l (c ∷ t)) (no_nodes, no_fields) h
        (AllShort-split_args l n (c ∷ t) k)

  -- The arguments of a call have fewer characters than the call.
  Fits : ℕ → Option (Text × Text) → Type 0
  Fits n none = Unit
  Fits n (some (name, args)) = length args ≤ n

  Fits-after_name :
      (n : ℕ) (name rest : Text) → length rest ≤ suc n → Fits n (after_name l name rest)
  unfolding Fits
  Fits-after_name n name rest h =
      elim (strip_left l rest)
          as (λ s.
            length s ≤ suc n
            → Fits n (elim s [
              | [] ↦ none
              | c ∷ t ↦ if between 40 41 (c ∷ t) then some (name, inner_of (c ∷ t)) else none
            ])) [
              | [] ↦ λ k. tt
              | c ∷ t ↦ λ k. of_if (Fits n) (between 40 41 (c ∷ t)) (length-inner_of (c ∷ t) n k) tt
            ]
        (omega (arith, h, length-strip_left l rest))

  Fits-match_call : (n : ℕ) (s : Text) → length s ≤ suc n → Fits n (match_call l s)
  unfolding match_call Fits
  Fits-match_call n [] h = tt
  Fits-match_call n (c ∷ t) h =
      of_if (Fits n) (is_letter c)
        (Fits-after_name n (word_of (c ∷ t)).0 (word_of (c ∷ t)).1
          (omega (arith, h, length-word_of (c ∷ t))))
        tt

  ends-call_of :
      (value : Text → Parsed Node) (n : ℕ) (s : Text) (found : Option (Text × Text))
      → AllEnd n value
      → Fits n found
      → ends (call_of l value s found) ≡ true
  unfolding Fits call_of
  ends-call_of value n s none h k = refl
  ends-call_of value n s (some (name, args)) h k =
      ends-and_then (parse_args l value (strip l args)) _
        (ends-parse_args value n (strip l args) h (omega (arith, k, length-strip l args)))
        (λ state. refl)

  ends-parse_call :
      (value : Text → Parsed Node) (n : ℕ) (s : Text)
      → AllEnd n value
      → length s ≤ suc n
      → ends (parse_call l value s) ≡ true
  unfolding parse_call
  ends-parse_call value n s h k =
      ends-call_of value n (strip l s) (match_call l (strip l s)) h
        (Fits-match_call n (strip l s) (omega (arith, k, length-strip l s)))

  ends-add_items :
      (value : Text → Parsed Node) (n : ℕ) (parts : List Text)
      → AllEnd n value
      → AllShort n parts
      → ends (add_items l value parts) ≡ true
  unfolding AllShort
  ends-add_items value n [] h k = refl
  ends-add_items value n (part ∷ parts) h k =
      ends-and_then (value (strip l part)) _
        (h (strip l part) (omega (arith, k.0, length-strip l part)))
        (λ m.
          ends-and_then (add_items l value parts) _ (ends-add_items value n parts h k.1)
            (λ ns. refl))

  ends-list_of :
      (value : Text → Parsed Node) (n : ℕ) (t : Text)
      → AllEnd n value
      → length t ≤ n
      → ends (list_of l value t) ≡ true
  unfolding list_of
  ends-list_of value n [] h k = refl
  ends-list_of value n (c ∷ t) h k =
      ends-and_then (add_items l value (split_args l (c ∷ t))) _
        (ends-add_items value n (split_args l (c ∷ t)) h (AllShort-split_args l n (c ∷ t) k))
        (λ ns. refl)

  ends-value_of :
      (value : Text → Parsed Node) (n : ℕ) (s : Text)
      → AllEnd n value
      → length s ≤ suc n
      → ends (value_of l value s) ≡ true
  unfolding value_of other_value
  ends-value_of value n s h k =
      let P : Parsed Node → Type 0 = λ r. ends r ≡ true in
      elim (l.float s)
        as (λ x. P (elim x [ some y ↦ parsed (number_node y) | none ↦ other_value l value s ])) [
          | some x ↦ refl
          | none ↦ of_if P (between 34 34 s || between 39 39 s) refl (
              of_if P (is_identifier s) refl (
                of_if P (has 40 s) (ends-parse_call value n s h k) (
                  of_if P (between 91 93 s)
                    (ends-list_of value n (strip l (inner_of s)) h
                      (omega (arith, length-strip l (inner_of s), length-inner_of s n k)))
                    refl)))
        ]

  ends-nothing : (value : Text → Parsed Node) → ends (value_of l value []) ≡ true
  unfolding value_of other_value
  ends-nothing value = elim (Option-cases (l.float [])) [
    | inl none_left ↦ rw (none_left, ends, value_of) refl
    | inr (x, some_x) ↦ rw (some_x, ends, value_of) refl
  ]

  -- A value is parsed with as much fuel as it has characters, and one more.
  ends-parse_value : (fuel : ℕ) (s : Text) → length s < fuel → ends (parse_value l fuel s) ≡ true
  unfolding parse_value
  ends-parse_value zero s h = absurd (omega (arith, h))
  ends-parse_value (suc zero) [] h = ends-nothing (parse_value l zero)
  ends-parse_value (suc zero) (c ∷ s) h = absurd (omega (arith, h))
  ends-parse_value (suc (suc fuel)) s h =
      ends-value_of (parse_value l (suc fuel)) fuel (strip l s)
        (λ t k. ends-parse_value (suc fuel) t (omega (arith, k)))
        (omega (arith, h, length-strip l s))

  -- Every expression is parsed, or refused with a message: the fuel that parse gives is enough.
  pub ends-parse : (expression : Text) → ends (parse l expression) ≡ true
  unfolding parse
  ends-parse expression =
      elim (strip l expression)
        as (λ s.
          ends (elim s [
            | [] ↦ invalid (codes "Empty expression")
            | c ∷ t ↦ parse_call l (parse_value l (length (c ∷ t))) (c ∷ t)
          ])
          ≡ true) [
            | [] ↦ refl
            | c ∷ t ↦
                ends-parse_call (parse_value l (length (c ∷ t))) (length t) (c ∷ t)
                  (λ u k. ends-parse_value (length (c ∷ t)) u (omega (arith, k))) (omega arith)
          ]
