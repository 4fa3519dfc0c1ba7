-- ===== src/Invocation/Dsl/Keyword.antt =====
-- Keyword arguments that are calls (packages/invocation/stockstat/dsl/parser.py).
use stock_statistic.Common.{
  ℕ, suc, ◌≡◌, refl, ap, ◌∙◌, true, false, Option, none, [], ◌∷◌, ◌++◌, if◌then◌else◌, arith,
}
use stock_statistic.Common.Text.{Text, codes}
use stock_statistic.Invocation.Scan.{
  Lexical, strip, word_of, is_word, is_letter, all_word, is_identifier, has,
}
use stock_statistic.Invocation.Dsl.{
  Node, Nodes, Fields, Parsed, invalid, after_name, match_call, call_of, parse_call, other_value,
  value_of, parse_value, add_part,
}

all_word-keyword : (key rest : Text) → all_word (key ++ 61 ∷ rest) ≡ false
all_word-keyword [] rest = refl
all_word-keyword (c ∷ key) rest = ground (arith, all_word-keyword key rest)

word_of-keyword :
    (key rest : Text) → all_word key ≡ true → word_of (key ++ 61 ∷ rest) ≡ (key, 61 ∷ rest)
word_of-keyword [] rest h = refl
word_of-keyword (c ∷ key) rest h =
    let both : (is_word c ≡ true) × (all_word key ≡ true) = ground (arith, h) in
    rw (both.0, word_of-keyword key rest both.1) refl

has-append : (c : ℕ) (s t : Text) → has c t ≡ true → has c (s ++ t) ≡ true
has-append c [] t h = h
has-append c (d ∷ s) t h = ground (arith, has-append c s t h)

module _ (l : Lexical) where
  after_name-keyword :
      (name rest : Text) → l.is_space 61 ≡ false → after_name l name (61 ∷ rest) ≡ none
  after_name-keyword name rest k = rw (k, after_name) refl

  match_call-keyword :
      (c : ℕ) (key rest : Text)
      → is_identifier (c ∷ key) ≡ true
      → l.is_space 61 ≡ false
      → match_call l (c ∷ key ++ 61 ∷ rest) ≡ none
  unfolding match_call
  match_call-keyword c key rest h k =
      let both : (is_letter c ≡ true) × (all_word (c ∷ key) ≡ true) = ground (arith, h) in
      let cut = word_of-keyword (c ∷ key) rest both.1 in
      let find : Text × Text → Option (Text × Text) = λ p. after_name l p.0 p.1 in
      ap (λ b. if b then find (word_of (c ∷ key ++ 61 ∷ rest)) else none) both.0
      ∙ ap find cut
      ∙ after_name-keyword (c ∷ key) rest k

  parse_call-keyword :
      (value : Text → Parsed Node) (c : ℕ) (key rest : Text)
      → is_identifier (c ∷ key) ≡ true
      → l.is_space 61 ≡ false
      → strip l (c ∷ key ++ 61 ∷ rest) ≡ c ∷ key ++ 61 ∷ rest
      → parse_call l value (c ∷ key ++ 61 ∷ rest)
        ≡ invalid (codes "Invalid expression: " ++ c ∷ key ++ 61 ∷ rest)
  unfolding parse_call call_of
  parse_call-keyword value c key rest h k e =
      ap (λ s. call_of l value s (match_call l s)) e
      ∙ ap (call_of l value (c ∷ key ++ 61 ∷ rest)) (match_call-keyword c key rest h k)

  other_value-keyword :
      (value : Text → Parsed Node) (c : ℕ) (key rest : Text)
      → is_identifier (c ∷ key) ≡ true
      → has 40 rest ≡ true
      → other_value l value (c ∷ key ++ 61 ∷ rest) ≡ parse_call l value (c ∷ key ++ 61 ∷ rest)
  unfolding other_value
  other_value-keyword value c key rest h k =
      ground (arith, h, all_word-keyword key rest, has-append 40 key (61 ∷ rest) k)

  -- Where the text is no number, has no spaces at its ends, and "=" is no space: an argument
  -- `key=value` whose value has a parenthesis is taken for a call of a function `key=...`, and the
  -- expression is refused with a ValueError.
  pub add_part-keyword :
      (fuel c : ℕ) (key rest : Text) (state : Nodes × Fields)
      → is_identifier (c ∷ key) ≡ true
      → has 40 rest ≡ true
      → l.is_space 61 ≡ false
      → l.float (c ∷ key ++ 61 ∷ rest) ≡ none
      → strip l (c ∷ key ++ 61 ∷ rest) ≡ c ∷ key ++ 61 ∷ rest
      → add_part l (parse_value l (suc fuel)) (c ∷ key ++ 61 ∷ rest) state
        ≡ invalid (codes "Invalid expression: " ++ c ∷ key ++ 61 ∷ rest)
  unfolding parse_value value_of
  add_part-keyword fuel c key rest state h k s f e =
      let part = c ∷ key ++ 61 ∷ rest in
      let value = parse_value l fuel in
      let there : has 40 part ≡ true = has-append 40 (c ∷ key) (61 ∷ rest) k in
      let refused : parse_value l (suc fuel) part ≡ invalid (codes "Invalid expression: " ++ part) =
        ap (value_of l value) e
        ∙ rw (f, value_of)
            (other_value-keyword value c key rest h k
              ∙ parse_call-keyword value c key rest h s e) in
      rw (there, refused) refl
