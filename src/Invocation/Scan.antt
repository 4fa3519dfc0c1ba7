-- ===== src/Invocation/Scan.antt =====
-- The text operations of DslParser (packages/invocation/stockstat/dsl/parser.py), with those of
-- Python's `str` and `re` that it uses.
pub mod Lengths
use stock_statistic.Common.{
  ℕ, zero, suc, ◌+◌, ◌-◌, ◌==◌, Bool, true, false, not, ◌&&◌, ◌||◌, Option, none, some, List, [],
  ◌∷◌, ◌++◌, leb, if◌then◌else◌,
}
use stock_statistic.Common.Text.{Text, codes, text_eq}
use stock_statistic.Common.Integer.{ℤ, pos, negsuc}
use stock_statistic.Common.Lists.{length}

-- What Python says of a text: whether a character is white space, and `float(text)` where it does
-- not raise, as the bit pattern of the float.
pub record Lexical : Type 0 where
  pub is_space : ℕ → Bool
  pub float : Text → Option ℕ

-- `c in text`
abbrev pub has : ℕ → Text → Bool
has c [] = false
has c (d ∷ t) = c == d || has c t

abbrev pub is_letter : ℕ → Bool
is_letter c = leb 97 c && leb c 122 || leb 65 c && leb c 90 || c == 95

abbrev pub is_word : ℕ → Bool
is_word c = is_letter c || leb 48 c && leb c 57

abbrev pub all_word : Text → Bool
all_word [] = true
all_word (c ∷ t) = is_word c && all_word t

-- `[a-zA-Z_][a-zA-Z0-9_]*`
abbrev pub is_identifier : Text → Bool
is_identifier [] = false
is_identifier (c ∷ t) = is_letter c && all_word t

-- The longest beginning of word characters, and the rest.
abbrev pub word_of : Text → Text × Text
word_of [] = ([], [])
word_of (c ∷ t) = let (w, rest) = word_of t in if is_word c then (c ∷ w, rest) else ([], c ∷ t)

-- The last character, and the text before it.
abbrev pub last_of : ℕ → Text → ℕ
last_of c [] = c
last_of c (d ∷ t) = last_of d t

abbrev pub but_last : ℕ → Text → Text
but_last c [] = []
but_last c (d ∷ t) = c ∷ but_last d t

-- `text[1:-1]`
abbrev pub inner_of : Text → Text
inner_of [] = []
inner_of (c ∷ []) = []
inner_of (c ∷ d ∷ t) = but_last d t

-- `text.startswith(a) and text.endswith(b)`
abbrev pub between : (a b : ℕ) → Text → Bool
between a b [] = false
between a b (c ∷ t) = a == c && b == last_of c t

abbrev pub is_open : ℕ → Bool
is_open c = c == 40 || c == 91 || c == 123

abbrev pub is_close : ℕ → Bool
is_close c = c == 41 || c == 93 || c == 125

-- `depth + 1` and `depth - 1`; a `)` too many takes the depth below zero.
abbrev pub deeper : ℤ → ℤ
deeper (pos n) = pos (suc n)
deeper (negsuc zero) = pos 0
deeper (negsuc (suc n)) = negsuc n

abbrev pub shallower : ℤ → ℤ
shallower (pos zero) = negsuc 0
shallower (pos (suc n)) = pos n
shallower (negsuc n) = negsuc (suc n)

abbrev pub is_nought : ℤ → Bool
is_nought (pos zero) = true
is_nought _ = false

-- The variables of `_split_args`.
pub record Splitting : Type 0 where
  pub parts : List Text
  pub depth : ℤ
  pub current : Text

-- A round of its loop.
abbrev pub split_step : Splitting → ℕ → Splitting
split_step s c =
    if is_open c
    then record s { depth = deeper s.depth; current = s.current ++ c ∷ [] }
    else if is_close c
    then record s { depth = shallower s.depth; current = s.current ++ c ∷ [] }
    else if c == 44 && is_nought s.depth
    then record s { parts = s.parts ++ s.current ∷ []; current = [] }
    else record s { current = s.current ++ c ∷ [] }

abbrev pub split_loop : Splitting → Text → Splitting
split_loop s [] = s
split_loop s (c ∷ t) = split_loop (split_step s c) t

-- `text.partition(c)`, without the separator.
abbrev pub partition : ℕ → Text → Text × Text
partition c [] = ([], [])
partition c (d ∷ t) =
    let (before, after) = partition c t in if c == d then ([], t) else (d ∷ before, after)

module _ (l : Lexical) where
  abbrev pub strip_left : Text → Text
  strip_left [] = []
  strip_left (c ∷ t) = let rest = strip_left t in if l.is_space c then rest else c ∷ t

  abbrev pub strip_right : Text → Text
  strip_right [] = []
  strip_right (c ∷ t) =
      let rest = strip_right t in
      if l.is_space c then (elim rest [ [] ↦ [] | d ∷ r ↦ c ∷ d ∷ r ]) else c ∷ rest

  -- `strip`
  abbrev pub strip : Text → Text
  strip t = strip_right (strip_left t)

  -- After the loop of `_split_args`.
  abbrev pub split_end : Splitting → List Text
  split_end s = elim (strip s.current) [ [] ↦ s.parts | _ ∷ _ ↦ s.parts ++ s.current ∷ [] ]

  unfoldable pub split_args : Text → List Text
  split_args t = split_end (split_loop (record { parts = []; depth = pos 0; current = [] }) t)
