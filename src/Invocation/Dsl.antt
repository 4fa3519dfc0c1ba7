-- ===== src/Invocation/Dsl.antt =====
-- DslParser (packages/invocation/stockstat/dsl/parser.py). The recursion of a value runs on fuel.
pub mod Ends
pub mod Keyword
use stock_statistic.Common.{
  ℕ, zero, suc, ◌+◌, ◌-◌, ◌==◌, Bool, true, false, not, ◌&&◌, ◌||◌, Option, none, some, List, [],
  ◌∷◌, ◌++◌, leb, if◌then◌else◌,
}
use stock_statistic.Common.Text.{Text, codes, text_eq}
use stock_statistic.Common.Integer.{ℤ, pos, negsuc}
use stock_statistic.Common.Lists.{length}
use stock_statistic.Invocation.Scan.{
  has, is_letter, is_word, all_word, is_identifier, word_of, last_of, but_last, inner_of, between,
  is_open, is_close, deeper, shallower, is_nought, split_step, split_loop, partition, strip_left,
  strip_right, strip, split_end, split_args, Lexical, Splitting,
}

mutual
  -- A node, and the Python list that stands for a list of them.
  pub data Node : Type 0 where
    number_node : ℕ → Node
    string_node : Text → Node
    identifier_node : Text → Node
    call_node : (name : Text) → Nodes → Fields → Node
    list_node : Nodes → Node

  pub data Nodes : Type 0 where
    no_nodes : Nodes
    add_node : Node → Nodes → Nodes

  -- The keyword arguments.
  pub data Fields : Type 0 where
    no_fields : Fields
    add_field : Text → Node → Fields → Fields

-- `invalid` has the message of the ValueError; `exhausted` is an end of the fuel.
pub data Parsed {ℓ} (A : Type ℓ) : Type ℓ where
  parsed : A → Parsed A
  invalid : (message : Text) → Parsed A
  exhausted : Parsed A

abbrev pub and_then {ℓ κ} : {A : Type ℓ} {B : Type κ} → Parsed A → (A → Parsed B) → Parsed B
and_then (parsed x) f = f x
and_then (invalid message) f = invalid message
and_then exhausted f = exhausted

-- `nodes.append(node)`
abbrev pub append_node : Nodes → Node → Nodes
append_node no_nodes n = add_node n no_nodes
append_node (add_node m ms) n = add_node m (append_node ms n)

-- `fields[key] = node`
abbrev pub set_field : Text → Node → Fields → Fields
set_field key n no_fields = add_field key n no_fields
set_field key n (add_field k m fs) =
    let rest = set_field key n fs in if text_eq key k then add_field k n fs else add_field k m rest

module _ (l : Lexical) where
  -- The loop of `_parse_args` over the parts, where `value` is `_parse_value`.
  abbrev pub add_part :
      (value : Text → Parsed Node) → Text → Nodes × Fields → Parsed (Nodes × Fields)
  add_part value [] (args, kwargs) = parsed (args, kwargs)
  add_part value (c ∷ part) (args, kwargs) =
      if has 40 (c ∷ part) || (c == 91 || c == 123) || not (has 61 (c ∷ part))
      then and_then (value (c ∷ part)) (λ n. parsed (append_node args n, kwargs))
      else (let (key, rest) = partition 61 (c ∷ part) in
          and_then (value (strip l rest)) (λ n. parsed (args, set_field (strip l key) n kwargs)))

  abbrev pub add_parts :
      (value : Text → Parsed Node) → List Text → Nodes × Fields → Parsed (Nodes × Fields)
  add_parts value [] state = parsed state
  add_parts value (part ∷ parts) state =
      and_then (add_part value (strip l part) state) (add_parts value parts)

  unfoldable pub parse_args : (value : Text → Parsed Node) → Text → Parsed (Nodes × Fields)
  unfolding split_args
  parse_args value [] = parsed (no_nodes, no_fields)
  parse_args value (c ∷ t) = add_parts value (split_args l (c ∷ t)) (no_nodes, no_fields)

  -- The match of `name\s*\((.*)\)\s*$` in a text without spaces at its ends.
  abbrev pub after_name : Text → Text → Option (Text × Text)
  after_name name rest = elim (strip_left l rest) [
    | [] ↦ none
    | c ∷ t ↦ if between 40 41 (c ∷ t) then some (name, inner_of (c ∷ t)) else none
  ]

  unfoldable pub match_call : Text → Option (Text × Text)
  match_call [] = none
  match_call (c ∷ t) =
      let (name, rest) = word_of (c ∷ t) in if is_letter c then after_name name rest else none

  unfoldable pub call_of : (value : Text → Parsed Node) → Text → Option (Text × Text) → Parsed Node
  unfolding parse_args
  call_of value s none = invalid (codes "Invalid expression: " ++ s)
  call_of value s (some (name, args)) =
      and_then (parse_args value (strip l args))
        (λ (args, kwargs). parsed (call_node name args kwargs))

  unfoldable pub parse_call : (value : Text → Parsed Node) → Text → Parsed Node
  unfolding match_call call_of
  parse_call value s = call_of value (strip l s) (match_call (strip l s))

  abbrev pub add_items : (value : Text → Parsed Node) → List Text → Parsed Nodes
  add_items value [] = parsed no_nodes
  add_items value (part ∷ parts) =
      and_then (value (strip l part))
        (λ n. and_then (add_items value parts) (λ ns. parsed (add_node n ns)))

  -- The items of a list.
  unfoldable pub list_of : (value : Text → Parsed Node) → Text → Parsed Node
  unfolding split_args
  list_of value [] = parsed (list_node no_nodes)
  list_of value (c ∷ t) =
      and_then (add_items value (split_args l (c ∷ t))) (λ ns. parsed (list_node ns))

  -- The tests of `_parse_value` after that for a number.
  unfoldable pub other_value : (value : Text → Parsed Node) → Text → Parsed Node
  unfolding parse_call list_of
  other_value value s =
      if between 34 34 s || between 39 39 s
      then parsed (string_node (inner_of s))
      else if is_identifier s
      then parsed (identifier_node s)
      else if has 40 s
      then parse_call value s
      else if between 91 93 s
      then list_of value (strip l (inner_of s))
      else parsed (string_node s)

  unfoldable pub value_of : (value : Text → Parsed Node) → Text → Parsed Node
  unfolding other_value
  value_of value s = elim (l.float s) [
    | some x ↦ parsed (number_node x)
    | none ↦ other_value value s
  ]

  unfoldable pub parse_value : (fuel : ℕ) → Text → Parsed Node
  unfolding value_of
  parse_value zero s = exhausted
  parse_value (suc fuel) s = value_of (parse_value fuel) (strip l s)

  -- A value has fewer characters than the text it stands in.
  unfoldable pub parse : Text → Parsed Node
  unfolding parse_value parse_call
  parse expression = elim (strip l expression) [
    | [] ↦ invalid (codes "Empty expression")
    | c ∷ t ↦ parse_call (parse_value (length (c ∷ t))) (c ∷ t)
  ]
