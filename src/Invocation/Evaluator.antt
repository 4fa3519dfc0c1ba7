-- ===== src/Invocation/Evaluator.antt =====
-- DslEngine (packages/invocation/stockstat/dsl/evaluator.py). What the client's methods return or
-- raise is a parameter; a tuple stands as a list.
use stock_statistic.Common.{ℕ, Option, none, some, List, [], ◌∷◌, if◌then◌else◌}
use stock_statistic.Common.Integer.{pos}
use stock_statistic.Common.Text.{Text, codes, text_eq}
use stock_statistic.Common.Dict.{Dict, get}
use stock_statistic.Protocol.Value.{Value, null, int, float, text, list, dict, of_items, of_fields}
use stock_statistic.Invocation.Scan.{Lexical, strip}
use stock_statistic.Invocation.Dsl.{
  Node, Nodes, Fields, number_node, string_node, identifier_node, call_node, list_node, no_nodes,
  add_node, no_fields, add_field, Parsed, parsed, invalid, exhausted, parse,
}

-- What an evaluation raises: the parser's ValueError, an AttributeError, or what the client raises.
pub data Failure : Type 0 where
  invalid_expression : (message : Text) → Failure
  no_attribute : (name : Text) → Failure
  client_raised : (message : Text) → Failure

-- `unfinished` is an end of the parser's fuel.
pub data Evaluated {ℓ} (A : Type ℓ) : Type ℓ where
  value : A → Evaluated A
  fails : Failure → Evaluated A
  unfinished : Evaluated A

infixl 5 ◌>>=◌
abbrev pub ◌>>=◌ {ℓ κ} : {A : Type ℓ} {B : Type κ} → Evaluated A → (A → Evaluated B) → Evaluated B
value x >>= f = f x
fails e >>= f = fails e
unfinished >>= f = unfinished

-- A compiled strategy: the one that does nothing, and the two that the engine knows.
pub data Compiled : Type 0 where
  idle : Compiled
  buy_and_hold : Compiled
  ma_cross : (short long : Value) → Compiled

pub record Client : Type 0 where
  pub backtest : (frame : Value) → Compiled → Dict Value → Evaluated Value
  pub dispatch_indicator : (name frame : Value) → Dict Value → Evaluated Value

-- `xs[0] if xs else kw.get("name", "ma")`
abbrev pub indicator_of : List Value → Dict Value → Value
indicator_of (v ∷ vs) kw = v
indicator_of [] kw = elim (get (codes "name") kw) [ none ↦ text (codes "ma") | some v ↦ v ]

-- What `compile_strategy` is called with.
pub data Expression : Type 0 where
  expression_text : Text → Expression
  expression_node : Node → Expression

-- `node.args[0] if node.args else "buy_and_hold()"`
abbrev pub strategy_argument : Nodes → Expression
strategy_argument no_nodes = expression_text (codes "buy_and_hold()")
strategy_argument (add_node n ns) = expression_node n

-- `ast.kwargs.get(key)`
abbrev pub find_field : Text → Fields → Option Node
find_field key no_fields = none
find_field key (add_field k n fs) = if text_eq k key then some n else find_field key fs

module _ (l : Lexical) (client : Client) where
  -- The branches of `_eval_call`, after its arguments; `compiled` is the strategy of a backtest.
  unfoldable pub apply_call :
      (name : Text) (compiled : Evaluated Compiled) (args : List Value) (kw : Dict Value)
      (frame : Value)
      → Evaluated Value
  apply_call name compiled args kw frame =
      if text_eq name (codes "backtest")
      then compiled >>= (λ strategy. client.backtest frame strategy kw)
      else if text_eq name (codes "indicator")
      then client.dispatch_indicator (indicator_of args kw) frame kw
      else if text_eq name (codes "buy_and_hold")
      then value (text (codes "buy_and_hold"))
      else if text_eq name (codes "ma_cross")
      then value (
          list
            (of_items (text (codes "ma_cross") ∷ list (of_items args) ∷ dict (of_fields kw) ∷ [])))
      else client.dispatch_indicator (text name) frame kw

  -- `expression.strip()`, with which `parse` begins: a method that texts have and nodes have not.
  abbrev pub stripped : Expression → Evaluated Text
  stripped (expression_text t) = value (strip l t)
  stripped (expression_node n) = fails (no_attribute (codes "strip"))

  -- `compile_strategy` of what a backtest is given; its only text is `buy_and_hold()`.
  abbrev pub strategy_of : (default : Evaluated Compiled) → Nodes → Evaluated Compiled
  strategy_of default ns = stripped (strategy_argument ns) >>= λ t. default

  -- `_eval`; `default` is `compile_strategy("buy_and_hold()")`.
  unfoldable mutual
    unfolding apply_call

    pub eval_node : (default : Evaluated Compiled) → Node → (frame : Value) → Evaluated Value
    eval_node default (number_node x) frame = value (float (record { bits = x }))
    eval_node default (string_node t) frame = value (text t)
    eval_node default (identifier_node t) frame =
        value (if text_eq t (codes "data") then frame else text t)
    eval_node default (call_node name ns fs) frame =
        let compiled = strategy_of default ns in
        eval_nodes default ns >>= λ args.
        eval_fields default fs >>= λ kw. apply_call name compiled args kw frame
    eval_node default (list_node ns) frame =
        eval_nodes default ns >>= λ vs. value (list (of_items vs))

    -- The arguments are evaluated without the data.
    pub eval_nodes : (default : Evaluated Compiled) → Nodes → Evaluated (List Value)
    eval_nodes default no_nodes = value []
    eval_nodes default (add_node n ns) =
        eval_node default n null >>= λ v. eval_nodes default ns >>= λ vs. value (v ∷ vs)

    pub eval_fields : (default : Evaluated Compiled) → Fields → Evaluated (Dict Value)
    eval_fields default no_fields = value []
    eval_fields default (add_field k n fs) =
        eval_node default n null >>= λ v. eval_fields default fs >>= λ kw. value ((k, v) ∷ kw)

  -- `self._eval(ast.kwargs.get(key, NumberNode(n)))`
  abbrev pub window_of : (default : Evaluated Compiled) → Text → ℕ → Fields → Evaluated Value
  window_of default key n fs = elim (find_field key fs) [
    | none ↦ value (int (pos n))
    | some node ↦ eval_node default node null
  ]

  abbrev pub compile_call : (default : Evaluated Compiled) → Node → Evaluated Compiled
  compile_call default (call_node name ns fs) =
      if text_eq name (codes "buy_and_hold")
      then value buy_and_hold
      else if text_eq name (codes "ma_cross")
      then (window_of default (codes "short") 5 fs >>= λ short.
          window_of default (codes "long") 20 fs >>= λ long. value (ma_cross short long))
      else value idle
  compile_call default (identifier_node name) =
      if text_eq name (codes "buy_and_hold")
      then value buy_and_hold
      else if text_eq name (codes "ma_cross")
      then fails (no_attribute (codes "kwargs"))
      else value idle
  compile_call default _ = fails (no_attribute (codes "name"))

  abbrev pub of_parsed {ℓ} : {A : Type ℓ} → Parsed Node → (Node → Evaluated A) → Evaluated A
  of_parsed (parsed node) f = f node
  of_parsed (invalid message) f = fails (invalid_expression message)
  of_parsed exhausted f = unfinished

  -- What `compile_strategy("buy_and_hold()")` gives; no window of it is evaluated.
  unfoldable pub default_strategy : Evaluated Compiled
  unfolding parse
  default_strategy = of_parsed (parse l (codes "buy_and_hold()")) (compile_call unfinished)

  unfoldable pub compile_strategy : (expression : Text) → Evaluated Compiled
  unfolding eval_node parse default_strategy
  compile_strategy expression = of_parsed (parse l expression) (compile_call default_strategy)

  unfoldable pub evaluate : (expression : Text) (frame : Value) → Evaluated Value
  unfolding eval_node parse default_strategy
  evaluate expression frame =
      of_parsed (parse l expression) (λ node. eval_node default_strategy node frame)
