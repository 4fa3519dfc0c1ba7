-- ===== src/Tests/Parsing.antt =====
-- Expressions of the strategy language.
use stock_statistic.Common.{
  ℕ, ◌≡◌, refl, true, none, some, [], ◌∷◌, ◌==◌, ◌-◌, ◌&&◌, Option, leb, if◌then◌else◌,
}
use stock_statistic.Common.Text.{Text, codes, text_eq}
use stock_statistic.Invocation.Scan.{Lexical}
use stock_statistic.Invocation.Dsl.{
  number_node, identifier_node, call_node, no_nodes, add_node, no_fields, add_field, parsed, parse,
}
use stock_statistic.Invocation.Dsl.Ends.{ends, ends-parse}
use stock_statistic.Protocol.Value.{null, object}
use stock_statistic.Invocation.Evaluator.{
  Client, value, fails, no_attribute, apply_call, eval_node, default_strategy, evaluate,
}

-- Spaces are white, and single digits are numbers.
abbrev digit_of : Text → Option ℕ
digit_of (c ∷ []) = if leb 48 c && leb c 57 then some (c - 48) else none
digit_of _ = none

abbrev plain : Lexical
plain = record { is_space = λ c. c == 32; float = digit_of }

ends-parse_example : ends (parse plain (codes "ma_cross(5, [1, 2], long=7)")) ≡ true
ends-parse_example = ends-parse plain (codes "ma_cross(5, [1, 2], long=7)")

parse_call_text :
    parse plain (codes " ma(5, f(x), long=7) ")
    ≡ parsed (
        call_node
          (codes "ma")
          (add_node (number_node 5) (
            add_node
              (call_node (codes "f") (add_node (identifier_node (codes "x")) no_nodes) no_fields)
              no_nodes))
          (add_field (codes "long") (number_node 7) no_fields))
unfolding parse text_eq
parse_call_text = refl

-- A client whose every method gives null.
abbrev idle_client : Client
idle_client = record {
  backtest = λ frame strategy kw. value null;
  dispatch_indicator = λ name frame kw. value null;
}

-- The strategy of a backtest is handed to the parser as a node, which has no `strip`.
no_backtest :
    evaluate plain idle_client (codes "backtest(ma_cross(5, 7), cash=9)") (object 3)
    ≡ fails (no_attribute (codes "strip"))
unfolding evaluate eval_node apply_call default_strategy parse text_eq
no_backtest = refl
