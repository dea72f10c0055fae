-- ===== src/Parser/Tests.antt =====
-- The parser on concrete tokens, and its theorems at concrete inputs.
use ceramic.Prelude.{
  Bool, true, false, ℕ, ◌≡◌, ◌<◌, refl, true, false, some, List, [], ◌∷◌, ◌++◌, Bytes, codes,
  length, drop,
}
use ceramic.Desugar
use ceramic.Parser
use ceramic.Lexer.Tests.{lexer}
use ceramic.Lexer.Token.{Token, TokenKind, t_symbol, t_identifier, t_int_literal, t_opstring}
use ceramic.Parser.Apply.{
  Applied, node, rejected, lexical_error, error_raised, no_node, endless, Source, start_of,
  parse_expr, parse_statements, statements,
}
use ceramic.Parser.Apply.Answers.{parse-Answers, Answers}
use ceramic.Parser.Brackets.{skip_opt_pattern_var}
use ceramic.Parser.Brackets.Ends.{Scanned, skip_opt_pattern_var-Scanned}
use ceramic.Parser.Errors.{synchronize_block}
use ceramic.Parser.Errors.Boundary.{Skipped, synchronize_block-Skipped}
use ceramic.Parser.Grammar.{expression, statement, grammar, enough}
use ceramic.Parser.Recovers.{block_statement-Recovers, ReadBlock}
use ceramic.Parser.State.{State, Result, Diagnostic, parsed, failed}
use ceramic.Parser.Statements.{block_statement}
use ceramic.Parser.Outcome.{After, Always}
use ceramic.Parser.Total.{left}
use ceramic.Parser.Total.Grammar.{expression-statement_After}
use ceramic.Syntax.Tree.{Statement}

-- `strtoul` where no text is a number.
abbrev no_number : Bytes → ℕ × Bytes
no_number s = (0, s)

abbrev text : Source
text = record { address = 1; data_bytes = codes "{x=;y=1;}"; full_errors = false }

abbrev tok : TokenKind → ℕ → Bytes → Token
tok k l s = record { location = some l; str = s; token_kind = k }

abbrev block_tokens : List Token
block_tokens =
    tok t_symbol 0 (codes "{")
    ∷ tok t_identifier 1 (codes "x")
    ∷ tok t_opstring 2 (codes "=")
    ∷ tok t_symbol 3 (codes ";")
    ∷ tok t_identifier 4 (codes "y")
    ∷ tok t_opstring 5 (codes "=")
    ∷ tok t_int_literal 6 (codes "1")
    ∷ tok t_symbol 7 (codes ";")
    ∷ tok t_symbol 8 (codes "}")
    ∷ []

abbrev block_state : State
block_state = record (start_of text block_tokens true) { position = 0 }

expression-statement_After_example :
    After (λ _ t. left t < 9) (expression no_number block_state)
    × After (λ _ t. left t < 9) (statement no_number block_state)
unfolding start_of
expression-statement_After_example = expression-statement_After no_number block_state

block_statement-Recovers_example :
    Always
      (ReadBlock block_state)
      (block_statement (grammar no_number (enough block_state)) block_state)
unfolding start_of
block_statement-Recovers_example = block_statement-Recovers no_number block_state _ _ refl refl

parse-Answers_example :
    Answers (expression no_number) text 1 8 false (parse_expr no_number false text 1 8)
    × Answers (statements no_number) text 1 8 false (parse_statements no_number false text 1 8)
parse-Answers_example = parse-Answers no_number false text 1 8

-- In front of the `=` that ends no statement.
abbrev wrong_state : State
wrong_state = record (start_of text (drop 2 block_tokens) true) { position = 2 }

synchronize_block-Skipped_example :
    Skipped 0 2
      (drop 2 block_tokens)
      (synchronize_block wrong_state).rest
      (synchronize_block wrong_state).position
unfolding start_of
synchronize_block-Skipped_example = synchronize_block-Skipped wrong_state

-- An open bracket and a name: the end is not reached, whatever the fuel is.
abbrev open_tokens : List Token
open_tokens = tok t_symbol 0 (codes "[") ∷ tok t_identifier 1 (codes "T") ∷ []

skip_opt_pattern_var-Scanned_example :
    Scanned 7 2 false (skip_opt_pattern_var 7 (start_of text open_tokens true))
unfolding start_of
skip_opt_pattern_var-Scanned_example =
    skip_opt_pattern_var-Scanned 7 (start_of text open_tokens true)

-- Named on an `unfolding` line, it opens the whole parser.
parser : Unit {0}
unfolding Parser.State.restore Parser.State.bind Parser.State.◌>>=◌ Parser.State.◌>>◌
    Parser.State.pure Parser.State.fail Parser.State.abort Parser.State.or_else Parser.State.◌<|>◌
    Parser.State.attempt Parser.State.rounds Parser.State.many Parser.State.current_location
    Parser.State.at_location Parser.State.later Parser.State.advance Parser.State.add_expected
    Parser.State.record_expected Parser.State.with_suppressed Parser.State.end_probe
    Parser.State.opt_symbol Parser.State.with_flags Parser.State.end_flags Parser.State.local_flags
    Parser.State.peek_end Parser.State.peek Parser.State.committed_rounds
    Parser.State.many_committed Parser.Errors.those_in Parser.Errors.add_unseen Parser.Errors.ranked
    Parser.Errors.token_at Parser.Errors.first_text Parser.Errors.lead_of Parser.Errors.offset_of
    Parser.Errors.end_of_token Parser.Errors.quoted Parser.Errors.suggestion_for
    Parser.Errors.found_at Parser.Errors.expected_text Parser.Errors.general_error
    Parser.Errors.error_at Parser.Errors.error_position Parser.Errors.build_parse_error
    Parser.Errors.too_many Parser.Errors.report_error Parser.Errors.record_parse_error
    Parser.Errors.begin_item Parser.Errors.is_stmt_start_kw Parser.Errors.skip_step
    Parser.Errors.skip_statement Parser.Errors.moved_to Parser.Errors.synchronize_block
    Parser.Terminals.terminal Parser.Terminals.token_of Parser.Terminals.opstring
    Parser.Terminals.uopstring Parser.Terminals.opsymbol Parser.Terminals.symbol
    Parser.Terminals.keyword Parser.Terminals.ellipsis Parser.Terminals.identifier
    Parser.Terminals.comma_rounds Parser.Terminals.after_commas Parser.Terminals.comma_list
    Parser.Terminals.list_no_tail Parser.Terminals.identifier_list
    Parser.Terminals.identifier_list_no_tail Parser.Terminals.dotted_name Parser.Exprs.to_exprs
    Parser.Exprs.bool_literal_expr Parser.Exprs.without_separators
    Parser.Exprs.clean_numeric_separator Parser.Exprs.suffix_text Parser.Exprs.int_literal_expr
    Parser.Exprs.float_literal_expr Parser.Exprs.first_byte Parser.Exprs.char_literal_expr
    Parser.Exprs.string_literal_expr Parser.Exprs.literal Parser.Exprs.name_ref_expr
    Parser.Exprs.keyword_expr Parser.Exprs.arg_name_expr Parser.Exprs.or_expected
    Parser.Exprs.expected Parser.Exprs.string_literal_suffix Parser.Exprs.field_ref_suffix
    Parser.Exprs.dereference_suffix Parser.Exprs.apply_suffixes Parser.Exprs.opt_expression
    Parser.Exprs.expression_list Parser.Exprs.opt_expression_list Parser.Exprs.bracketed
    Parser.Exprs.tuple_expr Parser.Exprs.paren_expr Parser.Exprs.eval_expr_expr
    Parser.Exprs.atomic_expr Parser.Exprs.indexing_suffix Parser.Exprs.call_suffix
    Parser.Exprs.static_index_of Parser.Exprs.static_indexing_suffix Parser.Exprs.suffix
    Parser.Exprs.suffix_expr Parser.Spans.between Parser.Spans.spanned
    Parser.Operators.plus_or_minus Parser.Operators.signed_literal Parser.Operators.none_next
    Parser.Operators.operator_op Parser.Operators.operator_ref Parser.Operators.operands
    Parser.Operators.address_of_expr Parser.Operators.dispatch_of_expr
    Parser.Operators.static_of_expr Parser.Operators.preop_expr Parser.Operators.prefix_expr_body
    Parser.Operators.operand Parser.Operators.operator_tail Parser.Operators.operator_expr
    Parser.Operators.not_expr Parser.Operators.and_expr_tail Parser.Operators.and_exprs
    Parser.Operators.or_expr_tail Parser.Operators.or_exprs Parser.Operators.if_expr
    Parser.Arguments.dotted_name_ref Parser.Arguments.atomic_pattern Parser.Arguments.to_args
    Parser.Arguments.var_arg_type_spec Parser.Arguments.opt_var_arg_type_spec
    Parser.Arguments.opt_arg_tempness Parser.Arguments.set_var_arg
    Parser.Arguments.set_as_conversion Parser.Arguments.opt_dots
    Parser.Arguments.make_static_formal_arg Parser.Arguments.string_formal_arg
    Parser.Arguments.pattern_var Parser.Arguments.opt_pattern_var_list
    Parser.Arguments.indexed_rounds Parser.Arguments.more_args Parser.Arguments.pattern_suffix
    Parser.Arguments.suffixed Parser.Arguments.pattern_expr Parser.Arguments.type_spec
    Parser.Arguments.opt_type_spec Parser.Arguments.opt_expr_type_spec Parser.Arguments.arg_type
    Parser.Arguments.as_type Parser.Arguments.value_formal_arg Parser.Arguments.static_formal_arg
    Parser.Arguments.formal_arg_at Parser.Arguments.formal_args Parser.Arguments.arguments_body
    Parser.Arguments.arguments Parser.Arguments.binding_arg Parser.Arguments.bindings_body
    Parser.Arguments.opt_predicate Parser.Arguments.pattern_vars_with_cond
    Parser.Arguments.opt_pattern_vars_with_cond Parser.Statements.to_statements
    Parser.Statements.to_cases Parser.Statements.to_catches Parser.Statements.return_kind
    Parser.Statements.label_def Parser.Statements.binding_kind Parser.Statements.goto_stmt
    Parser.Statements.keyword_statement Parser.Statements.recorded Parser.Statements.close_block
    Parser.Statements.recover Parser.Statements.item_rounds Parser.Statements.throw_of
    Parser.Statements.local_binding Parser.Statements.block_item Parser.Statements.block_items
    Parser.Statements.block_statement Parser.Statements.Forms.assigned
    Parser.Statements.Forms.prefix_update Parser.Statements.Forms.update_assignment
    Parser.Statements.Forms.return_stmt Parser.Statements.Forms.statement_expr_statement
    Parser.Statements.Forms.condition_rounds Parser.Statements.Forms.statement_expression
    Parser.Statements.Forms.condition Parser.Statements.Forms.opt_else
    Parser.Statements.Forms.if_stmt Parser.Statements.Forms.case_list
    Parser.Statements.Forms.case_block_item Parser.Statements.Forms.case_block_list
    Parser.Statements.Forms.switch_stmt Parser.Statements.Forms.expr_stmt
    Parser.Statements.Forms.while_stmt Parser.Statements.Forms.for_stmt
    Parser.Statements.Forms.opt_context Parser.Statements.Forms.catch_item
    Parser.Statements.Forms.try_stmt Parser.Statements.Forms.thrown
    Parser.Statements.Forms.throw_stmt Parser.Statements.Forms.static_for_stmt
    Parser.Statements.Forms.guarded Parser.Statements.Forms.eval_stmt
    Parser.Statements.Forms.static_assert Parser.Statements.Forms.statement_body
    Parser.Grammar.lambda_name Parser.Grammar.lambda_arrow Parser.Grammar.lambda_args
    Parser.Grammar.lambda_expr_body Parser.Grammar.lambda_body Parser.Grammar.lambda_expr
    Parser.Grammar.unpack_expr Parser.Grammar.pair_expr Parser.Grammar.expression_body
    Parser.Grammar.grammar Parser.Grammar.enough Parser.Grammar.expression Parser.Grammar.statement
    Parser.Apply.start_of Parser.Apply.errors_of Parser.Apply.run_of Parser.Apply.run
    Parser.Apply.same Parser.Apply.is_dup Parser.Apply.add_unique Parser.Apply.conclude
    Parser.Apply.replay Parser.Apply.apply_tokens Parser.Apply.apply_parser Parser.Apply.parse_expr
    Parser.Apply.statements Parser.Apply.parse_statements Desugar.Build.ident_v
    Desugar.Build.ident_v_to_formal_v Desugar.Build.show
parser = tt

abbrev headlines : List Diagnostic → List Bytes
headlines [] = []
headlines (d ∷ ds) = d.headline ∷ headlines ds

-- How many statements are read, how many tokens are left, and the headlines of the errors.
abbrev summary : Result (List Statement) → ℕ × ℕ × List Bytes
summary (parsed ss st) = (length ss, length st.rest, headlines st.report.parse_errors)
summary r = (0, 0, [])

-- The first statement has no right side; the second one is read.
recovery :
    summary (statements no_number (start_of text (drop 1 block_tokens) true))
    ≡ (1, 1, codes "expected expression, found `;`" ∷ [])
unfolding parser
recovery = refl

-- `a->` and a block of one item.
abbrev lambda_of : List Token → List Token
lambda_of body =
    tok t_identifier 0 (codes "a")
    ∷ tok t_opstring 1 (codes "->")
    ∷ tok t_symbol 3 (codes "{")
    ∷ (body ++ (tok t_symbol 5 (codes "}") ∷ tok t_symbol 6 (codes ";") ∷ []))

abbrev wrong : List Token
wrong = tok t_symbol 4 (codes ";") ∷ []

-- The diagnostics of a run, and whether there were too many.
abbrev diagnosed : Result (List Statement) → ℕ × Bool
diagnosed (parsed ss st) = (length st.report.parse_errors, st.report.parse_error_overflow)
diagnosed r = (0, false)

-- One wrong item is recorded four times, as each kind of statement that begins with an expression reads it again;
-- in three lambdas it makes too many errors of one place.
one_error : diagnosed (statements no_number (start_of text (lambda_of wrong) true)) ≡ (4, false)
unfolding parser
one_error = refl

three_lambdas :
    diagnosed (statements no_number (start_of text (lambda_of (lambda_of (lambda_of wrong))) true))
    ≡ (20, true)
unfolding parser
three_lambdas = refl

-- The number of nodes, or the headlines that are displayed.
abbrev answer : Applied (List Statement) → ℕ × List Bytes
answer (node ss) = (length ss, [])
answer (rejected ds overflow) = (0, headlines ds)
answer r = (0, [])

-- From the bytes: both statements of the block's source, and the second one alone.
both_statements :
    answer (parse_statements no_number false text 1 7)
    ≡ (0, codes "expected expression, found `;`" ∷ [])
unfolding parser lexer
both_statements = refl

second_statement : answer (parse_statements no_number false text 4 4) ≡ (1, [])
unfolding parser lexer
second_statement = refl
