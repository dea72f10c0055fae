-- ===== src/Parser/Arguments.antt =====
-- compiler/parser.cpp, lines 1337-1440 and 2202-2500: patterns, formal arguments and bindings.
use ceramic.Prelude.{
  ℕ, zero, suc, Bool, true, false, Option, none, some, List, [], ◌∷◌, ◌++◌, codes, length,
  if◌then◌else◌,
}
use ceramic.Desugar.Build.{at, identifier_at, show}
use ceramic.Desugar.Exprs.{wrap_into_static}
use ceramic.Parser.Exprs.{
  Grammar, name_ref_expr, int_literal_expr, string_literal_expr, field_ref_suffix, apply_suffixes,
  bracketed,
}
use ceramic.Parser.Spans.{spanned, is_unpack}
use ceramic.Parser.State.{
  Parser, parsed, out_of_fuel, ◌>>=◌, ◌>>◌, ◌<|>◌, pure, fail, abort, bind, attempt, opt_symbol,
  at_location, many,
}
use ceramic.Parser.Terminals.{symbol, keyword, ellipsis, identifier, list_no_tail}
use ceramic.Syntax.Node.{
  Location, Place, PatternVar, ValueTempness, dont_care, lvalue, rvalue, forward_value,
}
use ceramic.Syntax.Tree.{
  Expr, OptExpr, no_expr, an_expr, indexing, FormalArg, FormalArgs, formal_arg, no_args, add_arg,
}

unfoldable pub dotted_name_ref : Parser Expr
dotted_name_ref = name_ref_expr >>= λ x. many field_ref_suffix >>= λ fs. pure (apply_suffixes x fs)

unfoldable pub atomic_pattern : Parser Expr
atomic_pattern = dotted_name_ref <|> int_literal_expr (codes "+")

unfoldable pub to_args : List FormalArg → FormalArgs
to_args [] = no_args
to_args (a ∷ as') = add_arg a (to_args as')

unfoldable pub var_arg_type_spec : Parser Expr
var_arg_type_spec =
    symbol (codes ":")
    >> (at_location λ start. name_ref_expr >>= λ x. at_location λ end. pure (spanned start end x))

unfoldable pub opt_var_arg_type_spec : Parser OptExpr
opt_var_arg_type_spec = (var_arg_type_spec >>= λ e. pure (an_expr e)) <|> pure no_expr

unfoldable pub opt_arg_tempness : Parser ValueTempness
opt_arg_tempness =
    (keyword (codes "rvalue") >> pure rvalue)
    <|> (keyword (codes "ref") >> pure lvalue)
    <|> (keyword (codes "forward") >> pure forward_value)
    <|> pure dont_care

-- `hasVarArg = true`, unless it is already.
unfoldable pub set_var_arg : Parser (Unit {0})
set_var_arg st = if st.has_var_arg then fail st else parsed tt (record st { has_var_arg = true })

unfoldable pub set_as_conversion : Parser (Unit {0})
set_as_conversion st = parsed tt (record st { has_as_conversion = true })

-- Whether dots are in front of a variadic argument, which is the only one.
unfoldable pub opt_dots : Parser Bool
opt_dots =
    attempt ellipsis >>= λ r. elim r [ none ↦ pure false | some t ↦ set_var_arg >> pure true ]

unfoldable pub make_static_formal_arg : ℕ → Expr → Location → Parser FormalArg
make_static_formal_arg index e l = at_location λ end.
    let place : Place = record { location = none; start_location = l; end_location = end } in
    pure (
      formal_arg l (identifier_at (codes "%arg" ++ show index) none)
        (an_expr (wrap_into_static place e)) dont_care no_expr false)

unfoldable pub string_formal_arg : ℕ → Parser FormalArg
string_formal_arg index =
    at_location λ l. string_literal_expr >>= λ e. make_static_formal_arg index e l

unfoldable pub pattern_var : Parser PatternVar
pattern_var = attempt ellipsis >>= λ r. identifier >>= λ x.
    pure (record { name = x; is_multi = elim r [ none ↦ false | some t ↦ true ] })

unfoldable pub opt_pattern_var_list : Parser (List PatternVar)
opt_pattern_var_list = list_no_tail pattern_var <|> pure []

-- The arguments after the first, whose index is that of the list.
unfoldable pub indexed_rounds : {A : Type 0} → ℕ → ℕ → (ℕ → Parser A) → Parser (List A)
indexed_rounds zero index m st = out_of_fuel
indexed_rounds (suc f) index m st =
    let more = indexed_rounds f (suc index) m in
    bind (attempt (symbol (codes ",") >> m index) st)
      λ r. elim r [ none ↦ pure [] | some a ↦ more >>= λ as'. pure (a ∷ as') ]

unfoldable pub more_args : {A : Type 0} → (ℕ → Parser A) → Parser (List A)
more_args m st = indexed_rounds (suc (length st.rest)) 1 m st

module _ (g : Grammar) where
  unfoldable pub pattern_suffix : Parser (Expr → Expr)
  pattern_suffix =
      at_location
        λ l. bracketed g (codes "[") (codes "]") >>= λ es. pure (λ base. indexing (at l) base es)

  unfoldable pub suffixed : Expr → Option (Expr → Expr) → Expr
  suffixed x none = x
  suffixed x (some f) = f x

  unfoldable pub pattern_expr : Parser Expr
  pattern_expr = at_location λ start. atomic_pattern >>= λ x.
      attempt pattern_suffix >>= λ f. at_location λ end. pure (spanned start end (suffixed x f))

  unfoldable pub type_spec : Parser Expr
  type_spec = opt_symbol (symbol (codes ":")) >> pattern_expr

  unfoldable pub opt_type_spec : Parser OptExpr
  opt_type_spec = (type_spec >>= λ e. pure (an_expr e)) <|> pure no_expr

  unfoldable pub opt_expr_type_spec : Parser OptExpr
  opt_expr_type_spec =
      (opt_symbol (symbol (codes ":")) >> g.expression >>= λ e. pure (an_expr e)) <|> pure no_expr

  -- The type of an argument, which for a variadic one is a name.
  unfoldable pub arg_type : Bool → Parser OptExpr
  arg_type true = opt_var_arg_type_spec
  arg_type false = opt_type_spec

  -- With `as` and a type to convert to, which a variadic argument cannot have.
  unfoldable pub as_type : Bool → Parser Expr
  as_type true = fail
  as_type false = pattern_expr >>= λ e. set_as_conversion >> pure e

  unfoldable pub value_formal_arg : Parser FormalArg
  value_formal_arg = at_location λ l. opt_arg_tempness >>= λ tempness. opt_dots >>= λ var_arg.
      identifier >>= λ x. arg_type var_arg >>= λ type. attempt (keyword (codes "as")) >>= λ r.
      elim r [
        | none ↦ pure (formal_arg l x type tempness no_expr var_arg)
        | some t ↦ as_type var_arg >>= λ w. pure (formal_arg l x type tempness (an_expr w) false)
      ]

  unfoldable pub static_formal_arg : ℕ → Parser FormalArg
  static_formal_arg index = at_location λ l. symbol (codes "#") >> g.expression >>= λ e.
      if is_unpack e then abort else make_static_formal_arg index e l

  unfoldable pub formal_arg_at : ℕ → Parser FormalArg
  formal_arg_at index = value_formal_arg <|> static_formal_arg index <|> string_formal_arg index

  unfoldable pub formal_args : Parser FormalArgs
  formal_args = formal_arg_at 0 >>= λ a. more_args formal_arg_at >>= λ as'. pure (to_args (a ∷ as'))

  unfoldable pub arguments_body : Parser FormalArgs
  arguments_body = formal_args <|> pure no_args

  unfoldable pub arguments : Parser FormalArgs
  arguments = symbol (codes "(") >> arguments_body >>= λ as'. symbol (codes ")") >> pure as'

  unfoldable pub binding_arg : Parser FormalArg
  binding_arg = at_location λ l. opt_dots >>= λ var_arg. identifier >>= λ x.
      arg_type var_arg >>= λ type. pure (formal_arg l x type dont_care no_expr var_arg)

  unfoldable pub bindings_body : Parser FormalArgs
  bindings_body = binding_arg >>= λ a.
      many (opt_symbol (symbol (codes ",") >> binding_arg)) >>= λ as'. pure (to_args (a ∷ as'))

  unfoldable pub opt_predicate : Parser OptExpr
  opt_predicate =
      (keyword (codes "when") >> g.expression >>= λ e. pure (an_expr e)) <|> pure no_expr

  unfoldable pub pattern_vars_with_cond : Parser (List PatternVar × OptExpr)
  pattern_vars_with_cond = symbol (codes "[") >> opt_pattern_var_list >>= λ vs.
      opt_predicate >>= λ e. symbol (codes "]") >> pure (vs, e)

  unfoldable pub opt_pattern_vars_with_cond : Parser (List PatternVar × OptExpr)
  opt_pattern_vars_with_cond = pattern_vars_with_cond <|> pure ([], no_expr)
