-- ===== src/Desugar/Branches.antt =====
-- compiler/desugar.cpp, lines 197-381: which branch is run of a desugared switch and of desugared handlers.
use ceramic.Prelude.{◌≡◌, refl, Bool, true, Option, none, some, codes, if◌then◌else◌, arith}
use ceramic.Desugar.Build.{identifier_at, at, append_statements, ident_v}
use ceramic.Desugar.Statements.{
  bind, handler, exception_is, continue_exception, catch_chain, case_condition, case_chain,
  desugar_switch_statement, exception_getter,
}
use ceramic.Syntax.Node.{Location, Identifier, forward_binding}
use ceramic.Syntax.Places.{expr_location}
use ceramic.Syntax.Tree.{
  Expr, no_expr, an_expr, name_ref, Statement, OptStatement, Statements, CaseBlocks, Catch, Catches,
  block, if_statement, no_statement, a_statement, no_statements, add_statement, case_block,
  no_cases, add_case, catch_block, no_catches, add_catch,
}

-- The statement that an `if` comes down to, where `holds` gives the values of the conditions.
abbrev mutual
  pub taken : (Expr → Bool) → Statement → Option Statement
  taken holds (if_statement l ss e s t) = if holds e then some s else taken_else holds t
  taken holds (block l ss) = some (block l ss)
  taken holds s = some s

  pub taken_else : (Expr → Bool) → OptStatement → Option Statement
  taken_else holds no_statement = none
  taken_else holds (a_statement s) = taken holds s

-- The first case whose test holds of the value that is switched on.
abbrev pub first_case : (Expr → Bool) → Expr → CaseBlocks → Option Statement
first_case holds thing no_cases = none
first_case holds thing (add_case (case_block l labels body) cs) =
    if holds (case_condition thing l labels) then some body else first_case holds thing cs

abbrev pub or_taken : Option Statement → (Expr → Bool) → OptStatement → Option Statement
or_taken none holds default = taken_else holds default
or_taken (some s) holds default = some s

case_chain-first_case :
    (holds : Expr → Bool) (thing : Expr) (cs : CaseBlocks) (default : OptStatement)
    → taken_else holds (case_chain thing cs default)
      ≡ or_taken (first_case holds thing cs) holds default
unfolding case_chain
case_chain-first_case holds thing no_cases default = refl
case_chain-first_case holds thing (add_case (case_block l labels body) cs) default =
    ground (arith, case_chain-first_case holds thing cs default)

abbrev pub case_thing : Expr → Expr
case_thing e = name_ref (at (expr_location e)) (identifier_at (codes "%case") (expr_location e))

-- The statements of the switch, the binding of its value, and a last statement.
abbrev pub switch_block : Location → Statements → Expr → Statement → Statement
switch_block l ss e root =
    let bound =
      bind (expr_location e) forward_binding
        (ident_v (identifier_at (codes "%case") (expr_location e))) e in
    block l (append_statements ss (add_statement bound (add_statement root no_statements)))

abbrev pub ComesDownTo : OptStatement → ((Expr → Bool) → Option Statement) → Type 0
ComesDownTo r spec = (holds : Expr → Bool) → taken_else holds r ≡ spec holds

-- A `switch` becomes a block of its own statements, the binding of the value, and a last statement that
-- comes down to the body of the first case whose test holds, or to the default case if none does.
pub desugar_switch_statement-first_case :
    (l : Location) (ss : Statements) (e : Expr) (cs : CaseBlocks) (default : OptStatement)
    (s : Statement)
    → desugar_switch_statement l ss e cs default ≡ some s
    → (root : Statement) × (s ≡ switch_block l ss e root)
      × ((holds : Expr → Bool)
          → taken holds root ≡ or_taken (first_case holds (case_thing e) cs) holds default)
unfolding desugar_switch_statement
desugar_switch_statement-first_case l ss e cs default s h =
    go (case_chain (case_thing e) cs default)
      (λ holds. case_chain-first_case holds (case_thing e) cs default) h
  where
    spec : (Expr → Bool) → Option Statement
    spec holds = or_taken (first_case holds (case_thing e) cs) holds default

    go :
        (r : OptStatement)
        → ComesDownTo r spec
        → (elim r [ no_statement ↦ none | a_statement root ↦ some (switch_block l ss e root) ])
          ≡ some s
        → (root : Statement) × (s ≡ switch_block l ss e root)
          × ((holds : Expr → Bool) → taken holds root ≡ spec holds)
    go no_statement g h = absurd (cc h)
    go (a_statement root) g h = (root, ground (arith, h), g)

-- Whether a handler takes the exception: by its type's test, or as one of every exception.
abbrev pub takes : (Expr → Bool) → Identifier → Catch → Bool
takes holds exp_var (catch_block l x no_expr context body) = true
takes holds exp_var (catch_block l x (an_expr type) context body) =
    holds (exception_is exp_var x type)

abbrev pub first_taker : (Expr → Bool) → Identifier → Catches → Option Catch
first_taker holds exp_var no_catches = none
first_taker holds exp_var (add_catch c cs) =
    if takes holds exp_var c then some c else first_taker holds exp_var cs

-- What is run of a handler, or of none.
abbrev pub handled : Location → Identifier → Option Catch → Statement
handled first exp_var none = continue_exception first exp_var
handled first exp_var (some (catch_block l x type context body)) =
    handler l x context (exception_getter exp_var x type) body

-- The handlers of a `try` come down to the first one that takes the exception; where none does, the exception
-- is continued.
pub catch_chain-first_taker :
    (holds : Expr → Bool) (first : Location) (exp_var : Identifier) (cs : Catches)
    → taken holds (catch_chain first exp_var cs)
      ≡ some (handled first exp_var (first_taker holds exp_var cs))
unfolding catch_chain handler continue_exception exception_getter
catch_chain-first_taker holds first exp_var no_catches = refl
catch_chain-first_taker holds first exp_var
      (add_catch (catch_block l x (an_expr type) context body) cs) =
    ground (arith, catch_chain-first_taker holds first exp_var cs)
catch_chain-first_taker holds first exp_var (add_catch (catch_block l x no_expr context body) cs) =
    refl
