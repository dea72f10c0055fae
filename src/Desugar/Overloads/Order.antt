-- ===== src/Desugar/Overloads/Order.antt =====
-- compiler/desugar.cpp, lines 452-516: the pattern variables that a converting overload passes on.
use ceramic.Prelude.{
  ℕ, zero, suc, ◌+◌, ◌≡◌, refl, ap, ◌∙◌, some, List, [], ◌∷◌, ◌++◌, append-nil, append_assoc,
  length, arith,
}
use ceramic.Desugar.Build.{append_exprs, append_args}
use ceramic.Desugar.Exprs.{wrap_into_static}
use ceramic.Desugar.Overloads.{
  Overload, static_arg, static_args, static_call_args, converted_args, passed_args, as_specialised,
  as_stub, as_overloads, desugar_as_overload,
}
use ceramic.Syntax.Node.{Identifier, PatternVar}
use ceramic.Syntax.Tree.{
  OptExpr, ExprList, an_expr, no_exprs, add_expr, name_ref, indexing, call, unpack, FormalArgs,
  formal_arg, no_args, add_arg, Statement, OptStatement, return_statement, a_statement,
  no_statement, foreign_expr,
}

abbrev pub variables : List PatternVar → List Identifier
variables [] = []
variables (v ∷ vs) = v.name ∷ variables vs

-- From the last to the first.
abbrev pub backwards : List Identifier → List Identifier
backwards [] = []
backwards (x ∷ xs) = backwards xs ++ x ∷ []

-- The pattern variables in the types `Static[V]` of the first `n` formal arguments, in their order.
abbrev pub static_variable : OptExpr → List Identifier
static_variable (an_expr (indexing _ (foreign_expr _ _ _) (add_expr (name_ref _ x) no_exprs))) =
    x ∷ []
static_variable _ = []

abbrev pub leading_variables : ℕ → FormalArgs → List Identifier
leading_variables zero args = []
leading_variables (suc n) no_args = []
leading_variables (suc n) (add_arg (formal_arg _ _ type _ _ _) args) =
    static_variable type ++ leading_variables n args

-- The names among the first `n` arguments of a call.
abbrev pub leading_names : ℕ → ExprList → List Identifier
leading_names zero es = []
leading_names (suc n) no_exprs = []
leading_names (suc n) (add_expr (name_ref _ x) es) = x ∷ leading_names n es
leading_names (suc n) (add_expr _ es) = leading_names n es

abbrev pub length_args : FormalArgs → ℕ
length_args no_args = 0
length_args (add_arg a args) = suc (length_args args)

abbrev pub length_exprs : ExprList → ℕ
length_exprs no_exprs = 0
length_exprs (add_expr e es) = suc (length_exprs es)

-- The arguments of the call in the body that is left.
abbrev pub stub_args : OptStatement → ExprList
stub_args (a_statement (return_statement _ _ (add_expr (unpack _ (call _ _ es)) no_exprs) _ _)) = es
stub_args _ = no_exprs

leading_names-append :
    (vs : List PatternVar) (es : ExprList)
    → leading_names (length vs) (append_exprs (static_call_args vs) es) ≡ variables vs
unfolding static_call_args
leading_names-append [] es = refl
leading_names-append (v ∷ vs) es = cc (leading_names-append vs es)

-- The arguments that are inserted stand in front, the last one first.
static_args_split :
    (i : ℕ) (vs : List PatternVar) (args rest : FormalArgs)
    → append_args (static_args i vs args) rest ≡ static_args i vs (append_args args rest)
unfolding static_args
static_args_split i [] args rest = refl
static_args_split i (v ∷ vs) args rest =
    static_args_split (suc i) vs (add_arg (static_arg i v) args) rest

leading_variables-static_args :
    (i k : ℕ) (vs : List PatternVar) (args : FormalArgs)
    → leading_variables (length vs + k) (static_args i vs args)
      ≡ backwards (variables vs) ++ leading_variables k args
unfolding static_args static_arg wrap_into_static
leading_variables-static_args i k [] args = let same : 0 + k ≡ k = omega arith in rw same
leading_variables-static_args i k (v ∷ vs) args =
    let later : suc (length vs) + k ≡ length vs + suc k = omega arith in
    rw (later, append_assoc (backwards (variables vs)) (v.name ∷ []) (leading_variables k args))
      (leading_variables-static_args (suc i) (suc k) vs (add_arg (static_arg i v) args))

length-append_exprs :
    (vs : List PatternVar) (es : ExprList)
    → length_exprs (append_exprs (static_call_args vs) es) ≡ length vs + length_exprs es
unfolding static_call_args
length-append_exprs [] es = omega arith
length-append_exprs (v ∷ vs) es = omega (arith, length-append_exprs vs es)

length-static_args :
    (i : ℕ) (vs : List PatternVar) (args : FormalArgs)
    → length_args (static_args i vs args) ≡ length vs + length_args args
unfolding static_args
length-static_args i [] args = omega arith
length-static_args i (v ∷ vs) args =
    omega (arith, length-static_args (suc i) vs (add_arg (static_arg i v) args))

length-passed_args :
    (args : FormalArgs) → length_exprs (passed_args args) ≡ length_args (converted_args args)
unfolding passed_args converted_args
length-passed_args no_args = refl
length-passed_args (add_arg a args) = omega (arith, length-passed_args args)

abbrev pub Statics : Overload → Overload → Overload → Type 0
Statics x spec stub =
    (length_exprs (stub_args stub.code.body) ≡ length_args spec.code.formal_args)
    × (leading_names (length x.code.pattern_vars) (stub_args stub.code.body)
        ≡ variables x.code.pattern_vars)
    × (leading_variables (length x.code.pattern_vars) spec.code.formal_args
        ≡ backwards (variables x.code.pattern_vars))

as_stub-Statics : (x : Overload) (body : Statement) → Statics x (as_specialised x) (as_stub x body)
unfolding as_specialised as_stub
as_stub-Statics x body =
    let vs = x.code.pattern_vars in
    let args = x.code.formal_args in
    let plus_zero : length vs ≡ length vs + 0 = omega arith in
    (
      omega (
        arith,
        length-append_exprs vs (passed_args args),
        length-passed_args args,
        length-static_args 0 vs (converted_args args),
        ap length_args (static_args_split 0 vs no_args (converted_args args)),
      ),
      leading_names-append vs (passed_args args),
      rw (static_args_split 0 vs no_args (converted_args args), plus_zero)
          (leading_variables-static_args 0 0 vs (converted_args args)
            ∙ append-nil (backwards (variables vs))),
    )

-- The overload that is left calls the specialised one with as many arguments as that one has. The static ones
-- in front are for the pattern variables in the order of their declaration in the call, and in the
-- opposite order in the specialised overload.
pub desugar_as_overload-Statics :
    (x spec stub : Overload) → desugar_as_overload x ≡ some (spec, stub) → Statics x spec stub
unfolding desugar_as_overload as_overloads
desugar_as_overload-Statics x spec stub h = go x.code.body h
  where
    go : (r : OptStatement) → as_overloads x r ≡ some (spec, stub) → Statics x spec stub
    go no_statement h = absurd (cc h)
    go (a_statement body) h =
        let first : spec ≡ as_specialised x = cc h in
        let second : stub ≡ as_stub x body = cc h in rw (first, second) (as_stub-Statics x body)
