-- ===== src/Lib.antt =====
-- Verification of the Ceramic compiler (compiler/).
--
-- The compiler reads modules, scans and parses them, resolves names across imports, analyses and
-- evaluates the code and generates LLVM code. The development models the parts that the others stand
-- on: the lexer, the parser of expressions and statements, the loader's order of initialisation, the
-- tables of names with their imports, the values of number literals, the syntax trees with their copies, the syntax that stands for other
-- syntax, and the patterns that choose between overloads.
--
-- Lexer (compiler/lexer.cpp, compiler/lexer.hpp). A scanner is a function from the bytes that are left to a
-- value and the bytes left behind, or to nothing, where the code restores its position (Lexer.Scan:
-- `char`, `many`, `<|>`). Lexer.Names, Lexer.Literals, Lexer.Skips and Lexer.Doc hold one function for each
-- function of the source, by its name (`identStr` is `ident_str`), Lexer.Token the tokens and the
-- range being read (`ptr`, `begin`, `end`, `beginOffset`), and Lexer.Tokenize `nextToken`, `nextDocToken` and
-- `tokenize`; `docIsBlock` and `inDocString` are passed along. Lexer.Scan.Progress, Lexer.Progress and
-- Lexer.Yields prove that scanners consume input, Lexer.Tokenize.Step and Lexer.Tokenize.Loop carry that
-- to the loops, and Lexer.Tokenize.Locations to `tokenize`. Bounds: `many` has a round for each byte left and
-- one more, and each of its rounds consumes a byte; `tokenize` has two rounds for each byte and one more,
-- since a round consumes a byte or leaves a documentation comment; an __llvm__ block has a depth for each
-- byte, since every nested block consumes its brace.
--
-- Parser (compiler/parser.cpp). A function of the parser is a function from the state, which has the
-- tokens from `position` on, to a value and a state (`true`), a state (`false`), an error that is
-- raised, or no fuel (Parser.State: `>>=` is `if (!m) return false;`, `<|>` tries the next
-- alternative at the saved position). Parser.Terminals, Parser.Exprs, Parser.Operators,
-- Parser.Arguments, Parser.Statements with Parser.Statements.Forms, and Parser.Grammar hold one
-- function for each of the source, by its name with `_expr`, `_stmt` or `_body` where the name
-- stands for something else. Parser.Spans sets the places of an expression, Parser.Errors has the
-- diagnostics and the recovery, and Parser.Apply `applyParser`, `parseExpr` and `parseStatements` on
-- the tokens of the lexer's model. Functions that call each other are a record (Grammar), which
-- `grammar` ties with fuel for the depth of the calls: three levels for each token left and three
-- more, since a call of the same function stands behind a token. A loop has a round for each token
-- left and one more. Parser.Outcome and Parser.Total have the rules by which a function ends and
-- reads tokens, Parser.Total.Rounds those of loops; Parser.Total.Exprs to Parser.Total.Grammar apply
-- them to each function; Parser.Errors.Boundary is about recovery, Parser.Recovers about blocks,
-- Parser.Brackets about what is skipped in front of a top-level item, and Parser.Apply.Answers about
-- whole inputs. `strtoul` is a parameter. `failExpected` holds texts where the source holds
-- addresses of texts, which the ranking of the texts makes the same. Input is not interactive
-- (`addTokens` is null), and no earlier call has left `suppressExpected` set.
--
-- Names and imports (compiler/env.cpp and the declarations of compiler/ceramic.hpp). Env.Module has modules
-- and a store that holds them by address; code that changes modules is a function from the store to a
-- value and the new store, or to an error. Env.Symbols has `getPublicSymbols`, `getAllSymbols`,
-- `addImportedSymbols` and `insertImported`, where `publicOnly` chooses between the tables; Env.Lookup has
-- `addGlobal`, `lookupPublic` and `lookupPrivate`; Env.Scope the environments and the lookups along their
-- chain, which take `lookupPrivate` as an argument; Env.EditDistance `editDistance`. Fuel bounds the
-- nesting of `get_symbols`; Env.Symbols.Total shows that one more than the number of tables not being
-- loaded is enough. `StringMap` is an association list, in the order of insertion where the code goes
-- over all of it. An assertion that fails gives `none`. LLVM's list of intrinsics is a parameter.
--
-- Number literals (compiler/literals.cpp). Literals.Text has the types, the tests on the text and the
-- parameters: the C library's conversions and LLVM's `StringRef`. Literals.Integers has `parseIntLiteral` and
-- `parseFloatLiteral`, one call for each branch, Literals.Floats `parseHexFloat` for `double`, whose exponent is
-- a difference of two natural numbers. A `ValueHolder` is the type with the bits of its buffer; `long` has
-- 64 bits. `errno` is an argument, since no line of the source resets it. An assertion that fails and a
-- shift by a negative number, which is undefined, give `none`.
--
-- Loader (compiler/loader.cpp, `initModule`). Loader.Init has the modules by address with their `initState`, and
-- `init_module`, whose fuel bounds the nesting; Loader.Closure shows that one more than the number of
-- modules not begun is enough. Loader.After and Loader.Order have what a call keeps and promises. Of
-- the attributes and top-level items that a module initialises, only the order is kept.
--
-- Syntax trees (compiler/ceramic.hpp, compiler/clone.cpp). Syntax.Node and Syntax.Tree have the expressions and
-- statements as data types, a constructor for each class, without their addresses and the caches that
-- analysis fills; Syntax.Places reads and sets locations. Syntax.Clone and Syntax.Code are clone.cpp, one
-- function for each overload of `clone`; Syntax.Clone.Keeps and Syntax.Clone.Same say what a copy keeps.
--
-- Desugaring (compiler/desugar.cpp; compiler/loader.cpp, `loadDependent`'s names). Desugar.Build makes nodes the
-- way the constructors do; Desugar.Exprs, Desugar.Chars, Desugar.Statements, Desugar.Overloads and
-- Desugar.Modules have one function for each of the source. Desugar.Branches gives the `if` chains a meaning, where
-- an argument says which conditions hold, and compares it with the first case or handler that
-- applies; Desugar.Overloads.Order and Desugar.Rethrow are about overloads with conversions and about
-- names that handlers bind.
--
-- Patterns (compiler/patterns.cpp; compiler/analyzer.cpp, `constructType`). Patterns.Objects has static values, their
-- types and patterns, where a tuple's value tells its static elements, whose types are `Static[o]`, from the others;
-- Patterns.Deref `derefDeep` and `objectToPattern`, Patterns.Construct `constructType`,
-- Patterns.Unify the overloads of `unify`, on a store of cells. A cell that is made empty has an
-- address; one that is made with an object never changes, so it is only that object. A list with an
-- index is the items from there on. A type is its contents, as the tables of types make it unique.
-- Arguments are `primitive_ByRef()`, the tests on heads and objects (`==`, `objectEquals`), and the evaluator (`evaluateOneStatic`),
-- which makes the tuple of values that are not all static. The fuel of `unify` bounds the nesting of its calls, and
-- that of `deref_cells` how many cells hold each other: neither bound is fixed, since cells may hold themselves.
-- Patterns.Unify.Sound, Patterns.Unify.Empty and Patterns.Unify.Equal say what unification does; Patterns.Match
-- applies it to values; Patterns.Plain, Patterns.Trips, Patterns.Compound and Patterns.RoundTrip are about
-- the patterns of values.
--
-- Matching of calls (compiler/matchinvoke.cpp). Invoke.Overload has `matchInvoke` with its loops over the formal
-- arguments, where `i`, `j` and `varArgSize` are `unsigned` and wrap, and `resetPatterns` on every return; `f` and `g`
-- are the bounds of Patterns, and `none` an error of the program. An overload's patterns are given, and its
-- predicate is a function of the bindings. Invoke.Arguments is about the places of arguments, Invoke.Reset
-- about the cells afterwards.
--
-- Prelude has the names from the libraries, Boolean tests, byte strings and association lists. The modules
-- called Tests run the models on concrete inputs.
--
-- Not modelled: the parsing of top-level items and modules and of interactive input, the evaluation of pattern expressions, the tables and layout of types, the
-- analyzer, the evaluator and the code generator; top-level items, their printing and the eval forms;
-- `maxPtr` of the lexer, which is never read; the texts of error messages; the overflow of `int` in the
-- exponent of a hexadecimal float.
pub mod Patterns
pub mod Parser
pub mod Prelude
pub mod Invoke
pub mod Lexer
pub mod Env
pub mod Literals
pub mod Syntax
pub mod Desugar
pub mod Loader
