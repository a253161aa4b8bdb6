-- ===== src/Macro.antt =====
-- src/macro.c: the compiler of patterns and templates, in a build without R7RS. Forms are trees of
-- pairs, identifiers and other atoms; vectors are left out. Identifiers are numbers, and atoms have
-- one number where equal? holds.
pub mod Matcher
pub mod Transcription
pub mod Expansion
pub mod Shape
pub mod Invalid
pub mod Matched
pub mod Widths
pub mod Passes
pub mod Reference
pub mod Exhausted
pub mod Instance
pub mod Inversion
pub mod Compiled
pub mod Patterns
pub mod Templates
pub mod RoundTrip
pub mod Renaming
mod Tests
use mathlib.Core.Option
use sigscheme.Base.{
  ℕ, zero, suc, ◌-◌, Bool, true, false, not, ◌&&◌, ◌||◌, Option, none, some, List, [], ◌∷◌, ltb,
  ◌==◌, if◌then◌else◌,
}

-- `pvar` is a marker of a pattern variable with its index and level, `reppat` a repeatable subpattern
-- with its count of pattern variables.
pub data Datum : Type 0 where
  null : Datum
  pair : Datum → Datum → Datum
  ident : ℕ → Datum
  atom : ℕ → Datum
  pvar : ℕ → ℕ → Datum
  reppat : Datum → ℕ → Datum

-- `unwrap` is SCM_UNWRAP_KEYWORD of identifiers.
pub record CompilationContext : Type 0 where
  pub syms : List ℕ
  pub vals : List ℕ
  pub pvlen : ℕ
  pub literals : List ℕ
  pub ellipsis : ℕ
  pub unwrap : ℕ → ℕ
  pub pattern_mode : Bool

-- The errors that the compiler raises.
pub data CompileError : Type 0 where
  misplaced_ellipsis : CompileError
  constant_repeatable : CompileError
  duplicate_pattern_variable : CompileError
  wrong_level : CompileError

pub data Compilation : Type 0 where
  compiled : Datum → CompilationContext → Compilation
  refused : CompileError → Compilation

abbrev pub Compile : Type 0
Compile = CompilationContext → Compilation

infixl 5 ◌>>=◌
abbrev pub ◌>>=◌ : Compile → (Datum → Compile) → Compile
◌>>=◌ m f ctx = elim (m ctx) [ compiled d ctx' ↦ f d ctx' | refused e ↦ refused e ]

abbrev pub pure : Datum → Compile
pure d ctx = compiled d ctx

-- ctx->pvmark
abbrev pub pvmark : Datum
pvmark = pvar 0 0

pub ellipsisp : CompilationContext → Datum → Bool
ellipsisp ctx (ident x) = ctx.unwrap x == ctx.ellipsis
ellipsisp ctx null = false
ellipsisp ctx (pair _ _) = false
ellipsisp ctx (atom _) = false
ellipsisp ctx (pvar _ _) = false
ellipsisp ctx (reppat _ _) = false

-- scm_p_memq of an identifier
abbrev pub memq : ℕ → List ℕ → Bool
memq x [] = false
memq x (y ∷ ys) = x == y || memq x ys

pub list_find_index : ℕ → List ℕ → Option ℕ
list_find_index x [] = none
list_find_index x (y ∷ ys) = if x == y then some 0 else Option.map suc (list_find_index x ys)

abbrev pub level_at : List ℕ → ℕ → ℕ
level_at [] index = 0
level_at (l ∷ ls) zero = l
level_at (l ∷ ls) (suc index) = level_at ls index

-- An identifier in a template that is the pattern variable with this index.
abbrev pub compile_reference : ℕ → ℕ → Compile
compile_reference index level ctx =
    let pvlevel = level_at ctx.vals index in
    if ltb level pvlevel
    then refused wrong_level
    else compiled (pvar index pvlevel)
        (record ctx { pvlen = if level == pvlevel then suc ctx.pvlen else ctx.pvlen })

-- The branch of compile_rec for identifiers. A cached marker is equal to a new one.
pub compile_identifier : ℕ → ℕ → Compile
unfolding list_find_index
compile_identifier x level ctx =
    if ctx.pattern_mode
    then if memq x ctx.literals
      then compiled (ident x) ctx
      else if memq x ctx.syms
      then refused duplicate_pattern_variable
      else compiled pvmark
          (record ctx { syms = x ∷ ctx.syms; vals = level ∷ ctx.vals; pvlen = suc ctx.pvlen })
    else elim (list_find_index x ctx.syms) [
      | none ↦ compiled (ident x) ctx
      | some index ↦ compile_reference index level ctx
    ]

abbrev pub nullp : Datum → Bool
nullp null = true
nullp _ = false

-- What stands behind the last element or behind an ellipsis: another element or the end of the list.
abbrev pub compile_tail : Compile → Datum → Compile
compile_tail tail rest ctx = if ellipsisp ctx rest then refused misplaced_ellipsis else tail ctx

abbrev pub compile_element : Compile → Compile → Datum → Compile
compile_element obj tail rest = do o ← obj; t ← compile_tail tail rest; pure (pair o t)

-- MAKE_REPPAT for a subform that an ellipsis follows; `before` is the pvlen before the subform.
abbrev pub check_repeatable : ℕ → Datum → Datum → Compile
check_repeatable before subpat rest ctx =
    if ctx.pattern_mode && not (nullp rest)
    then refused misplaced_ellipsis
    else if not ctx.pattern_mode && ctx.pvlen == before
    then refused constant_repeatable
    else compiled (reppat subpat (ctx.pvlen - before)) ctx

abbrev pub compile_repeatable : Compile → Compile → Datum → Compile
compile_repeatable obj tail rest ctx =
    (do
      subpat ← obj
      o ← check_repeatable ctx.pvlen subpat rest
      t ← compile_tail tail rest
      pure (pair o t))
      ctx

-- The choice by what stands behind `obj`: `single` and `repeated` compile the list either way.
abbrev pub compile_list : Datum → Datum → Compile → Compile → Compile
compile_list obj next single repeated ctx =
    if ellipsisp ctx obj
    then refused misplaced_ellipsis
    else if ellipsisp ctx next
    then repeated ctx
    else single ctx

pub compile_rec : Datum → ℕ → Compile
unfolding compile_identifier ellipsisp
compile_rec (pair obj (pair next rest)) level =
    compile_list obj next
      (compile_element (compile_rec obj level) (compile_rec (pair next rest) level)
        (pair next rest))
      (compile_repeatable (compile_rec obj (suc level)) (compile_rec rest level) rest)
compile_rec (pair obj rest) level =
    compile_list obj null (compile_element (compile_rec obj level) (compile_rec rest level) rest)
      (pure null)
compile_rec (ident x) level = compile_identifier x level
compile_rec null level = pure null
compile_rec (atom a) level = pure (atom a)
compile_rec (pvar i l) level = pure (pvar i l)
compile_rec (reppat p n) level = pure (reppat p n)

pub compile : Datum → Compile
unfolding ellipsisp compile_rec
compile form ctx = if ellipsisp ctx form then refused misplaced_ellipsis else compile_rec form 0 ctx
