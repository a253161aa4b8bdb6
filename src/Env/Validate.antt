-- ===== src/Env/Validate.antt =====
-- src/env.c: the validators. `strict` is SCM_STRICT_ARGCHECK.
use mathlib.Core.Option
use sigscheme.Base.{ℕ, zero, suc, ◌+◌, Bool, true, false, Option, none, some, leb, if◌then◌else◌}
use sigscheme.Base.Int.{ℤ, pos, negsuc, int_eq}
use sigscheme.Object.{Obj, Heap, car, cdr, is_null, is_cons, is_identifier}
use sigscheme.Pairs.{encode_dotted, encode_circular, is_circular, finite_length, scm_length}
use sigscheme.Env.{toplevel_environmentp}

-- SCM_LISTLEN_ENCODE_ERROR
abbrev pub encode_error : ℤ
encode_error = encode_circular

unfoldable pub validate_formals_loop : ℕ → Heap → Obj → ℕ → Option ℤ
validate_formals_loop zero h formals len = none
validate_formals_loop (suc fuel) h formals len =
    let rest = validate_formals_loop fuel h (cdr h formals) (len + 1) in
    if is_cons formals
    then if is_identifier (car h formals) then rest else some encode_error
    else if is_null formals
    then some (pos len)
    else if is_identifier formals
    then some (encode_dotted len)
    else some encode_error

unfoldable pub validate_formals : Bool → ℕ → Heap → Obj → Option ℤ
unfolding validate_formals_loop finite_length
validate_formals true fuel h formals = validate_formals_loop fuel h formals 0
validate_formals false fuel h formals = finite_length fuel h formals

-- `if (SCM_LISTLEN_DOTTEDP(len)) return SCM_LISTLEN_ENCODE_ERROR(len);`
abbrev pub refuse_dotted : ℤ → ℤ
refuse_dotted (pos len) = pos len
refuse_dotted (negsuc len) = if is_circular (negsuc len) then negsuc len else encode_error

unfoldable pub validate_actuals : Bool → ℕ → Heap → Obj → Option ℤ
unfolding scm_length finite_length
validate_actuals true fuel h actuals = Option.map refuse_dotted (scm_length fuel h actuals)
validate_actuals false fuel h actuals = Option.map refuse_dotted (finite_length fuel h actuals)

-- `formals_len` is SCM_LISTLEN_DOTTED of the dotted formals.
abbrev pub dotted_lengthp : ℕ → ℤ → Bool
dotted_lengthp formals_len (pos actuals_len) = leb formals_len actuals_len
dotted_lengthp formals_len (negsuc actuals_len) =
    if is_circular (negsuc actuals_len) then true else leb formals_len actuals_len

unfoldable pub valid_environment_extension_lengthp : ℤ → ℤ → Bool
valid_environment_extension_lengthp (pos formals_len) actuals_len =
    int_eq (pos formals_len) actuals_len
valid_environment_extension_lengthp (negsuc formals_len) actuals_len =
    if is_circular (negsuc formals_len) then false else dotted_lengthp formals_len actuals_len

unfoldable pub valid_environment_extensionp : Bool → ℕ → Heap → Obj → Obj → Option Bool
unfolding validate_formals validate_actuals valid_environment_extension_lengthp
valid_environment_extensionp strict fuel h formals actuals =
    elim (validate_formals strict fuel h formals) [
      | none ↦ none
      | some formals_len ↦
          Option.map (valid_environment_extension_lengthp formals_len)
            (validate_actuals strict fuel h actuals)
    ]

unfoldable pub valid_framep : Bool → ℕ → Heap → Obj → Option Bool
unfolding valid_environment_extensionp
valid_framep strict fuel h frame =
    if is_cons frame
    then valid_environment_extensionp strict fuel h (car h frame) (cdr h frame)
    else some false

-- The loop of scm_valid_environmentp over the frames.
valid_frames : Bool → ℕ → ℕ → Heap → Obj → Option Bool
unfolding valid_framep toplevel_environmentp
valid_frames strict fuel zero h rest = none
valid_frames strict fuel (suc rounds) h rest =
    let more = valid_frames strict fuel rounds h (cdr h rest) in
    if is_cons rest
    then elim (valid_framep strict fuel h (car h rest)) [
      | none ↦ none
      | some false ↦ some false
      | some true ↦ more
    ]
    else some (toplevel_environmentp rest)

-- TRUSTED_ENVP, where SCM_INTERACTION_ENV, SCM_R5RS_ENV and SCM_NULL_ENV are all '().
abbrev pub trusted_envp : Obj → Bool
trusted_envp env = is_null env

unfoldable pub valid_environmentp : Bool → ℕ → ℕ → Heap → Obj → Option Bool
unfolding valid_frames
valid_environmentp strict fuel rounds h env =
    if trusted_envp env then some true else valid_frames strict fuel rounds h env
