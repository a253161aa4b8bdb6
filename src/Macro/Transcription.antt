-- ===== src/Macro/Transcription.antt =====
-- src/macro.c: the transcription of templates. Vectors are left out. scm_wrap_identifier, with what
-- it changes, is an argument.
use sigscheme.Base.{
  ℕ, zero, suc, Option, none, some, List, [], ◌∷◌, ◌++◌, ltb, ◌==◌, if◌then◌else◌, length,
  get_elem?,
}
use sigscheme.Macro.{Datum, null, pair, ident, atom, pvar, reppat}

-- ctx->fvars, and what making identifiers changes.
pub record TranscriptionContext (W : Type 0) : Type 0 where
  pub fvars : List (ℕ × ℕ)
  pub world : W

-- MSG_REPLACE, MSG_SPLICE and MSG_PVAR_EXHAUSTED, a failed assertion, or out of fuel.
pub data TranscribeRet (W : Type 0) : Type 0 where
  replace : Datum → TranscriptionContext W → TranscribeRet W
  splice : Datum → TranscriptionContext W → TranscribeRet W
  pvar_exhausted : ℕ → TranscriptionContext W → TranscribeRet W
  assertion_failed : TranscribeRet W
  no_fuel : TranscribeRet W

abbrev pub Transcribe : Type 0 → Type 0
Transcribe W = TranscriptionContext W → TranscribeRet W

-- scm_list_tail of a list; `none` is SCM_INVALID.
abbrev pub form_tail : Datum → ℕ → Option Datum
form_tail d zero = some d
form_tail (pair _ rest) (suc k) = form_tail rest k
form_tail _ (suc k) = none

-- What a pattern variable stands for: an object, no object any more at a level, or a failed assertion.
pub data Referent : Type 0 where
  object : Datum → Referent
  exhausted : ℕ → Referent
  invalid : Referent

abbrev pub step_into : ℕ → Option Datum → Referent
step_into level none = invalid
step_into level (some (pair a _)) = object a
step_into level (some null) = exhausted level
step_into level (some _) = invalid

-- The steps by the indices from that of level `i` on; `left` is how many there are to come.
unfoldable pub follow : ℕ → ℕ → List ℕ → Referent → Referent
follow zero i indices (object sub) = object sub
follow (suc left) i (index ∷ indices) (object sub) =
    follow left (suc i) indices (step_into i (form_tail sub index))
follow (suc left) i [] (object sub) = invalid
follow left i indices (exhausted level) = exhausted level
follow left i indices invalid = invalid

abbrev pub sub_at : List Datum → ℕ → Referent
sub_at sub index = elim (get_elem? sub index) [ some d ↦ object d | none ↦ invalid ]

abbrev pub from_referent : {W : Type 0} → Referent → Transcribe W
from_referent (object d) ctx = replace d ctx
from_referent (exhausted level) ctx = pvar_exhausted level ctx
from_referent invalid ctx = assertion_failed

unfoldable pub transcribe_pvar : {W : Type 0} → ℕ → ℕ → List Datum → List ℕ → Transcribe W
unfolding follow
transcribe_pvar index level sub indices ctx =
    from_referent (follow level 0 indices (sub_at sub index)) ctx

-- SCM_QUEUE_APPEND of a list and what is added behind it.
abbrev pub append_forms : Datum → Datum → Datum
append_forms (pair a rest) forms = pair a (append_forms rest forms)
append_forms _ forms = forms

-- RECURSE_ALWAYS_APPEND or the rest of the loop over a list, behind what `front` adds to.
abbrev pub add_behind : {W : Type 0} → (Datum → Datum) → TranscribeRet W → TranscribeRet W
add_behind front (replace rest ctx) = replace (front rest) ctx
add_behind front (splice _ ctx) = assertion_failed
add_behind front (pvar_exhausted level ctx) = pvar_exhausted level ctx
add_behind front assertion_failed = assertion_failed
add_behind front no_fuel = no_fuel

-- The loop over a list: RECURSE at its first template, and then the others.
abbrev pub recurse : {W : Type 0} → Transcribe W → TranscribeRet W → TranscribeRet W
recurse rest (replace d ctx) = add_behind (λ forms. pair d forms) (rest ctx)
recurse rest (splice forms ctx) = add_behind (append_forms forms) (rest ctx)
recurse rest (pvar_exhausted level ctx) = pvar_exhausted level ctx
recurse rest assertion_failed = assertion_failed
recurse rest no_fuel = no_fuel

abbrev pub splice_before : {W : Type 0} → Datum → TranscribeRet W → TranscribeRet W
splice_before d (splice forms ctx) = splice (pair d forms) ctx
splice_before d (replace _ _) = assertion_failed
splice_before d (pvar_exhausted level ctx) = pvar_exhausted level ctx
splice_before d assertion_failed = assertion_failed
splice_before d no_fuel = no_fuel

-- The step of the loop in transcribe_reppat, with the rounds to come as `next`.
abbrev pub after_round : {W : Type 0} → ℕ → Transcribe W → TranscribeRet W → TranscribeRet W
after_round level next (replace d ctx) = splice_before d (next ctx)
after_round level next (splice _ _) = assertion_failed
after_round level next (pvar_exhausted at ctx) =
    if at == level
    then splice null ctx
    else if ltb at level
    then pvar_exhausted at ctx
    else assertion_failed
after_round level next assertion_failed = assertion_failed
after_round level next no_fuel = no_fuel

-- The loop of transcribe_reppat from the index `k` on; `round` transcribes at an index.
unfoldable pub transcribe_reppat : {W : Type 0} → ℕ → ℕ → (ℕ → Transcribe W) → ℕ → Transcribe W
transcribe_reppat zero level round k ctx = no_fuel
transcribe_reppat (suc fuel) level round k ctx =
    after_round level (transcribe_reppat fuel level round (suc k)) (round k ctx)

-- assq in ctx->fvars
abbrev pub find_fvar : ℕ → List (ℕ × ℕ) → Option ℕ
find_fvar x [] = none
find_fvar x ((y, wrapped) ∷ fvars) = if y == x then some wrapped else find_fvar x fvars

abbrev pub Wrap : Type 0 → Type 0
Wrap W = ℕ → W → ℕ × W

unfoldable pub transcribe_ident : {W : Type 0} → Wrap W → ℕ → Transcribe W
transcribe_ident wrap x ctx = elim (find_fvar x ctx.fvars) [
  | some wrapped ↦ replace (ident wrapped) ctx
  | none ↦
      let (wrapped, world) = wrap x ctx.world in
      replace (ident wrapped) (record { fvars = (x, wrapped) ∷ ctx.fvars; world = world })
]

unfoldable pub transcribe_rec :
    {W : Type 0} → Wrap W → ℕ → Datum → List Datum → List ℕ → Transcribe W
unfolding transcribe_pvar transcribe_reppat transcribe_ident
transcribe_rec wrap fuel (pair template rest) sub indices ctx =
    recurse (transcribe_rec wrap fuel rest sub indices)
      (transcribe_rec wrap fuel template sub indices ctx)
transcribe_rec wrap fuel (pvar index level) sub indices ctx =
    transcribe_pvar index level sub indices ctx
transcribe_rec wrap fuel (reppat form _) sub indices ctx =
    transcribe_reppat fuel (length indices)
      (λ k. transcribe_rec wrap fuel form sub (indices ++ k ∷ [])) 0 ctx
transcribe_rec wrap fuel (ident x) sub indices ctx = transcribe_ident wrap x ctx
transcribe_rec wrap fuel (atom a) sub indices ctx = replace (atom a) ctx
transcribe_rec wrap fuel null sub indices ctx = replace null ctx

unfoldable pub transcribe : {W : Type 0} → Wrap W → ℕ → Datum → List Datum → W → TranscribeRet W
unfolding transcribe_rec
transcribe wrap fuel template sub world =
    transcribe_rec wrap fuel template sub [] (record { fvars = []; world = world })
