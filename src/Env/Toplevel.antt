-- ===== src/Env/Toplevel.antt =====
-- src/env.c and src/macro.c: the value of an identifier, and the toplevel values that are in the
-- value cells of the symbols.
use mathlib.Core.Option
use sigscheme.Base.{ℕ, zero, suc, Option, none, some, if◌then◌else◌}
use sigscheme.Object.{
  Obj, unbound, invalid, symbol, farsymbol, Heap, update, obj_eq, err_obj, Proc, ◌>>=◌, ok, raise,
}
use sigscheme.Env.{VarRef, invalid_ref, deref, lookup_frames, lookup_environment, ref_or_diverge}

-- SCM_SYMBOL_VCELL
abbrev pub symbol_vcell : Heap → Obj → Obj
symbol_vcell h (symbol n) = h.vcell n
symbol_vcell h _ = invalid

-- unwrap_farsymbol
unwrap_farsymbol : ℕ → Heap → Obj → Option Obj
unwrap_farsymbol zero h (farsymbol f) = none
unwrap_farsymbol (suc fuel) h (farsymbol f) = unwrap_farsymbol fuel h (h.far f).sym
unwrap_farsymbol _ h obj = some obj

abbrev pub value_or_vcell : Heap → VarRef → Obj → Obj
value_or_vcell h invalid_ref var = symbol_vcell h var
value_or_vcell h ref var = deref h ref

-- The value at a reference, or else in the value cell of the symbol, unless it is SCM_UNBOUND.
value_at : VarRef → Obj → Proc Obj
value_at ref var h =
    let val = value_or_vcell h ref var in
    if obj_eq val unbound then raise (err_obj "unbound variable" var) h else ok val h

unfoldable pub symbol_value : ℕ → ℕ → Obj → Obj → Proc Obj
unfolding lookup_frames lookup_environment value_at
symbol_value fuel rounds (farsymbol f) env h =
    (do ref ← lookup_environment fuel rounds (farsymbol f) env; value_at ref (h.far f).sym) h
symbol_value fuel rounds var env h =
    (do ref ← ref_or_diverge (lookup_frames fuel rounds h var env); value_at ref var) h

abbrev pub set_vcell : Obj → Obj → Heap → Heap
set_vcell (symbol n) val h = record h { vcell = update h.vcell n val }
set_vcell _ val h = h

-- The identifier is unwrapped with SCM_UNWRAP_KEYWORD.
unfoldable pub toplevel_value : ℕ → Heap → Obj → Option Obj
unfolding unwrap_farsymbol
toplevel_value fuel h id = Option.map (symbol_vcell h) (unwrap_farsymbol fuel h id)

unfoldable pub set_toplevel : ℕ → Obj → Obj → Heap → Option Heap
unfolding unwrap_farsymbol
set_toplevel fuel id val h = Option.map (λ sym. set_vcell sym val h) (unwrap_farsymbol fuel h id)

unfoldable pub define_toplevel : Obj → Obj → Heap → Heap
define_toplevel var val h = set_vcell var val h
