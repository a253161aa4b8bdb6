-- ===== src/Number/Expt.antt =====
-- src/number.c: expt of fixnums.
use sigscheme.Base.{ℕ, zero, suc, ◌/◌, ◌%◌, ltb, ◌==◌, if◌then◌else◌}
use sigscheme.Base.Int.{ℤ, pos, negsuc}
use sigscheme.Object.{Obj, int, err}
use sigscheme.Number.{Result, value, error, out_of_fuel, ◌>>=◌, ensure_int, int_multiply}

-- The loop of scm_p_expt, in which `expo` is not negative.
unfoldable pub expt_loop : ℕ → ℕ → ℤ → ℤ → ℕ → Result ℤ
unfolding int_multiply
expt_loop max zero result base expo = out_of_fuel
expt_loop max (suc fuel) result base zero = value result
expt_loop max (suc fuel) result base (suc n) =
    (if suc n % 2 == 1 then int_multiply max result base else value result) >>= λ result'.
    (if ltb 0 (suc n / 2) then int_multiply max base base else value base) >>= λ base'.
    expt_loop max fuel result' base' (suc n / 2)

abbrev pub expt_ints : ℕ → ℕ → ℤ → ℤ → Result ℤ
expt_ints max fuel base (pos expo) = expt_loop max fuel (pos 1) base expo
expt_ints max fuel base (negsuc _) = error (err "negative exponent")

unfoldable pub p_expt : ℕ → ℕ → Obj → Obj → Result Obj
unfolding expt_loop
p_expt max fuel base expo =
    ensure_int base >>= λ b. ensure_int expo >>= λ e. expt_ints max fuel b e >>= λ n. value (int n)
