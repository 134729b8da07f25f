-- ===== src/Tests/Backoff.antt =====
-- evenk/backoff.h at concrete ceilings.
use evenk.Prelude.{◌≡◌, refl, true, [], ◌∷◌, arith}
use evenk.Backoff.{
  relax, cpu_cycle, cpu_relax, no_backoff, linear_backoff, proportional_backoff,
  proportional_adapter, after, reaches, counting, exponential, counting-reaches,
}

linear_run : (linear_backoff cpu_relax 5 2 4).0 ≡ true
unfolding linear_backoff
linear_run = refl

factor_run : (proportional_backoff cpu_relax 2 1 tt).1 ≡ relax ∷ relax ∷ []
unfolding proportional_backoff cpu_relax
factor_run = refl

adapter_run : (proportional_adapter no_backoff 7 tt).0 ≡ true
unfolding proportional_adapter no_backoff
adapter_run = refl

-- The third call passes the ceiling 6.
counting-reaches_example :
    (after (counting cpu_cycle exponential 6) 2 0 ≡ 3)
    × (reaches (counting cpu_cycle exponential 6) 2 0 ≡ true)
counting-reaches_example = counting-reaches cpu_cycle exponential 6 2 (omega arith)
