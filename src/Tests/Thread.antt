-- ===== src/Tests/Thread.antt =====
-- Processors of a thread of evenk/thread.h, on a system with four of them.
use evenk.Prelude.{
  ℕ, ◌≡◌, ◌&&◌, ltb, Bool, true, false, none, some, List, [], ◌∷◌, length, refl, arith,
}
use evenk.Thread.Defs.{
  returns, throws, einval, cpu_num, set_cpus, to_native, set_affinity, get_affinity,
}
use evenk.Thread.Affinity.{Processors, has_cpu, affinity_roundtrip}

-- The state is the set of the one thread.
abbrev four : Processors ℕ (ℕ → Bool)
four = record {
  setaffinity = λ handle set s. (0, λ cpu. set cpu && ltb cpu 4);
  getaffinity = λ handle s. (0, s);
  allowed = λ handle s cpu. ltb cpu 4;
  get_after_set = λ handle set s e. refl;
  get_what_is_set = λ handle set s cpu e h. refl;
}

abbrev wanted : List Bool
wanted = false ∷ true ∷ false ∷ false ∷ false ∷ true ∷ []

abbrev now : ℕ → Bool
now cpu = to_native wanted cpu && ltb cpu 4

affinity_roundtrip_example :
    (cpus : List Bool) × (get_affinity four.getaffinity 8 (some 1) now ≡ returns cpus)
    × (length cpus ≡ 8)
    × (has_cpu cpus 5 ≡ false)
unfolding set_affinity
affinity_roundtrip_example =
    affinity_roundtrip four 1 wanted (λ cpu. true) now 8 5 refl (omega arith) (omega arith)
      (omega arith)

not_joinable : set_affinity four.setaffinity none wanted (λ cpu. true) ≡ throws einval
unfolding set_affinity
not_joinable = refl

second_processor : to_native wanted 1 ≡ true
unfolding to_native set_cpus cpu_num
second_processor = refl
