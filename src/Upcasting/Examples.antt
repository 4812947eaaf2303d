-- ===== src/Upcasting/Examples.antt =====
-- The theorems on upcasting at three upcasters of numbers.
use cqrs_ddd.Common.{ℕ, List, [], arith, ◌+◌, ◌∷◌}
use cqrs_ddd.Upcasting.{Upcaster, chain, apply_each}
use cqrs_ddd.Upcasting.Chain.{chain_complete, Reaches, IsLatest}

abbrev upcaster : ℕ → ℕ → ℕ → Upcaster ℕ
upcaster t a b = record {
  event_type = t;
  source_version = a;
  target_version = b;
  upcast = λ x. x + b;
}

abbrev upcasters : List (Upcaster ℕ)
upcasters = upcaster 5 2 3 ∷ upcaster 6 1 2 ∷ upcaster 5 1 2 ∷ []

chain_complete_example :
    let (y, w) = apply_each (chain upcasters) 5 100 1 in
    Reaches upcasters 5 100 1 y w × IsLatest upcasters 5 w
chain_complete_example =
    chain_complete upcasters 5 100 1
      ((λ h. omega arith), ((λ h. omega arith), ((λ h. omega arith), tt)))
