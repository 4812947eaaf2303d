-- ===== src/Sagas/Repository.antt =====
-- `InMemorySagaRepository` of adapters/memory/sagas.py. A specification is the test that
-- `is_satisfied_by` makes; `none` stands for a call without one.
pub mod Finders
use cqrs_ddd.Common.{
  ℕ, Bool, List, Option, none, ◌+◌, [], false, filter, some, true, ◌∷◌, if◌then◌else◌, ◌==◌,
  contains, leb, ◌&&◌, not, is_empty,
}
use cqrs_ddd.Common.Dict.{Dict, lookup, insert, erase, values}
use cqrs_ddd.Sagas.State.{SagaState, is_status, running, suspended}

abbrev pub Repo : Type 0
Repo = Dict SagaState

abbrev pub Spec : Type 0
Spec = Option (SagaState → Bool)

abbrev pub satisfies : Spec → SagaState → Bool
satisfies none s = true
satisfies (some p) s = p s

-- The stored object is the caller's, so the caller sees the new version too.
abbrev pub versioned : SagaState → SagaState
versioned s = record s { version = s.version + 1 }

unfoldable pub add : SagaState → Repo → SagaState × Repo
add s r = (versioned s, insert s.id (versioned s) r)

unfoldable pub get : ℕ → Spec → Repo → Option SagaState
get i spec r = elim (lookup i r) [
  | none ↦ none
  | some s ↦ if satisfies spec s then some s else none
]

unfoldable pub delete : ℕ → Spec → Repo → Repo
delete i spec r = elim (lookup i r) [
  | none ↦ erase i r
  | some s ↦ if satisfies spec s then erase i r else r
]

abbrev keyed : List ℕ → Repo → List SagaState
keyed ids [] = []
keyed ids ((i, s) ∷ r) = if contains ids i then s ∷ keyed ids r else keyed ids r

unfoldable pub list_all : Option (List ℕ) → Spec → Repo → List SagaState
list_all none spec r = filter (satisfies spec) (values r)
list_all (some ids) spec r = filter (satisfies spec) (keyed ids r)

unfoldable pub search : (SagaState → Bool) → Repo → List SagaState
search p r = filter p (values r)

abbrev of_correlation : ℕ → ℕ → SagaState → Bool
of_correlation correlation type s =
    elim s.correlation_id [ none ↦ false | some c ↦ c == correlation ] && (s.saga_type == type)

abbrev pub first_of {ℓ} : {A : Type ℓ} → List A → Option A
first_of [] = none
first_of (x ∷ xs) = some x

unfoldable pub find_by_correlation_id : ℕ → ℕ → Repo → Option SagaState
find_by_correlation_id correlation type r =
    first_of (filter (of_correlation correlation type) (values r))

-- The loops of the finders when `taken` sagas were appended: one is appended before the limit is
-- looked at.
abbrev pub collect_from : ℕ → ℕ → (SagaState → Bool) → Spec → List SagaState → List SagaState
collect_from taken limit p spec [] = []
collect_from taken limit p spec (s ∷ ss) =
    let next = collect_from (taken + 1) limit p spec ss in
    let skip = collect_from taken limit p spec ss in
    if p s
    then (if satisfies spec s then s ∷ (if leb limit (taken + 1) then [] else next) else skip)
    else skip

abbrev pub is_stalled : SagaState → Bool
is_stalled s = is_status s.status running && not (is_empty s.pending_commands)

abbrev pub has_expired : ℕ → SagaState → Bool
has_expired now s =
    is_status s.status suspended && elim s.timeout_at [ none ↦ false | some t ↦ leb t now ]

unfoldable pub find_stalled_sagas : ℕ → Spec → Repo → List SagaState
find_stalled_sagas limit spec r = collect_from 0 limit is_stalled spec (values r)

unfoldable pub find_suspended_sagas : ℕ → Spec → Repo → List SagaState
find_suspended_sagas limit spec r =
    collect_from 0 limit (λ s. is_status s.status suspended) spec (values r)

unfoldable pub find_expired_suspended_sagas : ℕ → ℕ → Spec → Repo → List SagaState
find_expired_suspended_sagas now limit spec r =
    collect_from 0 limit (has_expired now) spec (values r)

unfoldable pub find_running_sagas_with_tcc_steps : ℕ → Spec → Repo → List SagaState
find_running_sagas_with_tcc_steps limit spec r =
    collect_from 0 limit (λ s. is_status s.status running && not (is_empty s.tcc_steps)) spec
      (values r)

-- The test helper `clear`.
abbrev pub clear : Repo → Repo
clear r = []
