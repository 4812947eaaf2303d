-- ===== src/Sagas/Repository/Finders.antt =====
-- The finders of the saga repository stop at their limit.
use cqrs_ddd.Common.{
  refl, ℕ, Bool, List, suc, take, ◌≡◌, filter, ◌+◌, ◌&&◌, ◌∷◌, arith, not, is_empty,
}
use cqrs_ddd.Sagas.Repository.{
  collect_from, find_stalled_sagas, find_suspended_sagas, find_expired_suspended_sagas,
  find_running_sagas_with_tcc_steps, Spec, Repo, is_stalled, satisfies, has_expired,
}
use cqrs_ddd.Sagas.State.{SagaState, is_status, suspended, running}
use cqrs_ddd.Common.Dict.{values}
use mathlib.Core.List.{[]}
use Prim.Native.Nat.{zero}

-- `room` is how many more sagas may be appended after the next one.
collect_from-eq :
    (taken limit room : ℕ) (p : SagaState → Bool) (spec : Spec) (ss : List SagaState)
    → limit ≡ suc (taken + room)
    → collect_from taken limit p spec ss
      ≡ take (suc room) (filter (λ s. p s && satisfies spec s) ss)
collect_from-eq taken limit room p spec [] h = refl
collect_from-eq taken limit zero p spec (s ∷ ss) h =
    ground (arith, collect_from-eq taken limit zero p spec ss h)
collect_from-eq taken limit (suc room) p spec (s ∷ ss) h = ground (
  arith,
  collect_from-eq taken limit (suc room) p spec ss h,
  collect_from-eq (taken + 1) limit room p spec ss (omega arith),
)

-- The first of the stored sagas that pass a test and satisfy a specification.
abbrev pub page : ℕ → (SagaState → Bool) → Spec → Repo → List SagaState
page limit p spec r = take limit (filter (λ s. p s && satisfies spec s) (values r))

-- With a limit of at least one, each of the four finders returns the first sagas of the store, up
-- to its limit, that are in the state it looks for and satisfy the specification.
pub finders-page :
    (n now : ℕ) (spec : Spec) (r : Repo)
    → (find_stalled_sagas (suc n) spec r ≡ page (suc n) is_stalled spec r)
      × (find_suspended_sagas (suc n) spec r
          ≡ page (suc n) (λ s. is_status s.status suspended) spec r)
      × (find_expired_suspended_sagas now (suc n) spec r ≡ page (suc n) (has_expired now) spec r)
      × (find_running_sagas_with_tcc_steps (suc n) spec r
          ≡ page (suc n) (λ s. is_status s.status running && not (is_empty s.tcc_steps)) spec r)
unfolding find_stalled_sagas find_suspended_sagas find_expired_suspended_sagas
    find_running_sagas_with_tcc_steps
finders-page n now spec r =
    let paged =
      λ (p : SagaState → Bool). collect_from-eq 0 (suc n) n p spec (values r) (omega arith) in
    (
      paged is_stalled,
      paged (λ s. is_status s.status suspended),
      paged (has_expired now),
      paged (λ s. is_status s.status running && not (is_empty s.tcc_steps)),
    )
