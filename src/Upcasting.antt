-- ===== src/Upcasting.antt =====
-- Event upcasting: packages/advanced/src/cqrs_ddd_advanced_core/upcasting/registry.py. The payload
-- of an event is any type, and what an upcaster does to it is its own.

pub mod Chain
pub mod Register
mod Examples
use Prim.Native.Nat.{max}
use cqrs_ddd.Common.Dict.{Dict, lookup, insert}
use cqrs_ddd.Common.Sort.{sort_by}
use cqrs_ddd.Common.Outcome.{Outcome, ok, raise}
use cqrs_ddd.Common.{
  Bool, List, if◌then◌else◌, ℕ, any, leb, none, ◌==◌, ◌∷◌, [], ◌&&◌, ◌++◌, ltb, some, ◌+◌,
}

pub record Upcaster (D : Type 0) : Type 0 where
  pub event_type : ℕ
  pub source_version : ℕ
  pub target_version : ℕ
  pub upcast : D → D

-- `__init_subclass__`: a target that is not set is the next version.
unfoldable pub init_subclass : {D : Type 0} → Upcaster D → Upcaster D
init_subclass u =
    if u.target_version == 0 && ltb 0 u.source_version
    then record u { target_version = u.source_version + 1 }
    else u

-- The exception names the type and the versions.
pub data Duplicate : Type 0 where
  duplicate : (event_type source target : ℕ) → Duplicate

abbrev pub Registry : Type 0 → Type 0
Registry D = Dict (List (Upcaster D))

module _ {D : Type 0} where
  abbrev pub by_source : Upcaster D → Upcaster D → Bool
  by_source u v = leb u.source_version v.source_version

  -- `UpcasterChain.__init__`
  unfoldable pub chain : List (Upcaster D) → List (Upcaster D)
  chain = sort_by by_source

  -- The loop of `UpcasterChain.upcast`.
  unfoldable pub apply_each : List (Upcaster D) → ℕ → D → ℕ → D × ℕ
  apply_each [] t x v = (x, v)
  apply_each (u ∷ us) t x v =
      let fits = (u.event_type == t) && (u.source_version == v) in
      apply_each us t (if fits then u.upcast x else x) (if fits then u.target_version else v)

  -- `latest_version`
  unfoldable pub latest_version : List (Upcaster D) → ℕ
  latest_version [] = 0
  latest_version (u ∷ us) = max u.target_version (latest_version us)

  abbrev pub registered : ℕ → Registry D → List (Upcaster D)
  registered t r = elim (lookup t r) [ none ↦ [] | some us ↦ us ]

  -- `register`. The key is made first; the guard never raises for a key that is new.
  unfoldable pub register : Upcaster D → Registry D → Outcome Duplicate (Registry D)
  register u r =
      let us = registered u.event_type r in
      if any (λ e. e.source_version == u.source_version) us
      then raise (duplicate u.event_type u.source_version u.target_version)
      else ok (insert u.event_type (us ++ u ∷ []) r)

  unfoldable pub chain_for : ℕ → Registry D → List (Upcaster D)
  unfolding chain
  chain_for t r = chain (registered t r)

  -- `UpcasterRegistry.upcast`
  unfoldable pub upcast : ℕ → D → ℕ → Registry D → D × ℕ
  unfolding chain_for apply_each
  upcast t x v r = apply_each (chain_for t r) t x v

  -- The test helper `clear`.
  abbrev pub clear : Registry D → Registry D
  clear r = []
