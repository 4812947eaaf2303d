-- ===== src/Messaging/Pipeline.antt =====
-- The middlewares of packages/core/src/cqrs_ddd_core/middleware: `build_pipeline` of pipeline.py,
-- `MiddlewareRegistry` of registry.py and `MiddlewareDefinition` of definition.py.
use cqrs_ddd.Common.{
  ℕ, refl, Bool, List, Option, leb, reverse, ◌++◌, ◌∷◌, ◌≡◌, map, none, reverse-cons, some, ◌∙◌, ap,
  filter, ◌==◌, false, true, arith,
}
use mathlib.Core.List.{[], Perm}
use cqrs_ddd.Common.Sort.{sort_by, IsSorted, sort_by-IsSorted, sort_by-perm, filter-sort_by}

-- A middleware gets the message and what stands inside of it.
abbrev pub Middleware : Type 0 → Type 0 → Type 0
Middleware M R = M → (M → R) → R

pub record MiddlewareDefinition : Type 0 where
  pub middleware : ℕ
  pub priority : ℕ

module _ {M R : Type 0} where
  abbrev pub wrap : Middleware M R → (M → R) → M → R
  wrap mw next message = mw message next

  -- The loop of `build_pipeline`, over the reversed list.
  abbrev pub wrap_all : List (Middleware M R) → (M → R) → M → R
  wrap_all [] pipeline = pipeline
  wrap_all (mw ∷ mws) pipeline = wrap_all mws (wrap mw pipeline)

  abbrev pub build_pipeline : List (Middleware M R) → (M → R) → M → R
  build_pipeline mws handler = wrap_all (reverse mws) handler

  -- The first middleware is the outermost one.
  abbrev pub nested : List (Middleware M R) → (M → R) → M → R
  nested [] handler = handler
  nested (mw ∷ mws) handler = wrap mw (nested mws handler)

  wrap_all-append :
      (xs ys : List (Middleware M R)) (h : M → R)
      → wrap_all (xs ++ ys) h ≡ wrap_all ys (wrap_all xs h)
  wrap_all-append [] ys h = refl
  wrap_all-append (x ∷ xs) ys h = wrap_all-append xs ys (wrap x h)

  pub build_pipeline_lem :
      (mws : List (Middleware M R)) (h : M → R) → build_pipeline mws h ≡ nested mws h
  build_pipeline_lem [] h = refl
  build_pipeline_lem (mw ∷ mws) h =
      rw (reverse-cons mw mws)
        (wrap_all-append (reverse mws) (mw ∷ []) h ∙ ap (wrap mw) (build_pipeline_lem mws h))

-- `key=lambda d: d.priority`
abbrev pub precedes : MiddlewareDefinition → MiddlewareDefinition → Bool
precedes c d = leb c.priority d.priority

pub record Registry (M R : Type 0) : Type 0 where
  pub definitions : List MiddlewareDefinition
  pub instances : Option (List (Middleware M R))

pub data RegistryCall : Type 0 where
  register : MiddlewareDefinition → RegistryCall
  get_ordered_middlewares clear : RegistryCall

abbrev pub new_registry : (M R : Type 0) → Registry M R
new_registry M R = record { definitions = []; instances = none }

precedes_total : (c d : MiddlewareDefinition) → precedes c d ≡ false → precedes d c ≡ true
precedes_total c d h = ground arith

precedes_trans :
    (c d e : MiddlewareDefinition) → precedes c d ≡ true → precedes d e ≡ true → precedes c e ≡ true
precedes_trans c d e h k = ground arith

tied :
    (p : ℕ) (c d : MiddlewareDefinition)
    → (c.priority == p) ≡ true
    → (d.priority == p) ≡ true
    → precedes c d ≡ true
tied p c d h k = ground arith

-- The definitions that a sequence of calls leaves.
abbrev pub registered : List RegistryCall → List MiddlewareDefinition → List MiddlewareDefinition
registered [] ds = ds
registered (register d ∷ cs) ds = registered cs (ds ++ d ∷ [])
registered (get_ordered_middlewares ∷ cs) ds = registered cs ds
registered (clear ∷ cs) ds = registered cs []

-- `build` is what the class or the factory of a definition makes.
module _ {M R : Type 0} (build : MiddlewareDefinition → Middleware M R) where
  abbrev pub ordered : List MiddlewareDefinition → List (Middleware M R)
  ordered ds = map build (sort_by precedes ds)

  abbrev pub cached_or_built :
      List MiddlewareDefinition → Option (List (Middleware M R)) → List (Middleware M R)
  cached_or_built ds none = ordered ds
  cached_or_built ds (some mws) = mws

  abbrev pub get_ordered : Registry M R → Registry M R × List (Middleware M R)
  get_ordered g =
      let mws : List (Middleware M R) = cached_or_built g.definitions g.instances in
      (record g { instances = some mws }, mws)

  abbrev pub registry_call : RegistryCall → Registry M R → Registry M R
  registry_call (register d) g = record g {
    definitions = g.definitions ++ d ∷ [];
    instances = none;
  }
  registry_call get_ordered_middlewares g = (get_ordered g).0
  registry_call clear g = record { definitions = []; instances = none }

  abbrev pub registry_calls : List RegistryCall → Registry M R → Registry M R
  registry_calls [] g = g
  registry_calls (c ∷ cs) g = registry_calls cs (registry_call c g)

  -- The cache holds the middlewares of the definitions, in their order.
  abbrev pub IsCached : Registry M R → Type 0
  IsCached g = (mws : List (Middleware M R)) → g.instances ≡ some mws → mws ≡ ordered g.definitions

  cached_or_built_lem :
      (ds : List MiddlewareDefinition) (o : Option (List (Middleware M R)))
      → ((mws : List (Middleware M R)) → o ≡ some mws → mws ≡ ordered ds)
      → cached_or_built ds o ≡ ordered ds
  cached_or_built_lem ds none cached = refl
  cached_or_built_lem ds (some mws) cached = cached mws refl

  registry_call-IsCached :
      (c : RegistryCall) (g : Registry M R) → IsCached g → IsCached (registry_call c g)
  registry_call-IsCached (register d) g cached mws here = cc
  registry_call-IsCached clear g cached mws here = cc
  registry_call-IsCached get_ordered_middlewares g cached mws here =
      let e = cached_or_built_lem g.definitions g.instances cached in cc

  registry_calls-IsCached :
      (cs : List RegistryCall) (g : Registry M R) → IsCached g → IsCached (registry_calls cs g)
  registry_calls-IsCached [] g cached = cached
  registry_calls-IsCached (c ∷ cs) g cached =
      registry_calls-IsCached cs (registry_call c g) (registry_call-IsCached c g cached)

  registry_calls-definitions :
      (cs : List RegistryCall) (g : Registry M R)
      → (registry_calls cs g).definitions ≡ registered cs g.definitions
  registry_calls-definitions [] g = refl
  registry_calls-definitions (register d ∷ cs) g =
      registry_calls-definitions cs (registry_call (register d) g)
  registry_calls-definitions (get_ordered_middlewares ∷ cs) g =
      registry_calls-definitions cs (registry_call get_ordered_middlewares g)
  registry_calls-definitions (clear ∷ cs) g = registry_calls-definitions cs (registry_call clear g)

  -- After any calls of the registry, cached or not, the pipeline is the handler inside of the
  -- middlewares of the definitions since the last `clear`: these stand from the outermost one in
  -- ascending priority, each definition once, and in the order of registration where the priorities
  -- are the same.
  pub pipeline_order :
      (cs : List RegistryCall) (h : M → R)
      → let ds : List MiddlewareDefinition = registered cs [] in
        let os : List MiddlewareDefinition = sort_by precedes ds in
        (build_pipeline (get_ordered (registry_calls cs (new_registry M R))).1 h
          ≡ nested (map build os) h)
        × IsSorted precedes os
        × Perm os ds
        × ((p : ℕ) → filter (λ d. d.priority == p) os ≡ filter (λ d. d.priority == p) ds)
  pipeline_order cs h =
      let g : Registry M R = registry_calls cs (new_registry M R) in
      let cached : IsCached g = registry_calls-IsCached cs (new_registry M R) (λ mws here. cc) in
      let os : (get_ordered g).1 ≡ ordered (registered cs []) =
        cached_or_built_lem g.definitions g.instances cached
        ∙ ap ordered (registry_calls-definitions cs (new_registry M R)) in
      (
        build_pipeline_lem ((get_ordered g).1) h ∙ ap (λ mws. nested mws h) os,
        sort_by-IsSorted precedes precedes_total precedes_trans (registered cs []),
        sort_by-perm precedes (registered cs []),
        λ p. filter-sort_by precedes (λ d. d.priority == p) (tied p) (registered cs []),
      )
