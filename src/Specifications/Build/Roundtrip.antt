-- ===== src/Specifications/Build/Roundtrip.antt =====
-- `to_dict` and `from_dict`: what a specification is written as is parsed back.
use cqrs_ddd.Common.{ℕ, List, Option, refl, ◌≡◌, [], ◌∷◌, ◌+◌, true}
use cqrs_ddd.Common.Outcome.{ok}
use cqrs_ddd.Specifications.{
  Spec, Specs, attribute, and_spec, or_spec, not_spec, nil, cons, allows, to_dict, to_dicts,
  validate_node, validate_nodes, Step, index,
}
use cqrs_ddd.Specifications.Build.{build, build_each, from_dict}

-- The groups AND and OR have a member, and the attributes are allowed.
abbrev mutual
  pub Parses : Option (List ℕ) → Spec → Type 0
  Parses allowed (attribute attr op val) = allows allowed attr ≡ true
  Parses allowed (and_spec nil) = ⊥
  Parses allowed (and_spec (cons s ss)) = Parses allowed s × AllParse allowed ss
  Parses allowed (or_spec nil) = ⊥
  Parses allowed (or_spec (cons s ss)) = Parses allowed s × AllParse allowed ss
  Parses allowed (not_spec s) = Parses allowed s

  pub AllParse : Option (List ℕ) → Specs → Type 0
  AllParse allowed nil = Unit {0}
  AllParse allowed (cons s ss) = Parses allowed s × AllParse allowed ss

mutual
  unfolding validate_node to_dict

  to_dict_valid :
      (allowed : Option (List ℕ)) (path : List Step) (s : Spec)
      → Parses allowed s
      → validate_node allowed path (to_dict s) ≡ ok tt
  to_dict_valid allowed path (attribute attr op val) h = rw h
  to_dict_valid allowed path (and_spec nil) h = absurd h
  to_dict_valid allowed path (and_spec (cons s ss)) h =
      rw (to_dict_valid allowed (index 0 ∷ path) s h.0) (to_dicts_valid allowed path 1 ss h.1)
  to_dict_valid allowed path (or_spec nil) h = absurd h
  to_dict_valid allowed path (or_spec (cons s ss)) h =
      rw (to_dict_valid allowed (index 0 ∷ path) s h.0) (to_dicts_valid allowed path 1 ss h.1)
  to_dict_valid allowed path (not_spec s) h = rw (to_dict_valid allowed (index 0 ∷ path) s h)

  to_dicts_valid :
      (allowed : Option (List ℕ)) (path : List Step) (i : ℕ) (ss : Specs)
      → AllParse allowed ss
      → validate_nodes allowed path i (to_dicts ss) ≡ ok tt
  to_dicts_valid allowed path i nil h = refl
  to_dicts_valid allowed path i (cons s ss) h =
      rw (to_dict_valid allowed (index i ∷ path) s h.0) (to_dicts_valid allowed path (i + 1) ss h.1)

mutual
  unfolding build to_dict

  build-to_dict : (cast : ℕ → ℕ → Option ℕ) (s : Spec) → build cast (to_dict s) ≡ ok s
  build-to_dict cast (attribute attr op val) = refl
  build-to_dict cast (and_spec ss) = rw (build_each-to_dicts cast ss)
  build-to_dict cast (or_spec ss) = rw (build_each-to_dicts cast ss)
  build-to_dict cast (not_spec s) = rw (build-to_dict cast s)

  build_each-to_dicts :
      (cast : ℕ → ℕ → Option ℕ) (ss : Specs) → build_each cast (to_dicts ss) ≡ ok ss
  build_each-to_dicts cast nil = refl
  build_each-to_dicts cast (cons s ss) = rw (build-to_dict cast s, build_each-to_dicts cast ss)

-- What `to_dict` writes of a specification, `from_dict` reads back as that specification, where its
-- attributes are allowed and none of its AND and OR groups is empty.
pub from_dict-to_dict :
    (cast : ℕ → ℕ → Option ℕ) (allowed : Option (List ℕ)) (s : Spec)
    → Parses allowed s
    → from_dict cast allowed (to_dict s) ≡ ok s
unfolding from_dict
from_dict-to_dict cast allowed s h = rw (to_dict_valid allowed [] s h) (build-to_dict cast s)
