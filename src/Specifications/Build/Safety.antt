-- ===== src/Specifications/Build/Safety.antt =====
-- The whitelist of fields in `from_dict`.
use cqrs_ddd.Specifications.Build.Plain.{
  IsPlain, PlainList, PlainChildren, ArePlain, UsesAllowed, AllUseAllowed,
}
use cqrs_ddd.Common.{ℕ, List, Option, refl, ◌≡◌, true, not, none, some, Bool, [], ◌∷◌, ◌+◌}
use cqrs_ddd.Common.Outcome.{Outcome, ok, raise, raise_if, ◌>>◌, ◌>>=◌}
use cqrs_ddd.Specifications.{
  Spec, Specs, attribute, and_spec, or_spec, not_spec, cons, allows, Fault, dict, connective,
  operator, unknown, and_op, or_op, not_op, Node, Nodes, Children, under, absent, null, not_a_list,
  listed, item, end, missing, given, other, Operator, validate_node, Step, validate_logical, index,
  only, validate_nodes,
}
use cqrs_ddd.Specifications.Build.{
  FactoryError, fault, cast_raised, crash, cast_leaf, from_dict, with_fault, build,
  build_conditions, build_negated, build_each,
}
use mathlib.Core.Bool.{false}

-- An exception comes of the validation, or out of a cast of some value, and what is returned uses
-- allowed attributes.
abbrev pub Sound : (cast : ℕ → ℕ → Option ℕ) → Option (List ℕ) → Outcome FactoryError Spec → Type 0
Sound cast allowed (ok s) = UsesAllowed allowed s
Sound cast allowed (raise crash) = ⊥
Sound cast allowed (raise cast_raised) = (val : ℕ) × (type : ℕ) × (cast val type ≡ none)
Sound cast allowed (raise (fault f)) = Unit {0}

abbrev AllSound : (cast : ℕ → ℕ → Option ℕ) → Option (List ℕ) → Outcome FactoryError Specs → Type 0
AllSound cast allowed (ok ss) = AllUseAllowed allowed ss
AllSound cast allowed (raise crash) = ⊥
AllSound cast allowed (raise cast_raised) = (val : ℕ) × (type : ℕ) × (cast val type ≡ none)
AllSound cast allowed (raise (fault f)) = Unit {0}

both_ok : (m k : Outcome Fault (Unit {0})) → (m >> k) ≡ ok tt → (m ≡ ok tt) × (k ≡ ok tt)
both_ok (ok tt) k h = (refl, h)
both_ok (raise e) k h = cc

and_Sound :
    (cast : ℕ → ℕ → Option ℕ) (allowed : Option (List ℕ)) (r : Outcome FactoryError Specs)
    → AllSound cast allowed r
    → Sound cast allowed (r >>= λ ss. ok (and_spec ss))
and_Sound cast allowed (ok ss) h = h
and_Sound cast allowed (raise crash) h = h
and_Sound cast allowed (raise cast_raised) h = h
and_Sound cast allowed (raise (fault f)) h = h

or_Sound :
    (cast : ℕ → ℕ → Option ℕ) (allowed : Option (List ℕ)) (r : Outcome FactoryError Specs)
    → AllSound cast allowed r
    → Sound cast allowed (r >>= λ ss. ok (or_spec ss))
or_Sound cast allowed (ok ss) h = h
or_Sound cast allowed (raise crash) h = h
or_Sound cast allowed (raise cast_raised) h = h
or_Sound cast allowed (raise (fault f)) h = h

not-Sound :
    (cast : ℕ → ℕ → Option ℕ) (allowed : Option (List ℕ)) (r : Outcome FactoryError Spec)
    → Sound cast allowed r
    → Sound cast allowed (r >>= λ s. ok (not_spec s))
not-Sound cast allowed (ok ss) h = h
not-Sound cast allowed (raise crash) h = h
not-Sound cast allowed (raise cast_raised) h = h
not-Sound cast allowed (raise (fault f)) h = h

cons_ok :
    (cast : ℕ → ℕ → Option ℕ) (allowed : Option (List ℕ)) (s : Spec)
    (rs : Outcome FactoryError Specs)
    → UsesAllowed allowed s
    → AllSound cast allowed rs
    → AllSound cast allowed (rs >>= λ ss. ok (cons s ss))
cons_ok cast allowed s (ok ss) h hs = (h, hs)
cons_ok cast allowed s (raise crash) h hs = hs
cons_ok cast allowed s (raise cast_raised) h hs = hs
cons_ok cast allowed s (raise (fault f)) h hs = hs

cons-Sound :
    (cast : ℕ → ℕ → Option ℕ) (allowed : Option (List ℕ)) (r : Outcome FactoryError Spec)
    (rs : Outcome FactoryError Specs)
    → Sound cast allowed r
    → AllSound cast allowed rs
    → AllSound cast allowed (r >>= λ s. rs >>= λ ss. ok (cons s ss))
cons-Sound cast allowed (ok s) rs h hs = cons_ok cast allowed s rs h hs
cons-Sound cast allowed (raise crash) rs h hs = h
cons-Sound cast allowed (raise cast_raised) rs h hs = h
cons-Sound cast allowed (raise (fault f)) rs h hs = h

leaf-Sound :
    (cast : ℕ → ℕ → Option ℕ) (allowed : Option (List ℕ)) (attr val type : ℕ) (op : Operator)
    (v : Option ℕ)
    → allows allowed attr ≡ true
    → cast val type ≡ v
    → Sound cast allowed (cast_leaf attr op v)
leaf-Sound cast allowed attr val type op none h c = (val, type, c)
leaf-Sound cast allowed attr val type op (some v) h c = h

allowed_of_ok : (b : Bool) (f : Fault) → raise_if (not b) f ≡ ok tt → b ≡ true
allowed_of_ok true f h = refl
allowed_of_ok false f h = cc

module _ (cast : ℕ → ℕ → Option ℕ) (allowed : Option (List ℕ)) where
  mutual
    unfolding validate_node build

    node-Sound :
        (path : List Step) (n : Node)
        → IsPlain n
        → validate_node allowed path n ≡ ok tt
        → Sound cast allowed (build cast n)
    node-Sound path other p h = cc
    node-Sound path (dict none attr val value_type kids) p h = cc
    node-Sound path (dict (some (connective and_op)) attr val value_type kids) p h =
        and_Sound cast allowed (build_conditions cast kids) (list_sound path kids p h)
    node-Sound path (dict (some (connective or_op)) attr val value_type kids) p h =
        or_Sound cast allowed (build_conditions cast kids) (list_sound path kids p h)
    node-Sound path (dict (some (connective not_op)) attr val value_type kids) p h =
        not-Sound cast allowed (build_negated cast kids) (negated-Sound path kids p h)
    node-Sound path (dict (some (operator o)) none val value_type kids) p h = cc
    node-Sound path (dict (some (operator o)) (some attr) val none kids) p h =
        allowed_of_ok (allows allowed attr) _ h
    node-Sound path (dict (some (operator o)) (some attr) val (some t) kids) p h =
        leaf-Sound cast allowed attr val t o (cast val t) (allowed_of_ok (allows allowed attr) _ h)
          refl
    node-Sound path (dict (some (unknown u)) attr val value_type kids) p h = cc

    list_sound :
        (path : List Step) (kids : Children)
        → PlainList kids
        → validate_logical allowed path kids ≡ ok tt
        → AllSound cast allowed (build_conditions cast kids)
    list_sound path (under (listed (item n ns)) c) p h =
        let both = both_ok (validate_node allowed (index 0 ∷ path) n) _ h in
        cons-Sound cast allowed (build cast n) (build_each cast ns)
          (node-Sound (index 0 ∷ path) n p.0 both.0) (each_sound path 1 ns p.1 both.1)
    list_sound path (under (listed end) (given n)) p h = absurd p
    list_sound path (under (listed end) missing) p h = cc
    list_sound path (under absent missing) p h = cc
    list_sound path (under absent (given n)) p h = absurd p
    list_sound path (under null missing) p h = cc
    list_sound path (under null (given n)) p h = absurd p
    list_sound path (under not_a_list c) p h = cc

    negated-Sound :
        (path : List Step) (kids : Children)
        → PlainChildren kids
        → validate_logical allowed path kids ≡ ok tt
        → Sound cast allowed (build_negated cast kids)
    negated-Sound path (under (listed (item n ns)) c) p h =
        node-Sound (index 0 ∷ path) n p.0 (both_ok (validate_node allowed (index 0 ∷ path) n) _ h).0
    negated-Sound path (under (listed end) (given n)) p h = absurd p
    negated-Sound path (under (listed end) missing) p h = cc
    negated-Sound path (under absent missing) p h = cc
    negated-Sound path (under absent (given n)) p h = node-Sound (only ∷ path) n p h
    negated-Sound path (under null missing) p h = cc
    negated-Sound path (under null (given n)) p h = node-Sound (only ∷ path) n p h
    negated-Sound path (under not_a_list c) p h = cc

    each_sound :
        (path : List Step) (i : ℕ) (ns : Nodes)
        → ArePlain ns
        → validate_nodes allowed path i ns ≡ ok tt
        → AllSound cast allowed (build_each cast ns)
    each_sound path i end p h = tt
    each_sound path i (item n ns) p h =
        let both = both_ok (validate_node allowed (index i ∷ path) n) _ h in
        cons-Sound cast allowed (build cast n) (build_each cast ns)
          (node-Sound (index i ∷ path) n p.0 both.0) (each_sound path (i + 1) ns p.1 both.1)

with_fault-Sound :
    (cast : ℕ → ℕ → Option ℕ) (allowed : Option (List ℕ)) (r : Outcome Fault (Unit {0}))
    (b : Outcome FactoryError Spec)
    → (r ≡ ok tt → Sound cast allowed b)
    → Sound cast allowed (with_fault r b)
with_fault-Sound cast allowed (ok tt) b h = h refl
with_fault-Sound cast allowed (raise f) b h = tt

-- Where AND and OR stand over lists and no node has a `condition` beside an empty list, `from_dict`
-- raises a fault of the validation, or an exception that a cast lets escape, which some cast then
-- does, and no other exception; or it returns a specification whose every attribute is on the
-- whitelist.
pub from_dict-Sound :
    (cast : ℕ → ℕ → Option ℕ) (allowed : Option (List ℕ)) (n : Node)
    → IsPlain n
    → Sound cast allowed (from_dict cast allowed n)
unfolding from_dict
from_dict-Sound cast allowed n p =
    with_fault-Sound cast allowed _ (build cast n) (node-Sound cast allowed [] n p)

-- A NOT with an empty list of conditions and a leaf under `condition` is accepted whatever
-- attribute the leaf names, so that the whitelist does not hold for it.
from_dict_bypass :
    (cast : ℕ → ℕ → Option ℕ) (allowed : Option (List ℕ)) (attr val : ℕ) (op : Operator)
    → from_dict cast allowed (
        dict (some (connective not_op)) none 0 none (
          under
            (listed end)
            (given (dict (some (operator op)) (some attr) val none (under absent missing)))))
      ≡ ok (not_spec (attribute attr op val))
unfolding from_dict validate_node build
from_dict_bypass cast allowed attr val op = refl
