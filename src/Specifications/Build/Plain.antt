-- ===== src/Specifications/Build/Plain.antt =====
-- Which data the construction of `SpecificationFactory` handles, and what it may return.
use cqrs_ddd.Common.{ℕ, List, Option, ◌≡◌, true, none, some}
use cqrs_ddd.Specifications.{
  Spec, Specs, attribute, and_spec, or_spec, not_spec, nil, cons, allows, dict, connective,
  operator, unknown, and_op, or_op, not_op, Node, Nodes, Children, under, absent, null, not_a_list,
  listed, item, end, missing, given, other,
}

-- Every attribute of the specification is allowed.
abbrev mutual
  pub UsesAllowed : Option (List ℕ) → Spec → Type 0
  UsesAllowed allowed (attribute attr op val) = allows allowed attr ≡ true
  UsesAllowed allowed (and_spec ss) = AllUseAllowed allowed ss
  UsesAllowed allowed (or_spec ss) = AllUseAllowed allowed ss
  UsesAllowed allowed (not_spec s) = UsesAllowed allowed s

  pub AllUseAllowed : Option (List ℕ) → Specs → Type 0
  AllUseAllowed allowed nil = Unit {0}
  AllUseAllowed allowed (cons s ss) = UsesAllowed allowed s × AllUseAllowed allowed ss

-- AND and OR stand over a list of conditions, and a node with an empty list of conditions has no
-- `condition`.
abbrev mutual
  pub IsPlain : Node → Type 0
  IsPlain other = Unit {0}
  IsPlain (dict (some (connective and_op)) attr val value_type kids) = PlainList kids
  IsPlain (dict (some (connective or_op)) attr val value_type kids) = PlainList kids
  IsPlain (dict (some (connective not_op)) attr val value_type kids) = PlainChildren kids
  IsPlain (dict (some (operator o)) attr val value_type kids) = Unit {0}
  IsPlain (dict (some (unknown u)) attr val value_type kids) = Unit {0}
  IsPlain (dict none attr val value_type kids) = Unit {0}

  pub PlainList : Children → Type 0
  PlainList (under (listed (item n ns)) c) = IsPlain n × ArePlain ns
  PlainList (under (listed end) (given n)) = ⊥
  PlainList (under (listed end) missing) = Unit {0}
  PlainList (under absent missing) = Unit {0}
  PlainList (under absent (given n)) = ⊥
  PlainList (under null missing) = Unit {0}
  PlainList (under null (given n)) = ⊥
  PlainList (under not_a_list c) = Unit {0}

  pub PlainChildren : Children → Type 0
  PlainChildren (under (listed (item n ns)) c) = IsPlain n × ArePlain ns
  PlainChildren (under (listed end) (given n)) = ⊥
  PlainChildren (under (listed end) missing) = Unit {0}
  PlainChildren (under absent missing) = Unit {0}
  PlainChildren (under absent (given n)) = IsPlain n
  PlainChildren (under null missing) = Unit {0}
  PlainChildren (under null (given n)) = IsPlain n
  PlainChildren (under not_a_list c) = Unit {0}

  pub ArePlain : Nodes → Type 0
  ArePlain end = Unit {0}
  ArePlain (item n ns) = IsPlain n × ArePlain ns
