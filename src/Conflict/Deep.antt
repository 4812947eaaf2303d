-- ===== src/Conflict/Deep.antt =====
-- `DeepMergeStrategy` of conflict/resolution.py, in packages/advanced/src/cqrs_ddd_advanced_core, with
-- a function that identifies the items of lists, or none.
pub mod Paths
use cqrs_ddd.Common.{ℕ, true, false, Bool, Option, [], some, ◌∷◌}
use cqrs_ddd.Common.Dict.{Dict, insert, lookup}
use mathlib.Core.Option.{none}

-- Data: a value that is neither a list nor a dictionary is opaque.
mutual
  pub data Value : Type 0 where
    atom : ℕ → Value
    listing : Values → Value
    dictionary : Fields → Value

  pub data Values : Type 0 where
    no_items : Values
    item : Value → Values → Values

  pub data Fields : Type 0 where
    no_fields : Fields
    entry : ℕ → Value → Fields → Fields

pub record DeepMergeStrategy : Type 0 where
  pub append_lists : Bool
  pub list_identity_key : Option (Value → ℕ)

abbrev pub dict_of : Fields → Dict Value
dict_of no_fields = []
dict_of (entry k v f) = (k, v) ∷ dict_of f

abbrev pub fields_of : Dict Value → Fields
fields_of [] = no_fields
fields_of ((k, v) ∷ d) = entry k v (fields_of d)

-- `list(result_map.values())`
abbrev pub values_of : Dict Value → Values
values_of [] = no_items
values_of ((k, v) ∷ d) = item v (values_of d)

abbrev pub append_items : Values → Values → Values
append_items no_items ys = ys
append_items (item x xs) ys = item x (append_items xs ys)

-- `{self._get_identity(item): item for item in l1}`
abbrev pub index : (Value → ℕ) → Values → Dict Value → Dict Value
index identity no_items d = d
index identity (item x xs) d = index identity xs (insert (identity x) x d)

-- The value under a key, merged with the incoming one where it is there.
abbrev pub merged_with : (Value → Value) → Value → Option Value → Value
merged_with merge_into v none = v
merged_with merge_into v (some e) = merge_into e

abbrev pub merge_at : ℕ → (Value → Value) → Value → Dict Value → Dict Value
merge_at k merge_into v d = insert k (merged_with merge_into v (lookup k d)) d

abbrev pub joined : Bool → Values → Values → Values
joined true xs ys = append_items xs ys
joined false xs ys = ys

module _ (s : DeepMergeStrategy) where
  -- `_merge_lists`, with what the loop over the incoming items does.
  abbrev pub merge_lists :
      Option (Value → ℕ) → ((Value → ℕ) → Dict Value → Dict Value) → Values → Values → Values
  merge_lists none loop l1 l2 = joined s.append_lists l1 l2
  merge_lists (some identity) loop l1 l2 = values_of (loop identity (index identity l1 []))

  unfoldable mutual
    -- `merge`, the incoming value first.
    pub merge : (incoming existing : Value) → Value
    merge (atom n) e = atom n
    merge (dictionary f) e = elim e [
      | dictionary d ↦ dictionary (fields_of (merge_dicts f (dict_of d)))
      | _ ↦ dictionary f
    ]
    merge (listing l2) e = elim e [
      | listing l1 ↦ listing (merge_lists s.list_identity_key (merge_items l2) l1 l2)
      | _ ↦ listing l2
    ]

    -- The loop of `_merge_dicts`.
    pub merge_dicts : Fields → Dict Value → Dict Value
    merge_dicts no_fields d = d
    merge_dicts (entry k v f) d = merge_dicts f (merge_at k (merge v) v d)

    -- The loop of `_merge_lists`.
    pub merge_items : Values → (Value → ℕ) → Dict Value → Dict Value
    merge_items no_items identity d = d
    merge_items (item x xs) identity d =
        merge_items xs identity (merge_at (identity x) (merge x) x d)
