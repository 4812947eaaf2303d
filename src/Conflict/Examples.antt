-- ===== src/Conflict/Examples.antt =====
-- The merges at small dictionaries.
use cqrs_ddd.Common.{ℕ, refl, true, false, some, ◌≡◌, [], ◌∷◌}
use cqrs_ddd.Conflict.FieldLevel.{merge, lookup-merge, FieldLevelMergeStrategy}
use cqrs_ddd.Conflict.Deep.{
  Value, atom, listing, dictionary, no_fields, entry, no_items, item, DeepMergeStrategy,
}
use cqrs_ddd.Common.Dict.{Dict, lookup}
use cqrs_ddd.Conflict.Deep.Paths.{IsKeyed, get, get-merge}
use cqrs_ddd.Conflict.Deep

-- Conflicts are ignored, and the field 4 is left out.
abbrev cautious : FieldLevelMergeStrategy
cautious = record { ignore_conflicts = true; include_fields = []; exclude_fields = 4 ∷ [] }

abbrev kept : Dict ℕ
kept = (1, 10) ∷ (2, 20) ∷ []

abbrev coming : Dict ℕ
coming = (2, 21) ∷ (3, 31) ∷ (4, 41) ∷ []

merged : merge cautious kept coming ≡ (1, 10) ∷ (2, 20) ∷ (3, 31) ∷ []
merged = refl

lookup-merge_example : lookup 3 (merge cautious kept coming) ≡ some 31
lookup-merge_example = lookup-merge cautious kept coming 3 (refl, (refl, (refl, tt)))

-- Items are identified by their field 1.
abbrev identity : Value → ℕ
identity (atom n) = n
identity (listing l) = 0
identity (dictionary no_fields) = 0
identity (dictionary (entry k (atom n) f)) = n
identity (dictionary (entry k (listing l) f)) = 0
identity (dictionary (entry k (dictionary g) f)) = 0

abbrev by_identity : DeepMergeStrategy
by_identity = record { append_lists = false; list_identity_key = some identity }

-- A person with a name 10 and a street 20, and a list of two items.
abbrev existing : Value
existing = dictionary (
    entry 1 (atom 10) (
      entry 2 (dictionary (entry 3 (atom 20) no_fields))
        (entry 5 (listing (item (atom 7) (item (atom 8) no_items))) no_fields)))

-- Another street, a new town, and two items of which one is there.
abbrev incoming : Value
incoming = dictionary (
    entry 2 (dictionary (entry 3 (atom 21) (entry 4 (atom 30) no_fields)))
      (entry 5 (listing (item (atom 8) (item (atom 9) no_items))) no_fields))

deeply_merged :
    Deep.merge by_identity incoming existing
    ≡ dictionary (
        entry 1 (atom 10) (
          entry 2
            (dictionary (entry 3 (atom 21) (entry 4 (atom 30) no_fields)))
            (entry 5 (listing (item (atom 7) (item (atom 8) (item (atom 9) no_items)))) no_fields)))
unfolding Deep.merge
deeply_merged = refl

incoming-IsKeyed : IsKeyed incoming
unfolding IsKeyed
incoming-IsKeyed = ((refl, (refl, tt)), (((refl, (refl, tt)), (tt, (tt, tt))), (tt, tt)))

get-merge_example :
    ((n : ℕ)
      → some (atom 21) ≡ some (atom n)
      → get (2 ∷ 3 ∷ []) (Deep.merge by_identity incoming existing) ≡ some (atom n))
    × (false ≡ true → get (2 ∷ 3 ∷ []) (Deep.merge by_identity incoming existing) ≡ some (atom 20))
get-merge_example = get-merge by_identity (2 ∷ 3 ∷ []) incoming existing incoming-IsKeyed
