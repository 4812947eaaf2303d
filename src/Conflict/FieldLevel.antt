-- ===== src/Conflict/FieldLevel.antt =====
-- `FieldLevelMergeStrategy` and `TimestampLastWinsStrategy` of conflict/resolution.py, in
-- packages/advanced/src/cqrs_ddd_advanced_core.
use cqrs_ddd.Common.{
  ℕ, refl, false, Bool, Option, List, [], if◌then◌else◌, not, some, ◌∷◌, is_empty, is_some, ◌≡◌,
  ◌&&◌, ◌==◌, contains, ◌||◌, Bool-cases, inl, inr, subst, ==_iff, ==_refl, ◌∙◌, ap,
}
use cqrs_ddd.Common.Dict.{
  Dict, IsUnique, lookup, has_key, insert, lookup-insert, lookup-insert_self,
}
use mathlib.Core.Option.{none}

-- A set of fields that is missing or empty is no restriction.
pub record FieldLevelMergeStrategy : Type 0 where
  pub ignore_conflicts : Bool
  pub include_fields : List ℕ
  pub exclude_fields : List ℕ

-- The tests of the loop of `merge` that skip a key, on what was merged so far.
abbrev pub skips : FieldLevelMergeStrategy → ℕ → (is_merged : Bool) → Bool
skips s k here =
    (not (is_empty s.include_fields) && not (contains s.include_fields k))
    || contains s.exclude_fields k
    || (here && s.ignore_conflicts)

module _ {ℓ} {V : Type ℓ} (s : FieldLevelMergeStrategy) where
  abbrev pub merge_field : ℕ → V → Dict V → Dict V
  merge_field k v merged = if skips s k (has_key k merged) then merged else insert k v merged

  -- The loop of `merge`.
  abbrev pub merge_fields : Dict V → Dict V → Dict V
  merge_fields [] merged = merged
  merge_fields ((k, v) ∷ incoming) merged = merge_fields incoming (merge_field k v merged)

  abbrev pub merge : (existing incoming : Dict V) → Dict V
  merge existing incoming = merge_fields incoming existing

  -- The value that a key has after the merge.
  abbrev pub resolved : ℕ → (existing incoming : Option V) → Option V
  resolved k e none = e
  resolved k e (some v) = if skips s k (is_some e) then e else some v

  -- A merged key.
  lookup-merge_field_self :
      (k : ℕ) (v : V) (merged : Dict V)
      → lookup k (merge_field k v merged) ≡ resolved k (lookup k merged) (some v)
  lookup-merge_field_self k v merged = elim (Bool-cases (skips s k (has_key k merged))) [
    | inl e ↦ rw (e) refl
    | inr e ↦ rw (e) (lookup-insert_self k v merged)
  ]

  lookup-merge_field_other :
      (k j : ℕ) (v : V) (merged : Dict V)
      → (k == j) ≡ false
      → lookup j (merge_field k v merged) ≡ lookup j merged
  lookup-merge_field_other k j v merged h = elim (Bool-cases (skips s k (has_key k merged))) [
    | inl e ↦ rw e refl
    | inr e ↦ rw e (lookup-insert k j v merged ∙ rw h refl)
  ]

  -- A merge gives each key the incoming value, if there is one and the strategy does not skip the key,
  -- and else the existing value, if there is one.
  pub lookup-merge :
      (existing incoming : Dict V) (j : ℕ)
      → IsUnique incoming
      → lookup j (merge existing incoming) ≡ resolved j (lookup j existing) (lookup j incoming)
  lookup-merge existing [] j u = refl
  lookup-merge existing ((k, v) ∷ incoming) j u = elim (Bool-cases (k == j)) [
    | inl e ↦
        subst
          (λ n.
            lookup n (merge existing ((k, v) ∷ incoming))
            ≡ resolved n (lookup n existing) (lookup n ((k, v) ∷ incoming)))
          ((==_iff k j).0 e)
          (rw (==_refl k) (
            lookup-merge (merge_field k v existing) incoming k u.1
            ∙ rw u.0 (lookup-merge_field_self k v existing)))
    | inr e ↦ rw e (
        lookup-merge (merge_field k v existing) incoming j u.1
        ∙ ap (λ o. resolved j o (lookup j incoming)) (lookup-merge_field_other k j v existing e))
  ]
