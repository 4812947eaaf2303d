-- ===== src/Conflict/Deep/Paths.antt =====
-- A deep merge along paths of keys: `DeepMergeStrategy` of conflict/resolution.py, in
-- packages/advanced/src/cqrs_ddd_advanced_core.
use cqrs_ddd.Common.{
  ℕ, refl, true, false, Bool, List, Option, some, ◌∷◌, none, ◌≡◌, ap, Bool-cases, ◌==◌, inl, inr,
  ◌∙◌, subst, if◌then◌else◌, ==_iff, ==_refl,
}
use cqrs_ddd.Conflict.Deep.{
  Value, Fields, atom, listing, dictionary, no_fields, entry, DeepMergeStrategy, dict_of, merge,
  merge_dicts, fields_of, merged_with, merge_at,
}
use cqrs_ddd.Common.Dict.{Dict, IsUnique, lookup, lookup-insert, lookup-insert_self}
use mathlib.Core.List.{[]}

-- A path goes on from the value under its first key.
abbrev pub get_from : (Value → Option Value) → Option Value → Option Value
get_from rest none = none
get_from rest (some v) = rest v

-- The value at the end of a path of keys.
abbrev pub get : List ℕ → Value → Option Value
get [] v = some v
get (k ∷ ks) (atom n) = none
get (k ∷ ks) (listing l) = none
get (k ∷ ks) (dictionary f) = get_from (get ks) (lookup k (dict_of f))

abbrev pub leaves_from : (Value → Bool) → Option Value → Bool
leaves_from rest none = true
leaves_from rest (some v) = rest v

-- The path leads through dictionaries to a key that is not there.
abbrev pub leaves : List ℕ → Value → Bool
leaves [] v = false
leaves (k ∷ ks) (atom n) = false
leaves (k ∷ ks) (listing l) = false
leaves (k ∷ ks) (dictionary f) = leaves_from (leaves ks) (lookup k (dict_of f))

-- No dictionary on a path has a key twice.
unfoldable mutual
  pub IsKeyed : Value → Type 0
  IsKeyed (atom n) = Unit
  IsKeyed (listing l) = Unit
  IsKeyed (dictionary f) = IsUnique (dict_of f) × AllKeyed f

  pub AllKeyed : Fields → Type 0
  AllKeyed no_fields = Unit
  AllKeyed (entry k v f) = IsKeyed v × AllKeyed f

dict_of-fields_of : (d : Dict Value) → dict_of (fields_of d) ≡ d
dict_of-fields_of [] = refl
dict_of-fields_of ((k, v) ∷ d) = ap (λ e. (k, v) ∷ e) (dict_of-fields_of d)

lookup-AllKeyed :
    (f : Fields) (k : ℕ) (v : Value) → AllKeyed f → lookup k (dict_of f) ≡ some v → IsKeyed v
unfolding IsKeyed
lookup-AllKeyed no_fields k v all here = cc
lookup-AllKeyed (entry j w f) k v all here = elim (Bool-cases (j == k)) [
  | inl e ↦
      let same : ◌≡◌ {A = Option Value} (some w) (some v) = rw e at here in
      let q : w ≡ v = cc in subst IsKeyed q all.0
  | inr e ↦ lookup-AllKeyed f k v all.1 (rw e at here)
]

leaves_from-get_from :
    (g : Value → Option Value) (l : Value → Bool)
    → ((v : Value) → l v ≡ true → g v ≡ none)
    → (o : Option Value) → leaves_from l o ≡ true
    → get_from g o ≡ none
leaves_from-get_from g l h none k = refl
leaves_from-get_from g l h (some v) k = h v k

leaves-get : (ks : List ℕ) (v : Value) → leaves ks v ≡ true → get ks v ≡ none
leaves-get [] v h = cc
leaves-get (k ∷ ks) (atom n) h = refl
leaves-get (k ∷ ks) (listing l) h = refl
leaves-get (k ∷ ks) (dictionary f) h =
    leaves_from-get_from (get ks) (leaves ks) (λ v. leaves-get ks v) (lookup k (dict_of f)) h

module _ (s : DeepMergeStrategy) where
  -- The value under a key after the merge of an incoming dictionary.
  abbrev pub resolved : (incoming existing : Option Value) → Option Value
  resolved none e = e
  resolved (some v) e = some (merged_with (merge s v) v e)

  lookup-merge_dicts :
      (f : Fields) (d : Dict Value) (j : ℕ)
      → IsUnique (dict_of f)
      → lookup j (merge_dicts s f d) ≡ resolved (lookup j (dict_of f)) (lookup j d)
  unfolding merge_dicts
  lookup-merge_dicts no_fields d j u = refl
  lookup-merge_dicts (entry k v f) d j u =
      let next = merge_at k (merge s v) v d in
      let rest = lookup-merge_dicts f next j u.1 in
      let here = lookup-insert k j (merged_with (merge s v) v (lookup k d)) d in
      elim (Bool-cases (k == j)) [
        | inl e ↦
            subst
              (λ n.
                lookup n (merge_dicts s f next)
                ≡ resolved (if k == n then some v else lookup n (dict_of f)) (lookup n d))
              ((==_iff k j).0 e)
              (rw (==_refl k) (
                lookup-merge_dicts f next k u.1
                ∙ rw u.0 (lookup-insert_self k (merged_with (merge s v) v (lookup k d)) d)))
        | inr e ↦ rw e (rest ∙ ap (resolved (lookup j (dict_of f))) (here ∙ rw e refl))
      ]

  -- What a merge does to a path.
  abbrev pub Merges : (ks : List ℕ) (i : Option Value) (m e : Option Value) → Type 0
  Merges ks i m e =
      ((n : ℕ) → get_from (get ks) i ≡ some (atom n) → get_from (get ks) m ≡ some (atom n))
      × (leaves_from (leaves ks) i ≡ true → get_from (get ks) m ≡ get_from (get ks) e)

  resolved-Merges :
      (ks : List ℕ) (i e : Option Value)
      → ((v w : Value) → i ≡ some v → Merges ks (some v) (some (merge s v w)) (some w))
      → Merges ks i (resolved i e) e
  resolved-Merges ks none e h = ((λ n k. cc), λ _. refl)
  resolved-Merges ks (some v) none h = ((λ n k. k), λ k. leaves-get ks v k)
  resolved-Merges ks (some v) (some w) h = h v w refl

  -- After a merge, a path that ends at an opaque value in the incoming data ends at that value, and a
  -- path that leaves the incoming data at a missing key leads to what it leads to in the existing
  -- data.
  pub get-merge :
      (ks : List ℕ) (i e : Value)
      → IsKeyed i
      → ((n : ℕ) → get ks i ≡ some (atom n) → get ks (merge s i e) ≡ some (atom n))
        × (leaves ks i ≡ true → get ks (merge s i e) ≡ get ks e)
  unfolding merge IsKeyed
  get-merge [] (atom n) e keyed = ((λ m h. h), λ h. cc)
  get-merge [] (listing l) e keyed = ((λ m h. cc), λ h. cc)
  get-merge [] (dictionary f) e keyed = ((λ m h. cc), λ h. cc)
  get-merge (k ∷ ks) (atom n) e keyed = ((λ m h. cc), λ h. cc)
  get-merge (k ∷ ks) (listing l) e keyed = ((λ m h. cc), λ h. cc)
  get-merge (k ∷ ks) (dictionary f) (atom n) keyed =
      ((λ m h. h), λ h. leaves-get (k ∷ ks) (dictionary f) h)
  get-merge (k ∷ ks) (dictionary f) (listing l) keyed =
      ((λ m h. h), λ h. leaves-get (k ∷ ks) (dictionary f) h)
  get-merge (k ∷ ks) (dictionary f) (dictionary d) keyed =
      let at_key : Merges ks (lookup k (dict_of f))
          (resolved (lookup k (dict_of f)) (lookup k (dict_of d))) (lookup k (dict_of d)) =
        resolved-Merges ks (lookup k (dict_of f)) (lookup k (dict_of d))
          (λ v w here. get-merge ks v w (lookup-AllKeyed f k v keyed.1 here)) in
      rw
        (
          dict_of-fields_of (merge_dicts s f (dict_of d)),
          lookup-merge_dicts f (dict_of d) k keyed.0,
        )
        at_key
