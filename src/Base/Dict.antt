-- ===== src/Base/Dict.antt =====
-- Maps from texts as association lists, for `DashMap` and `HashMap`, and sums of a weight over the
-- values of such a map.
use Prim.Native.Nat.{ℕ, ◌+◌, ◌≤◌}
use Prim.Native.String.{String}
use mathlib.Core.Path.{◌≡◌, refl, sym, ◌∙◌, subst, subst₂}
use mathlib.Core.Option.{Option, none, some, some-injective}
use mathlib.Core.Logic.{inl, inr}
use mathlib.Core.Bool.{false}
use mathlib.Core.List.{List, [], ◌∷◌}
use native.Mathlib.Omega.{arith}
use thoughtgate.Base.Tests.{Bool-cases, str_eq, str_eq→eq, str_eq_refl, if◌then◌else◌}

abbrev pub Dict {ℓ} : Type ℓ → Type ℓ
Dict V = List (String × V)

pub str_eq_sym : (k j : String) → str_eq k j ≡ false → str_eq j k ≡ false
str_eq_sym k j h = ground (arith, str_eq→eq j k, str_eq_refl k)

module _ {ℓ} {V : Type ℓ} where
  unfoldable pub lookup : String → Dict V → Option V
  lookup k [] = none
  lookup k ((j, v) ∷ d) = if str_eq j k then some v else lookup k d

  -- A new key goes to the end, an old one keeps its place.
  unfoldable pub insert : String → V → Dict V → Dict V
  insert k v [] = (k, v) ∷ []
  insert k v ((j, w) ∷ d) = if str_eq j k then (j, v) ∷ d else (j, w) ∷ insert k v d

  unfoldable pub erase : String → Dict V → Dict V
  erase k [] = []
  erase k ((j, v) ∷ d) = if str_eq j k then d else (j, v) ∷ erase k d

  pub lookup-insert :
      (k j : String) (v : V) (d : Dict V)
      → lookup j (insert k v d) ≡ (if str_eq k j then some v else lookup j d)
  unfolding lookup insert
  lookup-insert k j v [] = refl
  lookup-insert k j v ((i, w) ∷ d) = ground (
    arith,
    str_eq→eq i k,
    str_eq→eq i j,
    str_eq→eq k j,
    str_eq_refl j,
    str_eq_refl k,
    lookup-insert k j v d,
  )

  pub lookup-insert_self : (k : String) (v : V) (d : Dict V) → lookup k (insert k v d) ≡ some v
  lookup-insert_self k v d = simp (lookup-insert, str_eq_refl)

  -- The sum of a weight over the entries.
  unfoldable pub total : (V → ℕ) → Dict V → ℕ
  total w [] = 0
  total w ((_, v) ∷ d) = w v + total w d

  pub total-insert_new :
      (w : V → ℕ) (k : String) (v : V) (d : Dict V)
      → lookup k d ≡ none
      → total w (insert k v d) ≡ total w d + w v
  unfolding total insert lookup
  total-insert_new w k v [] h = omega arith
  total-insert_new w k v ((j, u) ∷ d) h = ground (arith, total-insert_new w k v d)

  pub total-insert_old :
      (w : V → ℕ) (k : String) (v u : V) (d : Dict V)
      → lookup k d ≡ some u
      → total w (insert k v d) + w u ≡ total w d + w v
  unfolding total insert lookup
  total-insert_old w k v u [] h = cc
  total-insert_old w k v u ((j, x) ∷ d) h = ground (arith, total-insert_old w k v u d)

  pub total-erase :
      (w : V → ℕ) (k : String) (v : V) (d : Dict V)
      → lookup k d ≡ some v
      → total w (erase k d) + w v ≡ total w d
  unfolding total erase lookup
  total-erase w k v [] h = cc
  total-erase w k v ((j, x) ∷ d) h = ground (arith, total-erase w k v d)

  pub le-total :
      (w : V → ℕ) (k : String) (v : V) (d : Dict V) → lookup k d ≡ some v → w v ≤ total w d
  unfolding total lookup
  le-total w k v [] h = cc
  le-total w k v ((j, x) ∷ d) h = ground (arith, le-total w k v d)

  -- A property of every entry of the map, with its key.
  abbrev pub AllEntries {κ} : (String → V → Type κ) → Dict V → Type κ
  AllEntries P [] = Unit
  AllEntries P ((k, v) ∷ d) = P k v × AllEntries P d

  pub AllEntries-lookup {κ} :
      (P : String → V → Type κ) (k : String) (v : V) (d : Dict V)
      → AllEntries P d
      → lookup k d ≡ some v
      → P k v
  unfolding lookup
  AllEntries-lookup P k v [] all h = cc
  AllEntries-lookup P k v ((j, x) ∷ d) all h = elim (Bool-cases (str_eq j k)) [
    | inl hit ↦ subst₂ P (str_eq→eq j k hit) (some-injective x v (rw (← h) (rw hit))) all.0
    | inr miss ↦ AllEntries-lookup P k v d all.1 (rw miss at h)
  ]

  pub AllEntries-insert {κ} :
      (P : String → V → Type κ) (k : String) (v : V) (d : Dict V)
      → AllEntries P d
      → P k v
      → AllEntries P (insert k v d)
  unfolding insert
  AllEntries-insert P k v [] all h = (h, tt)
  AllEntries-insert P k v ((j, x) ∷ d) all h = elim (Bool-cases (str_eq j k)) [
    | inl hit ↦ rw hit (subst (λ i. P i v) (sym (str_eq→eq j k hit)) h, all.1)
    | inr miss ↦ rw miss (all.0, AllEntries-insert P k v d all.1 h)
  ]

  pub AllEntries-erase {κ} :
      (P : String → V → Type κ) (k : String) (d : Dict V)
      → AllEntries P d
      → AllEntries P (erase k d)
  unfolding erase
  AllEntries-erase P k [] all = tt
  AllEntries-erase P k ((j, x) ∷ d) all = elim (Bool-cases (str_eq j k)) [
    | inl hit ↦ rw hit all.1
    | inr miss ↦ rw miss (all.0, AllEntries-erase P k d all.1)
  ]

  -- No key stands twice.
  abbrev pub IsDistinct : Dict V → Type ℓ
  IsDistinct [] = Unit
  IsDistinct ((k, _) ∷ d) = (lookup k d ≡ none) × IsDistinct d

  pub lookup-insert_other :
      (k j : String) (v : V) (d : Dict V)
      → str_eq k j ≡ false
      → lookup j (insert k v d) ≡ lookup j d
  lookup-insert_other k j v d h = rw (lookup-insert k j v d, h)

  pub insert-IsDistinct :
      (k : String) (v : V) (d : Dict V) → IsDistinct d → IsDistinct (insert k v d)
  unfolding insert lookup
  insert-IsDistinct k v [] h = (refl, tt)
  insert-IsDistinct k v ((j, w) ∷ d) h = elim (Bool-cases (str_eq j k)) [
    | inl hit ↦ rw hit h
    | inr miss ↦
        rw miss
          (lookup-insert_other k j v d (str_eq_sym j k miss) ∙ h.0, insert-IsDistinct k v d h.1)
  ]

  pub lookup-erase :
      (k j : String) (d : Dict V)
      → IsDistinct d
      → lookup j (erase k d) ≡ (if str_eq k j then none else lookup j d)
  unfolding lookup erase
  lookup-erase k j [] h = ground arith
  lookup-erase k j ((i, w) ∷ d) h = ground (
    arith,
    str_eq→eq i k,
    str_eq→eq i j,
    str_eq→eq k j,
    str_eq_refl j,
    str_eq_refl k,
    lookup-erase k j d h.1,
  )

  erase-none : (k j : String) (d : Dict V) → lookup j d ≡ none → lookup j (erase k d) ≡ none
  unfolding lookup erase
  erase-none k j [] h = refl
  erase-none k j ((i, w) ∷ d) h = ground (arith, erase-none k j d)

  pub erase-IsDistinct : (k : String) (d : Dict V) → IsDistinct d → IsDistinct (erase k d)
  unfolding erase
  erase-IsDistinct k [] h = tt
  erase-IsDistinct k ((j, w) ∷ d) h = elim (Bool-cases (str_eq j k)) [
    | inl hit ↦ rw hit h.1
    | inr miss ↦ rw miss (erase-none k j d h.0, erase-IsDistinct k d h.1)
  ]
