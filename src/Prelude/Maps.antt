-- ===== src/Prelude/Maps.antt =====
-- std::unordered_map and std::map as association lists with one entry for each key, for keys with a
-- Boolean equality.
use Prim.Native.Nat.{ℕ, ◌+◌}
use native.Mathlib.Omega.{arith}
use esp32_particulate_sensor.Prelude.Lists.{length}
use mathlib.Core.Path.{subst, ◌≡◌, refl, ap, ◌∙◌, subst}
use mathlib.Core.Logic.{inl, inr, ◌⊎◌}
use mathlib.Core.Option.{Option, none, some, some-injective}
use mathlib.Core.List.{List, [], ◌∷◌}
use mathlib.Core.Bool.{Bool, true, false}
use esp32_particulate_sensor.Prelude.Tests.{
  if◌then◌else◌, Bool-cases, ◌==◌, ==_iff, ==_self, is_some,
}
use esp32_particulate_sensor.Prelude.Strings.{Str, eq_str, eq_str_self, eq_of_eq_str}

-- A test that decides equality.
pub record KeyTest (K : Type 0) : Type 0 where
  pub same : K → K → Bool
  pub same_self : (k : K) → same k k ≡ true
  pub eq_of_same : (j k : K) → same j k ≡ true → j ≡ k

unfoldable pub str_keys : KeyTest Str
str_keys = record { same = eq_str; same_self = eq_str_self; eq_of_same = eq_of_eq_str }

unfoldable pub nat_keys : KeyTest ℕ
nat_keys = record { same = ◌==◌; same_self = ==_self; eq_of_same = λ j k h. (==_iff j k).0 h }

module _ {K V : Type 0} (t : KeyTest K) where
  unfoldable pub lookup : K → List (K × V) → Option V
  lookup k [] = none
  lookup k ((j, v) ∷ m) = if t.same j k then some v else lookup k m

  -- `m[k] = v`
  unfoldable pub assign_key : K → V → List (K × V) → List (K × V)
  assign_key k v [] = (k, v) ∷ []
  assign_key k v ((j, w) ∷ m) =
      let rest = assign_key k v m in if t.same j k then (j, v) ∷ m else (j, w) ∷ rest

  pub lookup-assign_key :
      (k j : K) (v : V) (m : List (K × V))
      → lookup j (assign_key k v m) ≡ (if t.same k j then some v else lookup j m)
  unfolding lookup assign_key
  lookup-assign_key k j v [] = refl
  lookup-assign_key k j v ((i, w) ∷ m) = elim (Bool-cases (t.same i k)) [
    | inl hit ↦
        let e : i ≡ k = t.eq_of_same i k hit in
        rw hit (
          subst
            (λ x.
              (if t.same i j then some v else lookup j m)
              ≡ (if t.same x j then some v else (if t.same i j then some w else lookup j m)))
            e (same_twice (t.same i j)))
    | inr miss ↦ elim (Bool-cases (t.same k j)) [
      | inl here ↦
          let apart : t.same i j ≡ false =
            subst (λ x. t.same i x ≡ false) (t.eq_of_same k j here) miss in
          rw miss (rw apart (lookup-assign_key k j v m ∙ rw here refl))
      | inr there ↦ rw miss (
          rw there (
            ap (λ x. if t.same i j then some w else x) (lookup-assign_key k j v m ∙ rw there refl)))
    ]
  ]
    where
      same_twice :
          (b : Bool)
          → (if b then some v else lookup j m)
            ≡ (if b then some v else (if b then some w else lookup j m))
      same_twice true = refl
      same_twice false = refl

  pub lookup-assign_key_same :
      (k : K) (v : V) (m : List (K × V)) → lookup k (assign_key k v m) ≡ some v
  lookup-assign_key_same k v m = lookup-assign_key k k v m ∙ rw (t.same_self k) refl

  -- An entry of a map after an assignment is the new one or an old one under another key.
  pub lookup-assign_key_cases :
      (k j : K) (v w : V) (m : List (K × V))
      → lookup j (assign_key k v m) ≡ some w
      → ((k ≡ j) × (v ≡ w)) ⊎ ((t.same k j ≡ false) × (lookup j m ≡ some w))
  lookup-assign_key_cases k j v w m h = elim (Bool-cases (t.same k j)) [
    | inl hit ↦
        let e : some v ≡ some w = rw hit at (rw (lookup-assign_key k j v m) at h) in
        inl (t.eq_of_same k j hit, some-injective v w e)
    | inr miss ↦ inr (miss, rw miss at (rw (lookup-assign_key k j v m) at h))
  ]

  pub lookup-assign_key_other :
      (k j : K) (v : V) (m : List (K × V))
      → t.same k j ≡ false
      → lookup j (assign_key k v m) ≡ lookup j m
  lookup-assign_key_other k j v m miss = lookup-assign_key k j v m ∙ rw miss refl

  pub kept_by-assign_key :
      (k j : K) (v : V) (m : List (K × V))
      → is_some (lookup j m) ≡ true
      → is_some (lookup j (assign_key k v m)) ≡ true
  kept_by-assign_key k j v m h = elim (Bool-cases (t.same k j)) [
    | inl hit ↦ rw (lookup-assign_key k j v m) (rw hit refl)
    | inr miss ↦ rw (lookup-assign_key k j v m) (rw miss h)
  ]

  pub length-assign_key :
      (k : K) (v : V) (m : List (K × V))
      → lookup k m ≡ none
      → length (assign_key k v m) ≡ length m + 1
  unfolding lookup assign_key
  length-assign_key k v [] h = refl
  length-assign_key k v ((j, w) ∷ m) h = elim (Bool-cases (t.same j k)) [
    | inl hit ↦ let found : some w ≡ none = rw hit at h in cc found
    | inr miss ↦ rw miss (omega (arith, length-assign_key k v m (rw miss at h)))
  ]
