-- ===== src/Prelude/Append.antt =====
-- What the operations on vectors do at the end of an appended list.
use Prim.Native.Nat.{◌-◌}
use mathlib.Core.Path.{◌≡◌, refl, ap, ◌∙◌}
use mathlib.Core.List.{List, [], ◌∷◌, ◌++◌}
use mathlib.Core.Option.{some}
use native.Mathlib.Omega.{arith}
use esp32_particulate_sensor.Prelude.Lists.{
  length, get_elem?, take, drop, resize, pop_back, back, length-append, get_elem?_middle,
}

module _ {ℓ} {A : Type ℓ} where
  pub drop-append : (xs ys : List A) → drop (length xs) (xs ++ ys) ≡ ys
  drop-append [] ys = refl
  drop-append (x ∷ xs) ys = drop-append xs ys

  pub take-append : (xs ys : List A) → take (length xs) (xs ++ ys) ≡ xs
  take-append [] ys = refl
  take-append (x ∷ xs) ys = ap (λ t. x ∷ t) (take-append xs ys)

  pub resize-append : (xs ys : List A) (v : A) → resize (xs ++ ys) (length xs) v ≡ xs
  resize-append [] ys v = refl
  resize-append (x ∷ xs) ys v = ap (λ t. x ∷ t) (resize-append xs ys v)

  length-push : (xs : List A) (y : A) → length (xs ++ y ∷ []) - 1 ≡ length xs
  length-push xs y = omega (arith, length-append xs (y ∷ []))

  pub pop_back-push : (xs : List A) (y : A) → pop_back (xs ++ y ∷ []) ≡ xs
  pop_back-push xs y = ap (λ n. take n (xs ++ y ∷ [])) (length-push xs y) ∙ take-append xs (y ∷ [])

  pub back-push : (xs : List A) (y : A) → back (xs ++ y ∷ []) ≡ some y
  back-push xs y =
      ap (λ n. get_elem? (xs ++ y ∷ []) n) (length-push xs y) ∙ get_elem?_middle xs y []
