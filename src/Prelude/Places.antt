-- ===== src/Prelude/Places.antt =====
-- The places of a number in a vector: std::find, vectors without repetition, and the removal that
-- moves the last element into the gap.
use Prim.Native.Nat.{ℕ, zero, suc, ◌-◌, ◌<◌}
use mathlib.Core.Path.{◌≡◌, refl}
use mathlib.Core.Logic.{◌≢◌, ◌⊎◌, inl, inr}
use mathlib.Core.List.{List, [], ◌∷◌, ◌++◌}
use mathlib.Core.Option.{Option, none, some}
use mathlib.Core.Bool.{Bool, true, false, ◌||◌}
use native.Mathlib.Omega.{arith}
use esp32_particulate_sensor.Prelude.Tests.{ltb, ◌==◌, if◌then◌else◌, Bool-cases}
use esp32_particulate_sensor.Prelude.Lists.{
  length, get_elem?, get_or, set, pop_back, get_elem?-lt, get_elem?-set, get_elem?-take, length-set,
  get_elem?-eq-get_or,
}

-- No number stands at two places.
abbrev pub Distinct : List ℕ → Type 0
Distinct es = (i k e : ℕ) → get_elem? es i ≡ some e → get_elem? es k ≡ some e → i ≡ k

-- `std::find`, as an index; `none` is the end.
unfoldable pub find_index : List ℕ → ℕ → Option ℕ
find_index [] j = none
find_index (e ∷ es) j =
    if e == j then some 0 else elim (find_index es j) [ none ↦ none | some i ↦ some (suc i) ]

abbrev pub contains : List ℕ → ℕ → Bool
contains [] j = false
contains (e ∷ es) j = e == j || contains es j

-- Whether a number stands in the list, and where.
pub place :
    (es : List ℕ) (j : ℕ)
    → ((k : ℕ) × (get_elem? es k ≡ some j)) ⊎ ((k : ℕ) → get_elem? es k ≢ some j)
place [] j = inr (λ k h. ground arith)
place (e ∷ es) j = elim (Bool-cases (e == j)) [
  | inl same ↦ inl (0, ground arith)
  | inr other ↦ elim (place es j) [
    | inl found ↦ inl (suc found.0, found.1)
    | inr out ↦ inr (λ k. later other out k)
  ]
]
  where
    later :
        (e == j) ≡ false
        → ((k : ℕ) → get_elem? es k ≢ some j)
        → (k : ℕ) → get_elem? (e ∷ es) k ≢ some j
    later other out zero h = ground arith
    later other out (suc k) h = out k h

pub contains_of_get : (es : List ℕ) (k j : ℕ) → get_elem? es k ≡ some j → contains es j ≡ true
contains_of_get [] k j h = ground arith
contains_of_get (e ∷ es) zero j h = ground arith
contains_of_get (e ∷ es) (suc k) j h = ground (arith, contains_of_get es k j h)

pub get_of_contains :
    (es : List ℕ) (j : ℕ) → contains es j ≡ true → (k : ℕ) × (get_elem? es k ≡ some j)
get_of_contains es j h = elim (place es j) [ inl found ↦ found | inr out ↦ absurd (no es out h) ]
  where
    no : (xs : List ℕ) → ((k : ℕ) → get_elem? xs k ≢ some j) → ¬ (contains xs j ≡ true)
    no [] out q = ground arith
    no (x ∷ xs) out q = ground (arith, out 0, no xs (λ k. out (suc k)))

pub contains_absent :
    (es : List ℕ) (j : ℕ) → ((k : ℕ) → get_elem? es k ≢ some j) → contains es j ≡ false
contains_absent [] j out = refl
contains_absent (e ∷ es) j out = ground (arith, out 0, contains_absent es j (λ k. out (suc k)))

pub contains-append :
    (xs ys : List ℕ) (j : ℕ) → contains (xs ++ ys) j ≡ (contains xs j || contains ys j)
contains-append [] ys j = refl
contains-append (x ∷ xs) ys j = ground (arith, contains-append xs ys j)

pub find_index-some : (es : List ℕ) (j i : ℕ) → find_index es j ≡ some i → get_elem? es i ≡ some j
unfolding find_index
find_index-some [] j i h = ground arith
find_index-some (e ∷ es) j zero h = ground arith
find_index-some (e ∷ es) j (suc i) h = ground (arith, find_index-some es j i)

pub find_index-none : (es : List ℕ) (j : ℕ) → find_index es j ≡ none → contains es j ≡ false
unfolding find_index
find_index-none [] j h = refl
find_index-none (e ∷ es) j h = ground (arith, find_index-none es j)

-- `*it = v.back(); v.pop_back();`
abbrev pub swap_pop : List ℕ → ℕ → List ℕ
swap_pop es i = pop_back (set es i (get_or es (length es - 1) 0))

pub get_elem?-swap_pop :
    (es : List ℕ) (i k : ℕ)
    → i < length es
    → get_elem? (swap_pop es i) k ≡ (
        if ltb k (length es - 1)
        then (if i == k then get_elem? es (length es - 1) else get_elem? es k)
        else none)
get_elem?-swap_pop es i k h = ground (
  arith,
  length-set es i (get_or es (length es - 1) 0),
  get_elem?-set es i k (get_or es (length es - 1) 0),
  get_elem?-take (length es - 1) (set es i (get_or es (length es - 1) 0)) k,
  get_elem?-eq-get_or es (length es - 1) 0,
)

module _ (es : List ℕ) (d : Distinct es) (i e : ℕ) (at : get_elem? es i ≡ some e) where
  pub swap_pop-Distinct : Distinct (swap_pop es i)
  swap_pop-Distinct a b x p q = ground (
    arith,
    get_elem?-lt es i e at,
    get_elem?-swap_pop es i a,
    get_elem?-swap_pop es i b,
    d a b x,
    d a (length es - 1) x,
    d b (length es - 1) x,
  )

  -- The removed number is gone, and every other one stays.
  pub contains-swap_pop :
      (j : ℕ) → contains (swap_pop es i) j ≡ (if e == j then false else contains es j)
  contains-swap_pop j = elim (place (swap_pop es i) j) [
    | inl (k, there) ↦ kept k there
    | inr out ↦ rw (contains_absent (swap_pop es i) j out) (elim (place es j) [
      | inl (m, there) ↦ gone m there out
      | inr never ↦ rw (contains_absent es j never) (ground arith)
    ])
  ]
    where
      kept :
          (k : ℕ)
          → get_elem? (swap_pop es i) k ≡ some j
          → contains (swap_pop es i) j ≡ (if e == j then false else contains es j)
      kept k there = ground (
        arith,
        contains_of_get (swap_pop es i) k j there,
        get_elem?-swap_pop es i k,
        get_elem?-lt es i e at,
        contains_of_get es k j,
        contains_of_get es (length es - 1) j,
        d i k j,
        d i (length es - 1) j,
      )

      gone :
          (m : ℕ)
          → get_elem? es m ≡ some j
          → ((k : ℕ) → get_elem? (swap_pop es i) k ≢ some j)
          → false ≡ (if e == j then false else contains es j)
      gone m there out = ground (
        arith,
        get_elem?-swap_pop es i m,
        get_elem?-swap_pop es i i,
        get_elem?-lt es i e at,
        get_elem?-lt es m j there,
        out m,
        out i,
      )
