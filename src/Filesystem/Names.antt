-- ===== src/Filesystem/Names.antt =====
-- File names and device types of paths, modules/filesystem/a_filesystem.cpp.
use mathlib.Core.Option.{some-injective}
use esp32_particulate_sensor.Prelude.{
  ℕ, zero, suc, ◌+◌, ◌≡◌, ◌≢◌, refl, ap, ◌∙◌, true, not, some, List, [], ◌∷◌, ◌++◌, map, ◌==◌, drop,
  arith, length, take-append, get_elem?, Bool-cases, inl, inr,
}
use esp32_particulate_sensor.Prelude.Strings.{
  Str, find_last-append, find_last-none, all_bytes, to_lower, contains_sub, contains_sub_middle,
}
use esp32_particulate_sensor.Filesystem.{
  DeviceType, default_device, sensor, dsensor, directory_names, string_to_lower, first_contained,
  find_device_type_by_path, after_last, before_last, get_file_name,
}

abbrev pub Lacks : ℕ → Str → Type 0
Lacks b s = all_bytes (λ c. not (c == b)) s ≡ true

after_last_lem : (b : ℕ) (s t : Str) → Lacks b t → after_last b (s ++ b ∷ t) ≡ t
after_last_lem b s t h =
    rw (after_last, find_last-append (λ c. c == b) s b t h (ground arith)) (drop_past s b t)
  where
    drop_past : (xs : Str) (y : ℕ) (ys : Str) → drop (length xs + 1) (xs ++ y ∷ ys) ≡ ys
    drop_past xs y ys =
        ap (λ n. drop n (xs ++ y ∷ ys)) {x = length xs + 1} {y = suc (length xs)} (omega arith)
        ∙ past xs
      where
        past : (zs : Str) → drop (suc (length zs)) (zs ++ y ∷ ys) ≡ ys
        past [] = refl
        past (z ∷ zs) = past zs

before_last_lem : (b : ℕ) (s t : Str) → Lacks b t → before_last b (s ++ b ∷ t) ≡ s
before_last_lem b s t h =
    rw (before_last, find_last-append (λ c. c == b) s b t h (ground arith)) (take-append s (b ∷ t))

before_last_none : (b : ℕ) (s : Str) → Lacks b s → before_last b s ≡ s
before_last_none b s h = rw (before_last, find_last-none (λ c. c == b) s h) refl

-- The file name of a path is what stands between its last slash and the last dot after it, and all
-- after the slash where no dot follows.
pub get_file_name_lem :
    (dir stem extension : Str)
    → Lacks 47 (stem ++ 46 ∷ extension)
    → Lacks 46 extension
    → (get_file_name (dir ++ 47 ∷ (stem ++ 46 ∷ extension)) ≡ stem)
      × (Lacks 47 stem → Lacks 46 stem → get_file_name (dir ++ 47 ∷ stem) ≡ stem)
unfolding get_file_name
get_file_name_lem dir stem extension slash dot = (
  ap (before_last 46) (after_last_lem 47 dir (stem ++ 46 ∷ extension) slash)
      ∙ before_last_lem 46 stem extension dot,
  λ no_slash no_dot.
      ap (before_last 46) (after_last_lem 47 dir stem no_slash) ∙ before_last_none 46 stem no_dot,
)

map-append : (f : ℕ → ℕ) (xs ys : Str) → map f (xs ++ ys) ≡ map f xs ++ map f ys
map-append f [] ys = refl
map-append f (x ∷ xs) ys = ap (λ t. f x ∷ t) (map-append f xs ys)

folder_in_path :
    (pre folder post key : Str)
    → string_to_lower folder ≡ key
    → contains_sub key (string_to_lower (pre ++ (folder ++ post))) ≡ true
folder_in_path pre folder post key h =
    rw (map-append to_lower pre (folder ++ post), map-append to_lower folder post, h)
      (contains_sub_middle key (map to_lower pre) (map to_lower post))

known :
    (names : List (Str × DeviceType)) (s key : Str) (i : ℕ) (t : DeviceType)
    → ((k : ℕ) (n : Str × DeviceType) → get_elem? names k ≡ some n → n.1 ≢ default_device)
    → get_elem? names i ≡ some (key, t)
    → contains_sub key s ≡ true
    → first_contained names s ≢ default_device
unfolding first_contained
known [] s key i t real at found = λ h. cc
known ((name, value) ∷ names) s key zero t real at found =
    let here : name ≡ key = ap (λ n. n.0) (some-injective (name, value) (key, t) at) in
    rw here (rw found (real 0 (name, value) refl))
known ((name, value) ∷ names) s key (suc i) t real at found =
    elim (Bool-cases (contains_sub name s)) [
      | inl hit ↦ rw hit (real 0 (name, value) refl)
      | inr miss ↦ rw miss (known names s key i t (λ k n q. real (suc k) n q) at found)
    ]

real_types :
    (k : ℕ) (n : Str × DeviceType) → get_elem? directory_names k ≡ some n → n.1 ≢ default_device
real_types zero n h = λ q. cc
real_types (suc zero) n h = λ q. cc
real_types (suc (suc zero)) n h = λ q. cc
real_types (suc (suc (suc zero))) n h = λ q. cc
real_types (suc (suc (suc (suc k)))) n h = λ q. cc

-- A path in which a folder's name of the table stands, in whatever case its letters are, has a device
-- type, and it is the sensor's where that name is "dsensor", whatever else the path holds.
pub find_device_type_by_path_lem :
    (pre folder post key : Str) (i : ℕ) (t : DeviceType)
    → get_elem? directory_names i ≡ some (key, t)
    → string_to_lower folder ≡ key
    → (find_device_type_by_path (pre ++ (folder ++ post)) ≢ default_device)
      × (key ≡ dsensor → find_device_type_by_path (pre ++ (folder ++ post)) ≡ sensor)
unfolding find_device_type_by_path first_contained
find_device_type_by_path_lem pre folder post key i t at same = (
  known directory_names (string_to_lower (pre ++ (folder ++ post))) key i t real_types at
      (folder_in_path pre folder post key same),
  λ e. rw (folder_in_path pre folder post dsensor (same ∙ e)) refl,
)
