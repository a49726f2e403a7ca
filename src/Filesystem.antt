-- ===== src/Filesystem.antt =====
-- modules/filesystem/a_filesystem.hpp and a_filesystem.cpp, with the device types of
-- modules/definitions/a_model_record.hpp. What std::filesystem lists is a parameter: a list of
-- entries, in its order; its paths have the separator of POSIX.
pub mod Names
pub mod Listing
pub mod Tests
use esp32_particulate_sensor.Prelude.{
  ℕ, ◌+◌, Bool, true, false, not, ◌&&◌, ◌||◌, Option, none, some, List, [], ◌∷◌, ◌++◌, map, ◌==◌,
  if◌then◌else◌, drop, take, ◌>>=◌,
}
use esp32_particulate_sensor.Prelude.Strings.{Str, find_last, contains_str, to_lower, contains_sub}

pub data DeviceType : Type 0 where
  default_device sensor controller cable breadboard : DeviceType

-- "dsensor", "dcontroller", "dcable" and "dbreadboard"
abbrev pub dsensor : Str
dsensor = 100 ∷ 115 ∷ 101 ∷ 110 ∷ 115 ∷ 111 ∷ 114 ∷ []

abbrev pub dcontroller : Str
dcontroller = 100 ∷ 99 ∷ 111 ∷ 110 ∷ 116 ∷ 114 ∷ 111 ∷ 108 ∷ 108 ∷ 101 ∷ 114 ∷ []

abbrev pub dcable : Str
dcable = 100 ∷ 99 ∷ 97 ∷ 98 ∷ 108 ∷ 101 ∷ []

abbrev pub dbreadboard : Str
dbreadboard = 100 ∷ 98 ∷ 114 ∷ 101 ∷ 97 ∷ 100 ∷ 98 ∷ 111 ∷ 97 ∷ 114 ∷ 100 ∷ []

abbrev pub directory_names : List (Str × DeviceType)
directory_names =
    (dsensor, sensor) ∷ (dcontroller, controller) ∷ (dcable, cable) ∷ (dbreadboard, breadboard) ∷ []

abbrev pub string_to_lower : Str → Str
string_to_lower s = map to_lower s

-- The loop of `findDeviceTypeByPath`.
unfoldable pub first_contained : List (Str × DeviceType) → Str → DeviceType
first_contained [] s = default_device
first_contained ((key, value) ∷ rest) s =
    if contains_sub key s then value else first_contained rest s

unfoldable pub find_device_type_by_path : Str → DeviceType
unfolding first_contained
find_device_type_by_path path = first_contained directory_names (string_to_lower path)

-- `substr` after, and before, the last byte `b`; all of the text where there is none.
abbrev pub after_last : ℕ → Str → Str
after_last b s = elim (find_last (λ c. c == b) s) [ none ↦ s | some i ↦ drop (i + 1) s ]

abbrev pub before_last : ℕ → Str → Str
before_last b s = elim (find_last (λ c. c == b) s) [ none ↦ s | some i ↦ take i s ]

-- '/' is 47 and '.' is 46.
unfoldable pub get_file_name : Str → Str
get_file_name path = before_last 46 (after_last 47 path)

-- A directory entry: its generic path, the extension and the file name of it, its kind, and whether
-- asking for the kind reports an error.
pub record Entry : Type 0 where
  pub path : Str
  pub extension : Str
  pub filename : Str
  pub is_regular_file : Bool
  pub is_directory : Bool
  pub fails : Bool

abbrev pub is_empty_filter : List Str → Bool
is_empty_filter [] = true
is_empty_filter (x ∷ xs) = false

unfoldable pub is_allowed : List Str → Entry → Bool
is_allowed filter e = is_empty_filter filter || contains_str filter e.extension

-- The loop of `getAllFilesInDirectoryRecursive`; `ec` is whether the error code is set.
unfoldable pub list_recursive : List Str → Bool → List Entry → List Str
unfolding is_allowed
list_recursive filter ec [] = []
list_recursive filter ec (e ∷ es) =
    let rest = list_recursive filter e.fails es in
    if ec
    then []
    else if not (e.is_regular_file && not e.fails)
    then rest
    else if is_allowed filter e
    then e.path ∷ rest
    else rest

-- The constructor of the iterator sets the error code, and then lists nothing.
unfoldable pub get_all_files_in_directory_recursive : List Str → Bool → List Entry → List Str
unfolding list_recursive
get_all_files_in_directory_recursive filter open_fails entries =
    list_recursive filter open_fails (if open_fails then [] else entries)

-- `getAllFilesInDirectory` with a filter, and without: there an entry's error is an exception,
-- which is `none`.
unfoldable pub get_all_files_in_directory : List Str → List Entry → Option (List Str)
unfolding is_allowed
get_all_files_in_directory filter [] = some []
get_all_files_in_directory filter (e ∷ es) =
    let rest = get_all_files_in_directory filter es in
    if e.fails
    then none
    else if not e.is_regular_file
    then rest
    else if is_allowed filter e
    then (rest >>= λ paths. some (e.path ∷ paths))
    else rest

pub record Directory : Type 0 where
  pub name : Str
  pub files : List Str

-- `getAllDirectories`, where `entries_of` lists a directory by its path.
unfoldable pub get_all_directories : (Str → List Entry) → List Entry → Option (List Directory)
unfolding get_all_files_in_directory
get_all_directories entries_of [] = some []
get_all_directories entries_of (e ∷ es) =
    let rest = get_all_directories entries_of es in
    if e.fails
    then none
    else if e.is_directory
    then (get_all_files_in_directory [] (entries_of e.path) >>= λ files.
        rest >>= λ directories. some (record { name = e.filename; files = files } ∷ directories))
    else rest
