-- ===== src/Filesystem/Listing.antt =====
-- The listings of modules/filesystem/a_filesystem.cpp.
use mathlib.Core.List.{append-nil}
use esp32_particulate_sensor.Prelude.{
  ◌≡◌, refl, sym, ap, ◌∙◌, true, false, ◌&&◌, some, List, [], ◌∷◌, ◌++◌, if◌then◌else◌, Bool-cases,
  inl, inr, ◌>>=◌,
}
use esp32_particulate_sensor.Prelude.Strings.{Str}
use esp32_particulate_sensor.Filesystem.{
  Entry, is_allowed, list_recursive, get_all_files_in_directory_recursive,
  get_all_files_in_directory,
}

-- The paths of the regular files with an extension of the filter.
abbrev pub chosen : List Str → List Entry → List Str
chosen filter [] = []
chosen filter (e ∷ es) =
    let rest = chosen filter es in
    if e.is_regular_file && is_allowed filter e then e.path ∷ rest else rest

abbrev pub AllReadable : List Entry → Type 0
AllReadable [] = Unit {0}
AllReadable (e ∷ es) = (e.fails ≡ false) × AllReadable es

list_recursive-append :
    (filter : List Str) (pre post : List Entry)
    → AllReadable pre
    → list_recursive filter false (pre ++ post)
      ≡ chosen filter pre ++ list_recursive filter false post
unfolding list_recursive
list_recursive-append filter [] post h = refl
list_recursive-append filter (e ∷ pre) post h =
    let rest = list_recursive-append filter pre post h.1 in
    rw (h.0) (elim (Bool-cases e.is_regular_file) [
      | inr other ↦ rw other rest
      | inl regular ↦ elim (Bool-cases (is_allowed filter e)) [
        | inl allowed ↦ rw (regular, allowed) (ap (λ t. e.path ∷ t) rest)
        | inr barred ↦ rw (regular, barred) rest
      ]
    ])

list_recursive-failing :
    (filter : List Str) (e : Entry) (post : List Entry)
    → e.fails ≡ true
    → list_recursive filter false (e ∷ post) ≡ []
unfolding list_recursive
list_recursive-failing filter e post h = elim (Bool-cases e.is_regular_file) [
  | inl regular ↦ rw (h, regular) (stops post)
  | inr other ↦ rw (h, other) (stops post)
]
  where
    stops : (es : List Entry) → list_recursive filter true es ≡ []
    stops [] = refl
    stops (x ∷ es) = refl

-- Without errors the recursive listing gives the regular files with an allowed extension, in order;
-- at the first entry whose kind cannot be read it stops, and gives what stands before that entry; a
-- directory that cannot be opened gives nothing.
pub get_all_files_in_directory_recursive_lem :
    (filter : List Str) (pre post : List Entry) (e : Entry)
    → AllReadable pre
    → e.fails ≡ true
    → (get_all_files_in_directory_recursive filter false pre ≡ chosen filter pre)
      × (get_all_files_in_directory_recursive filter false (pre ++ e ∷ post) ≡ chosen filter pre)
      × (get_all_files_in_directory_recursive filter true pre ≡ [])
unfolding get_all_files_in_directory_recursive list_recursive
get_all_files_in_directory_recursive_lem filter pre post e h bad = (
  ap (list_recursive filter false) (sym (append-nil pre))
      ∙ list_recursive-append filter pre [] h
      ∙ append-nil (chosen filter pre),
  list_recursive-append filter pre (e ∷ post) h
      ∙ ap (λ t. chosen filter pre ++ t) (list_recursive-failing filter e post bad)
      ∙ append-nil (chosen filter pre),
  refl,
)

-- On entries whose kinds can be read `getAllFilesInDirectory` lists the same files.
pub get_all_files_in_directory_lem :
    (filter : List Str) (entries : List Entry)
    → AllReadable entries
    → get_all_files_in_directory filter entries
      ≡ some (get_all_files_in_directory_recursive filter false entries)
unfolding get_all_files_in_directory get_all_files_in_directory_recursive list_recursive
get_all_files_in_directory_lem filter [] h = refl
get_all_files_in_directory_lem filter (e ∷ es) h =
    let rest = get_all_files_in_directory_lem filter es h.1 in
    rw (h.0) (elim (Bool-cases e.is_regular_file) [
      | inr other ↦ rw other rest
      | inl regular ↦ elim (Bool-cases (is_allowed filter e)) [
        | inl allowed ↦ rw (regular, allowed) (ap (λ o. o >>= λ paths. some (e.path ∷ paths)) rest)
        | inr barred ↦ rw (regular, barred) rest
      ]
    ])
