-- ===== src/Disk.antt =====
-- The file system, as far as Go's `os` and `path/filepath` show it to the program. A path is the list of
-- its components from the root. Each operation draws the next fault: it works, fails at once, or fails
-- with part of its effect done. Links are followed by nothing but `read_link`.
pub mod Paths
pub mod Actions
pub mod Find
pub mod Returned
pub mod Outcomes
pub mod Spares
use yllmd.Base.{
  ℕ, zero, suc, ◌+◌, Bool, true, false, not, ◌&&◌, ◌||◌, String, ◌<>◌, Option, none, some, List, [],
  ◌∷◌, ◌++◌, Result, ok, err, length, take, is_empty, ◌==◌, if◌then◌else◌,
}
use yllmd.Wire.Bytes.{Bytes}
use yllmd.Disk.Paths.{NodePath, path_eq, strip, is_under, relabel, parent, child_of}
use yllmd.Disk.Actions.{
  Node, folder, file, link, IoError, not_exist, already_exists, not_folder, not_file, not_link,
  not_empty, failed, Files, Disk, Io, pure, with_files, faulty,
}

abbrev untouched : ℕ → Disk → Disk
untouched n d = d

unfoldable pub find : NodePath → Files → Option Node
find p [] = none
find p ((q, n) ∷ fs) = if q == p then some n else find p fs

unfoldable pub put : NodePath → Node → Files → Files
put p n [] = (p, n) ∷ []
put p n ((q, old) ∷ fs) = let rest = put p n fs in if q == p then (p, n) ∷ fs else (q, old) ∷ rest

unfoldable pub drop_under : NodePath → Files → Files
drop_under p [] = []
drop_under p ((q, n) ∷ fs) =
    let rest = drop_under p fs in if is_under p q then rest else (q, n) ∷ rest

unfoldable pub relabel_all : NodePath → NodePath → Files → Files
unfolding relabel
relabel_all p p' [] = []
relabel_all p p' ((q, n) ∷ fs) = (relabel p p' q, n) ∷ relabel_all p p' fs

-- Whatever stood at the new path is replaced.
unfoldable pub move : NodePath → NodePath → Files → Files
unfolding drop_under relabel_all
move p p' fs = relabel_all p p' (drop_under p' fs)

-- An operation that the files as they are do not allow.
abbrev pub unless :
    {A : Type 0} → Option IoError → Disk → Result IoError A × Disk → Result IoError A × Disk
unless none d done = done
unless (some e) d done = (err e, d)

abbrev pub node_of : Option Node → Result IoError Node
node_of none = err not_exist
node_of (some n) = ok n

abbrev pub target_of : Option Node → Result IoError String
target_of none = err not_exist
target_of (some (link target)) = ok target
target_of (some _) = err not_link

abbrev pub bytes_of : Option Node → Result IoError Bytes
bytes_of none = err not_exist
bytes_of (some (file bytes)) = ok bytes
bytes_of (some _) = err not_file

-- The root of the tree is a folder.
abbrev pub is_folder : NodePath → Files → Bool
is_folder [] fs = true
is_folder (c ∷ p) fs = elim (find (c ∷ p) fs) [ some folder ↦ true | _ ↦ false ]

abbrev pub exists_at : NodePath → Files → Bool
exists_at p fs = elim (find p fs) [ some n ↦ true | none ↦ false ]

-- The names in a folder, in the order of the files.
unfoldable pub children : NodePath → Files → List (String × Node)
unfolding child_of
children p [] = []
children p ((q, n) ∷ fs) = elim (child_of p q) [
  | none ↦ children p fs
  | some name ↦ (name, n) ∷ children p fs
]

-- `os.Stat`
unfoldable pub stat : NodePath → Io IoError Node
unfolding find
stat p = faulty (λ d. (node_of (find p d.files), d)) untouched

unfoldable pub read_link : NodePath → Io IoError String
unfolding find
read_link p = faulty (λ d. (target_of (find p d.files), d)) untouched

unfoldable pub read_file : NodePath → Io IoError Bytes
unfolding find
read_file p = faulty (λ d. (bytes_of (find p d.files), d)) untouched

unfoldable pub read_dir : NodePath → Io IoError (List (String × Node))
unfolding find children
read_dir p =
    faulty
      (λ d. elim (find p d.files) [
        | none ↦ (err not_exist, d)
        | some folder ↦ (ok (children p d.files), d)
        | some _ ↦ (err not_folder, d)
      ])
      untouched

abbrev put_at : NodePath → Node → Disk → Disk
put_at p n d = with_files d (put p n d.files)

abbrev pub write_refusal : NodePath → Files → Option IoError
write_refusal p fs =
    if not (is_folder (parent p) fs)
    then some not_exist
    else if is_folder p fs
    then some not_file
    else none

-- `os.WriteFile`, which may leave a file that is cut short.
unfoldable pub write_file : NodePath → Bytes → Io IoError (Unit {0})
unfolding find put
write_file p bytes d =
    unless (write_refusal p d.files) d
      (faulty (λ d'. (ok tt, put_at p (file bytes) d')) (λ n. put_at p (file (take n bytes))) d)

-- `os.OpenFile` with `O_EXCL`, and what is written then.
unfoldable pub create_file : NodePath → Bytes → Io IoError (Unit {0})
unfolding write_file
create_file p bytes d =
    unless (if exists_at p d.files then some already_exists else none) d (write_file p bytes d)

abbrev pub symlink_refusal : NodePath → Files → Option IoError
symlink_refusal p fs =
    if not (is_folder (parent p) fs)
    then some not_exist
    else if exists_at p fs
    then some already_exists
    else none

unfoldable pub symlink : String → NodePath → Io IoError (Unit {0})
unfolding find put
symlink target p =
    faulty (λ d. unless (symlink_refusal p d.files) d (ok tt, put_at p (link target) d)) untouched

abbrev pub remove_refusal : NodePath → Files → Option IoError
remove_refusal p fs =
    if not (exists_at p fs)
    then some not_exist
    else if is_folder p fs && not (is_empty (children p fs))
    then some not_empty
    else none

unfoldable pub remove : NodePath → Io IoError (Unit {0})
unfolding find children drop_under
remove p =
    faulty (λ d. unless (remove_refusal p d.files) d (ok tt, with_files d (drop_under p d.files)))
      untouched

-- The first `n` files of a folder, in any order, are gone.
unfoldable pub drop_some : ℕ → NodePath → Files → Files
drop_some zero p fs = fs
drop_some (suc n) p [] = []
drop_some (suc n) p ((q, x) ∷ fs) =
    if is_under p q then drop_some n p fs else (q, x) ∷ drop_some (suc n) p fs

-- `os.RemoveAll`, which may leave some of the files.
unfoldable pub remove_all : NodePath → Io IoError (Unit {0})
unfolding drop_under drop_some
remove_all p =
    faulty (λ d. (ok tt, with_files d (drop_under p d.files)))
      (λ n d. with_files d (drop_some n p d.files))

-- A file replaces a file, and a folder an empty folder.
abbrev blocked : NodePath → NodePath → Files → Bool
blocked p p' fs =
    if is_folder p' fs
    then not (is_folder p fs) || not (is_empty (children p' fs))
    else is_folder p fs && exists_at p' fs

abbrev pub rename_refusal : NodePath → NodePath → Files → Option IoError
rename_refusal p p' fs =
    if not (exists_at p fs && is_folder (parent p') fs)
    then some not_exist
    else if blocked p p' fs
    then some already_exists
    else none

unfoldable pub rename : NodePath → NodePath → Io IoError (Unit {0})
unfolding find children move
rename p p' =
    faulty (λ d. unless (rename_refusal p p' d.files) d (ok tt, with_files d (move p p' d.files)))
      untouched

-- The folders from `base` down to `base ++ rest`.
unfoldable pub make_folders : NodePath → NodePath → Io IoError (Unit {0})
unfolding find put
make_folders base [] d = (ok tt, d)
make_folders base (c ∷ rest) d =
    let p = base ++ (c ∷ []) in
    elim (find p d.files) [
      | none ↦ make_folders p rest (put_at p folder d)
      | some folder ↦ make_folders p rest d
      | some _ ↦ (err not_folder, d)
    ]

-- `os.MkdirAll`
unfoldable pub mkdir_all : NodePath → Io IoError (Unit {0})
unfolding make_folders
mkdir_all p = faulty (make_folders [] p) untouched

-- The first of the temporary names that is free.
unfoldable pub free_name :
    NodePath → (String → String) → List String → Files → Option (NodePath × List String)
unfolding find
free_name dir name [] fs = none
free_name dir name (s ∷ ss) fs =
    let p = dir ++ (name s ∷ []) in
    if exists_at p fs then free_name dir name ss fs else some (p, ss)

abbrev pub placed : Node → Option (NodePath × List String) → Disk → Result IoError NodePath × Disk
placed n none d = (err already_exists, d)
placed n (some (p, ss)) d = (ok p, put_at p n (record d { suffixes = ss }))

-- A new node at a path that no node has.
unfoldable pub make_temp : Node → NodePath → (String → String) → Io IoError NodePath
unfolding free_name find put
make_temp n dir name =
    faulty
      (λ d.
        unless (if is_folder dir d.files then none else some not_exist) d
          (placed n (free_name dir name d.suffixes d.files) d))
      untouched

-- `os.MkdirTemp`
unfoldable pub mkdir_temp : NodePath → String → Io IoError NodePath
unfolding make_temp
mkdir_temp dir prefix = make_temp folder dir (λ s. prefix <> s)

-- `os.CreateTemp`, whose pattern has one `*` between a prefix and a suffix.
unfoldable pub create_temp : NodePath → String → String → Io IoError NodePath
unfolding make_temp
create_temp dir prefix suffix = make_temp (file []) dir (λ s. prefix <> s <> suffix)

-- The sizes of the regular files below a path.
unfoldable pub sizes_under : NodePath → Files → List ℕ
sizes_under p [] = []
sizes_under p ((q, file bytes) ∷ fs) =
    let rest = sizes_under p fs in if is_under p q then length bytes ∷ rest else rest
sizes_under p ((q, n) ∷ fs) = sizes_under p fs

-- `filepath.WalkDir`, for what `directorySize` asks of each entry.
unfoldable pub walk_sizes : NodePath → Io IoError (List ℕ)
unfolding sizes_under find
walk_sizes p =
    faulty
      (λ d. if exists_at p d.files then (ok (sizes_under p d.files), d) else (err not_exist, d))
      untouched
