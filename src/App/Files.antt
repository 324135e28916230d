-- ===== src/App/Files.antt =====
-- The file system, as far as `std::fs` and `std::path` are used, with the hash of
-- crates/autoflow-domain/src/lib.rs. A path is the list of its components from the root, and a host
-- says which operations fail, and what a copy writes.
pub mod Laws
pub mod Samples
use tidyflow.Base.Text.{Text, text_eq}
unfoldable pub use tidyflow.Base.Text.{dot_extension, file_stem}
use tidyflow.Base.{
  ℕ, List, Option, Bool, Result, some, none, is_some, if◌then◌else◌, ◌∷◌, ◌++◌, false, ◌||◌, err,
  not, true, ok, ◌==◌, [], ◌&&◌, ◌>>=◌, is_empty,
}

abbrev pub FilePath : Type 0
FilePath = List Text

unfoldable pub same_path : FilePath → FilePath → Bool
same_path [] [] = true
same_path [] (t ∷ ts) = false
same_path (s ∷ ss) [] = false
same_path (s ∷ ss) (t ∷ ts) = text_eq s t && same_path ss ts

-- `Path::strip_prefix`.
unfoldable pub strip_prefix : FilePath → FilePath → Option FilePath
strip_prefix [] p = some p
strip_prefix (r ∷ root) [] = none
strip_prefix (r ∷ root) (s ∷ p) =
    let rest = strip_prefix root p in if text_eq r s then rest else none

-- What a file holds: its content, its length in bytes and the time of its last change.
pub record FileData : Type 0 where
  pub content : ℕ
  pub size : ℕ
  pub modified : ℕ

pub data Node : Type 0 where
  file : FileData → Node
  folder : Node

abbrev pub Files : Type 0
Files = FilePath → Option Node

pub data FileOp : Type 0 where
  op_create op_copy op_rename op_remove op_read : FileOp

pub record Host : Type 0 where
  -- An operation at a path that the system refuses.
  pub denies : FileOp → FilePath → Bool
  -- What arrives at the target of a copy, and what a refused copy leaves there.
  pub written : FilePath → FilePath → FileData → FileData
  pub torn : FilePath → FilePath → Option FileData
  -- blake3, and a message of the system.
  pub hash : ℕ → ℕ
  -- The metadata of a directory.
  pub folder_data : FilePath → FileData
  pub io_error : Text
  -- The text of an identifier.
  pub show_uuid : ℕ → Text

unfoldable pub set_node : FilePath → Option Node → Files → Files
set_node p n fs q = if same_path p q then n else fs q

abbrev pub exists : FilePath → Files → Bool
exists p fs = is_some (fs p)

unfoldable pub is_file : Option Node → Bool
is_file none = false
is_file (some (file d)) = true
is_file (some folder) = false

unfoldable pub is_dir : Option Node → Bool
is_dir none = false
is_dir (some (file d)) = false
is_dir (some folder) = true

-- A file stands on the way from `done` down the components that are left.
unfoldable pub blocked : FilePath → FilePath → Files → Bool
blocked done [] fs = is_file (fs done)
blocked done (s ∷ rest) fs = is_file (fs done) || blocked (done ++ s ∷ []) rest fs

-- Each directory on the way to `p` that is missing is made.
unfoldable pub created : FilePath → Files → Files
created p fs q = if is_some (strip_prefix q p) && not (exists q fs) then some folder else fs q

-- `Path::file_name` and `Path::parent`.
unfoldable pub file_name : FilePath → Option Text
file_name [] = none
file_name (s ∷ []) = some s
file_name (s ∷ t ∷ p) = file_name (t ∷ p)

unfoldable pub parent : FilePath → Option FilePath
parent [] = none
parent (s ∷ []) = some []
parent (s ∷ t ∷ p) = elim (parent (t ∷ p)) [ none ↦ some (s ∷ []) | some d ↦ some (s ∷ d) ]

-- `Path::display` of an absolute path.
unfoldable pub display : FilePath → Text
display [] = []
display (s ∷ p) = (b'/' ∷ s) ++ display p

module _ (host : Host) where
  open host use {denies, written, torn, hash, folder_data, io_error}

  copy_data : FilePath → FilePath → Option Node → Files → Result Text (Unit {0}) × Files
  copy_data src dst (some (file d)) fs =
      if denies op_copy dst
      then (
        err io_error,
        elim (torn src dst) [ none ↦ fs | some part ↦ set_node dst (some (file part)) fs ],
      )
      else (ok tt, set_node dst (some (file (written src dst d))) fs)
  copy_data src dst (some folder) fs = (err io_error, fs)
  copy_data src dst none fs = (err io_error, fs)

  -- `fs::copy`.
  unfoldable pub copy_file : FilePath → FilePath → Files → Result Text (Unit {0}) × Files
  unfolding copy_data
  copy_file src dst fs =
      if is_dir (fs dst) then (err io_error, fs) else copy_data src dst (fs src) fs

  -- `fs::create_dir_all`: the directories of the path that are missing; a file among them is in the way.
  unfoldable pub create_dir_all : FilePath → Files → Result Text (Unit {0}) × Files
  create_dir_all p fs =
      if denies op_create p || blocked [] p fs then (err io_error, fs) else (ok tt, created p fs)

  -- A moved file, or directory with all below it.
  moved : FilePath → FilePath → Files → Files
  moved src dst fs q = elim (strip_prefix dst q) [
    | some rest ↦ fs (src ++ rest)
    | none ↦ elim (strip_prefix src q) [ some rest ↦ none | none ↦ fs q ]
  ]

  -- `fs::rename`; it replaces a file, and not a directory.
  unfoldable pub rename_path : FilePath → FilePath → Files → Result Text (Unit {0}) × Files
  unfolding moved
  rename_path src dst fs =
      if denies op_rename dst || not (exists src fs) || is_dir (fs dst)
      then (err io_error, fs)
      else (ok tt, moved src dst fs)

  -- `fs::remove_file` and `fs::remove_dir_all`.
  unfoldable pub remove_file : FilePath → Files → Result Text (Unit {0}) × Files
  remove_file p fs =
      if denies op_remove p || not (is_file (fs p))
      then (err io_error, fs)
      else (ok tt, set_node p none fs)

  removed : FilePath → Files → Files
  removed p fs q = elim (strip_prefix p q) [ some rest ↦ none | none ↦ fs q ]

  unfoldable pub remove_dir_all : FilePath → Files → Result Text (Unit {0}) × Files
  unfolding removed
  remove_dir_all p fs =
      if denies op_remove p || not (is_dir (fs p))
      then (err io_error, fs)
      else (ok tt, removed p fs)

  hash_data : FilePath → Option Node → Result Text ℕ
  hash_data p (some (file d)) = if denies op_read p then err io_error else ok (hash d.content)
  hash_data p (some folder) = err io_error
  hash_data p none = err io_error

  unfoldable pub file_hash : FilePath → Files → Result Text ℕ
  unfolding hash_data
  file_hash p fs = hash_data p (fs p)

  -- `fs::metadata`.
  metadata_of : FilePath → Option Node → Result Text FileData
  metadata_of p none = err io_error
  metadata_of p (some (file d)) = ok d
  metadata_of p (some folder) = ok (folder_data p)

  unfoldable pub metadata : FilePath → Files → Result Text FileData
  unfolding metadata_of
  metadata p fs = metadata_of p (fs p)

  unfoldable pub files_equal : FilePath → FilePath → Bool → Files → Result Text Bool
  files_equal p q strict fs = do
    a ← metadata p fs
    b ← metadata q fs
    if not (a.size == b.size)
        then ok false
        else if not strict && a.modified == b.modified
        then ok true
        else file_hash p fs >>= λ x. file_hash q fs >>= λ y. ok (x == y)
