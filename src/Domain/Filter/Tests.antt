-- ===== src/Domain/Filter/Tests.antt =====
-- A job that takes the PDF files of a folder with three files.
use tidyflow.App.Files.{FilePath, display, dot_extension, file_name, file_stem, strip_prefix}
use tidyflow.Domain.FileFilter.{
  built_in_exclude_presets, default_filter, holds, expanded_exclude_patterns,
}
use tidyflow.Domain.Filter.Collected.{candidates, collect_files_iff, lists}
use tidyflow.Domain.Filter.{
  Entry, Outside, accepts, collect_files, from_job, path_le, should_process, should_process_file,
}
use tidyflow.Domain.Job.{Job, new_job}
use tidyflow.Base.Sort.Sorted.{IsSorted}
use tidyflow.Base.Sort.{sort, text_le}
use tidyflow.Base.Text.{
  Text, codes, starts_with, text_eq, to_ascii_lowercase, trim, trim_by, trim_start_by,
  is_whitespace,
}
use tidyflow.Base.{List, [], ◌∷◌, true, false, ◌&&◌, none, ok, refl, ◌≡◌, map}

abbrev in_folder : Text → FilePath
in_folder name = codes "in" ∷ name ∷ []

abbrev listed : Text → Entry
listed name = record { path = in_folder name; is_symlink = false; is_file = true }

abbrev disk : Outside
disk = record {
  as_path = λ t. codes "in" ∷ [];
  path_exists = λ p. true;
  path_is_file = λ p. false;
  path_is_dir = λ p. true;
  metadata = λ p. ok (record { size = 10; modified = none; created = none; elapsed = none });
  read = λ p. ok [];
  walk = λ follows p. map listed (codes "b.PDF" ∷ codes "notes.txt" ∷ codes "a.pdf" ∷ []);
  read_dir = λ p. ok [];
  lowercase = to_ascii_lowercase;
  glob_error = λ p. none;
  glob_match = λ p t. false;
  regex_error = λ p. none;
  regex_match = λ p t. false;
}

abbrev pdfs : Job
pdfs = record (new_job 1 (codes "pdfs") (codes "/in") (codes "/out")) {
  filters = record default_filter { include_extensions = codes ".pdf" ∷ [] };
}

abbrev found : List FilePath
found = in_folder (codes "a.pdf") ∷ in_folder (codes "b.PDF") ∷ []

finds : collect_files disk pdfs ≡ ok found
unfolding collect_files accepts should_process from_job new_job default_filter
    expanded_exclude_patterns built_in_exclude_presets holds text_eq text_le path_le sort
    starts_with file_name file_stem dot_extension strip_prefix trim trim_by trim_start_by
    is_whitespace to_ascii_lowercase display
finds = refl

collect_files_iff_example :
    (lists (in_folder (codes "a.pdf")) found ≡ (
      lists (in_folder (codes "a.pdf")) (candidates disk pdfs)
      && should_process_file disk (in_folder (codes "a.pdf")) pdfs))
    × IsSorted path_le found
collect_files_iff_example = collect_files_iff disk pdfs found (in_folder (codes "a.pdf")) finds
