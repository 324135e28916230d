-- ===== src/App/Files/Samples.antt =====
-- A small file system and a host that refuses nothing, for the tests.
use tidyflow.Base.Text.{codes}
use tidyflow.App.Files.{Host, Files, FileData, FilePath, same_path, file, folder}
use tidyflow.Base.{ℕ, if◌then◌else◌, false, ◌∷◌, none, [], some, ◌||◌}

abbrev pub note : FilePath
note = codes "in" ∷ codes "note.txt" ∷ []

abbrev pub taken : FilePath
taken = codes "out" ∷ codes "note.txt" ∷ []

abbrev pub data_of : ℕ → FileData
data_of content = record { content = content; size = 10; modified = 5 }

-- `/in/note.txt` and `/out/note.txt`.
unfoldable pub disk : Files
disk p =
    if same_path p note
    then some (file (data_of 1))
    else if same_path p taken
    then some (file (data_of 2))
    else if same_path p (codes "in" ∷ []) || same_path p (codes "out" ∷ []) || same_path p []
    then some folder
    else none

abbrev pub kind_host : Host
kind_host = record {
  denies = λ op p. false;
  written = λ p q d. d;
  torn = λ p q. none;
  hash = λ content. content;
  folder_data = λ p. data_of 0;
  io_error = [];
  show_uuid = λ id. [];
}
