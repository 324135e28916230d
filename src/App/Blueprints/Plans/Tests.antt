-- ===== src/App/Blueprints/Plans/Tests.antt =====
-- The plans of folder blueprints at a small plan: a folder is made, and an old one is deleted.
use tidyflow.App.Blueprints.Folders.{FolderActionPlan, World}
use tidyflow.Domain.Blueprint.{
  Blueprint, FolderPlan, create, delete, folder, no_nodes, node, nodes, copy,
}
use tidyflow.Domain.FileFilter.{default_filter}
use tidyflow.Domain.Counter.{per_day}
use tidyflow.Domain.Job.{skip}
use tidyflow.Domain.Tokenizer.Samples.{formats}
use tidyflow.Base.Text.{Text, codes, text_eq}
use tidyflow.Base.{[], ◌∷◌, true, false, none, some}

abbrev plan : FolderPlan
plan = record {
  version = 1;
  variables =
      record { name = codes "client"; label = []; default_value = codes "acme"; required = true }
      ∷ [];
  allow_delete_non_empty = true;
  confirm_delete_non_empty = false;
  action_nodes =
      nodes
        (node create (codes "{client}") [] []
          (nodes (node create (codes "in") [] [] no_nodes) no_nodes))
        (nodes (node delete [] (codes "old") [] no_nodes) no_nodes);
}

abbrev blueprint : Blueprint
blueprint = record {
  id = 1;
  name = codes "clients";
  kind = folder;
  root_path = codes "/r";
  search = default_filter;
  routing = record { path_template = []; create_intermediate_dirs = true };
  operation = copy;
  recursive = true;
  conflict = skip;
  rename_template = none;
  folder_plan = some plan;
  watch = none;
  counter = record { scope = per_day; start = 1; padding = 0 };
  enabled = true;
  last_run = none;
}

abbrev old : Text
old = codes "/r/old"

-- A disk with the root and an empty folder to delete.
abbrev world : World
world = record {
  exists = text_eq old;
  is_dir = text_eq old;
  has_entries = λ p. false;
  canonicalize = λ p. some p;
  formats = formats;
  now = λ parent index. 0;
  new_guid = λ parent index. index;
}

abbrev made : FolderActionPlan
made = record {
  items =
      record { action = create; source = none; target = some (codes "/r/acme") }
      ∷ record { action = create; source = none; target = some (codes "/r/acme/in") }
      ∷ record { action = delete; source = some old; target = none }
      ∷ [];
  warnings = [];
}
