-- ===== src/Core/RegoModule.antt =====
-- `LoadRegoModule` of core/opaevaluator.go. The walk over the directory is a parameter: the paths
-- that `filepath.Walk` visits, in its order, up to an error, which the code ignores; so are
-- `filepath.Ext` and `filepath.Base`.
use rond.Prelude.{String, List, [], ◌∷◌, Result, ok, err, error_text, ◌==◌, if◌then◌else◌, ◌>>=◌}
use rond.Utils.{read_file}
use rond.Mongo.{explained}
use rond.Core.Context.{OpaModuleConfig}

pub record FileSystem : Type 0 where
  pub walk : String → List String
  pub ext : String → String
  pub base : String → String
  pub read : String → Result String

module _ (files : FileSystem) where
  -- The callback on each path: the first one of a module is kept.
  unfoldable pub rego_module_path : List String → String → String
  rego_module_path [] found = found
  rego_module_path (path ∷ paths) found =
      rego_module_path paths
        (if found == "" then (if files.ext path == ".rego" then path else found) else found)

  unfoldable pub load_rego_module : String → Result OpaModuleConfig
  load_rego_module root_directory =
      let path = rego_module_path (files.walk root_directory) "" in
      if path == ""
      then err (error_text "no rego module found in directory")
      else (explained "failed rego file read: " (read_file files.read path) >>= λ content.
          ok (record { name = files.base path; content = content }))
