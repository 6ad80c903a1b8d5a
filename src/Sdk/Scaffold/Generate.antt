-- ===== src/Sdk/Scaffold/Generate.antt =====
-- sdk/scaffold/scaffold.go: Generate and the files that it writes.
use aethercore.Prelude.{
  Bool, false, ◌||◌, Option, none, some, List, [], ◌∷◌, ◌++◌, GoMap, lookup, insert, ◌==◌, eq_list,
  eq_nat, if◌then◌else◌,
}
use aethercore.Prelude.Result.{Result, ok, err}
use aethercore.Prelude.Text.{Text, codes}
use aethercore.Sdk.Scaffold.Config.{
  Unicode, Config, TemplateData, ScaffoldError, not_a_directory, not_empty, stat_failed,
  read_dir_failed, parse_failed, create_failed, execute_failed, mkdir_failed, validate_config,
  template_data,
}

-- What stands at a path: the text of a file, or the files of a directory. The directories in it
-- stand at their own paths.
pub data Node : Type 0 where
  file : Text → Node
  directory : GoMap Text Text → Node

abbrev pub Disk : Type 0
Disk = GoMap Text Node

-- What the operating system reports at each call, the parents that a directory has, and whether a
-- path is that of an entry of a directory.
pub record Os : Type 0 where
  pub stat : Text → Option Text
  pub mkdir_all : Text → Option Text
  pub parents : Text → List Text
  pub lies_in : Text → Text → Bool
  pub read_dir : Text → Option Text
  pub create : Text → Text → Option Text

-- A directory is made where nothing is.
unfoldable pub make_dir : Text → Disk → Disk
make_dir path disk = elim (lookup path disk) [
  | some node ↦ disk
  | none ↦ insert path (directory []) disk
]

unfoldable pub make_dirs : List Text → Disk → Disk
unfolding make_dir
make_dirs [] disk = disk
make_dirs (path ∷ paths) disk = make_dirs paths (make_dir path disk)

module _ (os : Os) where
  -- os.MkdirAll
  unfoldable pub mkdir_all : Text → Disk → Option ScaffoldError × Disk
  unfolding make_dirs
  mkdir_all dir disk = elim (os.mkdir_all dir) [
    | some e ↦ (some (mkdir_failed e), disk)
    | none ↦ (none, make_dirs (os.parents dir ++ dir ∷ []) disk)
  ]

  -- A directory has an entry at a path of its own.
  unfoldable pub has_node_in : Text → Disk → Bool
  has_node_in dir [] = false
  has_node_in dir ((path, node) ∷ disk) = os.lies_in dir path || has_node_in dir disk

  -- the error of checkOutputDir for a directory that is there, with its files
  unfoldable pub check_entries : Text → Disk → GoMap Text Text → Option ScaffoldError
  unfolding has_node_in
  check_entries dir disk entries = elim (os.read_dir dir) [
    | some e ↦ some (read_dir_failed dir e)
    | none ↦ elim entries [
      | [] ↦ if has_node_in dir disk then some (not_empty dir) else none
      | _ ∷ _ ↦ some (not_empty dir)
    ]
  ]

  unfoldable pub check_node : Text → Disk → Option Node → Option ScaffoldError × Disk
  unfolding mkdir_all check_entries
  check_node dir disk none = mkdir_all dir disk
  check_node dir disk (some (file text)) = (some (not_a_directory dir), disk)
  check_node dir disk (some (directory entries)) = (check_entries dir disk entries, disk)

  -- checkOutputDir
  unfoldable pub check_output_dir : Text → Disk → Option ScaffoldError × Disk
  unfolding check_node
  check_output_dir dir disk = elim (os.stat dir) [
    | some e ↦ (some (stat_failed dir e), disk)
    | none ↦ check_node dir disk (lookup dir disk)
  ]

-- The embedded templates, in the order of ReadDir.
pub data Template : Type 0 where
  readme go_mod module_go : Template

abbrev pub templates : List Template
templates = readme ∷ go_mod ∷ module_go ∷ []

abbrev pub template_name : Template → Text
template_name readme = codes "README.md.tmpl"
template_name go_mod = codes "go.mod.tmpl"
template_name module_go = codes "module.go.tmpl"

-- What text/template does with an embedded file: the error of Parse, or what Execute writes, with
-- its error.
abbrev pub Templating : Type 0
Templating = Template → TemplateData → Result Text (Text × Option Text)

unfoldable pub trim_suffix : Text → Text → Text
trim_suffix suffix [] = []
trim_suffix suffix (c ∷ s) =
    let rest = trim_suffix suffix s in if (c ∷ s) == suffix then [] else c ∷ rest

-- outputFileName, without the directory
unfoldable pub output_file_name : Text → Text → Text
unfolding trim_suffix
output_file_name template pkg_name =
    let name = trim_suffix (codes ".tmpl") template in
    if name == codes "module.go" then pkg_name ++ codes ".go" else name

abbrev pub put_in : Text → Text → Text → Disk → Option Node → Disk
put_in dir name text disk none = disk
put_in dir name text disk (some (file old)) = disk
put_in dir name text disk (some (directory entries)) =
    insert dir (directory (insert name text entries)) disk

-- The directory at a path gets a file of this text.
unfoldable pub put_file : Text → Text → Text → Disk → Disk
put_file dir name text disk = put_in dir name text disk (lookup dir disk)

abbrev pub executed : Text → Option Text → Option ScaffoldError
executed src none = none
executed src (some e) = some (execute_failed src e)

abbrev pub created :
    Text → Text → Template → Text × Option Text → Disk → Option Text → Option ScaffoldError × Disk
created dir name t (text, failed) disk (some e) = (some (create_failed name e), disk)
created dir name t (text, failed) disk none =
    (executed (template_name t) failed, put_file dir name text disk)

module _ (os : Os) where
  -- renderTemplate behind Parse; what Execute writes is known before the file is made
  unfoldable pub render_parsed :
      Text → Text → Template → Result Text (Text × Option Text) → Disk → Option ScaffoldError × Disk
  unfolding put_file
  render_parsed dir name t (err e) disk = (some (parse_failed (template_name t) e), disk)
  render_parsed dir name t (ok written) disk = created dir name t written disk (os.create dir name)

module _ (os : Os) (templating : Templating) where
  -- renderTemplate
  unfoldable pub render_template :
      Text → TemplateData → Template → Disk → Option ScaffoldError × Disk
  unfolding render_parsed output_file_name
  render_template dir info t disk =
      render_parsed os dir (output_file_name (template_name t) info.package_name) t
        (templating t info) disk

  -- the loop of Generate
  unfoldable pub render_all :
      Text → TemplateData → List Template → Disk → Option ScaffoldError × Disk
  unfolding render_template
  render_all dir info [] disk = (none, disk)
  render_all dir info (t ∷ ts) disk =
      let (failed, disk') = render_template dir info t disk in
      elim failed [ some e ↦ (some e, disk') | none ↦ render_all dir info ts disk' ]

abbrev pub dir_of : Config → Text
dir_of cfg = if cfg.output_dir == [] then cfg.module_name else cfg.output_dir

module _ (unicode : Unicode) (os : Os) (templating : Templating) where
  abbrev pub with_dir : Config → Option ScaffoldError × Disk → Option ScaffoldError × Disk
  with_dir cfg (some e, disk) = (some e, disk)
  with_dir cfg (none, disk) =
      render_all os templating (dir_of cfg) (template_data unicode cfg) templates disk

  -- Generate
  unfoldable pub generate : Config → Disk → Option ScaffoldError × Disk
  unfolding check_output_dir render_all template_data
  generate cfg disk = elim (validate_config cfg) [
    | some e ↦ (some e, disk)
    | none ↦ with_dir cfg (check_output_dir os (dir_of cfg) disk)
  ]
