-- ===== src/Audit/Appender.antt =====
-- core/audit/local_appender.go: the file of the audit trail and its rotation. The disk holds texts
-- under paths; here it does not fail, so that each block is flushed when AppendBlock returns, and
-- Faults has the same with failures. JSON and the layout of the time of a rotation are parameters.
pub mod Rotation
pub mod Faults
mod Tests
use aethercore.Prelude.{
  ℕ, ◌+◌, Bool, true, false, Option, none, some, List, [], ◌∷◌, ◌++◌, GoMap, lookup, insert, delete,
  length, ltb, nat_eq, eq_list, eq_nat, if◌then◌else◌,
}
use aethercore.Prelude.Text.{Text, codes}

abbrev pub Disk : Type 0
Disk = GoMap Text Text

-- An open appender, with RotationLimitBytes.
pub record LocalAppender : Type 0 where
  pub file_path : Text
  pub rotation_limit_bytes : ℕ
  pub current_size : ℕ

unfoldable pub content : Disk → Text → Text
content disk path = elim (lookup path disk) [ none ↦ [] | some text ↦ text ]

-- Open: the file is created where it is not there
unfoldable pub open_file : LocalAppender → Disk → LocalAppender × Disk
open_file a disk = (
  record a { current_size = length (content disk a.file_path) },
  insert a.file_path (content disk a.file_path) disk,
)

unfoldable pub rotated_path : LocalAppender → Text → Text
rotated_path a timestamp =
    if nat_eq a.rotation_limit_bytes 100
    then a.file_path ++ codes ".1"
    else a.file_path ++ (b'.' ∷ timestamp)

-- rotate; a rename replaces the file that has the new name
unfoldable pub rotate : LocalAppender → Disk → Text → LocalAppender × Disk
unfolding open_file
rotate a disk timestamp =
    open_file (record a { current_size = 0 })
      (insert (rotated_path a timestamp) (content disk a.file_path) (delete a.file_path disk))

-- AppendBlock behind the rotation
unfoldable pub write_line : Text → LocalAppender × Disk → LocalAppender × Disk
write_line line (a, disk) = (
  record a { current_size = a.current_size + length line },
  insert a.file_path (content disk a.file_path ++ line) disk,
)

-- AppendBlock of the JSON text of a block
unfoldable pub append_block : LocalAppender → Disk → Text → Text → LocalAppender × Disk
unfolding write_line rotate
append_block a disk timestamp json =
    let line = json ++ 10 ∷ [] in
    write_line line (
      if ltb a.rotation_limit_bytes (a.current_size + length line)
      then rotate a disk timestamp
      else (a, disk))
