-- ===== src/Audit/Appender/Rotation.antt =====
-- core/audit/local_appender.go: what the files hold behind AppendBlock.
use aethercore.Prelude.{
  ℕ, ◌+◌, ◌≡◌, ◌≢◌, refl, ap, sym, subst, ◌∙◌, inl, inr, arith, Bool, true, false, Bool-cases,
  Option, none, some, [], ◌∷◌, ◌++◌, lookup, insert, delete, lookup-insert_self, lookup-insert_ne,
  lookup-delete_self, length, length-append, ltb, nat_eq, eq_list, eq_nat, if◌then◌else◌,
}
use aethercore.Prelude.Text.{Text, codes}
use aethercore.Audit.Appender.{
  LocalAppender, Disk, content, open_file, rotated_path, rotate, write_line, append_block,
}

or_empty : Option Text → Text
or_empty none = []
or_empty (some t) = t

content-or_empty : (d : Disk) (path : Text) → content d path ≡ or_empty (lookup path d)
unfolding content or_empty
content-or_empty d path = ground arith

content-insert : (d : Disk) (path text : Text) → content (insert path text d) path ≡ text
unfolding or_empty
content-insert d path text =
    content-or_empty (insert path text d) path ∙ ap or_empty (lookup-insert_self path text d)

content-insert_ne :
    (d : Disk) (path other text : Text)
    → path ≢ other
    → content (insert path text d) other ≡ content d other
content-insert_ne d path other text h =
    content-or_empty (insert path text d) other
    ∙ ap or_empty (lookup-insert_ne path other text d h)
    ∙ sym (content-or_empty d other)

content-delete : (d : Disk) (path : Text) → content (delete path d) path ≡ []
unfolding or_empty
content-delete d path =
    content-or_empty (delete path d) path ∙ ap or_empty (lookup-delete_self path d)

longer : (xs ys : Text) (c : ℕ) → xs ++ (c ∷ ys) ≢ xs
longer xs ys c e = absurd (omega (arith, ap length e, length-append {0} xs (c ∷ ys)))

rotated_path-other : (a : LocalAppender) (timestamp : Text) → rotated_path a timestamp ≢ a.file_path
unfolding rotated_path
rotated_path-other a timestamp = elim (Bool-cases (nat_eq a.rotation_limit_bytes 100)) [
  | inl short ↦ rw (short, rotated_path) (longer a.file_path (codes "1") b'.')
  | inr long ↦ rw (long, rotated_path) (longer a.file_path timestamp b'.')
]

-- The size that an appender keeps is that of its file.
abbrev pub IsSized : LocalAppender × Disk → Type 0
IsSized (a, disk) = a.current_size ≡ length (content disk a.file_path)

-- Where the lines of the file and a new line go, by whether they pass the limit together.
abbrev pub Goes : Bool → LocalAppender → Disk → Text → Text → Disk → Type 0
Goes false a disk timestamp line disk' =
    content disk' a.file_path ≡ content disk a.file_path ++ line
Goes true a disk timestamp line disk' =
    (content disk' a.file_path ≡ line)
    × (content disk' (rotated_path a timestamp) ≡ content disk a.file_path)

-- What AppendBlock does to the files of an appender.
pub record Appends (a : LocalAppender) (disk : Disk) (timestamp line : Text)
    (out : LocalAppender × Disk) : Type 0 where
  pub sized : IsSized out
  pub same_path : out.0.file_path ≡ a.file_path
  pub goes :
      Goes (ltb a.rotation_limit_bytes (a.current_size + length line)) a disk timestamp line out.1

write_line-IsSized :
    (line : Text) (a : LocalAppender) (disk : Disk)
    → IsSized (a, disk)
    → IsSized (write_line line (a, disk))
unfolding write_line
write_line-IsSized line a disk h = omega (
  arith,
  h,
  ap length (content-insert disk a.file_path (content disk a.file_path ++ line)),
  length-append {0} (content disk a.file_path) line,
)

module _ (a : LocalAppender) (disk : Disk) (timestamp : Text) where
  abbrev moved : Disk
  moved = insert (rotated_path a timestamp) (content disk a.file_path) (delete a.file_path disk)

  moved-empty : content moved a.file_path ≡ []
  moved-empty =
      content-insert_ne (delete a.file_path disk) (rotated_path a timestamp) a.file_path
        (content disk a.file_path) (rotated_path-other a timestamp)
      ∙ content-delete disk a.file_path

  rotate-empty : content (rotate a disk timestamp).1 a.file_path ≡ []
  unfolding rotate open_file
  rotate-empty = content-insert moved a.file_path (content moved a.file_path) ∙ moved-empty

  rotate-kept :
      (line : Text)
      → content (write_line line (rotate a disk timestamp)).1 (rotated_path a timestamp)
        ≡ content disk a.file_path
  unfolding rotate open_file write_line
  rotate-kept line =
      content-insert_ne (insert a.file_path (content moved a.file_path) moved) a.file_path
        (rotated_path a timestamp) _ (λ e. rotated_path-other a timestamp (sym e))
      ∙ content-insert_ne moved a.file_path (rotated_path a timestamp) _
          (λ e. rotated_path-other a timestamp (sym e))
      ∙ content-insert (delete a.file_path disk) (rotated_path a timestamp)
          (content disk a.file_path)

  rotate-line :
      (line : Text) → content (write_line line (rotate a disk timestamp)).1 a.file_path ≡ line
  unfolding rotate open_file write_line
  rotate-line line =
      content-insert (insert a.file_path (content moved a.file_path) moved) a.file_path
        (content (insert a.file_path (content moved a.file_path) moved) a.file_path ++ line)
      ∙ ap (λ t. t ++ line) rotate-empty

  rotate-path : (rotate a disk timestamp).0.file_path ≡ a.file_path
  unfolding rotate open_file
  rotate-path = refl

  rotate-IsSized : IsSized (rotate a disk timestamp)
  unfolding rotate open_file
  rotate-IsSized = ap length (sym (content-insert moved a.file_path (content moved a.file_path)))

  full_file :
      (line : Text)
      → ltb a.rotation_limit_bytes (a.current_size + length line) ≡ true
      → Appends a disk timestamp line (write_line line (rotate a disk timestamp))
  unfolding write_line
  full_file line full = record {
    sized =
        write_line-IsSized line (rotate a disk timestamp).0 (rotate a disk timestamp).1
          rotate-IsSized;
    same_path = rotate-path;
    goes = rw full (rotate-line line, rotate-kept line);
  }

  roomy_file :
      (line : Text)
      → ltb a.rotation_limit_bytes (a.current_size + length line) ≡ false
      → IsSized (a, disk)
      → Appends a disk timestamp line (write_line line (a, disk))
  unfolding write_line
  roomy_file line fits h = record {
    sized = write_line-IsSized line a disk h;
    same_path = refl;
    goes = rw fits (content-insert disk a.file_path (content disk a.file_path ++ line));
  }

  -- AppendBlock puts the line behind those of the file, or, where the file would go past the
  -- limit, moves the file with all its lines under the name of the rotation and begins a new one
  -- with the line; the size that it keeps stays that of the file.
  pub append_block-Appends :
      (json : Text)
      → IsSized (a, disk)
      → Appends a disk timestamp (json ++ 10 ∷ []) (append_block a disk timestamp json)
  unfolding append_block
  append_block-Appends json h =
      elim (Bool-cases (ltb a.rotation_limit_bytes (a.current_size + length (json ++ 10 ∷ [])))) [
        | inl full ↦
            subst (λ out. Appends a disk timestamp (json ++ 10 ∷ []) out)
              (ap
                (λ b.
                  write_line (json ++ 10 ∷ []) (if b then rotate a disk timestamp else (a, disk)))
                (sym full))
              (full_file (json ++ 10 ∷ []) full)
        | inr fits ↦
            subst (λ out. Appends a disk timestamp (json ++ 10 ∷ []) out)
              (ap
                (λ b.
                  write_line (json ++ 10 ∷ []) (if b then rotate a disk timestamp else (a, disk)))
                (sym fits))
              (roomy_file (json ++ 10 ∷ []) fits h)
      ]
