-- ===== src/Audit/Appender/Faults.antt =====
-- core/audit/local_appender.go: AppendBlock and Close where calls of the operating system fail. The
-- length of a text stands for the bytes that a write counts.
use aethercore.Prelude.{
  ℕ, ◌+◌, ◌≡◌, refl, sym, ap, subst, ◌∙◌, true, Bool-cases, inl, inr, Option, none, some, List, [],
  ◌∷◌, ◌++◌, All, take, length, insert, delete, ltb, eq_list, eq_nat, if◌then◌else◌,
}
use aethercore.Prelude.Text.{Text, codes}
use aethercore.Audit.Appender.{
  LocalAppender, Disk, content, open_file, rotated_path, rotate, write_line, append_block,
}

-- The errors of the calls of one operation, where they have one. A write that fails has counted
-- some bytes and written some; one to a lost file counts the bytes that its writer takes, none
-- once that has kept an error.
pub record Faults : Type 0 where
  pub flush : Option Text
  pub close : Option Text
  pub rename : Option Text
  pub open_ : Option Text
  pub stat : Option Text
  pub write : Option (ℕ × ℕ × Text)
  pub counted : ℕ

-- A file that is closed, or whose writer has failed, takes no more writes: both keep their error.
pub data Handle : Type 0 where
  working lost : Handle

pub record OpenAppender : Type 0 where
  pub base : LocalAppender
  pub handle : Handle

abbrev pub Report : Type 0
Report = Option Text × OpenAppender × Disk

abbrev closed_error : Text
closed_error = codes "file already closed"

-- Open: without Stat the size stays as it was
unfoldable pub open_checked : Faults → OpenAppender → Disk → Report
open_checked f a disk = elim f.open_ [
  | some e ↦ (some e, a, disk)
  | none ↦
      let (opened, disk') = open_file a.base disk in
      elim f.stat [
        | none ↦ (none, record { base = opened; handle = working }, disk')
        | some e ↦ (none, record { base = a.base; handle = working }, disk')
      ]
]

abbrev give_up : OpenAppender → OpenAppender
give_up a = record a { handle = lost }

-- rotate behind Close
unfoldable pub rename_checked : Faults → OpenAppender → Disk → Text → Report
unfolding open_checked
rename_checked f a disk timestamp = elim f.rename [
  | some e ↦ (some (codes "audit_rotate_failed: " ++ e), give_up a, disk)
  | none ↦
      open_checked f (record { base = record a.base { current_size = 0 }; handle = lost })
        (insert (rotated_path a.base timestamp) (content disk a.base.file_path)
          (delete a.base.file_path disk))
]

-- rotate
unfoldable pub rotate_checked : Faults → OpenAppender → Handle → Disk → Text → Report
unfolding rename_checked
rotate_checked f a lost disk timestamp = (some closed_error, a, disk)
rotate_checked f a working disk timestamp = elim f.flush [
  | some e ↦ (some e, give_up a, disk)
  | none ↦ elim f.close [
    | some e ↦ (some e, give_up a, disk)
    | none ↦ rename_checked f a disk timestamp
  ]
]

-- AppendBlock behind the rotation
unfoldable pub write_checked : Faults → Text → OpenAppender → Handle → Disk → Report
unfolding write_line
write_checked f line a lost disk = (
  some closed_error,
  record a { base = record a.base { current_size = a.base.current_size + f.counted } },
  disk,
)
write_checked f line a working disk = elim f.write [
  | none ↦
      let (b, disk') = write_line line (a.base, disk) in
      (none, record { base = b; handle = working }, disk')
  | some (counted, written, e) ↦ (
    some e,
    record { base = record a.base { current_size = a.base.current_size + counted }; handle = lost },
    insert a.base.file_path (content disk a.base.file_path ++ take written line) disk,
  )
]

abbrev pub then_write : Faults → Text → Report → Report
then_write f line (some e, a, disk) = (some e, a, disk)
then_write f line (none, a, disk) = write_checked f line a a.handle disk

-- AppendBlock of the JSON text of a block
unfoldable pub append_checked : Faults → OpenAppender → Disk → Text → Text → Report
unfolding rotate_checked write_checked
append_checked f a disk timestamp json =
    let line = json ++ 10 ∷ [] in
    if ltb a.base.rotation_limit_bytes (a.base.current_size + length line)
    then then_write f line (rotate_checked f a a.handle disk timestamp)
    else write_checked f line a a.handle disk

-- Close
unfoldable pub close_checked : Faults → OpenAppender → Handle → Option Text
close_checked f a lost = some closed_error
close_checked f a working = elim f.flush [ some e ↦ some e | none ↦ f.close ]

abbrev pub calm : Faults
calm = record {
  flush = none;
  close = none;
  rename = none;
  open_ = none;
  stat = none;
  write = none;
  counted = 0;
}

-- Where nothing fails AppendBlock is the one without failures.
pub append_checked-calm :
    (base : LocalAppender) (disk : Disk) (timestamp json : Text)
    → append_checked calm (record { base = base; handle = working }) disk timestamp json ≡ (
      none,
      record { base = (append_block base disk timestamp json).0; handle = working },
      (append_block base disk timestamp json).1,
    )
unfolding append_checked rotate_checked write_checked rename_checked open_checked append_block
    rotate
append_checked-calm base disk timestamp json =
    elim (Bool-cases
      (ltb base.rotation_limit_bytes (base.current_size + length (json ++ 10 ∷ [])))) [
        | inl full ↦ rw (full, append_checked, append_block) refl
        | inr fits ↦ rw (fits, append_checked, append_block) refl
      ]

-- A call with its faults, its time and its block.
pub record Attempt : Type 0 where
  pub faults : Faults
  pub timestamp : Text
  pub json : Text

-- Some calls of AppendBlock, with what they report.
unfoldable pub append_all : List Attempt → OpenAppender → Disk → List (Option Text) × Disk
unfolding append_checked
append_all [] a disk = ([], disk)
append_all (t ∷ ts) a disk =
    let (failed, a', disk') = append_checked t.faults a disk t.timestamp t.json in
    let (reports, disk'') = append_all ts a' disk' in (failed ∷ reports, disk'')

abbrev pub IsError : Option Text → Type 0
IsError failed = (e : Text) × (failed ≡ some e)

-- A call on a lost file fails, leaves it lost and changes no file.
pub record Fails (disk : Disk) (out : Report) : Type 0 where
  pub error : IsError out.0
  pub still : out.1.handle ≡ lost
  pub same : out.2 ≡ disk

append_checked-Fails :
    (f : Faults) (base : LocalAppender) (disk : Disk) (timestamp json : Text)
    → Fails disk (append_checked f (record { base = base; handle = lost }) disk timestamp json)
unfolding append_checked rotate_checked write_checked
append_checked-Fails f base disk timestamp json =
    elim (Bool-cases
      (ltb base.rotation_limit_bytes (base.current_size + length (json ++ 10 ∷ [])))) [
        | inl full ↦
            rw (full, append_checked)
              (record { error = (closed_error, refl); still = refl; same = refl })
        | inr fits ↦
            rw (fits, append_checked)
              (record { error = (closed_error, refl); still = refl; same = refl })
      ]

lost-Fails :
    (f : Faults) (a : OpenAppender) (disk : Disk) (timestamp json : Text)
    → a.handle ≡ lost
    → Fails disk (append_checked f a disk timestamp json)
lost-Fails f a disk timestamp json gone =
    subst
      (λ h.
        Fails disk (append_checked f (record { base = a.base; handle = h }) disk timestamp json))
      (sym gone) (append_checked-Fails f a.base disk timestamp json)

later_attempts :
    (ts : List Attempt) (a : OpenAppender) (disk : Disk)
    → a.handle ≡ lost
    → All IsError (append_all ts a disk).0 × ((append_all ts a disk).1 ≡ disk)
unfolding append_all
later_attempts [] a disk gone = (tt, refl)
later_attempts (t ∷ ts) a disk gone =
    let out = append_checked t.faults a disk t.timestamp t.json in
    let fails = lost-Fails t.faults a disk t.timestamp t.json gone in
    let (errors, same) = later_attempts ts out.1 out.2 fails.still in
    ((fails.error, errors), same ∙ fails.same)

-- After a rotation whose rename fails the appender is lost: that call and every later one report
-- an error and change no file, whatever the later calls of the operating system would give.
pub append_all-lost :
    (f : Faults) (base : LocalAppender) (disk : Disk) (timestamp json e : Text) (ts : List Attempt)
    → f.flush ≡ none
    → f.close ≡ none
    → f.rename ≡ some e
    → ltb base.rotation_limit_bytes (base.current_size + length (json ++ 10 ∷ [])) ≡ true
    → let attempts = record { faults = f; timestamp = timestamp; json = json } ∷ ts in
      let out = append_all attempts (record { base = base; handle = working }) disk in
      All IsError out.0 × (out.1 ≡ disk)
unfolding append_all append_checked rotate_checked rename_checked
append_all-lost f base disk timestamp json e ts flushed closed refused full =
    let a : OpenAppender = record { base = base; handle = working } in
    let first : append_checked f a disk timestamp json
        ≡ (some (codes "audit_rotate_failed: " ++ e), give_up a, disk) =
      rw (full, flushed, closed, refused, append_checked, rotate_checked, rename_checked) refl in
    let (errors, same) =
      later_attempts ts (append_checked f a disk timestamp json).1
        (append_checked f a disk timestamp json).2 (ap (λ (o : Report). o.1.handle) first) in
    (
      ((codes "audit_rotate_failed: " ++ e, ap (λ (o : Report). o.0) first), errors),
      same ∙ ap (λ (o : Report). o.2) first,
    )
