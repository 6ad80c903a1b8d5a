-- ===== src/Audit/Appender/Tests.antt =====
-- core/audit/local_appender.go: a file that is nearly full, and a rotation that fails.
use aethercore.Prelude.{◌≡◌, some, List, All, refl, [], ◌∷◌, ◌++◌, lookup, eq_list, eq_nat}
use aethercore.Prelude.Text.{codes}
use aethercore.Audit.Appender.{LocalAppender, Disk, content, append_block}
use aethercore.Audit.Appender.Faults.{
  Faults, working, calm, Attempt, append_all, IsError, append_all-lost,
}
use aethercore.Audit.Appender.Rotation.{IsSized, Appends, append_block-Appends}

abbrev nearly_full : LocalAppender
nearly_full = record { file_path = codes "audit"; rotation_limit_bytes = 10; current_size = 8 }

abbrev one_file : Disk
one_file = (codes "audit", codes "{block1}") ∷ []

one_file-IsSized : IsSized (nearly_full, one_file)
unfolding content lookup
one_file-IsSized = refl

append_block-Appends_example :
    Appends nearly_full one_file
      (codes "20260101000000")
      (codes "{2}" ++ 10 ∷ [])
      (append_block nearly_full one_file (codes "20260101000000") (codes "{2}"))
append_block-Appends_example =
    append_block-Appends nearly_full one_file (codes "20260101000000") (codes "{2}")
      one_file-IsSized

abbrev locked : Faults
locked = record calm { rename = some (codes "permission denied") }

abbrev later : List Attempt
later = record { faults = calm; timestamp = codes "20260101000001"; json = codes "{3}" } ∷ []

append_all-lost_example :
    All IsError
      (append_all
        (record { faults = locked; timestamp = codes "20260101000000"; json = codes "{2}" } ∷ later)
        (record { base = nearly_full; handle = working })
        one_file).0
    × ((append_all
          (record { faults = locked; timestamp = codes "20260101000000"; json = codes "{2}" }
            ∷ later)
          (record { base = nearly_full; handle = working })
          one_file).1
        ≡ one_file)
append_all-lost_example =
    append_all-lost locked nearly_full one_file (codes "20260101000000") (codes "{2}")
      (codes "permission denied") later refl refl refl refl
