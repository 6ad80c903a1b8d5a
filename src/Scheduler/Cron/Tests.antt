-- ===== src/Scheduler/Cron/Tests.antt =====
-- Cron expressions evaluated, and the theorems on them at concrete inputs.
use aethercore.Prelude.{ℕ, ◌+◌, ◌/◌, ◌%◌, ◌≤◌, ◌<◌, ◌≡◌, ◌≢◌, refl, ◌⊎◌, All, arith}
use aethercore.Prelude.Int.{pos, add_int}
use aethercore.Prelude.Result.{ok, err}
use aethercore.Prelude.Bits.{shift_one}
use aethercore.Prelude.Text.{codes, trim_space, fields, split, cut}
use aethercore.Scheduler.Cron.{
  Civil, CronExpr, diverged, parse_cron, parse_part, atoi, fill, set_bit, has_bit, safe_uint,
  parse_range, parse_single, parse_wildcard, parse_field, expand_alias, truncate_minute, minute_ns,
  max_iter, next_after,
}
use aethercore.Scheduler.Cron.Parse.{Holds, parse_range-grid}
use aethercore.Scheduler.Cron.Ranges.{
  part_has, any, Modest, InBounds, parse_field-ends, parse_field-union, parse_cron-InBounds,
}
use aethercore.Scheduler.Cron.Next.{IsFirst, NoMatch, next_after-IsFirst}

abbrev work_hours : CronExpr
work_hours = record {
  minute = 0x200040008001;
  hour = 0x3fe00;
  day_month = 0xfffffffe;
  month = 0x82;
  day_week = 0x3e;
  raw = codes "*/15 9-17 * 1,7 1-5";
}

work_hours_parse : parse_cron (codes " */15 9-17 * 1,7 1-5") ≡ ok work_hours
unfolding parse_cron parse_field parse_part parse_range parse_single parse_wildcard atoi fill
    add_int set_bit safe_uint shift_one trim_space fields split cut expand_alias
work_hours_parse = refl

overflowing_step : parse_part (codes "1-30/9223372036854775807") 0 59 ≡ ok 3
unfolding parse_part parse_range atoi fill add_int set_bit safe_uint shift_one cut
overflowing_step = refl

parse_range-grid_example :
    (bits : ℕ) × (parse_range (codes "9") (codes "17") 0 23 (pos 2) ≡ ok bits) × Holds bits 9 17 2
unfolding atoi
parse_range-grid_example =
    parse_range-grid (codes "9") (codes "17") 9 17 0 23 2 refl refl (omega arith) (omega arith)
      (omega arith) (omega arith) (omega arith) (omega arith)

parse_field-ends_example : parse_field (codes "*/9223372036854775807") 1 31 ≢ err diverged
parse_field-ends_example =
    parse_field-ends (codes "*/9223372036854775807") 1 31 (omega arith) (omega arith)

one_and_seven : parse_field (codes "1,7") 1 12 ≡ ok 0x82
unfolding parse_field parse_part parse_range parse_single parse_wildcard atoi fill add_int set_bit
    safe_uint shift_one split cut
one_and_seven = refl

parse_field-union_example : has_bit 0x82 7 ≡ any (part_has 1 12 7) (split 44 (codes "1,7"))
parse_field-union_example = parse_field-union (codes "1,7") 1 12 0x82 7 (omega arith) one_and_seven

work_hours-Modest : All Modest (fields (expand_alias (trim_space (codes " */15 9-17 * 1,7 1-5"))))
unfolding expand_alias trim_space fields split cut atoi
work_hours-Modest = (
  ((λ s h. ground arith), tt),
  (
    ((λ s h. ground arith), tt),
    (
      ((λ s h. ground arith), tt),
      (((λ s h. ground arith), ((λ s h. ground arith), tt)), (((λ s h. ground arith), tt), tt)),
    ),
  ),
)

parse_cron-InBounds_example : InBounds work_hours
parse_cron-InBounds_example =
    parse_cron-InBounds (codes " */15 9-17 * 1,7 1-5") work_hours work_hours-Modest work_hours_parse

abbrev plain : ℕ → Civil
plain t = record {
  minute = t / minute_ns % 60;
  hour = t / minute_ns / 60 % 24;
  day = 1;
  month = 1;
  weekday = 1;
}

next_after-IsFirst_example :
    (70000000000 < truncate_minute 70000000000 + minute_ns)
    × (truncate_minute 70000000000 + minute_ns ≤ 70000000000 + minute_ns)
    × (truncate_minute 70000000000 % minute_ns ≡ 0)
    × (IsFirst plain work_hours max_iter
          (truncate_minute 70000000000 + minute_ns)
          (next_after plain work_hours 70000000000)
        ⊎ ((next_after plain work_hours 70000000000 ≡ 0)
            × NoMatch plain work_hours max_iter (truncate_minute 70000000000 + minute_ns)))
next_after-IsFirst_example = next_after-IsFirst plain work_hours 70000000000
