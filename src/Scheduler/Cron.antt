-- ===== src/Scheduler/Cron.antt =====
-- modules/scheduler/cron.go: cron expressions as bitsets, their parser, and the search for the
-- next time. A time is its nanoseconds since Go's zero time; the reading of a time as minute, hour,
-- day, month and weekday in its location is a parameter.
pub mod Field
pub mod Next
pub mod Parse
pub mod Ranges
mod Tests
use Prim.Native.Nat.{bit_and, bit_or}
use aethercore.Prelude.{
  ℕ, zero, suc, ◌+◌, ◌-◌, ◌*◌, ◌%◌, Bool, true, false, not, ◌&&◌, ◌||◌, Option, none, some, List,
  [], ◌∷◌, length, ◌==◌, eq_list, eq_nat, leb, nat_eq, if◌then◌else◌,
}
use aethercore.Prelude.Bits.{shift_one}
use aethercore.Prelude.Int.{ℤ, pos, negsuc, leb_ℤ, ltb_ℤ, add_int, max_int}
use aethercore.Prelude.Result.{Result, ok, err, ◌>>=◌, wrap_err}
use aethercore.Prelude.Text.{Text, codes, trim_space, fields, split, cut}

-- the fields in the order of the text
pub data FieldName : Type 0 where
  minute hour day_of_month month day_of_week : FieldName

-- the messages behind ErrFieldRange; `diverged` stands for a loop that would not end
pub data FieldError : Type 0 where
  invalid_step invalid_range_start invalid_range_end range_outside invalid_value value_outside :
      FieldError
  diverged : FieldError

-- ErrEmptyExpr, and ErrInvalidCron with what it wraps
pub data CronError : Type 0 where
  empty_expr : CronError
  field_count : ℕ → CronError
  bad_field : FieldName → FieldError → CronError

pub record CronExpr : Type 0 where
  pub minute : ℕ  -- uint64
  pub hour : ℕ  -- uint64
  pub day_month : ℕ  -- uint64
  pub month : ℕ  -- uint64
  pub day_week : ℕ  -- uint64
  pub raw : Text

-- What `time.Time` tells of an instant in its location.
pub record Civil : Type 0 where
  pub minute : ℕ
  pub hour : ℕ
  pub day : ℕ
  pub month : ℕ
  pub weekday : ℕ

unfoldable pub set_bit : ℕ → ℕ → ℕ
set_bit bits position = bit_or bits (shift_one position)

unfoldable pub has_bit : ℕ → ℕ → Bool
has_bit bits position = not (nat_eq (bit_and bits (shift_one position)) 0)

unfoldable pub safe_uint : ℤ → ℕ
safe_uint (pos v) = v
safe_uint (negsuc v) = 0

-- strconv.Atoi: an optional sign and digits, within the range of an int.
digits_value : ℕ → Text → Option ℕ
digits_value n [] = some n
digits_value n (c ∷ s) =
    let rest = digits_value (n * 10 + (c - 48)) s in if leb 48 c && leb c 57 then rest else none

unsigned_value : Text → Option ℕ
unfolding digits_value
unsigned_value [] = none
unsigned_value (c ∷ s) = digits_value 0 (c ∷ s)

negate : ℕ → ℤ
negate zero = pos 0
negate (suc n) = negsuc n

signed_value : (ℕ → ℤ) → ℕ → Option ℕ → Option ℤ
signed_value sign limit none = none
signed_value sign limit (some n) = if leb n limit then some (sign n) else none

unfoldable pub atoi : Text → Option ℤ
unfolding unsigned_value negate signed_value
atoi [] = none
atoi (c ∷ s) =
    if nat_eq c b'-'
    then signed_value negate (max_int + 1) (unsigned_value s)
    else if nat_eq c b'+'
    then signed_value pos max_int (unsigned_value s)
    else signed_value pos max_int (unsigned_value (c ∷ s))

-- `for v := v; v <= last; v += step { bits = setBit(bits, safeUint(v)) }`, with fuel.
unfoldable pub fill : ℕ → ℤ → ℤ → ℤ → ℕ → Option ℕ
fill zero v last step bits = none
fill (suc fuel) v last step bits =
    let rest = fill fuel (add_int v step) last step (set_bit bits (safe_uint v)) in
    if leb_ℤ v last then rest else some bits

-- Enough for every field of a cron expression.
abbrev pub loop_fuel : ℕ
loop_fuel = 128

pub or_diverged : Option ℕ → Result FieldError ℕ
or_diverged none = err diverged
or_diverged (some bits) = ok bits

unfoldable pub parse_wildcard : ℕ → ℕ → ℤ → Result FieldError ℕ
unfolding or_diverged
parse_wildcard lo hi step = or_diverged (fill loop_fuel (pos lo) (pos hi) step 0)

or_err : Option ℤ → FieldError → Result FieldError ℤ
or_err none e = err e
or_err (some v) e = ok v

unfoldable pub parse_range : Text → Text → ℕ → ℕ → ℤ → Result FieldError ℕ
unfolding or_diverged or_err
parse_range start_str end_str lo hi step = do
  start ← or_err (atoi start_str) invalid_range_start
  end ← or_err (atoi end_str) invalid_range_end
  if ltb_ℤ start (pos lo) || (ltb_ℤ (pos hi) end || ltb_ℤ end start)
      then err range_outside
      else or_diverged (fill loop_fuel start end step 0)

unfoldable pub parse_single : Text → ℕ → ℕ → Result FieldError ℕ
unfolding or_err
parse_single val_str lo hi = do
  val ← or_err (atoi val_str) invalid_value
  if ltb_ℤ val (pos lo) || ltb_ℤ (pos hi) val
      then err value_outside
      else ok (set_bit 0 (safe_uint val))

-- the step behind a slash, 1 without one
step_value : Bool → Text → Result FieldError ℤ
step_value false step_str = ok (pos 1)
step_value true step_str = elim (atoi step_str) [
  | none ↦ err invalid_step
  | some s ↦ if leb_ℤ s (pos 0) then err invalid_step else ok s
]

unfoldable pub parse_part : Text → ℕ → ℕ → Result FieldError ℕ
unfolding step_value
parse_part part lo hi = do
  let (range_str, step_str, has_step) = cut b'/' part
  step ← step_value has_step step_str
  let (start_str, end_str, is_range) = cut b'-' range_str
  if range_str == codes "*"
      then parse_wildcard lo hi step
      else if is_range
      then parse_range start_str end_str lo hi step
      else parse_single range_str lo hi

-- the loop of parseField over the parts
unfoldable pub parse_parts : ℕ → List Text → ℕ → ℕ → Result FieldError ℕ
parse_parts bits [] lo hi = ok bits
parse_parts bits (part ∷ parts) lo hi = elim (parse_part part lo hi) [
  | ok b ↦ parse_parts (bit_or bits b) parts lo hi
  | err e ↦ err e
]

unfoldable pub parse_field : Text → ℕ → ℕ → Result FieldError ℕ
unfolding parse_parts
parse_field field lo hi = parse_parts 0 (split b',' field) lo hi

-- the `switch` over the aliases
unfoldable pub expand_alias : Text → Text
expand_alias expr =
    if expr == codes "@yearly" || expr == codes "@annually"
    then codes "0 0 1 1 *"
    else if expr == codes "@monthly"
    then codes "0 0 1 * *"
    else if expr == codes "@weekly"
    then codes "0 0 * * 0"
    else if expr == codes "@daily" || expr == codes "@midnight"
    then codes "0 0 * * *"
    else if expr == codes "@hourly"
    then codes "0 * * * *"
    else expr

abbrev pub parse_fields : Text → List Text → Result CronError CronExpr
parse_fields expr (f0 ∷ f1 ∷ f2 ∷ f3 ∷ f4 ∷ []) = do
  m ← wrap_err (bad_field FieldName.minute) (parse_field f0 0 59)
  h ← wrap_err (bad_field FieldName.hour) (parse_field f1 0 23)
  dom ← wrap_err (bad_field FieldName.day_of_month) (parse_field f2 1 31)
  mon ← wrap_err (bad_field FieldName.month) (parse_field f3 1 12)
  dow ← wrap_err (bad_field FieldName.day_of_week) (parse_field f4 0 6)
  ok (record { minute = m; hour = h; day_month = dom; month = mon; day_week = dow; raw = expr })
parse_fields expr other = err (field_count (length other))

unfoldable pub parse_cron : Text → Result CronError CronExpr
parse_cron text =
    let expr = expand_alias (trim_space text) in
    if trim_space text == [] then err empty_expr else parse_fields expr (fields expr)

-- String
unfoldable pub string : CronExpr → Text
string c = c.raw

abbrev pub minute_ns : ℕ
minute_ns = 60000000000

-- t.Truncate(time.Minute)
unfoldable pub truncate_minute : ℕ → ℕ
truncate_minute t = t - t % minute_ns

-- maxIter of NextAfter
abbrev pub max_iter : ℕ
max_iter = 366 * 24 * 60

module _ (civil : ℕ → Civil) where
  unfoldable pub matches : CronExpr → ℕ → Bool
  matches c t =
      has_bit c.minute (civil t).minute
      && (has_bit c.hour (civil t).hour
          && (has_bit c.day_month (civil t).day
              && (has_bit c.month (civil t).month && has_bit c.day_week (civil t).weekday)))

  -- the loop of NextAfter with the iterations left; 0 is the zero time
  unfoldable pub search_from : ℕ → CronExpr → ℕ → ℕ
  search_from zero c next = 0
  search_from (suc left) c next = elim (matches c next) [
    | true ↦ next
    | false ↦ search_from left c (next + minute_ns)
  ]

  unfoldable pub next_after : CronExpr → ℕ → ℕ
  next_after c t = search_from max_iter c (truncate_minute t + minute_ns)
