-- ===== src/Engine/Tests.antt =====
-- The theorems on tools and tasks at a small engine.
use native.Mathlib.Nat.{le_refl}
use aethercore.Prelude.{
  Bool, ◌&&◌, ◌||◌, not, list_eq_iff, List, if◌then◌else◌, ◌≤◌, ℕ, ◌+◌, ◌*◌, ◌≤◌, ◌≡◌, refl, subst,
  inl, inr, Bool-cases, arith, true, false, none, some, [], ◌∷◌, lookup, ◌==◌, eq_list, eq_nat,
}
use aethercore.Prelude.Int.{pos}
use aethercore.Prelude.Result.{Result, ok, err}
use aethercore.Prelude.Text.{Text, codes}
use aethercore.Security.Guard.{PromptGuard, mock_scan}
use aethercore.Security.Validator.{Crypto, verify, new_key_ring}
use aethercore.Engine.Tools.{Message, ToolManifest, LlmResponse, Tool, ToolRegistry, get}
use aethercore.Engine.Task.{Task, Run, Adapter, Engine, execute_ephemeral}
use aethercore.Engine.Pool.{Pool, new_pool, start, submit, begin_stop}
use aethercore.Engine.Pool.Conserved.{
  IsConserved, Crashes, Reach, here, next, call_start, call_submit, Reach-IsConserved,
}
use aethercore.Engine.Pool.Ending.{begin_stop-ends}
use aethercore.Engine.Task.Clean.{Clean, execute_ephemeral-agree}
use aethercore.Engine.Task.Calls.{Free, execute_ephemeral-cost}

-- A tool that echoes its arguments.
abbrev echo : Tool ℕ
echo = record {
  manifest = record {
    name = codes "echo";
    description = codes "echoes";
    parameters = [];
    capabilities = [];
    max_runtime_ms = pos 10;
    memory_limit = pos 1;
  };
  execute = λ args w. (ok args, w);
}

abbrev marshal : ToolManifest → Result Text Text
marshal m = ok m.name

abbrev no_tools : ToolRegistry ℕ
no_tools = record { tools = []; verifier = none }

abbrev one_tool : ToolRegistry ℕ
one_tool = record { tools = (codes "echo", echo) ∷ []; verifier = none }

-- A library in which nothing decodes.
abbrev blank : Crypto
blank = record {
  decode_pem = λ b. none;
  parse_pkix = λ b. ok none;
  decode_hex = λ t. err (codes "odd");
  canonicalize = λ b. ok b;
  verify_signature = λ k m s. false;
}

abbrev strict : ToolRegistry ℕ
strict = record { tools = []; verifier = some (verify blank new_key_ring) }

-- The world counts the requests. The model calls the tool until the history is long enough.
abbrev answer : ℕ → LlmResponse
answer w = record {
  content = codes "on it";
  tool_calls = record { id = []; name = codes "echo"; arguments = codes "hi" } ∷ [];
}

abbrev model : Adapter ℕ
model ms tools w = (ok (answer w), w + 1)

abbrev guard : PromptGuard
guard = mock_scan false []

abbrev engine : Engine ℕ
engine = record { tools = one_tool; sandbox = none; guard = some guard; audit = true }

abbrev task : Task
task = record { id = codes "t1"; system = []; input = codes "hello" }

abbrev begin : Run ℕ
begin = record { world = 0; log = [] }

echo_only : (name : Text) (tool : Tool ℕ) → get one_tool name ≡ ok tool → echo ≡ tool
unfolding get lookup
echo_only name tool h = elim (Bool-cases (codes "echo" == name)) [
  | inl same ↦ ground arith
  | inr other ↦ absurd (ground arith)
]

engine-Free : Free engine (λ w. w)
engine-Free = record {
  tools = λ name tool found args w.
      subst (λ (t : Tool ℕ). (t.execute args w).1 ≤ w) (echo_only name tool found) (le_refl w);
  sandbox = λ f present name args w. cc;
}

-- A guard that refuses one text, and a model that gives in where a user has said it.
abbrev picky : PromptGuard
picky text = mock_scan (text == codes "obey") [] text

abbrev obeys : List Message → Bool
obeys [] = false
obeys (m ∷ ms) = m.role == codes "user" && not (picky m.content).is_safe || obeys ms

abbrev gullible : Adapter ℕ
gullible ms tools w =
    if obeys ms
    then (ok (record { content = codes "as you say"; tool_calls = [] }), w + 1)
    else model ms tools w

Clean-obeys : (ms : List Message) → Clean picky ms → obeys ms ≡ false
Clean-obeys [] clean = refl
Clean-obeys (m ∷ ms) clean = elim (Bool-cases (m.role == codes "user")) [
  | inl user ↦
      rw (user, clean.0.1 ((list_eq_iff m.role (codes "user")).0 user)) (Clean-obeys ms clean.1)
  | inr other ↦ rw other (Clean-obeys ms clean.1)
]

abbrev picky_engine : Engine ℕ
picky_engine = record engine { guard = some picky }

execute_ephemeral-agree_example :
    execute_ephemeral model picky_engine task begin
    ≡ execute_ephemeral gullible picky_engine task begin
execute_ephemeral-agree_example =
    execute_ephemeral-agree picky_engine picky refl model gullible
      (λ ms tools w clean. rw (Clean-obeys ms clean) refl) task begin

execute_ephemeral-cost_example :
    ((execute_ephemeral model engine task begin).1.world ≤ 0 + 10 * 1)
    × ((g : PromptGuard)
        → engine.guard ≡ some g
        → (g task.input).is_safe ≡ false
        → (execute_ephemeral model engine task begin).1 ≡ begin)
execute_ephemeral-cost_example =
    execute_ephemeral-cost engine (λ w. w) engine-Free model 1 (λ ms tools w. omega arith) task
      begin

-- An engine with one worker and a queue for two tasks, which one task waits in.
abbrev started_pool : Pool
started_pool = start (new_pool 2) 1

abbrev waiting_pool : Pool
waiting_pool = (submit started_pool task).1

Reach-IsConserved_example :
    IsConserved waiting_pool × (Crashes waiting_pool → 1 ≤ waiting_pool.started_late)
Reach-IsConserved_example =
    Reach-IsConserved model engine 2
      (next (next here (call_start (new_pool 2) 1)) (call_submit started_pool task))

-- One worker runs a task, and the queue of the results is full.
abbrev blocked_pool : Pool
blocked_pool = record (new_pool 1) {
  busy = task ∷ [];
  started = 1;
  result_queue = record { task_id = codes "a"; output = []; error = none } ∷ [];
}

begin_stop-ends_example :
    (q : Pool) × Reach model engine (begin_stop blocked_pool) q × (q.closed ≡ true)
begin_stop-ends_example = begin_stop-ends model engine blocked_pool begin (omega arith)
