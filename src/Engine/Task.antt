-- ===== src/Engine/Task.antt =====
-- core/event_loop.go: executeEphemeral, the run of one task, with dispatchTool and
-- verifyToolOutput. The adapter of the model, the tools and the sandbox act on a world; their
-- errors are texts. Contexts, log lines and measured times are left out; a logged event is kept
-- without its time.
pub mod Clean
pub mod Calls
use aethercore.Prelude.{
  ℕ, zero, suc, ◌+◌, Bool, true, false, not, Option, none, some, List, [], ◌∷◌, ◌++◌, length,
  if◌then◌else◌,
}
use aethercore.Prelude.Result.{Result, ok, err}
use aethercore.Prelude.Text.{Text, codes, itoa, contains}
use aethercore.Security.Guard.{PromptGuard, AdversarialMatch}
use aethercore.Engine.Tools.{
  ToolManifest, ToolCall, ToolResultMessage, Message, LlmResponse, Tool, ToolRegistry, get,
  manifests,
}

pub record Task : Type 0 where
  pub id : Text
  pub system : Text
  pub input : Text

-- A value of the metadata of an event.
pub data MetaValue : Type 0 where
  text : Text → MetaValue
  number : ℕ → MetaValue

pub record AuditEvent : Type 0 where
  pub id : Text
  pub kind : Text
  pub actor : Text
  pub metadata : List (Text × MetaValue)

-- An error, or the panic of `Violations[0]` and of a guard that is nil.
pub data Failure : Type 0 where
  panic : Failure
  failed : Text → Failure

-- The world with the events that are logged so far.
pub record Run (World : Type 0) : Type 0 where
  pub world : World
  pub log : List AuditEvent

abbrev pub Adapter : Type 0 → Type 0
Adapter World = List Message → List ToolManifest → World → Result Text LlmResponse × World

-- The part of Engine that a task reads, its adapter aside.
pub record Engine (World : Type 0) : Type 0 where
  pub tools : ToolRegistry World
  pub sandbox : Option (Text → Text → World → Result Text Text × World)
  pub guard : Option PromptGuard
  pub audit : Bool

-- maxAgentIterations
abbrev pub max_agent_iterations : ℕ
max_agent_iterations = 10

-- fmt.Errorf("security_violation_tool_output: …") with the event in front of it
abbrev pub violation_event : Text → AdversarialMatch → AuditEvent
violation_event task_id v = record {
  id = task_id ++ codes "-violation";
  kind = codes "AUDIT_SECURITY_VIOLATION";
  actor = codes "prompt-guard";
  metadata =
      (codes "task_id", MetaValue.text task_id)
      ∷ (codes "reason", MetaValue.text v.description)
      ∷ [];
}

abbrev pub exec_event : Text → ToolCall → AuditEvent
exec_event task_id call = record {
  id = task_id ++ codes "-tool-exec";
  kind = codes "AUDIT_TOOL_EXECUTE";
  actor = codes "engine";
  metadata =
      (codes "task_id", MetaValue.text task_id) ∷ (codes "tool", MetaValue.text call.name) ∷ [];
}

abbrev pub result_event : Text → ToolCall → AuditEvent
result_event task_id call = record {
  id = task_id ++ codes "-tool-res";
  kind = codes "AUDIT_TOOL_RESULT";
  actor = codes "engine";
  metadata =
      (codes "task_id", MetaValue.text task_id)
      ∷ (codes "tool_name", MetaValue.text call.name)
      ∷ [];
}

abbrev pub request_event : Text → List Message → AuditEvent
request_event task_id messages = record {
  id = task_id ++ codes "-req";
  kind = codes "AUDIT_LLM_REQUEST";
  actor = codes "engine";
  metadata =
      (codes "task_id", MetaValue.text task_id)
      ∷ (codes "messages_count", MetaValue.number (length messages))
      ∷ [];
}

abbrev pub start_messages : Text → List Message
start_messages input =
    record {
      role = codes "system";
      content = codes "You are AetherCore Kernel. Execute the objective using tools.";
      tool_calls = [];
      tool_results = [];
    }
    ∷ record { role = codes "user"; content = input; tool_calls = []; tool_results = [] }
    ∷ []

abbrev pub assistant_message : LlmResponse → Message
assistant_message r = record {
  role = codes "assistant";
  content = r.content;
  tool_calls = r.tool_calls;
  tool_results = [];
}

abbrev pub tool_message : List ToolResultMessage → Message
tool_message results = record {
  role = codes "tool";
  content = [];
  tool_calls = [];
  tool_results = results;
}

abbrev pub tool_result : ToolCall → Text → Bool → ToolResultMessage
tool_result call content is_error = record {
  tool_call_id = call.id;
  content = content;
  is_error = is_error;
}

pub input_violation : List AdversarialMatch → Failure
input_violation [] = panic
input_violation (v ∷ _) = failed (codes "security_violation: " ++ v.description)

module _ {World : Type 0} where
  abbrev pub with_world : Run World → World → Run World
  with_world s w = record s { world = w }

  -- `if e.audit != nil { _ = e.audit.LogEvent(…) }`
  unfoldable pub log_event : Engine World → AuditEvent → Run World → Run World
  log_event e event s = if e.audit then record s { log = s.log ++ event ∷ [] } else s

  pub report_violation :
      Engine World → Text → List AdversarialMatch → Run World → Option Failure × Run World
  report_violation e task_id [] s = (some panic, s)
  report_violation e task_id (v ∷ _) s = (
    some (failed (codes "security_violation_tool_output: " ++ v.description)),
    log_event e (violation_event task_id v) s,
  )

  -- verifyToolOutput
  unfoldable pub verify_tool_output :
      Engine World → Text → Text → Run World → Option Failure × Run World
  unfolding report_violation
  verify_tool_output e task_id output s = elim e.guard [
    | none ↦ (none, s)
    | some guard ↦
        if (guard output).is_safe
        then (none, s)
        else report_violation e task_id (guard output).violations s
  ]

  -- An output is given back once it is verified.
  pub verified : Text → Option Failure × Run World → Result Failure Text × Run World
  verified output (none, s) = (ok output, s)
  verified output (some f, s) = (err f, s)

  -- What a tool or the sandbox gives: an error as it is, an output once it is verified.
  unfoldable pub settle :
      Engine World → Text → Result Text Text → Run World → Result Failure Text × Run World
  unfolding verified
  settle e task_id (err x) s = (err (failed x), s)
  settle e task_id (ok output) s = verified output (verify_tool_output e task_id output s)

  unfoldable pub run_tool :
      Engine World → Text → ToolCall → Tool World → Run World → Result Failure Text × Run World
  run_tool e task_id call tool s =
      let s1 = log_event e (exec_event task_id call) s in
      let (result, w) = tool.execute call.arguments s1.world in
      settle e task_id result (with_world s1 w)

  unfoldable pub run_sandbox :
      Engine World → Text → ToolCall → Run World → Result Failure Text × Run World
  run_sandbox e task_id call s = elim e.sandbox [
    | none ↦ (err (failed (codes "tool_not_found: " ++ call.name)), s)
    | some execute_tool ↦
        let (result, w) = execute_tool call.name call.arguments s.world in
        settle e task_id result (log_event e (result_event task_id call) (with_world s w))
  ]

  -- dispatchTool
  unfoldable pub dispatch_tool :
      Engine World → Text → ToolCall → Run World → Result Failure Text × Run World
  dispatch_tool e task_id call s = elim (get e.tools call.name) [
    | ok tool ↦ run_tool e task_id call tool s
    | err _ ↦ run_sandbox e task_id call s
  ]

  pub cons_result :
      ToolResultMessage
      → Result Failure (List ToolResultMessage) × Run World
      → Result Failure (List ToolResultMessage) × Run World
  cons_result m (ok ms, s) = (ok (m ∷ ms), s)
  cons_result m (err f, s) = (err f, s)

  -- What follows one tool call: a security violation ends the task, any other error becomes a
  -- result as an output does.
  pub after_call :
      ToolCall
      → (Run World → Result Failure (List ToolResultMessage) × Run World)
      → Result Failure Text × Run World
      → Result Failure (List ToolResultMessage) × Run World
  unfolding cons_result
  after_call call next (ok output, s) = cons_result (tool_result call output false) (next s)
  after_call call next (err panic, s) = (err panic, s)
  after_call call next (err (failed x), s) = elim (contains x (codes "security_violation")) [
    | true ↦ (err (failed x), s)
    | false ↦ cons_result (tool_result call x true) (next s)
  ]

  -- the loop over the tool calls of one response
  unfoldable pub run_calls :
      Engine World
      → Text
      → List ToolCall
      → Run World
      → Result Failure (List ToolResultMessage) × Run World
  unfolding after_call
  run_calls e task_id [] s = (ok [], s)
  run_calls e task_id (call ∷ calls) s =
      after_call call (run_calls e task_id calls) (dispatch_tool e task_id call s)

  -- What follows the tool calls of a response: the task ends with a failure of theirs, or goes on
  -- with their results.
  pub with_results :
      (List ToolResultMessage → Run World → Result Failure Text × Run World)
      → Result Failure (List ToolResultMessage) × Run World
      → Result Failure Text × Run World
  with_results next (err f, s) = (err f, s)
  with_results next (ok ms, s) = next ms s

  -- What follows a response: its error, its content where it calls no tool, or its tool calls.
  pub with_response :
      Engine World
      → Text
      → ℕ
      → (LlmResponse → List ToolResultMessage → Run World → Result Failure Text × Run World)
      → Result Text LlmResponse
      → Run World
      → Result Failure Text × Run World
  with_response e task_id iteration next (err x) s =
      (err (failed (codes "llm_iter_" ++ itoa iteration ++ codes ": " ++ x)), s)
  with_response e task_id iteration next (ok r) s = elim r.tool_calls [
    | [] ↦ (ok r.content, s)
    | call ∷ calls ↦ with_results (next r) (run_calls e task_id (call ∷ calls) s)
  ]

  -- the loop of executeEphemeral, with the iterations left and the number of this one
  unfoldable pub iterate :
      Adapter World
      → Engine World
      → Text
      → ℕ
      → ℕ
      → List Message
      → Run World
      → Result Failure Text × Run World
  unfolding with_response with_results
  iterate adapter e task_id zero iteration messages s =
      (err (failed (codes "ErrMaxIterationsExceeded")), s)
  iterate adapter e task_id (suc left) iteration messages s =
      let s1 = log_event e (request_event task_id messages) s in
      let (response, w) = adapter messages (manifests e.tools) s1.world in
      with_response e task_id iteration
        (λ r ms.
          iterate adapter e task_id left (iteration + 1)
            (messages ++ assistant_message r ∷ tool_message ms ∷ []))
        response (with_world s1 w)

  -- executeEphemeral
  unfoldable pub execute_ephemeral :
      Adapter World → Engine World → Task → Run World → Result Failure Text × Run World
  unfolding input_violation
  execute_ephemeral adapter e t s = elim e.guard [
    | none ↦ (err panic, s)
    | some guard ↦
        let run = iterate adapter e t.id max_agent_iterations 0 (start_messages t.input) s in
        if not (guard t.input).is_safe
        then (err (input_violation (guard t.input).violations), s)
        else run
  ]
