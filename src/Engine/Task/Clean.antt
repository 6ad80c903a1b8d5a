-- ===== src/Engine/Task/Clean.antt =====
-- core/event_loop.go: what the model of an adapter is shown in the run of a task.
use aethercore.Prelude.{
  ◌≢◌, sym, ℕ, zero, suc, ◌+◌, ◌≡◌, refl, ap, ◌∙◌, inl, inr, arith, true, false, Bool-cases,
  Option-cases, Option, none, some, List, [], ◌∷◌, ◌++◌, All, All-append,
}
use aethercore.Prelude.Result.{Result, ok, err, Result-cases}
use aethercore.Prelude.Text.{Text, codes, contains}
use aethercore.Security.Guard.{PromptGuard, AdversarialMatch}
use aethercore.Engine.Tools.{
  ToolManifest, ToolCall, ToolResultMessage, Message, LlmResponse, Tool, get, manifests,
}
use aethercore.Engine.Task.{
  max_agent_iterations, Task, Failure, failed, panic, Run, Adapter, Engine, start_messages,
  assistant_message, tool_message, tool_result, with_world, log_event, verify_tool_output, verified,
  settle, run_tool, run_sandbox, dispatch_tool, cons_result, result_event, after_call, run_calls,
  with_results, with_response, iterate, execute_ephemeral, request_event, report_violation,
}

-- The guard has passed the text of a result, unless it is the text of an error.
abbrev pub CleanResult : PromptGuard → ToolResultMessage → Type 0
CleanResult guard r = r.is_error ≡ false → (guard r.content).is_safe ≡ true

-- The guard has passed every output of a tool in the message, and the input of a user.
abbrev pub CleanMessage : PromptGuard → Message → Type 0
CleanMessage guard m =
    All (CleanResult guard) m.tool_results
    × (m.role ≡ codes "user" → (guard m.content).is_safe ≡ true)

abbrev pub Clean : PromptGuard → List Message → Type 0
Clean guard = All (CleanMessage guard)

report_violation-fails :
    {World : Type 0} (e : Engine World) (task_id : Text) (vs : List AdversarialMatch)
    (s : Run World)
    → (report_violation e task_id vs s).0 ≢ none
unfolding report_violation
report_violation-fails e task_id [] s h = cc
report_violation-fails e task_id (v ∷ vs) s h = cc

abbrev pub CleanResults : PromptGuard → Result Failure (List ToolResultMessage) → Type 0
CleanResults guard (ok ms) = All (CleanResult guard) ms
CleanResults guard (err f) = Unit

cons_result-Clean :
    {World : Type 0} (guard : PromptGuard) (m : ToolResultMessage)
    (r : Result Failure (List ToolResultMessage) × Run World)
    → CleanResult guard m
    → CleanResults guard r.0
    → CleanResults guard (cons_result m r).0
unfolding cons_result
cons_result-Clean guard m (ok ms, s) h k = (h, k)
cons_result-Clean guard m (err f, s) h k = tt

after_call-Clean :
    {World : Type 0} (guard : PromptGuard) (call : ToolCall)
    (next : Run World → Result Failure (List ToolResultMessage) × Run World)
    (r : Result Failure Text × Run World)
    → ((output : Text) → r.0 ≡ ok output → (guard output).is_safe ≡ true)
    → ((s : Run World) → CleanResults guard (next s).0)
    → CleanResults guard (after_call call next r).0
unfolding after_call
after_call-Clean guard call next (ok output, s) safe h =
    cons_result-Clean guard (tool_result call output false) (next s) (λ p. safe output refl) (h s)
after_call-Clean guard call next (err panic, s) safe h = tt
after_call-Clean guard call next (err (failed x), s) safe h =
    elim (Bool-cases (contains x (codes "security_violation"))) [
      | inl stop ↦ rw (stop, after_call) tt
      | inr go_on ↦
          rw (go_on, after_call)
            (cons_result-Clean guard (tool_result call x true) (next s) (λ p. cc) (h s))
    ]

module _ {World : Type 0} (e : Engine World) (guard : PromptGuard)
    (set : e.guard ≡ some guard) where
  verify_tool_output-refused :
      (task_id output : Text) (s : Run World)
      → (guard output).is_safe ≡ false
      → verify_tool_output e task_id output s
        ≡ report_violation e task_id (guard output).violations s
  unfolding verify_tool_output
  verify_tool_output-refused task_id output s refused = ground arith

  -- An output that is given back has passed the guard.
  settle-safe :
      (task_id : Text) (r : Result Text Text) (s : Run World) {output : Text}
      → (settle e task_id r s).0 ≡ ok output
      → (guard output).is_safe ≡ true
  unfolding settle
  settle-safe task_id (err x) s h = cc
  settle-safe task_id (ok out) s {output} h = elim (Bool-cases (guard out).is_safe) [
    | inl passed ↦ same (verify_tool_output e task_id out s) h passed
    | inr refused ↦ absurd (
        stopped (verify_tool_output e task_id out s) h (λ n.
          report_violation-fails e task_id (guard out).violations s
            (sym (ap (λ r. r.0) (verify_tool_output-refused task_id out s refused)) ∙ n)))
  ]
    where
      same :
          (r : Option Failure × Run World)
          → (verified out r).0 ≡ ok output
          → (guard out).is_safe ≡ true
          → (guard output).is_safe ≡ true
      same (none, s') p q = ground arith
      same (some f, s') p q = cc

      stopped : (r : Option Failure × Run World) → (verified out r).0 ≡ ok output → r.0 ≢ none → ⊥
      stopped (none, s') p q = q refl
      stopped (some f, s') p q = cc

  run_tool-safe :
      (task_id : Text) (call : ToolCall) (tool : Tool World) (s : Run World) {output : Text}
      → (run_tool e task_id call tool s).0 ≡ ok output
      → (guard output).is_safe ≡ true
  unfolding run_tool
  run_tool-safe task_id call tool s h = settle-safe task_id _ _ h

  run_sandbox-safe :
      (task_id : Text) (call : ToolCall) (s : Run World) {output : Text}
      → (run_sandbox e task_id call s).0 ≡ ok output
      → (guard output).is_safe ≡ true
  unfolding run_sandbox
  run_sandbox-safe task_id call s h = elim (Option-cases e.sandbox) [
    | inl missing ↦ absurd (ground arith)
    | inr (execute_tool, present) ↦
        settle-safe task_id (execute_tool call.name call.arguments s.world).0
          (log_event e (result_event task_id call)
            (with_world s (execute_tool call.name call.arguments s.world).1))
          (ground arith)
  ]

  dispatch_tool-safe :
      (task_id : Text) (call : ToolCall) (s : Run World) {output : Text}
      → (dispatch_tool e task_id call s).0 ≡ ok output
      → (guard output).is_safe ≡ true
  unfolding dispatch_tool
  dispatch_tool-safe task_id call s h = elim (Result-cases (get e.tools call.name)) [
    | inl (tool, found) ↦ run_tool-safe task_id call tool s (ground arith)
    | inr (x, unknown) ↦ run_sandbox-safe task_id call s (ground arith)
  ]

  -- The results of the calls of one response are clean.
  run_calls-Clean :
      (task_id : Text) (calls : List ToolCall) (s : Run World)
      → CleanResults guard (run_calls e task_id calls s).0
  unfolding run_calls
  run_calls-Clean task_id [] s = tt
  run_calls-Clean task_id (call ∷ calls) s =
      after_call-Clean guard call (run_calls e task_id calls) (dispatch_tool e task_id call s)
        (λ output h. dispatch_tool-safe task_id call s h) (run_calls-Clean task_id calls)

  turn-Clean :
      (r : LlmResponse) (messages : List Message) (ms : List ToolResultMessage)
      → Clean guard messages
      → All (CleanResult guard) ms
      → Clean guard (messages ++ assistant_message r ∷ tool_message ms ∷ [])
  turn-Clean r messages ms h k =
      All-append (CleanMessage guard) messages (assistant_message r ∷ tool_message ms ∷ []) h
        ((tt, λ q. absurd (ground arith)), ((k, λ q. absurd (ground arith)), tt))

  with_results-agree :
      (next next' : List ToolResultMessage → Run World → Result Failure Text × Run World)
      → ((ms : List ToolResultMessage) (s : Run World)
          → All (CleanResult guard) ms
          → next ms s ≡ next' ms s)
      → (out : Result Failure (List ToolResultMessage) × Run World) → CleanResults guard out.0
      → with_results next out ≡ with_results next' out
  unfolding with_results
  with_results-agree next next' agree (ok ms, s') clean = agree ms s' clean
  with_results-agree next next' agree (err f, s') clean = refl

  with_response-agree :
      (task_id : Text) (k : ℕ)
      (next next' : LlmResponse
        → List ToolResultMessage
        → Run World
        → Result Failure Text × Run World)
      → ((r : LlmResponse) (ms : List ToolResultMessage) (s : Run World)
          → All (CleanResult guard) ms
          → next r ms s ≡ next' r ms s)
      → (response : Result Text LlmResponse) (s : Run World)
      → with_response e task_id k next response s ≡ with_response e task_id k next' response s
  unfolding with_response
  with_response-agree task_id k next next' agree (err x) s = refl
  with_response-agree task_id k next next' agree (ok r) s = by_calls r.tool_calls refl
    where
      by_calls :
          (calls : List ToolCall)
          → r.tool_calls ≡ calls
          → with_response e task_id k next (ok r) s ≡ with_response e task_id k next' (ok r) s
      by_calls [] p = rw (p, with_response) refl
      by_calls (call ∷ more) p =
          rw (p, with_response)
            (with_results-agree (next r) (next' r) (agree r) (run_calls e task_id (call ∷ more) s)
              (run_calls-Clean task_id (call ∷ more) s))

  module _ (adapter adapter' : Adapter World)
      (agree : (ms : List Message) (tools : List ToolManifest) (w : World)
        → Clean guard ms
        → adapter ms tools w ≡ adapter' ms tools w) where
    iterate-agree :
        (task_id : Text) (left k : ℕ) (messages : List Message) (s : Run World)
        → Clean guard messages
        → iterate adapter e task_id left k messages s ≡ iterate adapter' e task_id left k messages s
    unfolding iterate
    iterate-agree task_id zero k messages s clean = refl
    iterate-agree task_id (suc left) k messages s clean =
        rw
          (agree messages (manifests e.tools) (log_event e (request_event task_id messages) s).world
            clean)
          (with_response-agree task_id k _ _
            (λ r ms s' c.
              iterate-agree task_id left (k + 1) _ s' (turn-Clean r messages ms clean c))
            _ _)

    -- Two adapters that answer alike wherever the input of the user and every output of a tool in
    -- the history have passed the guard give the same run of every task: a model is shown no other
    -- history. The texts of the errors of tools are not outputs here, and need not have passed.
    pub execute_ephemeral-agree :
        (t : Task) (s : Run World)
        → execute_ephemeral adapter e t s ≡ execute_ephemeral adapter' e t s
    unfolding execute_ephemeral
    execute_ephemeral-agree t s = elim (Bool-cases (guard t.input).is_safe) [
      | inl passed ↦
          rw (set, passed, execute_ephemeral)
            (iterate-agree t.id max_agent_iterations 0 (start_messages t.input) s
              ((tt, λ q. absurd (ground arith)), ((tt, λ q. passed), tt)))
      | inr refused ↦ rw (set, refused, execute_ephemeral) refl
    ]
