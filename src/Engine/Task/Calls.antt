-- ===== src/Engine/Task/Calls.antt =====
-- core/event_loop.go: how much a task may use of the model behind its adapter.
use aethercore.Prelude.{
  ℕ, zero, suc, ◌+◌, ◌*◌, ◌≤◌, ◌≡◌, refl, ap, ◌∙◌, inl, inr, arith, true, false, Bool-cases,
  Option-cases, Option, none, some, List, [], ◌∷◌, ◌++◌,
}
use aethercore.Prelude.Result.{Result, ok, err, Result-cases}
use aethercore.Prelude.Text.{Text, codes, contains}
use aethercore.Security.Guard.{PromptGuard, AdversarialMatch}
use aethercore.Engine.Tools.{
  ToolManifest, ToolCall, ToolResultMessage, Message, LlmResponse, Tool, get, manifests,
}
use aethercore.Engine.Task.{
  Task, Failure, failed, panic, AuditEvent, Run, Adapter, Engine, max_agent_iterations,
  start_messages, assistant_message, tool_message, tool_result, request_event, exec_event,
  result_event, with_world, log_event, report_violation, verify_tool_output, verified, settle,
  run_tool, run_sandbox, dispatch_tool, cons_result, after_call, run_calls, with_results,
  with_response, iterate, execute_ephemeral,
}

module _ {World : Type 0} (e : Engine World) where
  log_event-world : (event : AuditEvent) (s : Run World) → (log_event e event s).world ≡ s.world
  unfolding log_event
  log_event-world event s = ground arith

  report_violation-world :
      (task_id : Text) (vs : List AdversarialMatch) (s : Run World)
      → (report_violation e task_id vs s).1.world ≡ s.world
  unfolding report_violation
  report_violation-world task_id [] s = refl
  report_violation-world task_id (v ∷ vs) s = log_event-world _ s

  verify_tool_output-world :
      (task_id output : Text) (s : Run World)
      → (verify_tool_output e task_id output s).1.world ≡ s.world
  unfolding verify_tool_output
  verify_tool_output-world task_id output s = elim (Option-cases e.guard) [
    | inl missing ↦ ground arith
    | inr (guard, set) ↦ ground (arith, report_violation-world task_id (guard output).violations s)
  ]

  verified-world : (output : Text) (r : Option Failure × Run World) → (verified output r).1 ≡ r.1
  unfolding verified
  verified-world output (none, s) = refl
  verified-world output (some f, s) = refl

  settle-world :
      (task_id : Text) (r : Result Text Text) (s : Run World)
      → (settle e task_id r s).1.world ≡ s.world
  unfolding settle
  settle-world task_id (err x) s = refl
  settle-world task_id (ok output) s =
      ap (λ r. r.world) (verified-world output (verify_tool_output e task_id output s))
      ∙ verify_tool_output-world task_id output s

-- No tool and no sandbox adds to the cost.
pub record Free {World : Type 0} (e : Engine World) (cost : World → ℕ) : Type 0 where
  pub tools :
      (name : Text) (tool : Tool World)
      → get e.tools name ≡ ok tool
      → (args : Text) (w : World) → cost (tool.execute args w).1 ≤ cost w
  pub sandbox :
      (execute_tool : Text → Text → World → Result Text Text × World)
      → e.sandbox ≡ some execute_tool
      → (name args : Text) (w : World) → cost (execute_tool name args w).1 ≤ cost w

module _ {World : Type 0} (e : Engine World) (cost : World → ℕ) (free : Free e cost) where
  abbrev spent : Run World → ℕ
  spent s = cost s.world

  run_tool-cost :
      (task_id : Text) (call : ToolCall) (tool : Tool World) (s : Run World)
      → get e.tools call.name ≡ ok tool
      → spent (run_tool e task_id call tool s).1 ≤ spent s
  unfolding run_tool
  run_tool-cost task_id call tool s found =
      let s1 = log_event e (exec_event task_id call) s in
      let out = tool.execute call.arguments s1.world in
      omega (
        arith,
        ap cost (settle-world e task_id out.0 (with_world s1 out.1)),
        free.tools call.name tool found call.arguments s1.world,
        ap cost (log_event-world e (exec_event task_id call) s),
      )

  run_sandbox-cost :
      (task_id : Text) (call : ToolCall) (s : Run World)
      → spent (run_sandbox e task_id call s).1 ≤ spent s
  unfolding run_sandbox
  run_sandbox-cost task_id call s = elim (Option-cases e.sandbox) [
    | inl missing ↦ rw (missing, run_sandbox) (omega arith)
    | inr (execute_tool, present) ↦
        let out = execute_tool call.name call.arguments s.world in
        let s1 = with_world s out.1 in
        let s2 = log_event e (result_event task_id call) s1 in
        rw (present, run_sandbox)
          (omega (
            arith,
            ap cost (settle-world e task_id out.0 s2),
            ap cost (log_event-world e (result_event task_id call) s1),
            free.sandbox execute_tool present call.name call.arguments s.world,
          ))
  ]

  dispatch_tool-cost :
      (task_id : Text) (call : ToolCall) (s : Run World)
      → spent (dispatch_tool e task_id call s).1 ≤ spent s
  unfolding dispatch_tool
  dispatch_tool-cost task_id call s = elim (Result-cases (get e.tools call.name)) [
    | inl (tool, found) ↦ rw (found, dispatch_tool) (run_tool-cost task_id call tool s found)
    | inr (x, unknown) ↦ rw (unknown, dispatch_tool) (run_sandbox-cost task_id call s)
  ]

  cons_result-state :
      (m : ToolResultMessage) (r : Result Failure (List ToolResultMessage) × Run World)
      → (cons_result m r).1 ≡ r.1
  unfolding cons_result
  cons_result-state m (ok ms, s) = refl
  cons_result-state m (err f, s) = refl

  after_call-cost :
      (call : ToolCall) (next : Run World → Result Failure (List ToolResultMessage) × Run World)
      (r : Result Failure Text × Run World)
      → ((s : Run World) → spent (next s).1 ≤ spent s)
      → spent (after_call call next r).1 ≤ spent r.1
  unfolding after_call
  after_call-cost call next (ok output, s) h =
      omega (arith, h s, ap spent (cons_result-state (tool_result call output false) (next s)))
  after_call-cost call next (err panic, s) h = omega arith
  after_call-cost call next (err (failed x), s) h =
      elim (Bool-cases (contains x (codes "security_violation"))) [
        | inl stop ↦ rw (stop, after_call) (omega arith)
        | inr go_on ↦
            rw (go_on, after_call)
              (omega (arith, h s, ap spent (cons_result-state (tool_result call x true) (next s))))
      ]

  run_calls-cost :
      (task_id : Text) (calls : List ToolCall) (s : Run World)
      → spent (run_calls e task_id calls s).1 ≤ spent s
  unfolding run_calls
  run_calls-cost task_id [] s = omega arith
  run_calls-cost task_id (call ∷ calls) s = omega (
    arith,
    after_call-cost call (run_calls e task_id calls) (dispatch_tool e task_id call s)
        (run_calls-cost task_id calls),
    dispatch_tool-cost task_id call s,
  )

  with_results-cost :
      (next : List ToolResultMessage → Run World → Result Failure Text × Run World) (bound : ℕ)
      → ((ms : List ToolResultMessage) (s : Run World) → spent (next ms s).1 ≤ spent s + bound)
      → (out : Result Failure (List ToolResultMessage) × Run World)
      → spent (with_results next out).1 ≤ spent out.1 + bound
  unfolding with_results
  with_results-cost next bound h (ok ms, s) = h ms s
  with_results-cost next bound h (err f, s) = omega arith

  with_response-cost :
      (task_id : Text) (k bound : ℕ)
      (next : LlmResponse → List ToolResultMessage → Run World → Result Failure Text × Run World)
      → ((r : LlmResponse) (ms : List ToolResultMessage) (s : Run World)
          → spent (next r ms s).1 ≤ spent s + bound)
      → (response : Result Text LlmResponse) (s : Run World)
      → spent (with_response e task_id k next response s).1 ≤ spent s + bound
  unfolding with_response
  with_response-cost task_id k bound next h (err x) s = omega arith
  with_response-cost task_id k bound next h (ok r) s = by_calls r.tool_calls refl
    where
      by_calls :
          (calls : List ToolCall)
          → r.tool_calls ≡ calls
          → spent (with_response e task_id k next (ok r) s).1 ≤ spent s + bound
      by_calls [] p = rw (p, with_response) (omega arith)
      by_calls (call ∷ more) p =
          rw (p, with_response)
            (omega (
              arith,
              with_results-cost (next r) bound (h r) (run_calls e task_id (call ∷ more) s),
              run_calls-cost task_id (call ∷ more) s,
            ))

  module _ (adapter : Adapter World) (price : ℕ)
      (priced : (ms : List Message) (tools : List ToolManifest) (w : World)
        → cost (adapter ms tools w).1 ≤ cost w + price) where
    iterate-cost :
        (task_id : Text) (left k : ℕ) (messages : List Message) (s : Run World)
        → spent (iterate adapter e task_id left k messages s).1 ≤ spent s + left * price
    unfolding iterate
    iterate-cost task_id zero k messages s = omega arith
    iterate-cost task_id (suc left) k messages s =
        let s1 = log_event e (request_event task_id messages) s in
        let out = adapter messages (manifests e.tools) s1.world in
        let next = λ (r : LlmResponse) (ms : List ToolResultMessage).
          iterate adapter e task_id left (k + 1)
            (messages ++ assistant_message r ∷ tool_message ms ∷ []) in
        omega (
          arith,
          with_response-cost task_id k (left * price) next
              (λ r ms s'. iterate-cost task_id left (k + 1) _ s') out.0 (with_world s1 out.1),
          priced messages (manifests e.tools) s1.world,
          ap cost (log_event-world e (request_event task_id messages) s),
        )

    -- Where one request to the model costs at most `price` and the tools cost nothing, a task costs
    -- at most ten times the price, whatever the model answers: it makes at most ten requests. A
    -- task whose input the guard refuses costs nothing.
    pub execute_ephemeral-cost :
        (t : Task) (s : Run World)
        → (cost (execute_ephemeral adapter e t s).1.world ≤ cost s.world + 10 * price)
          × ((guard : PromptGuard)
              → e.guard ≡ some guard
              → (guard t.input).is_safe ≡ false
              → (execute_ephemeral adapter e t s).1 ≡ s)
    unfolding execute_ephemeral
    execute_ephemeral-cost t s =
        (bounded, λ guard set refused. rw (set, refused, execute_ephemeral) refl)
      where
        bounded : cost (execute_ephemeral adapter e t s).1.world ≤ cost s.world + 10 * price
        bounded = elim (Option-cases e.guard) [
          | inl missing ↦ rw (missing, execute_ephemeral) (omega arith)
          | inr (guard, set) ↦
              ground (arith, iterate-cost t.id max_agent_iterations 0 (start_messages t.input) s)
        ]
