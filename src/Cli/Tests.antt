-- ===== src/Cli/Tests.antt =====
-- cmd/aether: a login with a state that nobody has given out, a run behind it, and a deletion.
use aethercore.Prelude.{arith, ◌≡◌, refl, ℕ, ◌+◌, none, some, List, [], ◌∷◌}
use aethercore.Prelude.Int.{pos}
use aethercore.Prelude.Result.{Result, ok, err}
use aethercore.Prelude.Text.{Text, codes, split, trim_space}
use aethercore.Auth.{
  Codecs, JwtPayload, Response, Background, auth_domain, verify, verify_parts, verify_claims,
  authenticate,
}
use aethercore.Engine.Tools.{Tool}
use aethercore.Engine.Task.{Adapter}
use aethercore.Security.Guard.{PromptGuard, safe_result}
use aethercore.Cli.Commands.{verified_success, returned, handle_run_cmd, dispatch, run_audit_cmd}
use aethercore.Cli.Account.{Callback, auth_flow}
use aethercore.Cli.Run.Admission.{Admission}
use aethercore.Cli.Session.{auth_flow-authenticate}

abbrev claims : JwtPayload
claims = record {
  subject = codes "me";
  email = codes "me@home";
  issued_at = pos 0;
  expires_at = pos 500;
  version = codes "1";
  issuer = auth_domain;
}

abbrev plain : Codecs
plain = record {
  PublicKey = Unit;
  decode = λ t. ok t;
  payload_of = λ b. ok claims;
  sha256 = λ t. t;
  verify_pkcs1v15 = λ key d s. some (codes "bad signature");
}

-- One request without a token, and one with a token of no signature.
abbrev callbacks : List Callback
callbacks =
    record { token = []; state = codes "x" } ∷ record { token = codes "h.n."; state = [] } ∷ []

accepted : verify plain none (pos 100) (codes "h.n.") ≡ ok claims
unfolding verify verify_parts verify_claims split
accepted = refl

abbrev offline : Text → Result Text Response
offline t = err (codes "no connection")

-- A refresh in the background, at the same time, that fails.
abbrev late : Background
late = some (pos 100000000000, offline)

auth_flow-authenticate_example :
    ((auth_flow none none callbacks none).0 ≡ returned)
    × ((authenticate plain none
          (pos 100)
          offline
          late
          none
          none
          (auth_flow none none callbacks none).1).0
        ≡ ok claims)
unfolding trim_space
auth_flow-authenticate_example =
    auth_flow-authenticate plain none (pos 100) offline late none
      (record { token = []; state = codes "x" } ∷ []) [] none (codes "h.n.") [] claims (refl, tt)
      (λ e. ground arith) refl accepted

abbrev sys_info : Tool ℕ
sys_info = record {
  manifest = record {
    name = codes "sys_info";
    description = codes "telemetry";
    parameters = codes "{}";
    capabilities = codes "state" ∷ [];
    max_runtime_ms = pos 100;
    memory_limit = pos 2;
  };
  execute = λ args n. (ok (codes "linux"), n + 1);
}

abbrev adapter : Adapter ℕ
adapter messages tools n = (err (codes "no model"), n + 1)

abbrev guard : PromptGuard
guard text = safe_result

-- `aether audit verify` reports success without a log.
audit_verify : (run_audit_cmd (codes "verify" ∷ [])).0 ≡ verified_success
unfolding run_audit_cmd
audit_verify = refl

run_words : dispatch (codes "run") (codes "--goal" ∷ []) ≡ handle_run_cmd (codes "--goal" ∷ [])
unfolding dispatch
run_words = refl
