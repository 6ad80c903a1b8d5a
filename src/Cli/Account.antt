-- ===== src/Cli/Account.antt =====
-- cmd/aether/auth.go: login, onboarding and the deletion of an account.
use aethercore.Prelude.{
  ℕ, Option, none, some, List, [], ◌∷◌, ◌++◌, nat_eq, ◌==◌, eq_list, eq_nat, if◌then◌else◌,
}
use aethercore.Prelude.Result.{Result, ok, err}
use aethercore.Prelude.Text.{Text, codes}
use aethercore.Auth.{AuthError, TokenFile, load, save, delete_token}
use aethercore.Cli.Commands.{Exit, returned, exited}

-- A request to the callback: its two parameters, of which the handler reads the first.
pub record Callback : Type 0 where
  pub token : Text
  pub state : Text

-- the first request that sends a token; the others are answered with an error
unfoldable pub first_token : List Callback → Option Text
first_token [] = none
first_token (c ∷ cs) = if c.token == [] then first_token cs else some c.token

abbrev pub after_save : Option AuthError × TokenFile → Exit × TokenFile
after_save (some e, file) = (exited 1, file)
after_save (none, file) = (returned, file)

unfoldable pub saved : TokenFile → Option Text → Option Text → Exit × TokenFile
saved file unsaved none = (exited 1, file)
saved file unsaved (some token) = after_save (save file token unsaved)

-- authCmd, on the requests of five minutes. `ready` is the error of what comes before the wait;
-- the random state goes into the address that the browser opens.
unfoldable pub auth_flow : Option Text → Option Text → List Callback → TokenFile → Exit × TokenFile
unfolding first_token saved
auth_flow (some e) unsaved callbacks file = (exited 1, file)
auth_flow none unsaved callbacks file = saved file unsaved (first_token callbacks)

-- the answer of the cloud to the deletion
unfoldable pub after_delete : TokenFile → Option Text → Result Text ℕ → Exit × TokenFile
after_delete file unremoved (err e) = (exited 1, file)
after_delete file unremoved (ok status) =
    if nat_eq status 200 then (returned, (delete_token file unremoved).1) else (returned, file)

-- deleteCmd from the token on; `ask` is the request with the token in its header
unfoldable pub delete_with :
    TokenFile → Option Text → (Text → Result Text ℕ) → Result AuthError Text → Exit × TokenFile
unfolding after_delete
delete_with file unremoved ask (err e) = (exited 1, file)
delete_with file unremoved ask (ok token) =
    after_delete file unremoved (ask (codes "Bearer " ++ token))

-- deleteCmd
unfoldable pub delete_account :
    Option Text → Option Text → Option Text → (Text → Result Text ℕ) → TokenFile → Exit × TokenFile
unfolding delete_with
delete_account (some e) unread unremoved ask file = (exited 1, file)
delete_account none unread unremoved ask file = delete_with file unremoved ask (load file unread)
