-- ===== src/Cli/Session.antt =====
-- cmd/aether/auth.go with core/auth.go: whose token the program keeps, and when it goes.
use aethercore.Prelude.{
  ◌≢◌, arith, All, list_eq_iff, true, [], ◌∷◌, ◌==◌, ◌≡◌, refl, sym, ap, subst, ◌∙◌, ◌⊎◌, inl, inr,
  ℕ, Option, none, some, List, ◌++◌, nat_eq, nat_eq_iff, Bool-cases, eq_list, eq_nat,
}
use aethercore.Prelude.Int.{ℤ}
use aethercore.Prelude.Result.{Result, ok, err, Result-cases}
use aethercore.Prelude.Text.{Text, codes, trim_space}
use aethercore.Auth.{
  Codecs, JwtPayload, Response, TokenFile, Background, load, save, delete_token, verify,
  authenticate_with, authenticate,
}
use aethercore.Cli.Commands.{returned}
use aethercore.Cli.Account.{
  Callback, first_token, saved, auth_flow, after_delete, delete_with, delete_account,
}

-- Requests without a token do not count.
first_token-behind :
    (blanks later : List Callback) (token state : Text)
    → All (λ c. c.token ≡ []) blanks
    → token ≢ []
    → first_token (blanks ++ record { token = token; state = state } ∷ later) ≡ some token
unfolding first_token
first_token-behind [] later token state h some_text = ground (arith, list_eq_iff token [])
first_token-behind (c ∷ blanks) later token state h some_text =
    let bare : (c.token == []) ≡ true = (list_eq_iff c.token []).1 h.0 in
    rw (bare, first_token) (first_token-behind blanks later token state h.1 some_text)

-- One who sends the first token to the callback, with any state, is the user of the next run: login
-- succeeds, and Authenticate then answers the claims of this token, if Verify accepts it at that
-- time, the file can be written and read, and the token has no space at its ends; also where
-- Authenticate begins a refresh in the background.
pub auth_flow-authenticate :
    (codecs : Codecs) (key : Option codecs.PublicKey) (now : ℤ)
    (cloud : Text → Result Text Response) (background : Background) (unsaved : Option Text)
    (blanks later : List Callback) (file : TokenFile) (token state : Text) (payload : JwtPayload)
    → All (λ c. c.token ≡ []) blanks
    → token ≢ []
    → trim_space token ≡ token
    → verify codecs key now token ≡ ok payload
    → let requests = blanks ++ record { token = token; state = state } ∷ later in
      let out = auth_flow none none requests file in
      (out.0 ≡ returned)
      × ((authenticate codecs key now cloud background none unsaved out.1).0 ≡ ok payload)
unfolding auth_flow saved save authenticate authenticate_with load
auth_flow-authenticate codecs key now cloud background unsaved blanks later file token state payload
      bare some_text clean valid =
    let requests : List Callback = blanks ++ record { token = token; state = state } ∷ later in
    let first = first_token-behind blanks later token state bare some_text in
    let kept : auth_flow none none requests file ≡ (returned, some token) =
      rw (first, auth_flow) refl in
    let admitted : (authenticate codecs key now cloud background none unsaved (some token)).0
        ≡ ok payload =
      rw (clean, valid, authenticate, authenticate_with) refl in
    (
      ap (λ o. o.0) kept,
      ap (λ o. (authenticate codecs key now cloud background none unsaved o.1).0) kept ∙ admitted,
    )

-- The file of the token behind a deletion: as it was, or gone, where the cloud has answered 200 to
-- the token that it held.
abbrev pub Deleted : Option Text → (Text → Result Text ℕ) → TokenFile → TokenFile → Type 0
Deleted unread ask file file' =
    (file' ≡ file)
    ⊎ ((token : Text) × (load file unread ≡ ok token)
        × (ask (codes "Bearer " ++ token) ≡ ok 200)
        × (file' ≡ none))

delete_token-none :
    (file : TokenFile) (unremoved : Option Text)
    → ((delete_token file unremoved).1 ≡ file) ⊎ ((delete_token file unremoved).1 ≡ none)
unfolding delete_token
delete_token-none none unremoved = inl refl
delete_token-none (some t) none = inr refl
delete_token-none (some t) (some e) = inl refl

after_delete-Deleted :
    (unread unremoved : Option Text) (ask : Text → Result Text ℕ) (file : TokenFile) (token : Text)
    (answer : Result Text ℕ)
    → load file unread ≡ ok token
    → ask (codes "Bearer " ++ token) ≡ answer
    → Deleted unread ask file (after_delete file unremoved answer).1
unfolding after_delete
after_delete-Deleted unread unremoved ask file token (err e) loaded asked = inl refl
after_delete-Deleted unread unremoved ask file token (ok status) loaded asked =
    elim (Bool-cases (nat_eq status 200)) [
      | inl fine ↦
          let out : (after_delete file unremoved (ok status)).1 ≡ (delete_token file unremoved).1 =
            rw (fine, after_delete) refl in
          elim (delete_token-none file unremoved) [
            | inl kept ↦ inl (out ∙ kept)
            | inr gone ↦
                inr (token, loaded, asked ∙ ap ok ((nat_eq_iff status 200).0 fine), out ∙ gone)
          ]
      | inr other ↦ inl (rw (other, after_delete) refl)
    ]

-- Deleting an account removes the token only where the cloud has answered 200 to the token that the
-- file holds, and otherwise leaves the file as it is.
pub delete_account-Deleted :
    (failed unread unremoved : Option Text) (ask : Text → Result Text ℕ) (file : TokenFile)
    → Deleted unread ask file (delete_account failed unread unremoved ask file).1
unfolding delete_account delete_with
delete_account-Deleted (some e) unread unremoved ask file = inl refl
delete_account-Deleted none unread unremoved ask file = elim (Result-cases (load file unread)) [
  | inl (token, loaded) ↦
      subst (λ r. Deleted unread ask file (delete_with file unremoved ask r).1) (sym loaded)
        (after_delete-Deleted unread unremoved ask file token (ask (codes "Bearer " ++ token))
          loaded refl)
  | inr (e, failed) ↦ inl (ap (λ r. (delete_with file unremoved ask r).1) failed)
]
