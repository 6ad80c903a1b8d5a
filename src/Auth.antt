-- ===== src/Auth.antt =====
-- core/auth.go: tokens of the kernel, kept in a file and renewed by a cloud. Base64, JSON, SHA-256,
-- RSA, the file system and the cloud are parameters; times are in seconds since 1970.
pub mod Verify
mod Tests
use aethercore.Prelude.{
  ℕ, Bool, true, false, not, Option, none, some, List, [], ◌∷◌, ◌++◌, ◌*◌, ◌+◌, nat_eq, ◌==◌,
  eq_list, eq_nat, if◌then◌else◌,
}
use aethercore.Prelude.Bytes.{Bytes}
use aethercore.Prelude.Int.{ℤ, pos, negsuc, ltb_ℤ, ◌-ℤ◌}
use aethercore.Prelude.Result.{Result, ok, err}
use aethercore.Prelude.Text.{Text, codes, split, trim_space}

-- authDomain
abbrev pub auth_domain : Text
auth_domain = codes "auth.aethercore.brainexia.com"

pub record JwtPayload : Type 0 where
  pub subject : Text
  pub email : Text
  pub issued_at : ℤ
  pub expires_at : ℤ
  pub version : Text
  pub issuer : Text

-- The sentinel errors, and those that are passed on.
pub data AuthError : Type 0 where
  no_token invalid_token token_expired signature_invalid invalid_issuer : AuthError
  refresh_failed : ℕ → AuthError
  store_error cloud_error : Text → AuthError

-- What the verifier takes from Go's packages.
pub record Codecs : Type 1 where
  pub PublicKey : Type 0
  pub decode : Text → Result Text Bytes
  pub payload_of : Bytes → Result Text JwtPayload
  pub sha256 : Text → Bytes
  pub verify_pkcs1v15 : PublicKey → Bytes → Bytes → Option Text

-- The answer of the cloud to a token: its status, and the token that its body holds.
pub record Response : Type 0 where
  pub status_code : ℕ
  pub token : Result Text Text

-- The file of TokenStore: none where it does not exist.
abbrev pub TokenFile : Type 0
TokenFile = Option Text

-- Load, with what ReadFile reports on a file that exists
unfoldable pub load : TokenFile → Option Text → Result AuthError Text
load none failed = err no_token
load (some token) (some e) = err (store_error e)
load (some token) none = ok (trim_space token)

-- Save, with what WriteFile reports
unfoldable pub save : TokenFile → Text → Option Text → Option AuthError × TokenFile
save file token (some e) = (some (store_error e), file)
save file token none = (none, some token)

-- Delete, with what Remove reports on a file that exists
unfoldable pub delete_token : TokenFile → Option Text → Option AuthError × TokenFile
delete_token none failed = (none, none)
delete_token (some token) (some e) = (some (store_error e), some token)
delete_token (some token) none = (none, none)

-- The seven days of Authenticate, in nanoseconds.
abbrev pub refresh_window : ℕ
refresh_window = 7 * 24 * 60 * 60 * 1000000000

-- time.Unix(s, 0), in nanoseconds since 1970
unfoldable pub unix_nanos : ℤ → ℤ
unix_nanos (pos s) = pos (s * 1000000000)
unix_nanos (negsuc s) = negsuc (s * 1000000000 + 999999999)

-- whether Authenticate begins a refresh in the background, at a time in nanoseconds
unfoldable pub is_due : ℤ → JwtPayload → Bool
is_due now payload = ltb_ℤ (unix_nanos payload.expires_at -ℤ now) (pos refresh_window)

-- The refresh in the background: its time in nanoseconds and what the cloud answers to it, where it
-- has ended before one looks at the file of the token.
abbrev pub Background : Type 0
Background = Option (ℤ × (Text → Result Text Response))

module _ (codecs : Codecs) (public_key : Option codecs.PublicKey) where
  open codecs use {PublicKey}

  pub verify_decoded :
      PublicKey → Text → Text → JwtPayload → Result Text Bytes → Result AuthError JwtPayload
  verify_decoded key header body payload (err e) = err invalid_token
  verify_decoded key header body payload (ok sig) =
      elim (codecs.verify_pkcs1v15 key (codecs.sha256 (header ++ (b'.' ∷ body))) sig) [
        | some e ↦ err signature_invalid
        | none ↦ ok payload
      ]

  -- Verify from the signature on; a nil key passes every signature
  pub verify_signature :
      Option PublicKey → Text → Text → Text → JwtPayload → Result AuthError JwtPayload
  unfolding verify_decoded
  verify_signature none header body sig payload = ok payload
  verify_signature (some key) header body sig payload =
      verify_decoded key header body payload (codecs.decode sig)

  -- Verify from the claims on
  unfoldable pub verify_claims : ℤ → Text → Text → Text → JwtPayload → Result AuthError JwtPayload
  unfolding verify_signature
  verify_claims now header body sig payload =
      if ltb_ℤ payload.expires_at now
      then err token_expired
      else if not (payload.issuer == auth_domain)
      then err invalid_issuer
      else verify_signature public_key header body sig payload

  -- Verify on the parts of the token
  unfoldable pub verify_parts : ℤ → List Text → Result AuthError JwtPayload
  unfolding verify_claims
  verify_parts now (header ∷ body ∷ sig ∷ []) = elim (codecs.decode body) [
    | err e ↦ err invalid_token
    | ok raw ↦ elim (codecs.payload_of raw) [
      | err e ↦ err invalid_token
      | ok payload ↦ verify_claims now header body sig payload
    ]
  ]
  verify_parts now _ = err invalid_token

  -- Verify
  unfoldable pub verify : ℤ → Text → Result AuthError JwtPayload
  unfolding verify_parts
  verify now token = verify_parts now (split b'.' token)

  -- SilentRefresh behind Save
  pub after_save : ℤ → Text → Option AuthError × TokenFile → Result AuthError JwtPayload × TokenFile
  after_save now token (some e, file) = (err e, file)
  after_save now token (none, file) = (verify now token, file)

  -- SilentRefresh on the answer of the cloud
  pub with_response :
      ℤ → TokenFile → Option Text → Result Text Response → Result AuthError JwtPayload × TokenFile
  unfolding after_save
  with_response now file unsaved (err e) = (err (cloud_error e), file)
  with_response now file unsaved (ok resp) =
      if not (nat_eq resp.status_code 200)
      then (err (refresh_failed resp.status_code), file)
      else elim resp.token [
        | err e ↦ (err (cloud_error e), file)
        | ok token ↦ after_save now token (save file token unsaved)
      ]

  -- SilentRefresh, with what the cloud answers to a token and what saving reports
  unfoldable pub silent_refresh :
      ℤ
      → (Text → Result Text Response)
      → Option Text
      → TokenFile
      → Text
      → Result AuthError JwtPayload × TokenFile
  unfolding with_response
  silent_refresh now cloud unsaved file old_token = with_response now file unsaved (cloud old_token)

  -- the goroutine of Authenticate, where it has ended
  unfoldable pub refreshed :
      ℤ → Background → Option Text → TokenFile → JwtPayload → Text → TokenFile
  unfolding is_due silent_refresh
  refreshed now none unsaved file payload token = file
  refreshed now (some (nanos, cloud)) unsaved file payload token =
      if is_due nanos payload then (silent_refresh now cloud unsaved file token).1 else file

  -- Authenticate from the loaded token on
  unfoldable pub authenticate_with :
      ℤ
      → (Text → Result Text Response)
      → Background
      → Option Text
      → TokenFile
      → Result AuthError Text
      → Result AuthError JwtPayload × TokenFile
  unfolding refreshed
  authenticate_with now cloud background unsaved file (err e) = (err e, file)
  authenticate_with now cloud background unsaved file (ok token) = elim (verify now token) [
    | ok payload ↦ (ok payload, refreshed now background unsaved file payload token)
    | err token_expired ↦ silent_refresh now cloud unsaved file token
    | err e ↦ (err e, file)
  ]

  -- Authenticate
  unfoldable pub authenticate :
      ℤ
      → (Text → Result Text Response)
      → Background
      → Option Text
      → Option Text
      → TokenFile
      → Result AuthError JwtPayload × TokenFile
  unfolding authenticate_with
  authenticate now cloud background unread unsaved file =
      authenticate_with now cloud background unsaved file (load file unread)
