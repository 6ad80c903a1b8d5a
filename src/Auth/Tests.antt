-- ===== src/Auth/Tests.antt =====
-- The theorems on tokens at one that is expired, and one that the cloud answers to it.
use aethercore.Prelude.{◌≡◌, ◌↔◌, refl, none, some, [], ◌∷◌}
use aethercore.Prelude.Int.{ℤ, pos}
use aethercore.Prelude.Result.{Result, ok, err}
use aethercore.Prelude.Text.{Text, codes, split, trim_space}
use aethercore.Auth.{
  Codecs, JwtPayload, Response, auth_domain, load, verify, verify_parts, verify_claims, save,
  silent_refresh, authenticate_with, authenticate,
}
use aethercore.Auth.Verify.{Valid, Admits, verify-Valid, authenticate-Valid}

abbrev claims : ℤ → JwtPayload
claims until = record {
  subject = codes "me";
  email = codes "me@home";
  issued_at = pos 0;
  expires_at = until;
  version = codes "1";
  issuer = auth_domain;
}

-- A decoded part is its text; the text "n" holds claims that end at 500, any other text 50.
abbrev plain : Codecs
plain = record {
  PublicKey = Unit;
  decode = λ t. ok t;
  payload_of = λ b. elim b [
    | [] ↦ err []
    | c ∷ cs ↦ elim cs [ [] ↦ ok (claims (pos 500)) | _ ∷ _ ↦ ok (claims (pos 50)) ]
  ];
  sha256 = λ t. t;
  verify_pkcs1v15 = λ key d s. none;
}

verify-Valid_example :
    (verify plain (some tt) (pos 100) (codes "h.n.s") ≡ ok (claims (pos 500)))
    ↔ Valid plain (some tt) (pos 100) (codes "h.n.s") (claims (pos 500))
verify-Valid_example = verify-Valid plain (some tt) (pos 100) (codes "h.n.s") (claims (pos 500))

abbrev renewing : Text → Result Text Response
renewing t = ok (record { status_code = 200; token = ok (codes "h.n.s") })

let_in :
    (authenticate plain (some tt) (pos 100) renewing none none none (some (codes "h.old.s"))).0
    ≡ ok (claims (pos 500))
unfolding authenticate authenticate_with load verify verify_parts verify_claims silent_refresh split
    save trim_space
let_in = refl

authenticate-Valid_example :
    (stored : Text) × (load (some (codes "h.old.s")) none ≡ ok stored)
    × ((token : Text) × Valid plain (some tt) (pos 100) token (claims (pos 500))
        × Admits plain (some tt) (pos 100) renewing stored token)
authenticate-Valid_example =
    authenticate-Valid plain (some tt) (pos 100) renewing none none none (some (codes "h.old.s"))
      (claims (pos 500)) let_in
