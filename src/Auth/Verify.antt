-- ===== src/Auth/Verify.antt =====
-- core/auth.go: which tokens Verify accepts, and whom Authenticate lets in.
use aethercore.Prelude.{
  ◌≡◌, ◌↔◌, refl, sym, ap, subst, ◌∙◌, ◌⊎◌, inl, inr, arith, true, false, Bool-cases, Option-cases,
  Option, none, some, List, [], ◌∷◌, ◌++◌, nat_eq, ◌==◌, eq_list, eq_nat, list_eq_iff,
}
use aethercore.Prelude.Bytes.{Bytes}
use aethercore.Prelude.Int.{ℤ, ltb_ℤ}
use aethercore.Prelude.Result.{Result, ok, err, Result-cases}
use aethercore.Prelude.Text.{Text, split}
use aethercore.Auth.{
  Codecs, JwtPayload, AuthError, no_token, token_expired, invalid_token, invalid_issuer,
  signature_invalid, refresh_failed, store_error, cloud_error, auth_domain, Response, TokenFile,
  load, save, verify_decoded, verify_signature, verify_claims, verify_parts, verify, after_save,
  Background, with_response, silent_refresh, authenticate_with, authenticate,
}

module _ (codecs : Codecs) where
  open codecs use {PublicKey}

  -- The signature of the first two parts under the key; none is asked for where there is no key.
  abbrev pub Signed : Option PublicKey → Text → Text → Text → Type 0
  Signed none header body sig = Unit
  Signed (some key) header body sig =
      (s : Bytes) × (codecs.decode sig ≡ ok s)
      × (codecs.verify_pkcs1v15 key (codecs.sha256 (header ++ (b'.' ∷ body))) s ≡ none)

  -- A token of three parts that holds the claims, is not expired, and names the issuer.
  pub record Valid (key : Option PublicKey) (now : ℤ) (token : Text) (payload : JwtPayload)
      : Type 0 where
    pub header : Text
    pub body : Text
    pub sig : Text
    pub raw : Bytes
    pub parts : split b'.' token ≡ header ∷ body ∷ sig ∷ []
    pub decoded : codecs.decode body ≡ ok raw
    pub parsed : codecs.payload_of raw ≡ ok payload
    pub fresh : ltb_ℤ payload.expires_at now ≡ false
    pub issued : payload.issuer ≡ auth_domain
    pub signed : Signed key header body sig

  module _ (key : Option PublicKey) where
    Signed-passes :
        (k : Option PublicKey) (header body sig : Text) (payload : JwtPayload)
        → Signed k header body sig
        → verify_signature codecs key k header body sig payload ≡ ok payload
    unfolding verify_signature verify_decoded
    Signed-passes none header body sig payload h = refl
    Signed-passes (some k) header body sig payload (s, e, f) = rw (e, f, verify_decoded) refl

    Valid-verify :
        (now : ℤ) (token : Text) (payload : JwtPayload)
        → Valid key now token payload
        → verify codecs key now token ≡ ok payload
    unfolding verify verify_parts verify_claims
    Valid-verify now token payload v =
        let named : (payload.issuer == auth_domain) ≡ true =
          (list_eq_iff payload.issuer auth_domain).1 v.issued in
        rw (v.parts, v.decoded, v.parsed, v.fresh, named, verify_parts)
          (Signed-passes key v.header v.body v.sig payload v.signed)

    signature-Signed :
        (k : Option PublicKey) (header body sig : Text) (payload payload' : JwtPayload)
        → verify_signature codecs key k header body sig payload ≡ ok payload'
        → (payload ≡ payload') × Signed k header body sig
    unfolding verify_signature verify_decoded
    signature-Signed none header body sig payload payload' h = (ground arith, tt)
    signature-Signed (some k) header body sig payload payload' h =
        elim (Result-cases (codecs.decode sig)) [
          | inr (x, e) ↦ absurd (ground arith)
          | inl (s, e) ↦
              elim (Option-cases
                (codecs.verify_pkcs1v15 k (codecs.sha256 (header ++ (b'.' ∷ body))) s)) [
                  | inr (x, f) ↦ absurd (ground arith)
                  | inl f ↦ (ground arith, (s, e, f))
                ]
        ]

    claims-Valid :
        (now : ℤ) (header body sig : Text) (payload payload' : JwtPayload)
        → verify_claims codecs key now header body sig payload ≡ ok payload'
        → (payload ≡ payload')
          × (ltb_ℤ payload.expires_at now ≡ false)
          × (payload.issuer ≡ auth_domain)
          × Signed key header body sig
    unfolding verify_claims
    claims-Valid now header body sig payload payload' h =
        elim (Bool-cases (ltb_ℤ payload.expires_at now)) [
          | inl old ↦ absurd (ground arith)
          | inr fresh ↦ elim (Bool-cases (payload.issuer == auth_domain)) [
            | inr other ↦ absurd (ground arith)
            | inl own ↦
                let (same, signed) =
                  signature-Signed key header body sig payload payload' (ground arith) in
                (same, fresh, (list_eq_iff payload.issuer auth_domain).0 own, signed)
          ]
        ]

    parts-Valid :
        (now : ℤ) (token : Text) (payload : JwtPayload) (parts : List Text)
        → split b'.' token ≡ parts
        → verify_parts codecs key now parts ≡ ok payload
        → Valid key now token payload
    unfolding verify_parts
    parts-Valid now token payload [] e h = cc
    parts-Valid now token payload (a ∷ []) e h = cc
    parts-Valid now token payload (a ∷ b ∷ []) e h = cc
    parts-Valid now token payload (a ∷ b ∷ c ∷ d ∷ ds) e h = cc
    parts-Valid now token payload (header ∷ body ∷ sig ∷ []) e h =
        elim (Result-cases (codecs.decode body)) [
          | inr (x, f) ↦ absurd (ground arith)
          | inl (raw, f) ↦ elim (Result-cases (codecs.payload_of raw)) [
            | inr (x, g) ↦ absurd (ground arith)
            | inl (found, g) ↦
                let (same, fresh, issued, signed) =
                  claims-Valid now header body sig found payload (ground arith) in
                subst (λ p. Valid key now token p) same
                  (record {
                    header = header;
                    body = body;
                    sig = sig;
                    raw = raw;
                    parts = e;
                    decoded = f;
                    parsed = g;
                    fresh = fresh;
                    issued = issued;
                    signed = signed;
                  })
          ]
        ]

    -- Verify accepts exactly the tokens of three parts whose middle part holds the claims, which
    -- name the issuer and a time that has not passed, and whose signature is that of the first two
    -- parts under the key, and answers with the claims. Without a key every signature passes.
    pub verify-Valid :
        (now : ℤ) (token : Text) (payload : JwtPayload)
        → (verify codecs key now token ≡ ok payload) ↔ Valid key now token payload
    unfolding verify
    verify-Valid now token payload =
        (parts-Valid now token payload (split b'.' token) refl, Valid-verify now token payload)

    after_save-Valid :
        (now : ℤ) (token : Text) (out : Option AuthError × TokenFile) (payload : JwtPayload)
        → (after_save codecs key now token out).0 ≡ ok payload
        → Valid key now token payload
    unfolding after_save
    after_save-Valid now token (some e, file) payload h = cc
    after_save-Valid now token (none, file) payload h = (verify-Valid now token payload).0 h

    response-Valid :
        (now : ℤ) (file : TokenFile) (unsaved : Option Text) (r : Result Text Response)
        (payload : JwtPayload)
        → (with_response codecs key now file unsaved r).0 ≡ ok payload
        → (token : Text) × (resp : Response) × (r ≡ ok resp)
          × (resp.token ≡ ok token)
          × Valid key now token payload
    unfolding with_response
    response-Valid now file unsaved (err e) payload h = cc
    response-Valid now file unsaved (ok resp) payload h =
        elim (Bool-cases (nat_eq resp.status_code 200)) [
          | inr refused ↦ absurd (ground arith)
          | inl answered ↦ elim (Result-cases resp.token) [
            | inr (x, e) ↦ absurd (ground arith)
            | inl (token, e) ↦ (
              token,
              resp,
              refl,
              e,
              after_save-Valid now token (save file token unsaved) payload (ground arith),
            )
          ]
        ]

    -- The token that lets someone in: that of the file, or the one that the cloud has answered to
    -- it, for one that is expired.
    abbrev pub Admits : ℤ → (Text → Result Text Response) → Text → Text → Type 0
    Admits now cloud stored token =
        (token ≡ stored)
        ⊎ ((verify codecs key now stored ≡ err token_expired)
            × ((resp : Response) × (cloud stored ≡ ok resp) × (resp.token ≡ ok token)))

    renews :
        (now : ℤ) (cloud : Text → Result Text Response) (background : Background)
        (unsaved : Option Text) (file : TokenFile) (stored : Text)
        → verify codecs key now stored ≡ err token_expired
        → authenticate_with codecs key now cloud background unsaved file (ok stored)
          ≡ with_response codecs key now file unsaved (cloud stored)
    unfolding authenticate_with silent_refresh
    renews now cloud background unsaved file stored e = rw (e, authenticate_with) refl

    with-Valid :
        (now : ℤ) (cloud : Text → Result Text Response) (background : Background)
        (unsaved : Option Text) (file : TokenFile) (stored : Text) (payload : JwtPayload)
        (r : Result AuthError JwtPayload)
        → verify codecs key now stored ≡ r
        → (authenticate_with codecs key now cloud background unsaved file (ok stored)).0
          ≡ ok payload
        → (token : Text) × Valid key now token payload × Admits now cloud stored token
    unfolding authenticate_with silent_refresh
    with-Valid now cloud background unsaved file stored payload (ok found) e h =
        let same : found ≡ payload = ground arith in
        (stored, (verify-Valid now stored payload).0 (e ∙ ap ok same), inl refl)
    with-Valid now cloud background unsaved file stored payload (err token_expired) e h =
        let refreshed = renews now cloud background unsaved file stored e in
        let (token, resp, asked, answered, v) =
          response-Valid now file unsaved (cloud stored) payload
            (ap (λ x. x.0) (sym refreshed) ∙ h) in
        (token, v, inr (e, (resp, asked, answered)))
    with-Valid now cloud background unsaved file stored payload (err no_token) e h =
        absurd (ground arith)
    with-Valid now cloud background unsaved file stored payload (err invalid_token) e h =
        absurd (ground arith)
    with-Valid now cloud background unsaved file stored payload (err signature_invalid) e h =
        absurd (ground arith)
    with-Valid now cloud background unsaved file stored payload (err invalid_issuer) e h =
        absurd (ground arith)
    with-Valid now cloud background unsaved file stored payload (err (refresh_failed n)) e h =
        absurd (ground arith)
    with-Valid now cloud background unsaved file stored payload (err (store_error x)) e h =
        absurd (ground arith)
    with-Valid now cloud background unsaved file stored payload (err (cloud_error x)) e h =
        absurd (ground arith)

    loaded-Valid :
        (now : ℤ) (cloud : Text → Result Text Response) (background : Background)
        (unsaved : Option Text) (file : TokenFile) (payload : JwtPayload)
        (r : Result AuthError Text)
        → (authenticate_with codecs key now cloud background unsaved file r).0 ≡ ok payload
        → (stored : Text) × (r ≡ ok stored)
          × ((token : Text) × Valid key now token payload × Admits now cloud stored token)
    unfolding authenticate_with
    loaded-Valid now cloud background unsaved file payload (err e) h = absurd (ground arith)
    loaded-Valid now cloud background unsaved file payload (ok stored) h =
        (stored, refl, with-Valid now cloud background unsaved file stored payload _ refl h)

    -- Authenticate lets someone in only with the claims of a token that Verify accepts at this
    -- time: the token of the file, or, where that one is expired, the token that the cloud has
    -- answered to it.
    pub authenticate-Valid :
        (now : ℤ) (cloud : Text → Result Text Response) (background : Background)
        (unread unsaved : Option Text) (file : TokenFile) (payload : JwtPayload)
        → (authenticate codecs key now cloud background unread unsaved file).0 ≡ ok payload
        → (stored : Text) × (load file unread ≡ ok stored)
          × ((token : Text) × Valid key now token payload × Admits now cloud stored token)
    unfolding authenticate
    authenticate-Valid now cloud background unread unsaved file payload h =
        loaded-Valid now cloud background unsaved file payload (load file unread) h
