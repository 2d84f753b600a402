-- ===== src/Consent/Record.antt =====
-- The checks and projections of single records in agent_personal_vault/consent.py.
use agent_personal_vault.Prelude.{
  ℕ, String, Bool, false, ◌&&◌, none, some, ◌==◌, ltb, leb, nat_eq, if◌then◌else◌,
}
use agent_personal_vault.Result.{
  Result, ok, err, consent_error, resource_limit_error, ◌>>=◌, ◌>>◌, raise_if,
}
use agent_personal_vault.Python.Text.{
  ◌^^◌, size, utf8_size, all_chars, any_char, is_hex, is_urlsafe, after_prefix,
}
use agent_personal_vault.Python.Words.{collapse}
use agent_personal_vault.Python.Json.{
  pos, Json, int, str, Fields, get_or_null, has, put, remove, truthy,
}
use agent_personal_vault.Limits.{max_purpose_bytes, require_text_limit}
use agent_personal_vault.Platform.{Platform, to_text, add_seconds}
use agent_personal_vault.Audit.{is_id, redact_value}

abbrev pub max_ttl_seconds : ℕ
max_ttl_seconds = 3600

abbrev pub request_ttl_seconds : ℕ
request_ttl_seconds = 600

-- `type(value) is not int or not 1 <= value <= MAX_TTL_SECONDS`
unfoldable pub validate_ttl_seconds : Json → Result ℕ
validate_ttl_seconds (int (pos n)) =
    if leb 1 n && leb n max_ttl_seconds
    then ok n
    else err (consent_error "consent token TTL must be between 1 and 3600 seconds")
validate_ttl_seconds _ = err (consent_error "consent token TTL must be between 1 and 3600 seconds")

-- `isinstance(value, str)` and a full match
abbrev pub matching : (String → Bool) → String → Json → Result String
matching pattern message (str s) = if pattern s then ok s else err (consent_error message)
matching pattern message _ = err (consent_error message)

abbrev pub is_request_id : String → Bool
is_request_id = is_id "r_" 24

abbrev pub is_consent_id : String → Bool
is_consent_id = is_id "c_" 24

-- `c_[A-Za-z0-9_-]{1,128}`
abbrev pub is_legacy_consent_id : String → Bool
is_legacy_consent_id s = elim (after_prefix "c_" s) [
  | none ↦ false
  | some rest ↦ all_chars is_urlsafe rest && (leb 1 (size rest) && leb (size rest) 128)
]

-- `sha256:[0-9a-f]{64}`
abbrev pub is_digest : String → Bool
is_digest s = elim (after_prefix "sha256:" s) [
  | none ↦ false
  | some rest ↦ all_chars is_hex rest && nat_eq (size rest) 64
]

unfoldable pub validate_request_id : Json → Result String
validate_request_id = matching is_request_id "consent request id is invalid"

unfoldable pub validate_consent_id : Json → Result String
validate_consent_id = matching is_consent_id "consent token is invalid"

unfoldable pub validate_token_digest : Json → Result String
validate_token_digest = matching is_digest "consent token digest is invalid"

unfoldable pub validate_purpose_binding : Json → Result String
validate_purpose_binding = matching is_digest "consent purpose binding is invalid"

module _ (p : Platform) where
  unfoldable pub token_digest : Json → Result String
  token_digest (str id) =
      if ltb 256 (utf8_size id)
      then err (consent_error "consent token not found")
      else ok ("sha256:" ^^ p.sha256 ("agent-personal-vault:consent-token:v1:" ^^ id))
  token_digest _ = err (consent_error "consent token not found")

  unfoldable pub purpose_binding : String → String
  purpose_binding normalized = "sha256:" ^^ p.sha256 normalized

  -- `except ResourceLimitError as exc: raise ConsentError(str(exc))`
  abbrev pub as_consent_error : Result String → Result String
  as_consent_error (err (resource_limit_error message)) = err (consent_error message)
  as_consent_error r = r

  unfoldable pub normalize_purpose : Json → Result String
  normalize_purpose (str value) = do
    let controls = consent_error "consent purpose contains unsupported format controls"
    raise_if (any_char p.is_format_control value) controls
    let composed = p.nfkc value
    raise_if (any_char p.is_format_control composed) controls
    let normalized = collapse composed
    raise_if (normalized == "") (consent_error "consent purpose is required")
    as_consent_error (require_text_limit normalized max_purpose_bytes "consent purpose")
  normalize_purpose _ = err (consent_error "consent purpose is invalid")

  unfoldable pub validate_stored_purpose : Json → Result String
  validate_stored_purpose (str value) =
      if any_char p.is_format_control value
      then err (consent_error "consent purpose contains unsupported format controls")
      else ok value
  validate_stored_purpose _ = err (consent_error "consent purpose is invalid")

  unfoldable pub public_record : Fields → Fields
  public_record r =
      let shown = remove "token_digest" (remove "purpose_binding" r) in
      if has "purpose" shown
      then put "purpose" (str (redact_value p (get_or_null "purpose" shown))) shown
      else shown

  unfoldable pub stored_grant : Fields → Result Fields
  stored_grant grant = do
    id ← validate_consent_id (get_or_null "id" grant)
    digest ← token_digest (str id)
    ok (put "token_digest" (str digest) (remove "id" grant))

  -- `datetime.fromisoformat(str(value))`, which must have a timezone
  unfoldable pub parse_moment : String → Json → Result ℕ
  parse_moment message value = elim (p.fromisoformat (to_text p value)) [
    | none ↦ err (consent_error message)
    | some m ↦ if m.aware then ok m.instant else err (consent_error message)
  ]

  unfoldable pub parse_expires_at : Json → Result ℕ
  unfolding parse_moment
  parse_expires_at = parse_moment "consent token expiry is invalid"

  unfoldable pub request_expires_at : Fields → Result ℕ
  unfolding parse_moment
  request_expires_at request =
      let stored = get_or_null "expires_at" request in
      if truthy p.zero_float stored
      then parse_moment "consent request expiry is invalid" stored
      else do
        requested ←
            parse_moment "consent request time is invalid" (get_or_null "requested_at" request)
        add_seconds requested request_ttl_seconds
