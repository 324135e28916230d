-- ===== src/Domain/Admin/Envelope.antt =====
-- The signed envelope of admin.rs. blake3, JSON and the texts of times and identifiers are parameters.
use tidyflow.Base.Text.{Text, codes, msg, text_eq, trim}
use tidyflow.Base.{
  ℕ, List, Bool, Result, ok, err, [], ◌∷◌, ◌++◌, ◌+◌, ◌*◌, ◌==◌, ◌||◌, ◌>>=◌, ◌>>◌, false, not,
  if◌then◌else◌, ltb, bail_if, is_empty,
}
use tidyflow.Domain.Error.{DomainError, validation}

pub data AdminEnvelopeKind : Type 0 where
  enrollment heartbeat command secret_rotation : AdminEnvelopeKind

unfoldable pub as_wire_name : AdminEnvelopeKind → Text
as_wire_name enrollment = codes "enrollment"
as_wire_name heartbeat = codes "heartbeat"
as_wire_name command = codes "command"
as_wire_name secret_rotation = codes "secretRotation"

unfoldable pub transport_schema_version : Text
transport_schema_version = codes "admin.transport.v1"

unfoldable pub signature_context : Text
signature_context = codes "autoflow-admin-transport-v1"

pub record AdminSignedEnvelope (T : Type 0) : Type 0 where
  pub schema_version : Text
  pub kind : AdminEnvelopeKind
  pub instance_id : Text
  pub issued_at : ℕ
  pub expires_at : ℕ
  pub nonce : ℕ
  pub payload_hash : Text
  pub signature : Text
  pub payload : T

-- `derive_key`, `keyed_hash` and `hash` of blake3, the last two with `to_hex`; and the texts.
pub record Crypto : Type 0 where
  pub derive_key : Text → Text → ℕ
  pub keyed_hash : ℕ → Text → Text
  pub hash : List ℕ → Text
  pub to_rfc3339 : ℕ → Text
  pub show_uuid : ℕ → Text

-- `[a, b, ..].join("|")`.
unfoldable pub join : ℕ → List Text → Text
join sep [] = []
join sep (s ∷ []) = s
join sep (s ∷ t ∷ rest) = s ++ sep ∷ join sep (t ∷ rest)

unfoldable pub admin_signature_input : Crypto → AdminEnvelopeKind → Text → ℕ → ℕ → ℕ → Text → Text
unfolding join
admin_signature_input c kind instance_id issued_at expires_at nonce payload_hash = join b'|' (
    transport_schema_version
    ∷ as_wire_name kind
    ∷ instance_id
    ∷ c.to_rfc3339 issued_at
    ∷ c.to_rfc3339 expires_at
    ∷ c.show_uuid nonce
    ∷ payload_hash
    ∷ [])

unfoldable pub sign_admin_payload : Crypto → Text → Text → Text
sign_admin_payload c signing_secret signature_input =
    codes "blake3:"
    ++ c.keyed_hash (c.derive_key signature_context (trim signing_secret)) signature_input

abbrev pub second_ns : ℕ
second_ns = 1000000000

-- `to_vec` is serde_json's, for the type of the payload.
module _ {T : Type 0} (c : Crypto) (to_vec : T → Result Text (List ℕ)) where
  unfoldable pub hash_admin_payload : T → Result DomainError Text
  hash_admin_payload payload = elim (to_vec payload) [
    | ok bytes ↦ ok (c.hash bytes)
    | err e ↦ err (validation e)
  ]

  -- With the time and the nonce that are taken.
  unfoldable pub sign :
      ℕ → ℕ → AdminEnvelopeKind → Text → T → Text → ℕ → Result DomainError (AdminSignedEnvelope T)
  unfolding hash_admin_payload
  sign now nonce kind instance_id payload signing_secret ttl_secs =
      let expires_at = now + ttl_secs * second_ns in
      bail_if (is_empty (trim signing_secret)) (validation (msg "admin signing secret is required"))
      >> bail_if (ttl_secs == 0 || ltb 86400 ttl_secs)
          (validation (msg "admin signed envelope ttl must be between 1 and 86400 seconds"))
      >> hash_admin_payload payload
      >>= λ payload_hash. ok (record {
        schema_version = transport_schema_version;
        kind = kind;
        instance_id = instance_id;
        issued_at = now;
        expires_at = expires_at;
        nonce = nonce;
        payload_hash = payload_hash;
        signature =
            sign_admin_payload c signing_secret
              (admin_signature_input c kind instance_id now expires_at nonce payload_hash);
        payload = payload;
      })

  unfoldable pub verify : AdminSignedEnvelope T → Text → Result DomainError Bool
  unfolding hash_admin_payload
  verify e signing_secret =
      if not (text_eq e.schema_version transport_schema_version)
      then ok false
      else hash_admin_payload e.payload >>= λ current_payload_hash.
          if not (text_eq current_payload_hash e.payload_hash)
          then ok false
          else ok (
              text_eq
                (sign_admin_payload c signing_secret (
                  admin_signature_input c e.kind e.instance_id e.issued_at e.expires_at e.nonce
                    e.payload_hash))
                e.signature)
