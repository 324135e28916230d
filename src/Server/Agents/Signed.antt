-- ===== src/Server/Agents/Signed.antt =====
-- About the envelopes that an agent signs, and the server's checks of them.
use tidyflow.Server.Calls.{verify_envelope, agent_secret, is_kind, check_signature}
use tidyflow.Server.State.{AdminServerState}
use tidyflow.Domain.Admin.Envelope.{
  Crypto, AdminEnvelopeKind, AdminSignedEnvelope, sign, verify, second_ns, hash_admin_payload,
  transport_schema_version, sign_admin_payload, admin_signature_input,
}
use tidyflow.Base.Text.{Text, text_eq_refl, trim}
use tidyflow.Base.TextMap.{lookup}
use tidyflow.Base.{
  ℕ, ◌≡◌, ◌≤◌, ◌+◌, ◌*◌, List, Result, ok, some, true, false, arith, refl, is_empty,
}

is_kind_refl : (k : AdminEnvelopeKind) → is_kind k k ≡ true
unfolding is_kind
is_kind_refl k = ground arith

module _ {T : Type 0} (c : Crypto) (to_vec : T → Result Text (List ℕ)) where
  -- The envelope that is signed for a payload with these bytes.
  envelope_of : ℕ → ℕ → AdminEnvelopeKind → Text → T → Text → ℕ → List ℕ → AdminSignedEnvelope T
  envelope_of now nonce kind id payload secret ttl bytes = record {
    schema_version = transport_schema_version;
    kind = kind;
    instance_id = id;
    issued_at = now;
    expires_at = now + ttl * second_ns;
    nonce = nonce;
    payload_hash = c.hash bytes;
    signature =
        sign_admin_payload c secret
          (admin_signature_input c kind id now (now + ttl * second_ns) nonce (c.hash bytes));
    payload = payload;
  }

  envelope_of-verify :
      (now nonce : ℕ) (kind : AdminEnvelopeKind) (id : Text) (payload : T) (secret : Text) (ttl : ℕ)
      (bytes : List ℕ)
      → to_vec payload ≡ ok bytes
      → verify c to_vec (envelope_of now nonce kind id payload secret ttl bytes) secret ≡ ok true
  unfolding verify envelope_of hash_admin_payload
  envelope_of-verify now nonce kind id payload secret ttl bytes vec = ground (
    arith,
    vec,
    text_eq_refl transport_schema_version,
    text_eq_refl (c.hash bytes),
    text_eq_refl (
        sign_admin_payload c secret
          (admin_signature_input c kind id now (now + ttl * second_ns) nonce (c.hash bytes))),
  )

  -- What an agent signs with the secret that is registered for it passes the server's checks until it
  -- expires: if the secret is not blank, the time to live is of 1 to 86400 seconds and the payload can
  -- be serialised, then an envelope is signed, with that payload, and at any time up to the end of its
  -- time to live the server accepts it as one of that agent and of that kind.
  pub sign-verify_envelope :
      (now nonce : ℕ) (kind : AdminEnvelopeKind) (id : Text) (payload : T) (secret : Text) (ttl : ℕ)
      (bytes : List ℕ) (later : ℕ) (s : AdminServerState)
      → is_empty (trim secret) ≡ false
      → is_empty id ≡ false
      → 1 ≤ ttl
      → ttl ≤ 86400
      → to_vec payload ≡ ok bytes
      → lookup id s.agent_secrets ≡ some secret
      → later ≤ now + ttl * second_ns
      → (e : AdminSignedEnvelope T) × (sign c to_vec now nonce kind id payload secret ttl ≡ ok e)
        × (e.payload ≡ payload)
        × (verify_envelope c to_vec kind s id e later ≡ ok secret)
  unfolding sign verify_envelope agent_secret check_signature envelope_of hash_admin_payload
  sign-verify_envelope now nonce kind id payload secret ttl bytes later s keyed named low high vec
        at in_time =
      let e = envelope_of now nonce kind id payload secret ttl bytes in
      let good : verify c to_vec e secret ≡ ok true =
        envelope_of-verify now nonce kind id payload secret ttl bytes vec in
      (
        e,
        ground (arith, keyed, vec),
        refl,
        ground (arith, named, at, good, is_kind_refl kind, text_eq_refl id),
      )
