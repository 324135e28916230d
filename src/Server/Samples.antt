-- ===== src/Server/Samples.antt =====
-- A small server for the tests: one agent, one batch for it, its poll and its completion.
use tidyflow.Server.Audit.{AdminCentralAuditQuery}
use tidyflow.Domain.Admin.{
  AdminBatchCommandRequest, AdminCommandCompletionRequest, AdminCommandCompletionStatus,
  AdminCommandPollRequest, AdminMachineGroupRequest, start_job, operator,
}
use tidyflow.Domain.Admin.Envelope.{
  AdminSignedEnvelope, Crypto, admin_signature_input, command, second_ns, sign_admin_payload,
  transport_schema_version,
}
use tidyflow.Server.Runs.{Request, batches, polls, registers_agent, registers_operator}
use tidyflow.Server.Calls.{Transport}
use tidyflow.Server.Routes.{Details}
use tidyflow.Base.Int.{negsuc, pos}
use tidyflow.Base.Text.{Text, codes}
use tidyflow.Base.{ℕ, List, [], ◌∷◌, ◌+◌, ◌*◌, length, none, ok, some}

-- The functions of the parameters keep their inputs, so that different inputs never meet.
abbrev pub crypto : Crypto
crypto = record {
  derive_key = λ context secret. length secret;
  keyed_hash = λ key text. key ∷ text;
  hash = λ bytes. bytes;
  to_rfc3339 = λ t. t ∷ [];
  show_uuid = λ id. id ∷ [];
}

abbrev pub transport : Transport
transport = record {
  crypto = crypto;
  poll_vec = λ p. ok (p.requested_at ∷ []);
  assignment_vec = λ a. ok (a.command_id ∷ []);
  completion_vec = λ c. ok (c.command_id ∷ c.message);
  heartbeat_vec = λ b. ok (b.generated_at ∷ []);
  rotation_vec = λ r. ok r.new_agent_secret;
}

abbrev pub details : Details
details = record {
  group_details = λ g. g.name;
  batch_details = λ b. b.command.source;
  completion_details = λ id c. id;
}

abbrev pub agent : Text
agent = codes "a"

abbrev pub secret : Text
secret = codes "s"

abbrev pub batch : AdminBatchCommandRequest
batch = record {
  request = record {
    kind = start_job;
    target_instance_ids = agent ∷ codes "b" ∷ [];
    job_ids = 5 ∷ [];
    execution_ids = [];
    reason = none;
    job_payloads = [];
  };
  group_ids = [];
  source = none;
}

-- What the agent signs at the instant `now`, for 60 seconds.
abbrev signed : {T : Type 0} → ℕ → T → List ℕ → AdminSignedEnvelope T
signed now payload bytes = record {
  schema_version = transport_schema_version;
  kind = command;
  instance_id = agent;
  issued_at = now;
  expires_at = now + 60 * second_ns;
  nonce = 9;
  payload_hash = bytes;
  signature =
      sign_admin_payload crypto secret
        (admin_signature_input crypto command agent now (now + 60 * second_ns) 9 bytes);
  payload = payload;
}

abbrev pub poll : AdminSignedEnvelope AdminCommandPollRequest
poll = signed 20 (record { requested_at = 20 }) (20 ∷ [])

abbrev pub completion : AdminSignedEnvelope AdminCommandCompletionRequest
completion =
    signed 30
      (record {
        command_id = 1;
        target_instance_id = agent;
        status = AdminCommandCompletionStatus.completed;
        message = [];
        completed_at = 30;
      })
      (1 ∷ [])

abbrev pub setup : List Request
setup = registers_agent agent secret ∷ batches 10 1 2 none batch ∷ []

abbrev pub requests : List Request
requests =
    registers_agent agent secret
    ∷ batches 10 1 2 none batch
    ∷ polls 20 3 agent poll
    ∷ registers_operator (codes "token-42") operator
    ∷ []

abbrev pub group : AdminMachineGroupRequest
group = record { name = codes "office"; description = none; instance_ids = agent ∷ [] }

abbrev pub query : AdminCentralAuditQuery
query = record {
  search = none;
  actor = some (codes "DEV-ADMIN");
  action = none;
  status = none;
  limit = negsuc 4;
  offset = pos 0;
}
