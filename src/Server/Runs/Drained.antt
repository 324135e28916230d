-- ===== src/Server/Runs/Drained.antt =====
-- About the polls of an agent that has commands to fetch.
use tidyflow.Server.Commands.Assigned.{assign_next_command-IsConsistent}
use tidyflow.Server.Agents.Frames.{poll_next_command-accepted}
use tidyflow.Domain.Admin.{AdminCommandPollRequest}
use tidyflow.Server.Commands.Consistent.{IsConsistent}
use tidyflow.Base.Text.{Text, trim}
use tidyflow.Server.Routes.{Details}
use tidyflow.Server.Commands.{pending_command_count, assign_next_command}
use tidyflow.Server.Commands.Waiting.{count_if-waiting}
use tidyflow.Server.Commands.Waiting.Taken.{assign_next_command-Takes}
use tidyflow.Server.Calls.{Transport, verify_envelope, agent_secret}
use tidyflow.Server.State.{AdminServerState, new}
use tidyflow.Server.Runs.{Request, polls, handle_all, AllFresh, handle}
use tidyflow.Server.Runs.Summaries.{handle_all-IsConsistent}
use tidyflow.Domain.Admin.Envelope.{command, AdminSignedEnvelope}
use tidyflow.Base.{ℕ, ◌-◌, List, [], ◌∷◌, ◌≡◌, length, arith, All, inl, map, ok, inr, ap, ◌∙◌}

pub count-assigned :
    (id : Text) (now : ℕ) (s : AdminServerState)
    → IsConsistent s
    → pending_command_count id (assign_next_command id now s).1 ≡ pending_command_count id s - 1
unfolding pending_command_count
count-assigned id now s v =
    let t = (assign_next_command id now s).1 in
    let before = count_if-waiting id s.command_deliveries in
    let after = count_if-waiting id t.command_deliveries in
    elim (assign_next_command-Takes id now s v) [
      | inl (idle, empty) ↦ ground (arith, idle, empty, before)
      | inr takes ↦ ground (arith, takes.head, before, after)
    ]

secrets-assigned :
    (id : Text) (now : ℕ) (s : AdminServerState)
    → (assign_next_command id now s).1.agent_secrets ≡ s.agent_secrets
unfolding assign_next_command
secrets-assigned id now s = ground arith

pub record Poll : Type 0 where
  pub now : ℕ
  pub nonce : ℕ
  pub envelope : AdminSignedEnvelope AdminCommandPollRequest

module _ (h : Transport) (j : Details) (path : Text) where
  abbrev pub request_of : Poll → Request
  request_of p = polls p.now p.nonce path p.envelope

  -- The server accepts the envelope: some secret of the agent verifies it.
  abbrev pub Passes : AdminServerState → Poll → Type 0
  Passes s p =
      (secret : Text) × (verify_envelope h.crypto h.poll_vec command s (trim path) p.envelope p.now
        ≡ ok secret)

  Passes-frame :
      (s t : AdminServerState) (ps : List Poll)
      → t.agent_secrets ≡ s.agent_secrets
      → All (Passes s) ps
      → All (Passes t) ps
  Passes-frame s t [] same hs = hs
  Passes-frame s t (p ∷ ps) same ((secret, good), rest) =
      let good_now : verify_envelope h.crypto h.poll_vec command t (trim path) p.envelope p.now
          ≡ ok secret =
        unfold verify_envelope agent_secret in
        (rw same (unfold verify_envelope agent_secret in good)) in
      ((secret, good_now), Passes-frame s t ps same rest)

  drain :
      (ps : List Poll) (s : AdminServerState)
      → IsConsistent s
      → All (Passes s) ps
      → pending_command_count (trim path) (handle_all h j (map request_of ps) s)
        ≡ pending_command_count (trim path) s - length ps
  unfolding handle_all handle
  drain [] s v pass = ground arith
  drain (p ∷ ps) s v ((secret, good), rest) =
      let t = (assign_next_command (trim path) p.now s).1 in
      let step = poll_next_command-accepted h p.now p.nonce path p.envelope s secret good in
      let ih =
        drain ps t (assign_next_command-IsConsistent (trim path) p.now s v)
          (Passes-frame s t ps (secrets-assigned (trim path) p.now s) rest) in
      let run : handle_all h j (map request_of (p ∷ ps)) s ≡ handle_all h j (map request_of ps) t =
        ap (handle_all h j (map request_of ps)) step in
      let count = count-assigned (trim path) p.now s v in
      ap (pending_command_count (trim path)) run ∙ ih ∙ ground (arith, count)

  -- An agent that polls gets its commands. After any sequence of requests to a new server, in which each
  -- batch got a fresh identifier, each poll of the agent whose envelope the server accepts takes one of
  -- its pending deliveries, as long as there is one: after such polls there are fewer of them by the number
  -- of the polls, and none if the polls were as many.
  pub handle_all-drained :
      (rs : List Request) (ps : List Poll)
      → AllFresh h j rs new
      → All (Passes (handle_all h j rs new)) ps
      → pending_command_count
          (trim path)
          (handle_all h j (map request_of ps) (handle_all h j rs new))
        ≡ pending_command_count (trim path) (handle_all h j rs new) - length ps
  handle_all-drained rs ps fresh pass =
      drain ps (handle_all h j rs new) (handle_all-IsConsistent h j rs fresh) pass
