-- ===== src/TestSignal.antt =====
-- src/routes/test_signal.rs and src/routes/health.rs: the two plain routes that are always open.
use h2hc_linker.Base.{String, Bool, true, false, Option, none, if◌then◌else◌}
use h2hc_linker.Ids.{WsSender}
use h2hc_linker.Host.{Host, ok, err, with_error}
use h2hc_linker.Proxy.{AgentProxyManager, TrySend, send_signal}
use h2hc_linker.Ws.Messages.{ServerMessage, signal}

pub record TestSignalRequest : Type 0 where
  pub dna_hash : String
  pub agent_pubkey : String
  pub zome_name : String
  pub signal_b64 : String

pub record TestSignalResponse : Type 0 where
  pub success : Bool
  pub message : String

abbrev pub refused : String → TestSignalResponse × Option (WsSender × ServerMessage)
refused text = (record { success = false; message = text }, none)

-- The message of a request.
abbrev pub signal_msg : TestSignalRequest → ServerMessage
signal_msg request =
    signal request.dna_hash request.agent_pubkey "test" request.zome_name request.signal_b64

-- With the message that was handed to a connection, if any was; `debug` is the text of an error in
-- its debug form.
unfoldable pub test_signal :
    Host
    → (String → String)
    → (WsSender → ServerMessage → TrySend)
    → TestSignalRequest
    → AgentProxyManager
    → TestSignalResponse × Option (WsSender × ServerMessage)
unfolding send_signal
test_signal host debug try_send request m = elim (host.parse_dna request.dna_hash) [
  | err e ↦ refused (with_error "Invalid DNA hash: " (debug e))
  | ok dna ↦ elim (host.parse_agent request.agent_pubkey) [
    | err e ↦ refused (with_error "Invalid agent pubkey: " (debug e))
    | ok agent ↦
        let sent = send_signal try_send dna agent (signal_msg request) m in
        (
          if sent.0
              then record { success = true; message = "Signal sent to registered client" }
              else record {
                success = false;
                message = with_error "No client registered for dna=" (
                    with_error (host.dna_text dna) (with_error ", agent=" (host.agent_text agent)));
              },
          sent.1,
        )
  ]
]

pub record HealthResponse : Type 0 where
  pub status : String
  pub version : String

-- `version` is that of the package.
unfoldable pub health_check : String → HealthResponse
health_check version = record { status = "ok"; version = version }
