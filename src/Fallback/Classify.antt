-- ===== src/Fallback/Classify.antt =====
-- core/fallback/classify.go, and its caller core/control/classify.go. The dial itself is the
-- network's: an outcome says whether the connection came up, and otherwise what `errors.Is` and
-- `errors.As` find in the error.
pub mod Verdict
use tenebra.Prelude.{
  Bool, true, false, ◌||◌, Option, none, some, ℕ, ℤ, pos, eq_int, Text, codes, text_eq,
  if◌then◌else◌,
}
use tenebra.Model.{Node}

pub data FailureClass : Type 0 where
  unknown dead censored : FailureClass

-- `FailureClass.String`.
unfoldable pub class_name : FailureClass → Text
class_name dead = codes "dead"
class_name censored = codes "censored"
class_name unknown = codes "unknown"

pub data TcpResult : Type 0 where
  indeterminate connected refused timed_out unreachable : TcpResult

pub record FailureSignal : Type 0 where
  pub tcp : TcpResult
  pub handshake_stalled : Bool

classify_tcp : TcpResult → Bool → FailureClass
classify_tcp refused stalled = dead
classify_tcp unreachable stalled = dead
classify_tcp connected stalled = if stalled then censored else unknown
classify_tcp timed_out stalled = unknown
classify_tcp indeterminate stalled = unknown

-- `ClassifyFailure`.
unfoldable pub classify_failure : FailureSignal → FailureClass
unfolding classify_tcp
classify_failure sig = classify_tcp sig.tcp sig.handshake_stalled

-- What the standard library's tests find in a dial error.
pub record DialError : Type 0 where
  pub conn_refused : Bool
  pub host_unreachable : Bool
  pub net_unreachable : Bool
  pub dns : Bool
  pub deadline_exceeded : Bool
  pub net_timeout : Bool

-- `classifyDialError`; the flag says that the dial context has an error of its own.
unfoldable pub classify_dial_error : DialError → Bool → TcpResult
classify_dial_error e ctx_err =
    if e.conn_refused
    then refused
    else if e.host_unreachable || e.net_unreachable
    then unreachable
    else if e.dns
    then unreachable
    else if e.deadline_exceeded || ctx_err
    then timed_out
    else if e.net_timeout
    then timed_out
    else indeterminate

-- A dial: `none` for a connection that came up, else its error and whether the context ended.
abbrev pub Dial : Type 0
Dial = Text → ℤ → Option (DialError × Bool)

dial_result : Option (DialError × Bool) → TcpResult
dial_result none = connected
dial_result (some (e, ctx_err)) = classify_dial_error e ctx_err

-- `Daemon.tcpProbe`.
unfoldable pub tcp_probe : Dial → Node → TcpResult
unfolding dial_result
tcp_probe dial node =
    if text_eq node.server (codes "") || eq_int node.port (pos 0)
    then indeterminate
    else dial_result (dial node.server node.port)

-- `Daemon.classifyAttemptFailure`.
unfoldable pub classify_attempt_failure : Dial → Node → Bool → FailureClass
classify_attempt_failure dial node stalled =
    classify_failure (record { tcp = tcp_probe dial node; handshake_stalled = stalled })
