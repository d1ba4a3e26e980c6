-- ===== src/Fallback/Classify/Verdict.antt =====
-- The verdicts of core/control/classify.go and the dial behind them.
use tenebra.Prelude.{
  Bool, true, false, ◌||◌, none, some, Option-cases, pos, eq_int, codes, text_eq_iff, ◌≡◌, ◌≢◌, ◌↔◌,
  inl, inr, arith,
}
use tenebra.Model.{Node}
use tenebra.Fallback.Classify.{
  dead, censored, DialError, Dial, classify_failure, classify_dial_error, tcp_probe,
  classify_attempt_failure,
}

-- A failed attempt reads as censored exactly when its node names a server and a port, the direct
-- dial to them came up, and the handshake through the tunnel stalled.
pub classify_attempt_failure-censored :
    (dial : Dial) (node : Node) (stalled : Bool)
    → (classify_attempt_failure dial node stalled ≡ censored) ↔ (
        (node.server ≢ codes "")
        × (eq_int node.port (pos 0) ≡ false)
        × (dial node.server node.port ≡ none)
        × (stalled ≡ true))
unfolding classify_attempt_failure classify_failure tcp_probe classify_dial_error
classify_attempt_failure-censored dial node stalled = (
  λ h. (
    ground (arith, text_eq_iff node.server (codes "")),
    ground arith,
    ground arith,
    ground arith,
  ),
  λ h. ground (arith, text_eq_iff node.server (codes "")),
)

-- A failed attempt reads as dead exactly when its node names a server and a port, and the direct
-- dial to them ended in an error that is a refused connection, an unreachable host or network, or
-- a name that did not resolve. The handshake has no part in it.
pub classify_attempt_failure-dead :
    (dial : Dial) (node : Node) (stalled : Bool)
    → (classify_attempt_failure dial node stalled ≡ dead) ↔ (
        (node.server ≢ codes "")
        × (eq_int node.port (pos 0) ≡ false)
        × ((e : DialError) × (ctx_err : Bool) × (dial node.server node.port ≡ some (e, ctx_err))
            × ((e.conn_refused || e.host_unreachable || e.net_unreachable || e.dns) ≡ true)))
unfolding classify_attempt_failure classify_failure tcp_probe classify_dial_error
classify_attempt_failure-dead dial node stalled = (
  λ h. (
    ground (arith, text_eq_iff node.server (codes "")),
    ground arith,
    elim (Option-cases (dial node.server node.port)) [
      | inl e ↦ absurd (ground arith)
      | inr ((e, ctx_err), found) ↦ (e, ctx_err, found, ground arith)
    ],
  ),
  λ h. ground (arith, text_eq_iff node.server (codes "")),
)
