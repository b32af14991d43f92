-- ===== src/Ips/Verdicts.antt =====
-- The verdict of `evaluate` by mode.
use ge_sensor.Prelude.{◌≡◌, ◌⊎◌, inl, inr, ◌↔◌, none, some, arith, Option-cases}
use ge_sensor.Ips.{drop, tap, inline, IpsRule, IpsEngine, Packet, find_rule, finish, evaluate}

-- Read with the rule that was returned: in tap mode a packet is dropped exactly when no rule
-- applies to it and the default action is to drop. No rule's own drop is carried out.
pub tap_drop_iff :
    (p : Packet) (e : IpsEngine)
    → e.mode ≡ tap
    → ((evaluate p e).0.0 ≡ drop) ↔ (((evaluate p e).0.1 ≡ none) × (e.default_action ≡ drop))
unfolding evaluate finish
tap_drop_iff p e m = (ground arith, ground arith)

-- In inline mode the verdict is the action of the rule that was returned, or the default action
-- where none was.
pub inline_verdict :
    (p : Packet) (e : IpsEngine)
    → e.mode ≡ inline
    → ((r : IpsRule) × ((evaluate p e).0.1 ≡ some r) × ((evaluate p e).0.0 ≡ r.action))
      ⊎ (((evaluate p e).0.1 ≡ none) × ((evaluate p e).0.0 ≡ e.default_action))
unfolding evaluate finish
inline_verdict p e m = elim (Option-cases (find_rule e.rules p)) [
  | inl n ↦ inr (ground arith)
  | inr (r, q) ↦ inl (r, ground arith, ground arith)
]
