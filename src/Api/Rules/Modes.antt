-- ===== src/Api/Rules/Modes.antt =====
-- The mode, the undoing of an added rule, and what holds over any run of calls on the rules.
use ge_sensor.Prelude.{
  ◌≡◌, refl, ◌∙◌, ap, sym, subst, ◌↔◌, ◌≢◌, ◌⊎◌, inl, inr, true, none, some, arith, str_eq_iff,
  Option-cases, String,
}
use ge_sensor.Prelude.Results.{ok, err}
use ge_sensor.Strings.{trim, to_ascii_lowercase}
use ge_sensor.Ips.{IpsMode, IpsEngine, set_mode}
use ge_sensor.Api.{AppState, build_ips_info, mode_name}
use ge_sensor.Api.Rules.{set_ips_mode, parse_mode, enter_mode}

-- The mode is set.
abbrev pub InMode : IpsMode → AppState → Type 0
InMode m a = (a.sensor.ips_engine.mode ≡ m) × (a.sensor.config.ips.mode ≡ mode_name m)

pub parse_mode_iff : (s : String) (m : IpsMode) → (parse_mode s ≡ some m) ↔ (s ≡ mode_name m)
unfolding parse_mode
parse_mode_iff s IpsMode.tap = (
  ground (arith, str_eq_iff s "tap", str_eq_iff s "inline"),
  ground (arith, str_eq_iff s "tap", str_eq_iff s "inline"),
)
parse_mode_iff s IpsMode.inline =
    (ground (arith, str_eq_iff s "tap", str_eq_iff s "inline"), (λ e. rw e refl))

set_mode_mode : (m : IpsMode) (e : IpsEngine) → (set_mode m e).mode ≡ m
unfolding set_mode
set_mode_mode m e = by_modes m e.mode e refl
  where
    by_modes : (m now : IpsMode) (e : IpsEngine) → e.mode ≡ now → (set_mode m e).mode ≡ m
    by_modes IpsMode.tap IpsMode.tap e h = ground arith
    by_modes IpsMode.tap IpsMode.inline e h = ground arith
    by_modes IpsMode.inline IpsMode.tap e h = ground arith
    by_modes IpsMode.inline IpsMode.inline e h = ground arith

set_known :
    (text : String) (a : AppState) (m : IpsMode)
    → parse_mode (to_ascii_lowercase (trim text)) ≡ some m
    → let after = enter_mode m (to_ascii_lowercase (trim text)) a in
      set_ips_mode text a ≡ (ok (build_ips_info after), after)
unfolding set_ips_mode
set_known text a m h = rw (h, set_ips_mode)

pub set_unknown :
    (text : String) (a : AppState)
    → parse_mode (to_ascii_lowercase (trim text)) ≡ none
    → set_ips_mode text a ≡ (err "mode must be 'tap' or 'inline'", a)
unfolding set_ips_mode
set_unknown text a h = rw (h, set_ips_mode)

enter_mode-InMode :
    (m : IpsMode) (s : String) (a : AppState) → s ≡ mode_name m → InMode m (enter_mode m s a)
unfolding enter_mode
enter_mode-InMode m s a e = (set_mode_mode m a.sensor.ips_engine, e)

-- The state after a text that names the mode.
pub record Entered (m : IpsMode) (text : String) (a : AppState) : Type 0 where
  pub answer : (set_ips_mode text a).0 ≡ ok (build_ips_info (set_ips_mode text a).1)
  pub modes : InMode m (set_ips_mode text a).1
  pub enabled : (set_ips_mode text a).1.sensor.config.ips.enabled ≡ true
  pub rules : (set_ips_mode text a).1.sensor.ips_engine.rules ≡ a.sensor.ips_engine.rules

set_mode_rules : (m : IpsMode) (e : IpsEngine) → (set_mode m e).rules ≡ e.rules
unfolding set_mode
set_mode_rules m e = ground arith

pub entered :
    (m : IpsMode) (text : String) (a : AppState)
    → to_ascii_lowercase (trim text) ≡ mode_name m
    → Entered m text a
unfolding enter_mode
entered m text a e =
    let normalized = to_ascii_lowercase (trim text) in
    let done = set_known text a m ((parse_mode_iff normalized m).1 e) in
    record {
      answer = ap (λ r. r.0) done ∙ sym (ap (λ r. ok (build_ips_info r.1)) done);
      modes = subst (InMode m) (sym (ap (λ r. r.1) done)) (enter_mode-InMode m normalized a e);
      enabled = ap (λ r. r.1.sensor.config.ips.enabled) done;
      rules = ap (λ r. r.1.sensor.ips_engine.rules) done ∙ set_mode_rules m a.sensor.ips_engine;
    }

-- Setting the mode to a text that is "tap" or "inline" up to white space around it and case puts the
-- engine and the configuration into that mode, switches the engine on, keeps the rules and is
-- answered with the new state; any other text is refused, and nothing changes.
pub set_ips_mode_lem :
    (text : String) (a : AppState)
    → ((m : IpsMode) → to_ascii_lowercase (trim text) ≡ mode_name m → Entered m text a)
      × (((m : IpsMode) → to_ascii_lowercase (trim text) ≢ mode_name m)
          → set_ips_mode text a ≡ (err "mode must be 'tap' or 'inline'", a))
set_ips_mode_lem text a = (
  (λ m e. entered m text a e),
  (λ h. set_unknown text a (neither (Option-cases (parse_mode normalized)) h)),
)
  where
    normalized : String
    normalized = to_ascii_lowercase (trim text)

    neither :
        ((parse_mode normalized ≡ none) ⊎ ((m : IpsMode) × (parse_mode normalized ≡ some m)))
        → ((m : IpsMode) → normalized ≢ mode_name m)
        → parse_mode normalized ≡ none
    neither (inl e) h = e
    neither (inr (m, e)) h = absurd (h m ((parse_mode_iff normalized m).0 e))
