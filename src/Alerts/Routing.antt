-- ===== src/Alerts/Routing.antt =====
-- Which sessions alert: the threshold agrees with the ranks, and the guards are those stated.
use echidra_oss.Base.{
  sym, ◌∙◌, ◌-◌, ◌≢◌, ◌≤◌, String, true, false, ◌≡◌, ◌↔◌, ◌⊎◌, refl, arith, Option, none, some, leb,
  str_eq_iff, Option-cases, inl, inr, ◌≢◌,
}
use echidra_oss.Base.Text.{Text}
use echidra_oss.Scoring.Risk.{RiskLevel}
use echidra_oss.Alerts.{risk_rank}
use echidra_oss.Alerts.Targets.{
  risk_level_order, index_of, risk_meets_threshold, is_excluded_ip, AlertConfig, PersonaConfig,
  or_else, alert_targets,
}

-- The texts of the levels.
abbrev pub level_text : RiskLevel → String
level_text RiskLevel.none = "none"
level_text RiskLevel.low = "low"
level_text RiskLevel.medium = "medium"
level_text RiskLevel.high = "high"
level_text RiskLevel.critical = "critical"

position :
    (level : RiskLevel) → index_of (level_text level) risk_level_order ≡ some (4 - risk_rank level)
unfolding index_of risk_rank
position RiskLevel.none = refl
position RiskLevel.low = refl
position RiskLevel.medium = refl
position RiskLevel.high = refl
position RiskLevel.critical = refl

risk_rank-le : (level : RiskLevel) → risk_rank level ≤ 4
unfolding risk_rank
risk_rank-le level = ground arith

-- The threshold test, which searches a list of names, agrees with the ranks by which repeated
-- alerts are compared; and a level that is no known name meets no threshold.
pub risk_meets_threshold-rank :
    (level min_level : RiskLevel) (unknown : String)
    → (risk_meets_threshold (level_text level) (level_text min_level)
        ≡ leb (risk_rank min_level) (risk_rank level))
      × ((index_of unknown risk_level_order ≢ none)
          ⊎ ((risk_meets_threshold unknown (level_text min_level) ≡ false)
              × (risk_meets_threshold (level_text level) unknown ≡ false)))
unfolding risk_meets_threshold
risk_meets_threshold-rank level min_level unknown = (
  rw (position level, position min_level)
      (ground (arith, risk_rank-le level, risk_rank-le min_level)),
  elim (Option-cases (index_of unknown risk_level_order)) [
    | inl e ↦ inr (rw e, rw (e, position level))
    | inr (i, e) ↦ inl (λ absent. cc (sym e ∙ absent))
  ],
)

-- The guards on two configurations that are there.
abbrev pub IsDue : String → Option Text → AlertConfig → PersonaConfig → Type 0
IsDue level peer_ip config persona =
    (config.enabled ≡ true)
    × (is_excluded_ip config.excluded_ips peer_ip ≡ false)
    × (persona.alert_routing_level ≢ "none")
    × (risk_meets_threshold level
          (or_else persona.alert_min_risk_level config.global_min_risk_level)
        ≡ true)

-- A session alerts exactly if alerting is configured and enabled, its address is not excluded, its
-- persona is configured with a routing other than "none", and its level meets the persona's own
-- threshold, or the global one if the persona has none; and then with these two configurations.
pub alert_targets_iff :
    (level : String) (peer_ip : Option Text) (found : Option AlertConfig)
    (known : Option PersonaConfig) (config : AlertConfig) (persona : PersonaConfig)
    → (alert_targets level peer_ip found known ≡ some (config, persona))
      ↔ ((found ≡ some config) × (known ≡ some persona) × IsDue level peer_ip config persona)
unfolding alert_targets
alert_targets_iff level peer_ip none known config persona = (λ e. cc, λ h. cc (h.0))
alert_targets_iff level peer_ip (some c) none config persona = (λ e. ground arith, λ h. cc (h.1))
alert_targets_iff level peer_ip (some c) (some p) config persona =
    ground (arith, str_eq_iff p.alert_routing_level "none")
