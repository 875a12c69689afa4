-- ===== src/Alerts/Targets.antt =====
-- classifier/alerts.py: whether a session should alert at all, and the channels that are sent to.
-- What a repository or a mail server does is a parameter.
use echidra_oss.Base.{
  nonempty, ◌+◌, ℕ, List, String, [], ◌∷◌, ◌++◌, Bool, true, false, not, ◌&&◌, ◌||◌, Option, none,
  some, if◌then◌else◌, ◌==◌, leb, any, str_eq, map,
}
use mathlib.Core.List.{reverse}
use echidra_oss.Base.Text.{within, Text, text_eq, strip, within}

-- `_RISK_LEVEL_ORDER`
abbrev pub risk_level_order : List String
risk_level_order = "critical" ∷ "high" ∷ "medium" ∷ "low" ∷ "none" ∷ []

abbrev pub one_more : Option ℕ → Option ℕ
one_more none = none
one_more (some i) = some (i + 1)

-- `order.index(x)`; `none` is the ValueError.
unfoldable pub index_of : String → List String → Option ℕ
index_of x [] = none
index_of x (y ∷ ys) = if str_eq x y then some 0 else one_more (index_of x ys)

abbrev pub both_leb : Option ℕ → Option ℕ → Bool
both_leb (some i) (some j) = leb i j
both_leb (some i) none = false
both_leb none j = false

-- `_risk_meets_threshold`
unfoldable pub risk_meets_threshold : String → String → Bool
risk_meets_threshold level min_level =
    both_leb (index_of level risk_level_order) (index_of min_level risk_level_order)

-- `s.replace(",", "\n")`
abbrev pub commas_to_lines : Text → Text
commas_to_lines = map (λ c. if c == b',' then b'\n' else c)

-- The characters at which `str.splitlines` ends a line.
abbrev pub ends_line : ℕ → Bool
ends_line c = within 10 13 c || within 28 30 c || c == 133 || c == 8232 || c == 8233

-- `s.splitlines()`, from the current line on, which is kept in reverse; a line feed right after a
-- carriage return ends no line of its own.
unfoldable pub split_lines : Bool → Text → Text → List Text
split_lines after_cr line [] = if nonempty line then reverse line ∷ [] else []
split_lines after_cr line (c ∷ s) =
    let skipped = split_lines false line s in
    let closed = split_lines (c == 13) [] s in
    let longer = split_lines false (c ∷ line) s in
    if after_cr && c == 10 then skipped else if ends_line c then reverse line ∷ closed else longer

-- `_is_excluded_ip`
unfoldable pub is_excluded_ip : Option Text → Option Text → Bool
unfolding split_lines
is_excluded_ip none peer_ip = false
is_excluded_ip (some excluded) none = false
is_excluded_ip (some excluded) (some peer_ip) =
    nonempty excluded
    && nonempty peer_ip
    && any (λ line. text_eq (strip peer_ip) (strip line))
        (split_lines false [] (commas_to_lines excluded))

-- The settings that the decision reads of `AlertConfigRecord` and `PersonaConfigRecord`.
pub record AlertConfig : Type 0 where
  pub enabled : Bool
  pub excluded_ips : Option Text
  pub global_min_risk_level : String

pub record PersonaConfig : Type 0 where
  pub alert_routing_level : String
  pub alert_min_risk_level : Option String
  pub contact_email : Option String
  pub slack_webhook : Option String

-- Python's truth of an optional text.
abbrev pub given : Option String → Bool
given none = false
given (some text) = not (str_eq text "")

abbrev pub or_else : Option String → String → String
or_else none default = default
or_else (some text) default = if str_eq text "" then default else text

abbrev pub persona_targets :
    String → AlertConfig → Option PersonaConfig → Option (AlertConfig × PersonaConfig)
persona_targets level config none = none
persona_targets level config (some persona) =
    if str_eq persona.alert_routing_level "none"
    then none
    else if risk_meets_threshold level
        (or_else persona.alert_min_risk_level config.global_min_risk_level)
    then some (config, persona)
    else none

-- `_alert_targets`, on the two rows that the repository returns.
unfoldable pub alert_targets :
    String
    → Option Text
    → Option AlertConfig
    → Option PersonaConfig
    → Option (AlertConfig × PersonaConfig)
alert_targets level peer_ip none persona = none
alert_targets level peer_ip (some config) persona =
    if not config.enabled
    then none
    else if is_excluded_ip config.excluded_ips peer_ip
    then none
    else persona_targets level config persona

-- One recorded attempt: `_build_alert_event`.
pub record AlertEvent : Type 0 where
  pub channel : String
  pub contact_email : Option String
  pub success : Bool
  pub error_message : Option String

-- What was handed to a sender, whether it went out or was refused, and what was recorded.
pub record Outbox : Type 0 where
  pub emails : List String
  pub slacks : List String
  pub events : List AlertEvent

abbrev pub is_success : Option String → Bool
is_success none = true
is_success (some error) = false

-- `_record_alert_event`: a failing insertion is logged and swallowed.
unfoldable pub record_alert_event : (AlertEvent → Bool) → AlertEvent → Outbox → Outbox
record_alert_event fails event out =
    if fails event then out else record out { events = out.events ++ event ∷ [] }

abbrev pub routes_to : String → PersonaConfig → Bool
routes_to channel persona =
    str_eq persona.alert_routing_level channel || str_eq persona.alert_routing_level "both"

abbrev pub email_of : Option String → String
email_of none = ""
email_of (some email) = email

-- The first half of `_dispatch_alerts`; `send` is what `_dispatch_alert_email` returns for the
-- address: the error for which the email was not sent, before the mail server is reached or by it,
-- or nothing. An exception of it leaves `_dispatch_alerts`, and is not modelled.
unfoldable pub dispatch_email :
    (String → Option String) → (AlertEvent → Bool) → PersonaConfig → Outbox → Outbox
dispatch_email send fails persona out =
    if routes_to "email" persona && given persona.contact_email
    then (let email = email_of persona.contact_email in
        let error = send email in
        record_alert_event fails
          (record {
            channel = "email";
            contact_email = persona.contact_email;
            success = is_success error;
            error_message = error;
          })
          (record out { emails = out.emails ++ email ∷ [] }))
    else out

-- The second half, with `_dispatch_alert_slack` for a webhook.
unfoldable pub dispatch_slack :
    (String → Option String) → (AlertEvent → Bool) → PersonaConfig → Outbox → Outbox
dispatch_slack send fails persona out =
    if routes_to "slack" persona && given persona.slack_webhook
    then (let webhook = email_of persona.slack_webhook in
        let error = send webhook in
        record_alert_event fails
          (record {
            channel = "slack";
            contact_email = none;
            success = is_success error;
            error_message = error;
          })
          (record out { slacks = out.slacks ++ webhook ∷ [] }))
    else out

-- `_dispatch_alerts`
unfoldable pub dispatch_alerts :
    (String → Option String)
    → (String → Option String)
    → (AlertEvent → Bool)
    → PersonaConfig
    → Outbox
    → Outbox
dispatch_alerts send_email send_slack fails persona out =
    dispatch_slack send_slack fails persona (dispatch_email send_email fails persona out)
