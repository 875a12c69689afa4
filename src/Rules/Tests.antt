-- ===== src/Rules/Tests.antt =====
-- Runs of the rules on one session, and each of the theorems on rules at a concrete input.
use echidra_oss.Base.{[], ◌∷◌, ◌≡◌, refl, none, some, true, false, map, keep, ◌⊎◌}
use echidra_oss.Base.Ratios.{whole}
use echidra_oss.Features.{SessionFeatures}
use echidra_oss.Rules.{automated_scanner, brute_force_bot, RuleMatch, RuleEvaluation}
use echidra_oss.Base.Text.{codes}
use echidra_oss.Rules.Value.{number, text, contained, value_eq, items, nil, cons}
use echidra_oss.Rules.Evaluate.{
  ClassificationRule, RuleSet, gte, lt, contains, evaluate_from, all_match, condition_matches, ok,
  match_of, evaluate_rules, is_valid_rule_set, apply_operator, best_match, condition_matches, order,
}
use echidra_oss.Rules.Fields.{get_field}
use echidra_oss.Rules.Filter.{AllSettle, applies, evaluate_rules_filters}
use echidra_oss.Rules.Best.{Picks, best_match-Picks}

abbrev scan : SessionFeatures
scan = record {
  session_id = "s1";
  protocol = "telnet";
  persona_id = "router";
  end_reason = "disconnect";
  duration_seconds = whole 3;
  command_count = 2;
  commands_per_minute = record { numerator = 120; denominator = 3 };
  unique_command_count = 2;
  repeated_command_count = 0;
  discovery_command_count = 1;
  file_read_count = 1;
  sensitive_file_read_count = 0;
  decoy_files_surfaced = [];
  decoy_files_surfaced_count = 0;
  exit_command_present = false;
  inter_command_intervals_seconds = whole 1 ∷ [];
  average_inter_command_interval_seconds = some (whole 1);
  human_timing_score = none;
  command_names = codes "uname" ∷ codes "cat" ∷ [];
  auth_attempt_count = 3;
  telnet_credentials_tried = [];
  ssh_credentials_tried = [];
  ftp_credentials_tried = [];
  ftp_other_protocol_probe = false;
  http_credentials_tried = [];
  http_paths_requested = [];
  http_user_agents = [];
  http_known_scanner_user_agent = false;
  http_command_injection_attempt = false;
  http_path_traversal_attempt = false;
  http_proxy_request = false;
  http_probe_targets = [];
  http_auth_schemes = [];
  remote_fetch_and_run_attempt = false;
  authorized_keys_write_attempt = false;
  system_binary_read_attempt = false;
  login_check_only = false;
  connection_count_from_same_ip = none;
}

abbrev guesses : ClassificationRule
guesses = record {
  id = "guesses";
  name = "Password guesses";
  actor_label = brute_force_bot;
  confidence = 70;
  risk_score = 55;
  mitre_tags = "T1110" ∷ [];
  evidence = [];
  conditions =
      record { field = "auth_attempt_count"; operator = gte; value = number (whole 3) } ∷ [];
}

abbrev robot : ClassificationRule
robot = record {
  id = "robot";
  name = "Even timing";
  actor_label = automated_scanner;
  confidence = 90;
  risk_score = 20;
  mitre_tags = [];
  evidence = [];
  conditions =
      record { field = "command_names"; operator = contains; value = text (codes "uname") }
      ∷ record { field = "human_timing_score"; operator = lt; value = number (whole 1) }
      ∷ [];
}

abbrev two_rules : RuleSet
two_rules = record { rules_version = "test"; rules = robot ∷ guesses ∷ [] }

abbrev found : RuleEvaluation
found = record { rules_version = "test"; matched_rules = match_of guesses ∷ [] }

-- A timing score that was not measured meets no bound, so only the guesses count.
evaluate_two_rules : evaluate_rules scan two_rules ≡ ok found
unfolding evaluate_rules evaluate_from all_match condition_matches get_field apply_operator
    contained value_eq order
evaluate_two_rules = refl

settles : AllSettle scan two_rules.rules
unfolding condition_matches get_field apply_operator contained value_eq order
settles = (((true, refl), ((false, refl), tt)), (((true, refl), tt), tt))

two_rules_valid : is_valid_rule_set two_rules ≡ true
unfolding is_valid_rule_set
two_rules_valid = refl

evaluate_rules_filters_example :
    evaluate_rules scan two_rules
    ≡ ok (record {
      rules_version = "test";
      matched_rules = map match_of (keep (applies scan) two_rules.rules);
    })
evaluate_rules_filters_example = evaluate_rules_filters scan two_rules settles

best_match-Picks_example :
    ((best_match found ≡ none) × (found.matched_rules ≡ []))
    ⊎ ((b : RuleMatch) × (best_match found ≡ some b) × Picks b found.matched_rules)
best_match-Picks_example = best_match-Picks found

-- Two lists are ordered by their first difference.
lists_ordered :
    apply_operator "mitre_tags" lt
      (items (cons (number (whole 1)) (cons (number (whole 2)) nil)))
      (items (cons (number (whole 1)) (cons (number (whole 3)) nil)))
    ≡ ok true
unfolding apply_operator order value_eq
lists_ordered = refl
