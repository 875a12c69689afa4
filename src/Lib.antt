-- ===== src/Lib.antt =====
-- EchidraOSS, a honeypot that records what its visitors do, classifies each session by rules and
-- alerts the operator.
--
-- The parts and how they meet. A protocol handler of honeypot/network talks to a visitor and logs the
-- lines in a session; the finished session becomes a record, which classifier/schemas checks. From
-- the record the classifier measures features, evaluates the rules on them and sums the matches up in
-- a summary, which decides whether an alert is due; alerts are grouped so that a source gets one
-- message in a window. A session that cannot be stored waits in a file until the catch-up.
--
--   Base       tests, lists, dictionaries, sorting, rounding, quotients and texts that all share.
--   Python     what the source uses of Python's library: regular expressions (re), shlex, UTF-8,
--              percent decoding and queries (urllib.parse), base64.
--   Features   classifier/features/session.py: SessionFeatures; Features.Patterns the tables and
--              patterns, Features.Requests the helpers for one line, Features.Timing the pace,
--              Features.State the variables of the loop, Features.Events its body and
--              Features.Extract extract_session_features.
--   Rules      classifier/rules/engine.py: ActorLabel, RuleMatch; Rules.Value the values of Python
--              that a condition compares, Rules.Fields the features by name, Rules.Evaluate the
--              conditions, the validation of rulesets and evaluate_rules.
--   Scoring    classifier/scoring/session.py: Scoring.Risk (_combined_risk_score, _risk_level),
--              Scoring.Vote (_actor_vote), Scoring.Status, Scoring.Tags (_tags_by_seriousness),
--              Scoring.Stage (_behavior_stage_and_intent), Scoring.Advice (the actions) and
--              Scoring.Summary (summarize_rule_evaluation).
--   Alerts     classifier/alerts.py: _alert_decision and _send_follow_up on the state of the module's
--              dictionaries, with what comes of a follow-up's dispatch as an argument; Alerts.Targets
--              holds _alert_targets and _dispatch_alerts.
--   Session    classifier/schemas/session.py, with Session.Protocol for
--              honeypot/network/protocol_session.py and Session.Shell for honeypot/core/session.py.
--   Network    the connection that a handler reads from, sends to and logs for; a read(n) brings n
--              bytes at most, and the script has the rest where a later read brings it.
--   Ftp        honeypot/network/ftp_handler.py, with the lines that _describe_first_message makes.
--   Passwords  classifier/passwords.py; the derivation of a key (hashlib.pbkdf2_hmac) is an argument.
--   Shell      of honeypot/core/engine.py: Shell.Split (_split_unquoted) and Shell.Redirects
--              (_split_redirects).
--   Telnet     honeypot/network/telnet_handler.py: Telnet.Line the bytes, Telnet.Login the dialogue.
--   CatchUp    classifier/catch_up.py, its files as lines some of which splitlines tears, with
--              CatchUp.Import for import_session_log.
--   SessionLog honeypot/logging/session_logger.py: finalize_and_schedule, _report_log_failure.
--   Server     honeypot/network/protocol_server.py: _handle_client, as steps of a server.
-- The other modules below these hold proofs; each part has its runs and examples in its Tests.
--
-- State is passed on explicitly: a method that changes an object is a function from the old record to
-- the new one. Clocks, fresh identifiers, settings of the environment, the mail server, Slack, the
-- repository and the tests of the schema library are arguments. Where a call can end in several ways
-- (an await of a connection, a call of the repository), a list of outcomes says what each call brings.
--
-- Numbers. Confidences are literals of whole hundredths; votes are doubles, added and divided as
-- IEEE 754 says (Base.Float). Weighted risk scores are exact where the source adds floats, so a tie
-- of a rounding can fall otherwise there; rounding is to the nearest, ties to even. Measured times
-- and rates are exact quotients; times of alerts are whole seconds, those of records whole
-- microseconds. Texts are valid Unicode, but for the commands of a shell session before log_command
-- has made them visible; upper and lower case is that of ASCII, as are the word characters and
-- digits of patterns, but for the digits of a password's format; white space is that of Unicode.
--
-- Bounds. All loops are structural; only the length of a double is found on fuel of 2,200, which is
-- more than the bits that doubles have (Base.Float.excess_enough). The limits of the source are
-- kept as its constants: 10,000 tracked sessions, a pruning each 60 seconds, five login attempts,
-- batches of 500 sessions.
--
-- Not modelled. The rest of the shell, the HTTP and SSH handlers, threads and queues, SQL, the web
-- API, the dashboard, command line tools, files and the wording of messages.
pub mod Base
pub mod Rules
pub mod Features
pub mod Scoring
pub mod Alerts
pub mod Session
pub mod Telnet
pub mod Ftp
pub mod Passwords
pub mod Shell
pub mod Network
pub mod Python
pub mod CatchUp
pub mod Server
pub mod SessionLog
