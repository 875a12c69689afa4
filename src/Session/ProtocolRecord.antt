-- ===== src/Session/ProtocolRecord.antt =====
-- A protocol session gives records that the classifier accepts.
use echidra_oss.Base.Text.{Text}
use echidra_oss.Base.{
  nonempty, ℕ, ◌-◌, ◌≤◌, String, List, [], ◌∷◌, Bool, true, false, none, some, ◌≡◌, refl, arith,
  all, length, Bool-cases, inl, inr,
}
use echidra_oss.Session.{
  peer_ip_of, peer_port_of, SessionRecord, Peer, one_of, end_reasons, protocols, commands_fit,
  are_distinct, has_text, is_consistent, is_accepted,
}
use echidra_oss.Session.Protocol.{ProtocolSession, open_session, log_command, finalize, to_record}
use echidra_oss.Session.Accepted.{
  Rises, IsIdentified, commands_fit-append, commands_fit-later, all-append, is_consistent_parts,
}

-- The lines that a handler logs, each at its time.
abbrev pub log_lines : List (ℕ × Text) → ProtocolSession → ProtocolSession
log_lines [] s = s
log_lines ((now, cmd) ∷ lines) s = log_lines lines (log_command now cmd s)

-- An active session whose data pass the checks at a time.
record IsSound (is_ip is_uuid : String → Bool) (now : ℕ) (s : ProtocolSession) : Type 0 where
  identified : IsIdentified is_ip is_uuid s.session_id s.peer s.persona_id none none none
  known : one_of protocols s.protocol ≡ true
  begun : s.start_time ≤ now
  active : s.end_time ≡ none
  fits : commands_fit s.start_time now none s.commands ≡ true
  texts : all has_text s.commands ≡ true

module _ (is_ip is_uuid : String → Bool) where
  later-IsSound :
      (now time : ℕ) (s : ProtocolSession)
      → now ≤ time
      → IsSound is_ip is_uuid now s
      → IsSound is_ip is_uuid time s
  later-IsSound now time s h g = record {
    identified = g.identified;
    known = g.known;
    begun = omega (arith, g.begun);
    active = g.active;
    fits = commands_fit-later s.start_time now time none s.commands h g.fits;
    texts = g.texts;
  }

  log_command-IsSound :
      (now time : ℕ) (cmd : Text) (s : ProtocolSession)
      → now ≤ time
      → IsSound is_ip is_uuid now s
      → IsSound is_ip is_uuid time (log_command time cmd s)
  unfolding log_command
  log_command-IsSound now time cmd s h g = elim (Bool-cases (nonempty cmd)) [
    | inr e ↦ rw e (later-IsSound now time s h g)
    | inl e ↦ rw e (record {
      identified = g.identified;
      known = g.known;
      begun = omega (arith, g.begun);
      active = g.active;
      fits = commands_fit-append s.start_time now time none s.commands cmd g.begun h refl g.fits;
      texts = all-append has_text s.commands (record { cmd = cmd; timestamp = time }) g.texts e;
    })
  ]

  log_lines-IsSound :
      (now last : ℕ) (lines : List (ℕ × Text)) (s : ProtocolSession)
      → Rises now lines last
      → IsSound is_ip is_uuid now s
      → IsSound is_ip is_uuid last (log_lines lines s)
  log_lines-IsSound now last [] s h g = later-IsSound now last s h g
  log_lines-IsSound now last ((time, cmd) ∷ lines) s (h, rest) g =
      log_lines-IsSound time last lines (log_command time cmd s) rest
        (log_command-IsSound now time cmd s h g)

  no_commands : (start : ℕ) → commands_fit start start none [] ≡ true
  unfolding commands_fit
  no_commands start = refl

  to_record_accepted :
      (now : ℕ) (reason : String) (s : ProtocolSession)
      → one_of end_reasons reason ≡ true
      → IsSound is_ip is_uuid now s
      → (r : SessionRecord) × (to_record (finalize now reason s) ≡ some r)
        × (is_accepted is_ip is_uuid r ≡ true)
  unfolding finalize to_record is_accepted is_consistent are_distinct
  to_record_accepted now reason s h g = (
    record {
      schema_version = 1;
      session_id = s.session_id;
      protocol = s.protocol;
      peer_ip = peer_ip_of s.peer;
      peer_port = peer_port_of s.peer;
      has_latitude = false;
      has_longitude = false;
      persona_id = s.persona_id;
      started_at = s.start_time;
      ended_at = now;
      duration_seconds = now - s.start_time;
      end_reason = reason;
      command_count = length s.commands;
      commands = s.commands;
      decoy_files_surfaced = [];
      client_version = none;
      end_stage = none;
      end_error = none;
    },
    rw g.active refl,
    rw
        (
          g.identified.session, g.known, g.identified.ip, g.identified.port, g.identified.persona,
          h, g.texts,
        )
        (is_consistent_parts s.start_time now (length s.commands) s.commands [] g.begun g.fits refl
          refl refl),
  )

  -- Whatever lines a Telnet, FTP or HTTP handler logs, empty ones included, at times that do not
  -- fall, the record of the session finalized with one of the known reasons is made and is
  -- accepted.
  pub protocol_record_accepted :
      (session_id : String) (peer : Peer) (protocol persona_id reason : String) (start last : ℕ)
      (lines : List (ℕ × Text))
      → IsIdentified is_ip is_uuid session_id peer persona_id none none none
      → one_of protocols protocol ≡ true
      → one_of end_reasons reason ≡ true
      → Rises start lines last
      → (r : SessionRecord) × (to_record (
            finalize last reason
              (log_lines lines (open_session session_id start peer protocol persona_id)))
          ≡ some r)
        × (is_accepted is_ip is_uuid r ≡ true)
  protocol_record_accepted session_id peer protocol persona_id reason start last lines h p k rises =
      to_record_accepted last reason _ k (
        log_lines-IsSound start last lines (open_session session_id start peer protocol persona_id)
          rises
          (record {
            identified = h;
            known = p;
            begun = omega arith;
            active = refl;
            fits = no_commands start;
            texts = refl;
          }))
