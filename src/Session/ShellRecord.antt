-- ===== src/Session/ShellRecord.antt =====
-- A shell session gives records that the classifier accepts, while it runs and when it has ended.
use echidra_oss.Python.Utf8.Visible.{IsUnicode, to_visible-IsUnicode, nonempty-to_visible}
use echidra_oss.Python.Utf8.Escapes.{to_visible}
use echidra_oss.Base.Text.{Text}
use echidra_oss.Base.{
  nonempty, ℕ, ◌≤◌, String, List, [], ◌∷◌, Bool, true, none, some, ◌≡◌, refl, arith, all, length,
  length-append, Bool-cases, inl, inr, All, All-append, Option,
}
use echidra_oss.Session.{
  Peer, SessionRecord, one_of, end_reasons, commands_fit, are_distinct, is_safe_path, has_text,
  is_consistent, is_accepted, CommandEvent,
}
use echidra_oss.Session.Shell.{
  open_state, SessionState, log_command, record_decoy_file_surfaced, finalize, active_record,
  to_record,
}
use echidra_oss.Session.Accepted.{
  Rises, IsIdentified, is_consistent_parts, commands_fit-append, commands_fit-later, all-append,
  are_distinct-append,
}

-- What happens to a shell session before it ends.
pub data Activity : Type 0 where
  logs : Text → Activity
  surfaces : String → Activity

abbrev pub act : ℕ × Activity → SessionState → SessionState
act (now, logs cmd) s = log_command now cmd s
act (now, surfaces path) s = record_decoy_file_surfaced path s

abbrev pub run : List (ℕ × Activity) → SessionState → SessionState
run [] s = s
run (e ∷ es) s = run es (act e s)

-- A command that has a text, or a path that is safe.
abbrev pub is_legal : ℕ × Activity → Bool
is_legal (now, logs cmd) = nonempty cmd
is_legal (now, surfaces path) = is_safe_path path

-- A session's state as it is opened, with what its transport has noted of the client: the version,
-- and the stage and the error at which the connection ended.
abbrev pub shell_of :
    String → ℕ → Peer → String → Option String → Option String → Option String → SessionState
shell_of session_id start peer persona_id version stage error =
    record (open_state session_id start peer persona_id) {
      client_version = version;
      end_stage = stage;
      end_error = error;
    }

-- The text of every command is valid Unicode.
abbrev pub HasUnicode : SessionRecord → Type 0
HasUnicode r = All (λ (c : CommandEvent). IsUnicode c.cmd) r.commands

module _ (is_ip is_uuid : String → Bool) where
  -- An active session whose data pass the checks at a time.
  record IsSound (now : ℕ) (s : SessionState) : Type 0 where
    identified :
        IsIdentified is_ip is_uuid s.session_id s.peer s.persona_id s.client_version s.end_stage
          s.end_error
    begun : s.start_time ≤ now
    active : s.end_time ≡ none
    fits : commands_fit s.start_time now none s.commands ≡ true
    texts : all has_text s.commands ≡ true
    unicode : All (λ c. IsUnicode c.cmd) s.commands
    counted : s.command_count ≡ length s.commands
    distinct : are_distinct s.decoy_files_surfaced ≡ true
    safe : all is_safe_path s.decoy_files_surfaced ≡ true

  log_command-IsSound :
      (now time : ℕ) (cmd : Text) (s : SessionState)
      → now ≤ time
      → nonempty cmd ≡ true
      → IsSound now s
      → IsSound time (log_command time cmd s)
  unfolding log_command
  log_command-IsSound now time cmd s h k g = record {
    identified = g.identified;
    begun = omega (arith, g.begun);
    active = g.active;
    fits =
        commands_fit-append s.start_time now time none s.commands (to_visible cmd) g.begun h refl
          g.fits;
    texts = all-append has_text s.commands _ g.texts (nonempty-to_visible cmd k);
    unicode =
        All-append (λ (c : CommandEvent). IsUnicode c.cmd) s.commands _ g.unicode
          (to_visible-IsUnicode cmd, tt);
    counted = omega (
      arith,
      length-append s.commands (record { cmd = to_visible cmd; timestamp = time } ∷ []),
      g.counted,
    );
    distinct = g.distinct;
    safe = g.safe;
  }

  later-IsSound : (now time : ℕ) (s : SessionState) → now ≤ time → IsSound now s → IsSound time s
  later-IsSound now time s h g = record {
    identified = g.identified;
    begun = omega (arith, g.begun);
    active = g.active;
    texts = g.texts;
    unicode = g.unicode;
    counted = g.counted;
    distinct = g.distinct;
    safe = g.safe;
    fits = commands_fit-later s.start_time now time none s.commands h g.fits;
  }

  surface-IsSound :
      (now : ℕ) (path : String) (s : SessionState)
      → is_safe_path path ≡ true
      → IsSound now s
      → IsSound now (record_decoy_file_surfaced path s)
  unfolding record_decoy_file_surfaced
  surface-IsSound now path s h g = elim (Bool-cases (one_of s.decoy_files_surfaced path)) [
    | inl e ↦ rw e g
    | inr e ↦ rw e (record {
      identified = g.identified;
      begun = g.begun;
      active = g.active;
      fits = g.fits;
      texts = g.texts;
      unicode = g.unicode;
      counted = g.counted;
      distinct = are_distinct-append s.decoy_files_surfaced path g.distinct e;
      safe = all-append is_safe_path s.decoy_files_surfaced path g.safe h;
    })
  ]

  run-IsSound :
      (now last : ℕ) (events : List (ℕ × Activity)) (s : SessionState)
      → Rises now events last
      → all is_legal events ≡ true
      → IsSound now s
      → IsSound last (run events s)
  run-IsSound now last [] s h k g = later-IsSound now last s h g
  run-IsSound now last ((time, logs cmd) ∷ events) s (h, rest) k g =
      run-IsSound time last events (log_command time cmd s) rest (ground arith)
        (log_command-IsSound now time cmd s h (ground arith) g)
  run-IsSound now last ((time, surfaces path) ∷ events) s (h, rest) k g =
      run-IsSound time last events (record_decoy_file_surfaced path s) rest (ground arith)
        (surface-IsSound time path s (ground arith) (later-IsSound now time s h g))

  consistent_at :
      (now : ℕ) (s : SessionState) → IsSound now s → is_consistent (active_record now s) ≡ true
  unfolding active_record is_consistent
  consistent_at now s g =
      is_consistent_parts s.start_time now s.command_count s.commands s.decoy_files_surfaced g.begun
        g.fits g.counted g.distinct g.safe

  active_record_accepted :
      (now : ℕ) (s : SessionState)
      → IsSound now s
      → is_accepted is_ip is_uuid (active_record now s) ≡ true
  unfolding active_record is_accepted is_consistent
  active_record_accepted now s g =
      rw (g.identified.session, g.identified.ip, g.identified.port, g.identified.persona, g.texts)
        (consistent_at now s g)

  to_record_accepted :
      (now : ℕ) (reason : String) (s : SessionState)
      → one_of end_reasons reason ≡ true
      → IsSound now s
      → (r : SessionRecord) × (to_record (finalize now reason s) ≡ some r)
        × (is_accepted is_ip is_uuid r ≡ true)
        × HasUnicode r
  unfolding finalize to_record active_record is_accepted is_consistent
  to_record_accepted now reason s h g = (
    record (active_record now s) {
      end_reason = reason;
      client_version = s.client_version;
      end_stage = s.end_stage;
      end_error = s.end_error;
    },
    rw g.active refl,
    rw
        (
          g.identified.session, g.identified.ip, g.identified.port, g.identified.persona, h,
          g.texts, g.identified.version, g.identified.stage, g.identified.error,
        )
        (consistent_at now s g),
    g.unicode,
  )

  no_commands : (start : ℕ) → commands_fit start start none [] ≡ true
  unfolding commands_fit
  no_commands start = refl

  no_decoys : are_distinct [] ≡ true
  unfolding are_distinct
  no_decoys = refl

  active_record-unicode :
      (now : ℕ) (s : SessionState) → IsSound now s → HasUnicode (active_record now s)
  unfolding active_record
  active_record-unicode now s g = g.unicode

  -- Whatever commands with a text and safe decoy paths a shell session records, at times that do
  -- not fall, and whatever its transport has noted of the client within the schema's limits, its
  -- record is accepted at every later time: the record for live classification while it runs, and
  -- the final one after it is finalized with one of the known reasons; and the text of every
  -- command in them is valid Unicode, also where bytes of the visitor were not.
  pub shell_records_accepted :
      (session_id : String) (peer : Peer) (persona_id reason : String)
      (version stage error : Option String) (start last : ℕ) (events : List (ℕ × Activity))
      → IsIdentified is_ip is_uuid session_id peer persona_id version stage error
      → one_of end_reasons reason ≡ true
      → Rises start events last
      → all is_legal events ≡ true
      → ((is_accepted is_ip is_uuid (
              active_record last
                (run events (shell_of session_id start peer persona_id version stage error)))
            ≡ true)
          × HasUnicode (
              active_record last
                (run events (shell_of session_id start peer persona_id version stage error))))
        × ((r : SessionRecord) × (to_record (
                finalize last reason
                  (run events (shell_of session_id start peer persona_id version stage error)))
              ≡ some r)
            × (is_accepted is_ip is_uuid r ≡ true)
            × HasUnicode r)
  shell_records_accepted session_id peer persona_id reason version stage error start last events h k
        rises legal =
      let sound =
        run-IsSound start last events
          (shell_of session_id start peer persona_id version stage error) rises legal
          (record {
            identified = h;
            begun = omega arith;
            active = refl;
            fits = no_commands start;
            texts = refl;
            unicode = tt;
            counted = refl;
            distinct = no_decoys;
            safe = refl;
          }) in
      let state = run events (shell_of session_id start peer persona_id version stage error) in
      (
        (active_record_accepted last state sound, active_record-unicode last state sound),
        to_record_accepted last reason state k sound,
      )
