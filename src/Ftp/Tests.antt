-- ===== src/Ftp/Tests.antt =====
-- The FTP login at concrete scripts.
use echidra_oss.Python.Utf8.{decode_ignore, put_bytes}
use echidra_oss.Base.{◌≤◌, List, [], ◌∷◌, none, some, false, ◌≡◌, refl, sym, true, length, All}
use echidra_oss.Base.Text.{codes, is_space}
use echidra_oss.Features.Extract.{extract_session_features}
use echidra_oss.Ftp.{
  handle, describe_first_message, rdp_cookie, printable_prefix, hex_prefix, dialogue, send,
  read_first_message, answer_username, decode_line, answer_user, read_command, answer_password,
}
use echidra_oss.Ftp.Bounds.{IsLine, handle_lines}
use echidra_oss.Ftp.Login.{tries, IsTried, handle_features}
use echidra_oss.Network.{Outcome, arrived, timed_out, reset, await_one, log_line}
use echidra_oss.Session.{SessionRecord, one_of, end_reasons}

rdp :
    describe_first_message (0x03 ∷ 0 ∷ 0 ∷ 0x13 ∷ codes "Cookie: mstshash=hello\r\n")
    ≡ codes "[RDP connection request] mstshash=hello"
unfolding describe_first_message rdp_cookie printable_prefix
rdp = refl

tls : describe_first_message (0x16 ∷ 0x03 ∷ 0x01 ∷ 0xa5 ∷ []) ≡ codes "[TLS handshake] 16 03 01 a5"
unfolding describe_first_message hex_prefix
tls = refl

abbrev late_handshake : List Outcome
late_handshake = arrived [] ∷ arrived (0x16 ∷ []) ∷ timed_out ∷ reset ∷ []

handle_lines_example :
    (one_of end_reasons (handle late_handshake).0 ≡ true)
    × (length (handle late_handshake).1.logged ≤ 2)
    × All IsLine (handle late_handshake).1.logged
handle_lines_example = handle_lines late_handshake

abbrev tried_record : SessionRecord
tried_record = record {
  schema_version = 1;
  session_id = "4fb5e8f4-0000-4000-8000-000000000000";
  protocol = "ftp";
  peer_ip = some "203.0.113.9";
  peer_port = some 40112;
  has_latitude = false;
  has_longitude = false;
  persona_id = "office";
  started_at = 0;
  ended_at = 9;
  duration_seconds = 9;
  end_reason = "disconnect";
  command_count = 2;
  commands =
      record { cmd = codes "USER Bob"; timestamp = 1 }
      ∷ record { cmd = codes "PASS S3"; timestamp = 2 }
      ∷ [];
  decoy_files_surfaced = [];
  client_version = none;
  end_stage = none;
  end_error = none;
}

user-IsTried : IsTried (codes "Bob")
user-IsTried = ((refl, (refl, (refl, tt))), (refl, (refl, (refl, tt))), refl)

password-IsTried : IsTried (codes "S3")
password-IsTried = ((refl, (refl, tt)), (refl, (refl, tt)), refl)

tries_logged :
    (handle (tries (codes "Bob") (codes "S3"))).1.logged ≡ codes "USER Bob" ∷ codes "PASS S3" ∷ []
unfolding handle dialogue send await_one read_first_message answer_username describe_first_message
    decode_line decode_ignore put_bytes answer_user log_line read_command answer_password is_space
tries_logged = refl

handle_features_example :
    ((handle (tries (codes "Bob") (codes "S3"))).0 ≡ "disconnect")
    × ((extract_session_features tried_record none).ftp_credentials_tried ≡ codes "bob:s3" ∷ [])
handle_features_example =
    handle_features (codes "Bob") (codes "S3") tried_record none user-IsTried password-IsTried refl
      (sym tries_logged)
