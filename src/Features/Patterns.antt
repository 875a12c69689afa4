-- ===== src/Features/Patterns.antt =====
-- classifier/features/session.py: the tables and the patterns of the extraction.
use echidra_oss.Base.{ℕ, String, List, [], ◌∷◌, Bool, ◌||◌, map, any, ◌==◌}
use echidra_oss.Base.Text.{Text, codes, text_eq, within, is_space}
use echidra_oss.Python.Regex.{
  Regex, class, either, many, ◌>>◌, char, none_of, no_neighbour, literal, one_literal_of, optional,
  some_of, is_digit, is_lower, is_alnum, one_of_chars, start_mark, one_of_regexes,
}

abbrev pub discovery_commands : List String
discovery_commands =
    "hostname" ∷ "id" ∷ "ls" ∷ "netstat" ∷ "ps" ∷ "pwd" ∷ "ss" ∷ "uname" ∷ "whoami" ∷ []

abbrev pub exit_commands : List String
exit_commands = "exit" ∷ "logout" ∷ "quit" ∷ []

abbrev pub sensitive_path_markers : List String
sensitive_path_markers =
    ".aws" ∷ ".env" ∷ ".git" ∷ ".htaccess" ∷ ".npmrc" ∷ "actuator/env" ∷ "appsettings" ∷ "auth.log"
    ∷ "backup" ∷ "config.json" ∷ "config.php" ∷ "credential" ∷ "docker-compose" ∷ "passwd"
    ∷ "secret" ∷ "shadow" ∷ "tfstate" ∷ "wp-config" ∷ []

-- `re.escape(marker) + r"s?(?![A-Za-z0-9])"`
abbrev pub marker_pattern : String → Regex
marker_pattern marker = literal marker >> optional (char b's') >> no_neighbour is_alnum

-- `_SENSITIVE_PATH_MARKER_PATTERN`
abbrev pub sensitive_path_marker_pattern : Regex
sensitive_path_marker_pattern = one_of_regexes (map marker_pattern sensitive_path_markers)

-- `_HTTP_REQUEST_COMMANDS`
abbrev pub http_request_commands : List String
http_request_commands = "get" ∷ "post" ∷ "head" ∷ "put" ∷ "delete" ∷ []

-- `_HTTP_CREDENTIAL_BODY_MARKERS`
abbrev pub http_credential_body_markers : List String
http_credential_body_markers =
    "pwd=" ∷ "psd=" ∷ "passwd=" ∷ "password=" ∷ "log=" ∷ "user=" ∷ "username=" ∷ []

-- `_HTTP_CREDENTIAL_BODY_PATTERN`
abbrev pub http_credential_body_pattern : Regex
http_credential_body_pattern = no_neighbour is_alnum >> one_literal_of http_credential_body_markers

-- `_HTTP_USERNAME_FIELD_NAMES`
abbrev pub http_username_field_names : List String
http_username_field_names = "log" ∷ "user" ∷ "username" ∷ "email" ∷ "uname" ∷ []

-- `_HTTP_PASSWORD_FIELD_NAMES`
abbrev pub http_password_field_names : List String
http_password_field_names = "pwd" ∷ "psd" ∷ "pass" ∷ "passwd" ∷ "password" ∷ []

-- `_SCANNER_USER_AGENT_MARKERS`
abbrev pub scanner_user_agent_markers : List String
scanner_user_agent_markers =
    "masscan" ∷ "nikto" ∷ "sqlmap" ∷ "nmap" ∷ "nuclei" ∷ "zgrab" ∷ "wpscan" ∷ "dirbuster"
    ∷ "gobuster" ∷ "acunetix" ∷ "nessus" ∷ []

-- `_SCANNER_USER_AGENT_PATTERN`
abbrev pub scanner_user_agent_pattern : Regex
scanner_user_agent_pattern = one_literal_of scanner_user_agent_markers

-- `_HTTP_METHODS`
abbrev pub http_methods : List String
http_methods =
    "get" ∷ "post" ∷ "head" ∷ "put" ∷ "delete" ∷ "connect" ∷ "options" ∷ "patch" ∷ "trace" ∷ []

-- `\s` and `\S`
abbrev pub space : Regex
space = class is_space

abbrev pub no_space : Regex
no_space = none_of is_space

-- `_HTTP_INJECTED_COMMAND_PATTERN`
abbrev pub http_injected_command_pattern : Regex
http_injected_command_pattern =
    either
      (class (one_of_chars (codes ";|&`(\n"))
        >> many space
        >> optional (literal "busybox" >> some_of space)
        >> one_literal_of ("wget" ∷ "curl" ∷ "tftp" ∷ "ftpget" ∷ [])
        >> space)
      (one_literal_of ("java.lang.runtime" ∷ "runtime.getruntime(" ∷ []))

abbrev pub climb : Regex
climb = literal ".." >> class (one_of_chars (codes "/\\"))

-- `_PATH_TRAVERSAL_PATTERN`: a search for two or more in a row.
abbrev pub path_traversal_pattern : Regex
path_traversal_pattern = climb >> climb >> many climb

-- `_HTTP_PROBE_TARGETS`
abbrev pub http_probe_targets : List (String × String)
http_probe_targets =
    ("/sdk/weblanguage", "hikvision_camera")
    ∷ ("/geoserver", "geoserver")
    ∷ ("/mcp", "mcp_server")
    ∷ ("/api/mcp", "mcp_server")
    ∷ ("/sse", "mcp_server")
    ∷ ("/v1/models", "ai_model_api")
    ∷ ("/api/tags", "ai_model_api")
    ∷ ("/wsman", "winrm")
    ∷ []

abbrev pub lower_letter : Regex
lower_letter = class is_lower

-- `[a-z]{3,7}`
abbrev pub three_to_seven_letters : Regex
three_to_seven_letters =
    lower_letter
    >> lower_letter
    >> lower_letter
    >> optional lower_letter
    >> optional lower_letter
    >> optional lower_letter
    >> optional lower_letter

-- `_FTP_OTHER_PROTOCOL_PATTERN`
abbrev pub ftp_other_protocol_pattern : Regex
ftp_other_protocol_pattern =
    either
      (char start_mark
        >> one_of_regexes (
            (three_to_seven_letters
              >> char 32
              >> some_of no_space
              >> literal " http/"
              >> class is_digit)
            ∷ (literal "ssh-" >> class is_digit)
            ∷ literal "[tls handshake]"
            ∷ literal "[rdp connection request]"
            ∷ []))
      (literal "mstshash=")

-- `[A-Za-z0-9_-]`
abbrev pub is_word_or_dash : ℕ → Bool
is_word_or_dash c = is_alnum c || c == b'_' || c == b'-'

-- `_REMOTE_FETCH_PATTERN`
abbrev pub remote_fetch_pattern : Regex
remote_fetch_pattern =
    no_neighbour is_word_or_dash
    >> one_literal_of ("wget" ∷ "curl" ∷ "tftp" ∷ "scp" ∷ "ftpget" ∷ [])
    >> space

abbrev pub is_octal : ℕ → Bool
is_octal c = within b'0' b'7' c

abbrev pub is_odd_octal : ℕ → Bool
is_odd_octal c = one_of_chars (codes "1357") c

-- `[0-7]{0,3}`
abbrev pub up_to_three_octals : Regex
up_to_three_octals =
    optional (class is_octal) >> optional (class is_octal) >> optional (class is_octal)

-- `\w`
abbrev pub is_word : ℕ → Bool
is_word c = is_alnum c || c == b'_'

-- `_RUN_FETCHED_PATTERN`
abbrev pub run_fetched_pattern : Regex
run_fetched_pattern =
    either
      (char b'|'
        >> many space
        >> optional (one_literal_of ("ba" ∷ "da" ∷ "z" ∷ "k" ∷ []))
        >> literal "sh"
        >> no_neighbour is_word)
      (literal "chmod"
        >> some_of space
        >> either
            (many (class (one_of_chars (codes "ugoa")))
              >> char b'+'
              >> many (class (one_of_chars (codes "rwxst")))
              >> char b'x')
            (up_to_three_octals
              >> class is_odd_octal
              >> up_to_three_octals
              >> no_neighbour is_octal))

abbrev pub quote_mark : Regex
quote_mark = class (one_of_chars (codes "'\""))

-- `['\"]?[^\s'\"|;&<>]*authorized_keys2?(?![\w.-])`
abbrev pub authorized_keys_path : Regex
authorized_keys_path =
    optional quote_mark
    >> many (none_of (λ c. is_space c || one_of_chars (codes "'\"|;&<>") c))
    >> literal "authorized_keys"
    >> optional (char b'2')
    >> no_neighbour (λ c. is_word c || one_of_chars (codes ".-") c)

-- `(?:-\S+\s+)*`
abbrev pub dash_options : Regex
dash_options = many (char b'-' >> some_of no_space >> some_of space)

-- `_AUTHORIZED_KEYS_WRITE_PATTERN`
abbrev pub authorized_keys_write_pattern : Regex
authorized_keys_write_pattern = either (char b'>' >> many space >> authorized_keys_path) (
    no_neighbour is_word_or_dash
    >> literal "tee"
    >> some_of space
    >> dash_options
    >> authorized_keys_path)

-- `_SYSTEM_BINARY_READ_PATTERN`
abbrev pub system_binary_read_pattern : Regex
system_binary_read_pattern =
    no_neighbour (λ c. is_word_or_dash c || c == b'.')
    >> literal "cat"
    >> some_of space
    >> dash_options
    >> optional quote_mark
    >> char b'/'
    >> optional (literal "usr/")
    >> optional (char b's')
    >> literal "bin/"
    >> some_of (class (λ c. is_lower c || is_digit c || one_of_chars (codes "_.+-") c))
    >> no_neighbour (λ c. is_word c || one_of_chars (codes "./-") c)

-- `_NOT_A_PLAIN_ECHO_PATTERN`
abbrev pub not_a_plain_echo_pattern : Regex
not_a_plain_echo_pattern = either (class (one_of_chars (codes "|;&<>`"))) (literal "$(")

-- `_ECHO_COMMAND_NAMES`
abbrev pub echo_command_names : List String
echo_command_names = "echo" ∷ "/bin/echo" ∷ "/usr/bin/echo" ∷ []

-- Membership of a text in one of these tables.
abbrev pub is_in : List String → Text → Bool
is_in names s = any (λ name. text_eq s (codes name)) names
