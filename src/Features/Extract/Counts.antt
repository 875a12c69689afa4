-- ===== src/Features/Extract/Counts.antt =====
-- The counts of commands in the features fit together.
use echidra_oss.Base.{
  ℕ, suc, ◌+◌, ◌≤◌, String, List, [], ◌∷◌, Bool, true, ◌≡◌, refl, ap, ◌∙◌, arith, length,
  length-append, if_either, ==_iff, Option,
}
use echidra_oss.Base.Text.{Text}
use echidra_oss.Features.{SessionFeatures}
use echidra_oss.Features.State.{Line, Extraction, nothing_seen, line_of, count_if}
use echidra_oss.Features.Events.{
  note_name, note_credentials, note_http, note_command, note_counts, note_line, note_event,
  note_all,
}
use echidra_oss.Features.Events.Steps.{Counts, counts, note_http-besides, note_credentials-besides}
use echidra_oss.Features.Extract.{distinct_count, extract_session_features}
use echidra_oss.Session.{CommandEvent, SessionRecord, is_consistent}

count_if-le : (b : Bool) (n m : ℕ) → n ≤ m → count_if b n ≤ suc m
count_if-le b n m h = ground arith

count_if-le_suc : (b : Bool) (n before m : ℕ) → n ≡ before → before ≤ m → count_if b n ≤ m + 1
count_if-le_suc b n before m e h = ground arith

-- No count is above the number of names.
abbrev IsWithin : Counts → Type 0
IsWithin c =
    (c.discovery_command_count ≤ length c.command_names)
    × (c.file_read_count ≤ length c.command_names)
    × (c.sensitive_file_read_count ≤ length c.command_names)

note_command-counts : (l : Line) (e : Extraction) → counts (note_command l e) ≡ counts e
unfolding note_command
note_command-counts l e = if_either (λ z. counts z ≡ counts e) _ e _ refl refl

-- The counts of the variables before the last part of the body.
before_counts :
    (protocol : String) (l : Line) (e : Extraction)
    → counts (note_command l (note_http protocol l (note_credentials protocol l (note_name l e))))
      ≡ counts (note_name l e)
before_counts protocol l e =
    note_command-counts l _
    ∙ ap (λ p. p.0) (note_http-besides protocol l _)
    ∙ ap (λ p. p.0) (note_credentials-besides protocol l (note_name l e))

note_counts-IsWithin :
    (protocol : String) (l : Line) (before e : Extraction)
    → counts e ≡ counts (note_name l before)
    → IsWithin (counts before)
    → IsWithin (counts (note_counts protocol l e))
      × (length (note_counts protocol l e).command_names ≡ suc (length before.command_names))
unfolding note_counts
note_counts-IsWithin protocol l before e same (h, k, m) =
    let names =
      ap (λ (c : Counts). length c.command_names) same
      ∙ length-append before.command_names (l.command_name ∷ []) in
    rw names (
      (
        count_if-le_suc _ _ _ _ (ap (λ (c : Counts). c.discovery_command_count) same) h,
        count_if-le_suc _ _ _ _ (ap (λ (c : Counts). c.file_read_count) same) k,
        count_if-le_suc _ _ _ _ (ap (λ (c : Counts). c.sensitive_file_read_count) same) m,
      ),
      omega arith,
    )

note_event-IsWithin :
    (protocol : String) (event : CommandEvent) (e : Extraction)
    → IsWithin (counts e)
    → IsWithin (counts (note_event protocol event e))
      × (length (note_event protocol event e).command_names ≡ suc (length e.command_names))
unfolding note_event note_line
note_event-IsWithin protocol event e h =
    let l = line_of event.cmd in note_counts-IsWithin protocol l e _ (before_counts protocol l e) h

note_all-IsWithin :
    (protocol : String) (events : List CommandEvent) (e : Extraction)
    → IsWithin (counts e)
    → IsWithin (counts (note_all protocol events e))
      × (length (note_all protocol events e).command_names ≡ length events + length e.command_names)
unfolding note_all
note_all-IsWithin protocol [] e h = (h, omega arith)
note_all-IsWithin protocol (event ∷ events) e h =
    let step = note_event-IsWithin protocol event e h in
    let rest = note_all-IsWithin protocol events (note_event protocol event e) step.0 in
    (rest.0, omega (arith, rest.1, step.1))

distinct_count-le : (names : List Text) → distinct_count names ≤ length names
unfolding distinct_count
distinct_count-le [] = omega arith
distinct_count-le (name ∷ names) = count_if-le _ _ _ (distinct_count-le names)

-- The counts of the features against the number of commands.
abbrev pub AreCountsOf : SessionFeatures → ℕ → Type 0
AreCountsOf f n =
    (f.command_count ≡ n)
    × (length f.command_names ≡ n)
    × (f.unique_command_count + f.repeated_command_count ≡ n)
    × (f.discovery_command_count ≤ n)
    × (f.file_read_count ≤ n)
    × (f.sensitive_file_read_count ≤ n)

command_count-length :
    (r : SessionRecord) → is_consistent r ≡ true → r.command_count ≡ length r.commands
unfolding is_consistent
command_count-length r h = ground (arith, ==_iff r.command_count (length r.commands))

names_count :
    (r : SessionRecord)
    → length (note_all r.protocol r.commands nothing_seen).command_names ≡ length r.commands + 0
    → length (note_all r.protocol r.commands nothing_seen).command_names ≡ length r.commands
names_count r h = omega (arith, h)

-- In the features of a consistent record there are as many command names as commands, the commands
-- are the distinct ones and the repeated ones, and none of the counts of discovery commands, of
-- files read and of sensitive files read is above the number of commands.
pub extract_session_features-AreCountsOf :
    (r : SessionRecord) (connection_count : Option ℕ)
    → is_consistent r ≡ true
    → AreCountsOf (extract_session_features r connection_count) (length r.commands)
unfolding extract_session_features
extract_session_features-AreCountsOf r connection_count h =
    let same = command_count-length r h in
    let all =
      note_all-IsWithin r.protocol r.commands nothing_seen
        (omega arith, omega arith, omega arith) in
    let names = names_count r all.1 in
    let distinct = distinct_count-le (note_all r.protocol r.commands nothing_seen).command_names in
    (
      same,
      names,
      omega (arith, same, names, distinct),
      omega (arith, all.0.0, names),
      omega (arith, all.0.1, names),
      omega (arith, all.0.2, names),
    )
