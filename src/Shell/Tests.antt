-- ===== src/Shell/Tests.antt =====
-- Lines of input taken apart.
use echidra_oss.Shell.Quiet.{split_redirects_quiet}
use echidra_oss.Python.Shlex.{shlex_split, read_all}
use echidra_oss.Shell.Redirects.{split_redirects, redirects_from, target_length, last_word, joined}
use echidra_oss.Base.{List, [], ◌∷◌, ◌≡◌, refl, All, some, none, true, false}
use echidra_oss.Base.Text.{Text, codes, is_space}
use echidra_oss.Shell.Joined.{Joint, and_then, or_else, always, IsPart, split_unquoted-join}
use echidra_oss.Shell.Split.{parts, bad, split_unquoted, list_separators, split_from}

pipeline :
    split_unquoted (codes "cat x | wc -l") (codes "|" ∷ [])
    ≡ parts (([], codes "cat x") ∷ (codes "|", codes "wc -l") ∷ [])
unfolding split_unquoted split_from is_space
pipeline = refl

nothing_before : split_unquoted (codes "ls && ; id") list_separators ≡ bad (codes ";")
unfolding split_unquoted split_from is_space
nothing_before = refl

abbrev later_parts : List (Joint × Text)
later_parts =
    (and_then, codes " echo \"a;b\" ") ∷ (always, codes " rm x\\;y") ∷ (or_else, codes "exit") ∷ []

first-IsPart : IsPart (codes "cd /tmp")
unfolding is_space
first-IsPart = (refl, refl)

later-IsPart : All (λ p. IsPart p.1) later_parts
unfolding is_space
later-IsPart = ((refl, refl), ((refl, refl), ((refl, refl), tt)))

split_unquoted-join_example :
    split_unquoted (codes "cd /tmp&& echo \"a;b\" ; rm x\\;y||exit") list_separators
    ≡ parts (
        ([], codes "cd /tmp")
        ∷ (codes "&&", codes "echo \"a;b\"")
        ∷ (codes ";", codes "rm x\\;y")
        ∷ (codes "||", codes "exit")
        ∷ [])
unfolding is_space
split_unquoted-join_example =
    split_unquoted-join (codes "cd /tmp") later_parts first-IsPart later-IsPart

both_streams :
    split_redirects (codes "wget x >/dev/null 2>&1")
    ≡ some (
      codes "wget x",
      record { stream = codes "1"; append = false; target = codes "/dev/null" }
          ∷ record { stream = codes "2"; append = false; target = codes "&1" }
          ∷ [],
    )
unfolding split_redirects redirects_from target_length joined last_word is_space shlex_split
    read_all
both_streams = refl

appended :
    split_redirects (codes "echo \"a>b\"x2>>'my file' c")
    ≡ some (
      codes "echo \"a>b\"x2 c",
      record { stream = codes "1"; append = true; target = codes "my file" } ∷ [],
    )
unfolding split_redirects redirects_from target_length joined last_word is_space shlex_split
    read_all
appended = refl

no_target : split_redirects (codes "echo a >") ≡ none
unfolding split_redirects redirects_from target_length joined last_word is_space shlex_split
    read_all
no_target = refl

escaped_space :
    split_redirects (codes "echo a\\ 2>x")
    ≡ some
        (codes "echo a\\ 2", record { stream = codes "1"; append = false; target = codes "x" } ∷ [])
unfolding split_redirects redirects_from target_length is_space joined shlex_split last_word
    read_all
escaped_space = refl

split_redirects_quiet_example :
    split_redirects (codes "echo \"a > b\" \\> 'c>d' ")
    ≡ some (codes "echo \"a > b\" \\> 'c>d'", [])
unfolding is_space
split_redirects_quiet_example = split_redirects_quiet (codes "echo \"a > b\" \\> 'c>d' ") refl
