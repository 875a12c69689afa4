-- ===== src/CatchUp/Kept.antt =====
-- What becomes of a session in a catch-up that reads its line whole: it is stored, given up with a
-- message in the log, or still waits.
use mathlib.Core.Path.{subst}
use echidra_oss.Base.{
  none, some, ◌&&◌, ◌≢◌, ℕ, ◌-◌, String, List, [], ◌∷◌, ◌++◌, Bool, true, false, ◌||◌, ◌≡◌, refl,
  ap, ◌∙◌, arith, str_eq, str_eq_iff, keep, Bool-cases, inl, inr, ◌==◌, sym, Option, zero, suc, map,
}
use echidra_oss.CatchUp.{
  has_content, Entry, session, invalid, blank, Outcome, works, duplicate, unavailable, busy, fails,
  Files, Progress, one_of_ids, is_written, lines_of, next, Run, store, store_batch, put_first,
  batch_size, batches_from, joined, store_batches, is_error, append_lines, take_over, batches_of,
  catch_up_pending_sessions, store_lines, Line, whole, torn, split_entries, pieces,
}

-- Whether a file's lines have a session, by its id.
abbrev pub has : String → List Entry → Bool
has id [] = false
has id (session s ∷ entries) = str_eq s id || has id entries
has id (invalid ∷ entries) = has id entries
has id (blank ∷ entries) = has id entries

-- The session is in the database, or a message in the log says that it could not be stored.
abbrev pub is_settled : String → Progress → Bool
is_settled id p = one_of_ids p.database id || one_of_ids p.skipped id

-- The session stands in a file, as a line that the catch-up reads whole.
abbrev pub stands : String → Option (List Line) → Bool
stands id file = has id (split_entries (lines_of file))

-- The session stands in one of the two files.
abbrev pub waits : String → Files → Bool
waits id files = stands id files.pending || stands id files.working

one_of_ids-append :
    (ids : List String) (s id : String)
    → one_of_ids (ids ++ s ∷ []) id ≡ (one_of_ids ids id || str_eq id s)
one_of_ids-append [] s id = ground arith
one_of_ids-append (t ∷ ids) s id = ground (arith, one_of_ids-append ids s id)

has-append : (id : String) (xs ys : List Entry) → has id (xs ++ ys) ≡ (has id xs || has id ys)
has-append id [] ys = refl
has-append id (session s ∷ xs) ys = ground (arith, has-append id xs ys)
has-append id (invalid ∷ xs) ys = has-append id xs ys
has-append id (blank ∷ xs) ys = has-append id xs ys

has-keep : (id : String) (xs : List Entry) → has id (keep is_written xs) ≡ has id xs
has-keep id [] = refl
has-keep id (session s ∷ xs) = ap (λ b. str_eq s id || b) (has-keep id xs)
has-keep id (invalid ∷ xs) = has-keep id xs
has-keep id (blank ∷ xs) = has-keep id xs

store_settled :
    (id s : String) (o : Outcome) (p : Progress)
    → is_settled id p ≡ true
    → is_settled id (store s o p).0 ≡ true
store_settled id s works p h = ground arith
store_settled id s duplicate p h = ground arith
store_settled id s unavailable p h = h
store_settled id s busy p h = ground (arith, one_of_ids-append p.skipped s id)
store_settled id s fails p h = ground (arith, one_of_ids-append p.skipped s id)

str_eq_self : (s : String) → str_eq s s ≡ true
str_eq_self s = (str_eq_iff s s).1 refl

store_settles :
    (s : String) (o : Outcome) (p : Progress)
    → (store s o p).1 ≡ false
    → is_settled s (store s o p).0 ≡ true
store_settles s works p h = ground (arith, str_eq_self s)
store_settles s duplicate p h = ground (arith, str_eq_self s)
store_settles s unavailable p h = ground arith
store_settles s busy p h = ground (arith, one_of_ids-append p.skipped s s, str_eq_self s)
store_settles s fails p h = ground (arith, one_of_ids-append p.skipped s s, str_eq_self s)

joined-batches_from : (room : ℕ) (lines : List Entry) → joined (batches_from room lines) ≡ lines
unfolding batches_from
joined-batches_from room [] = refl
joined-batches_from room (line ∷ []) = refl
joined-batches_from room (line ∷ next_line ∷ lines) = elim (Bool-cases (room == 0)) [
  | inl e ↦
      rw e (
        ap (λ (l : List Entry). line ∷ l)
          (joined-batches_from (batch_size - 1) (next_line ∷ lines)))
  | inr e ↦ rw e (
      joined-put_first line _
      ∙ ap (λ (l : List Entry). line ∷ l) (joined-batches_from (room - 1) (next_line ∷ lines)))
]
  where
    joined-put_first :
        (line : Entry) (batches : List (List Entry))
        → joined (put_first line batches) ≡ line ∷ joined batches
    joined-put_first line [] = refl
    joined-put_first line (batch ∷ batches) = refl

has_later :
    (s id : String) (batch : List Entry)
    → str_eq s id ≡ false
    → has id (session s ∷ batch) ≡ true
    → has id batch ≡ true
has_later s id batch m h = ground arith

either_later : (a b c : Bool) → (b ≡ true → c ≡ true) → (a || b) ≡ true → (a || c) ≡ true
either_later a b c f h = ground arith

either_left : (a b : Bool) → a ≡ true → (a || b) ≡ true
either_left a b h = ground arith

-- A session of a batch, of those behind it, or settled before, is settled or in those behind.
moved :
    (all here behind before after : Bool)
    → all ≡ (here || behind)
    → (all || before) ≡ true
    → (here ≡ true → after ≡ true)
    → (before ≡ true → after ≡ true)
    → (behind || after) ≡ true
moved all here behind before after e h f g = ground arith

true≢false : true ≢ false
true≢false e = cc

store_batch_settled :
    (id : String) (already : List String) (batch : List Entry) (run : Run)
    → is_settled id run.progress ≡ true
    → is_settled id (store_batch already batch run).progress ≡ true
unfolding store_batch
store_batch_settled id already [] run h = h
store_batch_settled id already (invalid ∷ batch) run h = store_batch_settled id already batch run h
store_batch_settled id already (blank ∷ batch) run h = store_batch_settled id already batch run h
store_batch_settled id already (session s ∷ batch) run h =
    let drawn = next run.script in
    let kept = store_settled id s drawn.0 run.progress h in
    elim (Bool-cases (one_of_ids already s)) [
      | inl e ↦ rw e (store_batch_settled id already batch run h)
      | inr e ↦ elim (Bool-cases (store s drawn.0 run.progress).1) [
        | inl d ↦ rw (e, d) kept
        | inr d ↦ rw (e, d) (store_batch_settled id already batch _ kept)
      ]
    ]

-- What is said of a batch: unless an outage stopped it, the session is settled.
abbrev Settles : String → Run → Type 0
Settles id run = run.raised ≡ false → is_settled id run.progress ≡ true

abbrev IsKnown : String → List String → Run → Type 0
IsKnown id already run = one_of_ids already id ≡ true → is_settled id run.progress ≡ true

-- The first session of a batch is settled.
first-Settles :
    (s : String) (already : List String) (batch : List Entry) (run : Run)
    → IsKnown s already run
    → Settles s (store_batch already (session s ∷ batch) run)
unfolding store_batch
first-Settles s already batch run a =
    let drawn = next run.script in
    elim (Bool-cases (one_of_ids already s)) [
      | inl e ↦ rw e (λ _. store_batch_settled s already batch run (a e))
      | inr e ↦ elim (Bool-cases (store s drawn.0 run.progress).1) [
        | inl d ↦ rw (e, d) (λ x. absurd (true≢false x))
        | inr d ↦
            rw (e, d)
              (λ _. store_batch_settled s already batch _ (store_settles s drawn.0 run.progress d))
      ]
    ]

store_batch-Settles :
    (id : String) (already : List String) (batch : List Entry) (run : Run)
    → IsKnown id already run
    → has id batch ≡ true
    → Settles id (store_batch already batch run)
unfolding store_batch
store_batch-Settles id already [] run a h = absurd (true≢false (sym h))
store_batch-Settles id already (invalid ∷ batch) run a h =
    store_batch-Settles id already batch run a h
store_batch-Settles id already (blank ∷ batch) run a h =
    store_batch-Settles id already batch run a h
store_batch-Settles id already (session s ∷ batch) run a h =
    let drawn = next run.script in
    elim (Bool-cases (str_eq s id)) [
      | inl m ↦
          let q = (str_eq_iff s id).0 m in
          subst (λ x. Settles x (store_batch already (session s ∷ batch) run)) q
            (first-Settles s already batch run (subst (λ x. IsKnown x already run) (sym q) a))
      | inr m ↦ elim (Bool-cases (one_of_ids already s)) [
        | inl e ↦ rw e (store_batch-Settles id already batch run a (has_later s id batch m h))
        | inr e ↦ elim (Bool-cases (store s drawn.0 run.progress).1) [
          | inl d ↦ rw (e, d) (λ x. absurd (true≢false x))
          | inr d ↦
              rw (e, d)
                (store_batch-Settles id already batch _
                  (λ k. store_settled id s drawn.0 run.progress (a k)) (has_later s id batch m h))
        ]
      ]
    ]

-- A session of the lines is put back, or settled.
abbrev IsKept : String → Progress × List Entry → Type 0
IsKept id result = (has id result.1 || is_settled id result.0) ≡ true

store_batches-IsKept :
    (id : String) (batches : List (List Entry)) (script : List Outcome) (p : Progress)
    → (has id (joined batches) || is_settled id p) ≡ true
    → IsKept id (store_batches batches script p)
unfolding store_batches
store_batches-IsKept id [] script p h = h
store_batches-IsKept id (batch ∷ batches) script p h =
    let asked = next script in
    let start : Run = record { progress = p; script = asked.1; raised = false } in
    let ran = store_batch p.database batch start in
    elim (Bool-cases (is_error asked.0)) [
      | inl e ↦ rw e h
      | inr e ↦ elim (Bool-cases ran.raised) [
        | inl d ↦ rw (e, d) (either_later _ _ _ (store_batch_settled id p.database batch start) h)
        | inr d ↦
            rw (e, d)
              (store_batches-IsKept id batches ran.script ran.progress (
                moved _ _ _ _ _ (has-append id batch (joined batches)) h
                  (λ b. store_batch-Settles id p.database batch start (λ k. either_left _ _ k) b d)
                  (store_batch_settled id p.database batch start)))
      ]
    ]

pieces-append : (n : ℕ) (xs ys : List Entry) → pieces n (xs ++ ys) ≡ pieces n xs ++ ys
pieces-append zero xs ys = refl
pieces-append (suc n) xs ys = rw (pieces-append n xs ys) refl

split_entries-append :
    (xs ys : List Line) → split_entries (xs ++ ys) ≡ split_entries xs ++ split_entries ys
unfolding split_entries
split_entries-append [] ys = refl
split_entries-append (whole entry ∷ xs) ys = rw (split_entries-append xs ys) refl
split_entries-append (torn id n ∷ xs) ys = rw (split_entries-append xs ys) (pieces-append n _ _)

split_entries-whole :
    (entry : Entry) (entries : List Entry)
    → split_entries (map whole (entry ∷ entries)) ≡ entry ∷ entries
unfolding split_entries
split_entries-whole entry [] = refl
split_entries-whole entry (next_entry ∷ entries) = rw (split_entries-whole next_entry entries) refl

has-append_lines :
    (id : String) (file : Option (List Line)) (entries : List Entry)
    → stands id (append_lines file (map whole entries)) ≡ (stands id file || has id entries)
unfolding append_lines
has-append_lines id file [] = ground arith
has-append_lines id file (entry ∷ entries) =
    rw
      (
        split_entries-append (lines_of file) (map whole (entry ∷ entries)),
        split_entries-whole entry entries,
      )
      (has-append id (split_entries (lines_of file)) (entry ∷ entries))

lines_of-take_over :
    (id : String) (f w : Option (List Line))
    → waits id (take_over (record { pending = f; working = w })) ≡ (stands id f || stands id w)
lines_of-take_over id f none = ground arith
lines_of-take_over id f (some lines) = refl

-- The last step, by where the session stood.
put_back :
    (appended waiting working before behind after : Bool)
    → appended ≡ (waiting || behind)
    → ((working || before) ≡ true → (behind || after) ≡ true)
    → ((waiting || working) || before) ≡ true
    → ((appended || false) || after) ≡ true
put_back appended waiting working before behind after e f h = ground arith

store_lines_keeps :
    (id : String) (script : List Outcome) (files : Files) (p : Progress)
    → (waits id files || is_settled id p) ≡ true
    → (waits id (store_lines script files p).0 || is_settled id (store_lines script files p).1)
      ≡ true
unfolding batches_of split_entries
store_lines_keeps id script files p h =
    let batches = batches_of (keep is_written (split_entries (lines_of files.working))) in
    let result = store_batches batches script p in
    put_back _ _ (stands id files.working) (is_settled id p) _ _
      (has-append_lines id files.pending result.1)
      (λ k. store_batches-IsKept id batches script p (
        rw
          (
            joined-batches_from 499 (keep is_written (split_entries (lines_of files.working))),
            has-keep id (split_entries (lines_of files.working)),
          )
          k))
      h

-- Whatever the database does in a catch-up, a session that stands in one of the two files on a line
-- that `splitlines` reads whole, or is settled, still stands in one of them on such a line
-- afterwards, or is settled: it is in the database, or a message in the log says that it could not
-- be stored. A record whose text has a character such as U+2028 is on no such line.
pub catch_up_keeps :
    (id : String) (reachable : Bool) (script : List Outcome) (files : Files) (p : Progress)
    → (waits id files || is_settled id p) ≡ true
    → (waits id (catch_up_pending_sessions reachable script files p).0
        || is_settled id (catch_up_pending_sessions reachable script files p).1)
      ≡ true
unfolding catch_up_pending_sessions
catch_up_keeps id reachable script files p h =
    elim (Bool-cases ((has_content files.pending || has_content files.working) && reachable)) [
      | inl e ↦ rw e (
          store_lines_keeps id script (take_over files) p
            (rw (lines_of-take_over id files.pending files.working) h))
      | inr e ↦ rw e h
    ]
