-- ===== src/Tests/RestoreRuns.antt =====
-- The split of a restore script on a small script.
use mikrotik_operator.Base.{
  Text, text, List, [], ◌∷◌, All, ◌≡◌, ◌≢◌, ◌==◌, if◌then◌else◌, nat_eq, refl, ok, err, Result,
  some, has_prefix, any, show_int,
}
use mikrotik_operator.Restore.{
  split_restore_script, restore_statements, collect, scan_restore_line, more_statements,
  split_statements, chunks_from, pass, addition, needs_path, path_after, has_path_after, flush,
  flush_chunks, more_chunks, ensure_trailing_newline, restore_path_line, restore_comment_line,
  first_restore_line, restore_line_verb, token_is_restore_verb, some_chunks,
}
use mikrotik_operator.Strings.{
  split, has_suffix, trim_right_blanks, trim_space, unify_newlines, fields, trim_slashes,
}
use mikrotik_operator.Restore.Limits.{Fits, split_restore_script-Fits}
use mikrotik_operator.Restore.Console.{Console, import_each, run_each, IsExported}
use mikrotik_operator.Restore.Effects.{split_restore_script_runs}
use mikrotik_operator.Restore.Terminates.{split_restore_script_returns}

restore_runs : Unit {0}
unfolding split_restore_script restore_statements collect split scan_restore_line has_suffix
    trim_right_blanks trim_space unify_newlines more_statements split_statements chunks_from pass
    addition needs_path path_after has_path_after flush flush_chunks more_chunks
    ensure_trailing_newline restore_path_line restore_comment_line first_restore_line
    restore_line_verb fields token_is_restore_verb trim_slashes some_chunks has_prefix any text
restore_runs = tt

-- A menu, then two commands; a file holds one command only.
abbrev script : Text
script = b'/' ∷ b'i' ∷ 10 ∷ b'a' ∷ 10 ∷ b'b' ∷ []

abbrev menu : Text
menu = b'/' ∷ b'i' ∷ []

two_files :
    split_restore_script script 5
    ≡ some (ok ((b'/' ∷ b'i' ∷ 10 ∷ b'a' ∷ 10 ∷ []) ∷ (b'/' ∷ b'i' ∷ 10 ∷ b'b' ∷ 10 ∷ []) ∷ []))
unfolding restore_runs
two_files = refl

too_small :
    split_restore_script script 4
    ≡ some (err (text "restore statement exceeds 4-byte RouterOS file contents limit"))
unfolding restore_runs show_int
too_small = refl

abbrev two_chunks : List Text
two_chunks = (b'/' ∷ b'i' ∷ 10 ∷ b'a' ∷ 10 ∷ []) ∷ (b'/' ∷ b'i' ∷ 10 ∷ b'b' ∷ 10 ∷ []) ∷ []

split_restore_script-Fits_example : (two_chunks ≢ []) × All (Fits 5) two_chunks
split_restore_script-Fits_example = split_restore_script-Fits script 5 two_files

-- A console that reads line by line: a line with a slash in front is a menu, one with `#` is a
-- comment, and any other is a command, which the device notes with its menu. The line being read is
-- kept in reverse.
abbrev Notes : Type 0
Notes = List (Text × Text)

abbrev do_line : Text → Text × Notes → Text × Notes
do_line [] x = x
do_line (c ∷ line) (menu, notes) =
    if c == b'/'
    then (c ∷ line, notes)
    else if c == b'#'
    then (menu, notes)
    else (menu, (menu, c ∷ line) ∷ notes)

abbrev flip : Text → Text → Text
flip line [] = line
flip line (c ∷ s) = flip (c ∷ line) s

abbrev read_on : Text → Text → Text × Notes → Text × Notes
read_on line [] x = do_line (flip [] line) x
read_on line (c ∷ s) x =
    let more = read_on (c ∷ line) s x in
    let after = read_on [] s (do_line (flip [] line) x) in if c == 10 then after else more

abbrev line_console : Console
line_console = record {
  Device = Notes;
  Menu = Text;
  root = [];
  load = read_on [];
  load_nothing = λ x. refl;
}

abbrev three_statements : List Text
three_statements = menu ∷ (b'a' ∷ []) ∷ (b'b' ∷ []) ∷ []

three_found : restore_statements script ≡ ok three_statements
unfolding restore_runs
three_found = refl

menu-IsExported : IsExported line_console menu
unfolding restore_runs
menu-IsExported = record {
  closed = λ rest x. refl;
  path = λ e. (menu, (λ x. refl), (λ x. refl), (λ rest x. refl));
  remark = λ e f x. cc;
  command = λ e f x. cc;
}

a-IsExported : IsExported line_console (b'a' ∷ [])
unfolding restore_runs
a-IsExported = record {
  closed = λ rest x. refl;
  path = λ e. cc;
  remark = λ e f x. cc;
  command = λ e f x. refl;
}

b-IsExported : IsExported line_console (b'b' ∷ [])
unfolding restore_runs
b-IsExported = record {
  closed = λ rest x. refl;
  path = λ e. cc;
  remark = λ e f x. cc;
  command = λ e f x. refl;
}

split_restore_script_runs_example :
    import_each line_console two_chunks [] ≡ (run_each line_console three_statements ([], [])).1
split_restore_script_runs_example =
    split_restore_script_runs line_console script 5 three_statements [] two_files three_found
      (menu-IsExported, (a-IsExported, (b-IsExported, tt)))

-- A path statement that a backslash continues is named again by its first line, the backslash
-- included, which then continues into the command: the second file has one statement.
abbrev continued_script : Text
continued_script = b'/' ∷ b'i' ∷ 92 ∷ 10 ∷ b'd' ∷ 10 ∷ b'a' ∷ 10 ∷ b'b' ∷ []

continued_menu_is_cut :
    split_restore_script continued_script 8
    ≡ some (
        ok (
          (b'/' ∷ b'i' ∷ 92 ∷ 10 ∷ b'd' ∷ 10 ∷ b'a' ∷ 10 ∷ [])
          ∷ (b'/' ∷ b'i' ∷ 92 ∷ 10 ∷ b'b' ∷ 10 ∷ [])
          ∷ []))
unfolding restore_runs
continued_menu_is_cut = refl

continued_command_is_swallowed :
    restore_statements (b'/' ∷ b'i' ∷ 92 ∷ 10 ∷ b'b' ∷ 10 ∷ [])
    ≡ ok ((b'/' ∷ b'i' ∷ 92 ∷ 10 ∷ b'b' ∷ []) ∷ [])
unfolding restore_runs
continued_command_is_swallowed = refl

split_restore_script_returns_example :
    (r : Result (List Text)) × (split_restore_script script 5 ≡ some r)
split_restore_script_returns_example = split_restore_script_returns script 5
