-- ===== src/Restore/Statements.antt =====
-- internal/routeros/export.go: the statements of a restore script.
use mikrotik_operator.Base.{
  ℕ, suc, ◌-◌, Text, text, List, [], ◌∷◌, ◌++◌, any, length, has_prefix, ◌==◌, ltb, nat_eq, list_eq,
  not, ◌&&◌, ◌||◌, if◌then◌else◌, Bool, true, false, Result, ok, err,
}
use mikrotik_operator.Strings.{
  trim_space, trim_right_blanks, trim_slashes, fields, split, has_suffix, unify_newlines,
}

unfoldable pub ensure_trailing_newline : Text → Text
ensure_trailing_newline value = if has_suffix value (10 ∷ []) then value else value ++ 10 ∷ []

-- A character outside quotes; the quote is 0 when none is open.
scan_char : ℕ → ℕ → ℕ × ℕ
scan_char c depth =
    if c == b'"' || c == 39
    then (c, depth)
    else if c == b'{'
    then (0, suc depth)
    else if c == b'}'
    then (0, depth - 1)
    else (0, depth)

-- The loop of `scanRestoreLine`, with its `escaped`.
scan_from : Bool → Text → ℕ → ℕ → ℕ × ℕ
scan_from escaped [] quote depth = (quote, depth)
scan_from true (c ∷ s) quote depth = scan_from false s quote depth
scan_from false (c ∷ s) quote depth =
    let escape = c == 92 in
    let quoted = not (quote == 0) in
    let (q, d) =
      if escape
      then (quote, depth)
      else if quoted
      then (if c == quote then 0 else quote, depth)
      else scan_char c depth in
    scan_from escape s q d

unfoldable pub scan_restore_line : Text → ℕ → ℕ → ℕ × ℕ
unfolding scan_char scan_from
scan_restore_line line quote depth = scan_from false line quote depth

unfoldable pub first_restore_line : Text → Text
first_restore_line [] = []
first_restore_line (c ∷ s) = let rest = first_restore_line s in if c == 10 then [] else c ∷ rest

unfoldable pub token_is_restore_verb : Text → Bool
token_is_restore_verb token =
    any (λ verb. verb == token)
      (text "add"
        ∷ text "set"
        ∷ text "remove"
        ∷ text "move"
        ∷ text "enable"
        ∷ text "disable"
        ∷ text "comment"
        ∷ text "reset"
        ∷ text "print"
        ∷ [])

last_part : List Text → Text
last_part [] = []
last_part (p ∷ []) = p
last_part (p ∷ q ∷ ps) = last_part (q ∷ ps)

first_verb : List Text → Text
first_verb [] = []
first_verb (f ∷ fs) = let rest = first_verb fs in if token_is_restore_verb f then f else rest

verb_of_fields : List Text → Text
verb_of_fields [] = []
verb_of_fields (f ∷ fs) =
    let last = last_part (split b'/' (trim_slashes f)) in
    let rest = first_verb fs in if token_is_restore_verb last then last else rest

unfoldable pub restore_line_verb : Text → Text
unfolding last_part first_verb verb_of_fields
restore_line_verb line = verb_of_fields (fields line)

unfoldable pub restore_path_line : Text → Bool
restore_path_line stmt =
    let line = trim_space (first_restore_line stmt) in
    if not (has_prefix line (b'/' ∷ [])) then false else restore_line_verb line == []

unfoldable pub restore_comment_line : Text → Bool
restore_comment_line stmt = has_prefix (trim_space stmt) (b'#' ∷ [])

unfoldable pub more_statements : Text → Result (List Text) → Result (List Text)
more_statements stmt (ok stmts) = ok (stmt ∷ stmts)
more_statements stmt (err e) = err e

-- The loop of `restoreStatements` over the lines, and what follows it.
unfoldable pub collect : List Text → Text → ℕ → ℕ → Result (List Text)
collect [] current quote depth =
    if not (quote == 0) || ltb 0 depth
    then err (text "unterminated restore script statement")
    else if trim_space current == []
    then ok []
    else ok (current ∷ [])
collect (line ∷ lines) current quote depth =
    let joined = (if ltb 0 (length current) then current ++ 10 ∷ [] else current) ++ line in
    let (q, d) = scan_restore_line line quote depth in
    let continued = q == 0 && has_suffix (trim_right_blanks line) (92 ∷ []) in
    let unfinished = not (q == 0) || ltb 0 d || continued in
    let rest = collect lines (if unfinished then joined else []) q d in
    if unfinished || trim_space joined == [] then rest else more_statements joined rest

unfoldable pub restore_statements : Text → Result (List Text)
restore_statements script = collect (split 10 (unify_newlines false script)) [] 0 0
