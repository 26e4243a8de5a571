-- ===== src/Restore/Chunks.antt =====
-- internal/routeros/export.go: `splitRestoreScript`.
use mikrotik_operator.Base.{
  ℕ, zero, suc, ◌+◌, ◌*◌, Text, text, List, [], ◌∷◌, ◌++◌, length, ◌==◌, ltb, nat_eq, list_eq, not,
  ◌&&◌, ◌||◌, if◌then◌else◌, Bool, false, Result, ok, err, Option, none, some, pos, show_int,
}
use mikrotik_operator.Strings.{trim_space}
use mikrotik_operator.Restore.Statements.{
  ensure_trailing_newline, restore_path_line, restore_comment_line, first_restore_line,
  restore_statements,
}

-- The variables of the loop: the chunk being written, and the menu of the last path line.
pub record Progress : Type 0 where
  pub current : Text
  pub current_path : Text
  pub chunk_has_path : Bool

-- `currentPath` once a statement has been read.
unfoldable pub path_after : Text → Text → Text
path_after path stmt = if restore_path_line stmt then trim_space (first_restore_line stmt) else path

-- The menu has to be named again before the statement.
unfoldable pub needs_path : Text → Bool → Text → Bool
needs_path path has_path stmt =
    not has_path
    && not (path == [])
    && not (restore_path_line stmt)
    && not (restore_comment_line stmt)

unfoldable pub addition : Progress → Text → Text
addition p stmt =
    let path = path_after p.current_path stmt in
    if needs_path path p.chunk_has_path stmt
    then ensure_trailing_newline path ++ ensure_trailing_newline stmt
    else ensure_trailing_newline stmt

unfoldable pub has_path_after : Progress → Text → Bool
has_path_after p stmt =
    p.chunk_has_path
    || restore_path_line stmt
    || (not (path_after p.current_path stmt == []) && not (restore_comment_line stmt))

-- One pass of the loop: the statement is too long, or the chunk is full and the statement is
-- tried again, or it is written.
pub data Pass : Type 0 where
  too_long : Pass
  retry : Progress → Pass
  written : Progress → Pass

-- The closure `flush`: what it appends to `chunks`, and what it leaves.
unfoldable pub flush_chunks : Progress → List Text
flush_chunks p = if p.current == [] then [] else ensure_trailing_newline p.current ∷ []

unfoldable pub flush : Text → Progress → Progress
flush path p = record {
  current = [];
  current_path = path;
  chunk_has_path = if p.current == [] then p.chunk_has_path else false;
}

unfoldable pub pass : ℕ → Text → Progress → Pass
pass max_bytes stmt p =
    let path = path_after p.current_path stmt in
    let more = addition p stmt in
    if ltb max_bytes (length more)
    then too_long
    else if ltb max_bytes (length p.current + length more)
    then retry (flush path p)
    else written (record {
      current = p.current ++ more;
      current_path = path;
      chunk_has_path = has_path_after p stmt;
    })

unfoldable pub more_chunks : List Text → Option (Result (List Text)) → Option (Result (List Text))
more_chunks cs none = none
more_chunks cs (some (err e)) = some (err e)
more_chunks cs (some (ok ds)) = some (ok (cs ++ ds))

abbrev pub exceeds : ℕ → Text
exceeds max_bytes =
    text "restore statement exceeds "
    ++ (show_int (pos max_bytes) ++ text "-byte RouterOS file contents limit")

-- The loop, `none` when the fuel is used up. Its result lists the chunks from here on.
unfoldable pub chunks_from : ℕ → ℕ → List Text → Progress → Option (Result (List Text))
chunks_from fuel max_bytes [] p = some (ok (flush_chunks p))
chunks_from zero max_bytes (stmt ∷ stmts) p = none
chunks_from (suc fuel) max_bytes (stmt ∷ stmts) p = elim (pass max_bytes stmt p) [
  | too_long ↦ some (err (exceeds max_bytes))
  | retry q ↦ more_chunks (flush_chunks p) (chunks_from fuel max_bytes (stmt ∷ stmts) q)
  | written q ↦ chunks_from fuel max_bytes stmts q
]

abbrev pub begin : Progress
begin = record { current = []; current_path = []; chunk_has_path = false }

unfoldable pub some_chunks : Result (List Text) → Result (List Text)
some_chunks (ok []) = err (text "empty script")
some_chunks r = r

-- Each statement is tried at most twice.
unfoldable pub split_statements : ℕ → Result (List Text) → Option (Result (List Text))
split_statements max_bytes (err e) = some (err e)
split_statements max_bytes (ok stmts) =
    elim (chunks_from (2 * length stmts) max_bytes stmts begin) [
      | none ↦ none
      | some r ↦ some (some_chunks r)
    ]

unfoldable pub split_restore_script : Text → ℕ → Option (Result (List Text))
split_restore_script script zero = some (err (text "restore chunk size must be positive"))
split_restore_script script (suc n) = split_statements (suc n) (restore_statements script)
