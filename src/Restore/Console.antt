-- ===== src/Restore/Console.antt =====
-- The console of RouterOS, which reads the text of a file. It is not part of this repository and
-- stands as a parameter.
use mikrotik_operator.Base.{Text, List, [], ◌∷◌, ◌++◌, nat_eq, list_eq, true, false, ◌≡◌}
use mikrotik_operator.Strings.{trim_space}
use mikrotik_operator.Restore.Statements.{
  ensure_trailing_newline, restore_path_line, restore_comment_line, first_restore_line,
}

-- `load` reads a text from a menu on, and changes the menu and the device.
pub record Console : Type 1 where
  pub Device : Type 0
  pub Menu : Type 0
  pub root : Menu
  pub load : Text → Menu × Device → Menu × Device
  pub load_nothing : (x : Menu × Device) → load [] x ≡ x

module _ (C : Console) where
  -- `/import` of each file in turn: a file starts at the root menu, and its last menu is forgotten.
  abbrev pub import_each : List Text → C.Device → C.Device
  import_each [] device = device
  import_each (file ∷ files) device = import_each files (C.load file (C.root, device)).1

  -- The statements, read one after the other in one session.
  abbrev pub run_each : List Text → C.Menu × C.Device → C.Menu × C.Device
  run_each [] x = x
  run_each (stmt ∷ stmts) x = run_each stmts (C.load (ensure_trailing_newline stmt) x)

  -- The console is done with the text where it ends: what follows is read on its own.
  abbrev pub IsClosed : Text → Type 0
  IsClosed s =
      (rest : Text) (x : C.Menu × C.Device) → C.load (s ++ rest) x ≡ C.load rest (C.load s x)

  -- The text chooses a menu, from whatever menu, and does nothing else.
  abbrev pub Chooses : Text → C.Menu → Type 0
  Chooses s menu = (x : C.Menu × C.Device) → C.load s x ≡ (menu, x.1)

  -- The line that names the menu of a path statement again.
  abbrev pub menu_line : Text → Text
  menu_line stmt = ensure_trailing_newline (trim_space (first_restore_line stmt))

  -- What the code takes for granted of the statements that RouterOS exports: they are whole, a path
  -- statement chooses its menu by its first line, a comment does nothing, and a command stays in
  -- its menu.
  pub record IsExported (stmt : Text) : Type 0 where
    pub closed : IsClosed (ensure_trailing_newline stmt)
    pub path :
        restore_path_line stmt ≡ true
        → (menu : C.Menu) × Chooses (ensure_trailing_newline stmt) menu
          × Chooses (menu_line stmt) menu
          × IsClosed (menu_line stmt)
    pub remark :
        restore_path_line stmt ≡ false
        → restore_comment_line stmt ≡ true
        → (x : C.Menu × C.Device) → C.load (ensure_trailing_newline stmt) x ≡ x
    pub command :
        restore_path_line stmt ≡ false
        → restore_comment_line stmt ≡ false
        → (x : C.Menu × C.Device) → (C.load (ensure_trailing_newline stmt) x).0 ≡ x.0
