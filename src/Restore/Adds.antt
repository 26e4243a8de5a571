-- ===== src/Restore/Adds.antt =====
-- internal/routeros/export.go: what the text that a pass of `splitRestoreScript` adds to a chunk does
-- on a device.
use mikrotik_operator.Base.{
  Text, [], ◌++◌, append_assoc, has_prefix, ◌==◌, nat_eq, list_eq, ◌&&◌, ◌||◌, not, if◌then◌else◌,
  Bool, true, false, ◌≡◌, ◌⊎◌, refl, ◌∙◌, sym, ap, subst, inl, inr, arith, Bool-cases, eq_iff,
  list_beq,
}
use mikrotik_operator.Strings.{trim_space}
use mikrotik_operator.Restore.Statements.{
  ensure_trailing_newline, restore_path_line, restore_comment_line, first_restore_line,
}
use mikrotik_operator.Restore.Chunks.{Progress, path_after, addition, needs_path, has_path_after}
use mikrotik_operator.Restore.Limits.{}
use mikrotik_operator.Restore.Console.{Console, IsClosed, Chooses, IsExported}

path_line-some :
    (stmt : Text)
    → restore_path_line stmt ≡ true
    → (trim_space (first_restore_line stmt) == []) ≡ false
unfolding restore_path_line has_prefix list_beq
path_line-some stmt h = elim (Bool-cases (trim_space (first_restore_line stmt) == [])) [
  | inr e ↦ e
  | inl e ↦
      let empty = (eq_iff (trim_space (first_restore_line stmt)) []).0 e in
      cc (rw (restore_path_line, empty) at h)
]

-- The passes by the kind of the statement.
module _ (p : Progress) (stmt : Text) where
  on_path :
      restore_path_line stmt ≡ true
      → (addition p stmt ≡ ensure_trailing_newline stmt)
        × (has_path_after p stmt ≡ true)
        × (path_after p.current_path stmt ≡ trim_space (first_restore_line stmt))
  unfolding addition needs_path has_path_after path_after
  on_path e = (ground arith, ground arith, ground arith)

  on_remark :
      restore_path_line stmt ≡ false
      → restore_comment_line stmt ≡ true
      → (addition p stmt ≡ ensure_trailing_newline stmt)
        × (has_path_after p stmt ≡ p.chunk_has_path)
  unfolding addition needs_path has_path_after path_after
  on_remark e f = (ground arith, ground arith)

  pub path_kept : restore_path_line stmt ≡ false → path_after p.current_path stmt ≡ p.current_path
  unfolding path_after
  path_kept e = ground arith

  on_command :
      restore_path_line stmt ≡ false
      → restore_comment_line stmt ≡ false
      → (addition p stmt ≡ (
          if not p.chunk_has_path && not (p.current_path == [])
          then ensure_trailing_newline p.current_path ++ ensure_trailing_newline stmt
          else ensure_trailing_newline stmt))
        × (has_path_after p stmt ≡ (p.chunk_has_path || not (p.current_path == [])))
  unfolding addition needs_path has_path_after path_after
  on_command e f = (ground arith, ground arith)

module _ (C : Console) where
  -- What is known of the menu that the loop remembers.
  unfoldable pub Remembers : Text → C.Menu → Type 0
  Remembers path menu =
      ((path ≡ []) × (menu ≡ C.root))
      ⊎ ((path == []) ≡ false)
        × Chooses C (ensure_trailing_newline path) menu
        × IsClosed C (ensure_trailing_newline path)

  pub IsClosed-append : (s t : Text) → IsClosed C s → IsClosed C t → IsClosed C (s ++ t)
  IsClosed-append s t h k rest x =
      ap (λ r. C.load r x) (append_assoc s t rest)
      ∙ (h (t ++ rest) x ∙ (k rest (C.load s x) ∙ ap (C.load rest) (sym (h t x))))

  -- The next statement does not need the menu that the loop remembers, or it is the right one.
  abbrev pub Fits : Progress → Text → C.Menu → Type 0
  Fits p stmt menu = Remembers p.current_path menu ⊎ (restore_path_line stmt ≡ true)

  module _ (p : Progress) (stmt : Text) (x : IsExported C stmt) (menu : C.Menu)
      (device : C.Device) where
    abbrev pub after : C.Menu × C.Device
    after = C.load (ensure_trailing_newline stmt) (menu, device)

    abbrev pub inside : C.Menu
    inside = if p.chunk_has_path then menu else C.root

    -- Read after the chunk, the addition does what the statement does in the session.
    unfoldable pub Adds : Type 0
    Adds =
        IsClosed C (addition p stmt)
        × (C.load (addition p stmt) (inside, device)
            ≡ (if has_path_after p stmt then after.0 else C.root, after.1))
        × Remembers (path_after p.current_path stmt) after.0

    adds_path : restore_path_line stmt ≡ true → Adds
    unfolding Adds Remembers
    adds_path e =
        let (choice, chosen, again, ends) = x.path e in
        let (same, has, path) = on_path p stmt e in
        (
          subst (IsClosed C) (sym same) x.closed,
          rw (same, has) (chosen (inside, device) ∙ sym (chosen (menu, device))),
          subst (λ t. Remembers t after.0) (sym path)
              (inr (
                path_line-some stmt e,
                (λ y. again y ∙ ap (λ z. (z.0, y.1)) (sym (chosen (menu, device)))),
                ends,
              )),
        )

    adds_remark :
        restore_path_line stmt ≡ false
        → restore_comment_line stmt ≡ true
        → Remembers p.current_path menu
        → Adds
    unfolding Adds
    adds_remark e f k =
        let (same, has) = on_remark p stmt e f in
        (
          subst (IsClosed C) (sym same) x.closed,
          rw (same, has)
              (x.remark e f (inside, device)
                ∙ ap (λ z. (if p.chunk_has_path then z.0 else C.root, z.1))
                    (sym (x.remark e f (menu, device)))),
          subst (λ t. Remembers t after.0) (sym (path_kept p stmt e))
              (subst (Remembers p.current_path) (ap (λ z. z.0) (sym (x.remark e f (menu, device))))
                k),
        )

    -- A command, by what the loop remembers.
    named_again :
        (has : Bool) (path text : Text) (later : Bool)
        → ((y : C.Menu × C.Device) → (C.load (ensure_trailing_newline stmt) y).0 ≡ y.0)
        → text ≡ (
            if not has && not (path == [])
            then ensure_trailing_newline path ++ ensure_trailing_newline stmt
            else ensure_trailing_newline stmt)
        → later ≡ (has || not (path == []))
        → Remembers path menu
        → IsClosed C text
          × (C.load text (if has then menu else C.root, device)
              ≡ (if later then after.0 else C.root, after.1))
    unfolding Remembers
    named_again true path text later stays same now k = rw (same, now) (x.closed, refl)
    named_again false path text later stays same now (inl (empty, at_root)) =
        let none_left : (path == []) ≡ true = (eq_iff path []).1 empty in
        let plain : text ≡ ensure_trailing_newline stmt = same ∙ rw none_left refl in
        let unnamed : later ≡ false = now ∙ rw none_left refl in
        rw (plain, unnamed)
          (
            x.closed,
            ap (λ z. (z, (C.load (ensure_trailing_newline stmt) (C.root, device)).1))
                  (stays (C.root, device))
                ∙ ap (λ m. (C.root, (C.load (ensure_trailing_newline stmt) (m, device)).1))
                    (sym at_root),
          )
    named_again false path text later stays same now (inr (known, chosen, ends)) =
        let plain : text ≡ ensure_trailing_newline path ++ ensure_trailing_newline stmt =
          same ∙ rw known refl in
        let named : later ≡ true = now ∙ rw known refl in
        rw (plain, named)
          (
            IsClosed-append _ _ ends x.closed,
            ends (ensure_trailing_newline stmt) (C.root, device)
                ∙ ap (C.load (ensure_trailing_newline stmt)) (chosen (C.root, device)),
          )

    adds_command :
        restore_path_line stmt ≡ false
        → restore_comment_line stmt ≡ false
        → Remembers p.current_path menu
        → Adds
    unfolding Adds
    adds_command e f k =
        let (same, has) = on_command p stmt e f in
        let (ends, brings) =
          named_again p.chunk_has_path p.current_path (addition p stmt) (has_path_after p stmt)
            (x.command e f) same has k in
        (
          ends,
          brings,
          subst (λ t. Remembers t after.0) (sym (path_kept p stmt e))
              (subst (Remembers p.current_path) (sym (x.command e f (menu, device))) k),
        )

    pub adds : Fits p stmt menu → Adds
    adds (inr e) = adds_path e
    adds (inl k) = elim (Bool-cases (restore_path_line stmt)) [
      | inl e ↦ adds_path e
      | inr e ↦ elim (Bool-cases (restore_comment_line stmt)) [
        | inl f ↦ adds_remark e f k
        | inr f ↦ adds_command e f k
      ]
    ]
