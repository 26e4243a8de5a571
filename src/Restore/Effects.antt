-- ===== src/Restore/Effects.antt =====
-- internal/routeros/export.go: what the chunks of `splitRestoreScript` do on a device.
use mikrotik_operator.Base.{
  ℕ, zero, suc, ◌*◌, Text, List, [], ◌∷◌, ◌++◌, All, length, ◌==◌, nat_eq, list_eq, if◌then◌else◌,
  false, ◌≡◌, refl, ◌∙◌, sym, ap, subst, inl, inr, ok, some, result_injective, Bool-cases, eq_iff,
}
use mikrotik_operator.Restore.Statements.{
  restore_statements, ensure_trailing_newline, restore_path_line,
}
use mikrotik_operator.Restore.Chunks.{
  Progress, path_after, addition, pass, flush, flush_chunks, chunks_from, begin,
  split_restore_script, has_path_after,
}
use mikrotik_operator.Restore.Terminates.{Pass-cases, pass-retry, pass-retry_full}
use mikrotik_operator.Restore.Limits.{
  EndsLine, IsWhole, EndsLine-append, addition-EndsLine, ensure_trailing_newline-id, pass-written,
  more_chunks-eq-ok, split_restore_script-eq-ok,
}
use mikrotik_operator.Restore.Console.{Console, import_each, run_each, IsClosed, IsExported}
use mikrotik_operator.Restore.Adds.{path_kept, Remembers, IsClosed-append, Fits, Adds, adds}

module _ (C : Console) where
  -- The chunk so far, read on the device before it, has brought the session to a menu and a device.
  record Brings (p : Progress) (before : C.Device) (menu : C.Menu) (device : C.Device)
      : Type 0 where
    whole : IsWhole p.current
    closed : IsClosed C p.current
    brought :
        C.load p.current (C.root, before) ≡ (if p.chunk_has_path then menu else C.root, device)

  IsWhole-append : (s t : Text) → EndsLine t → IsWhole (s ++ t)
  IsWhole-append s t e = inr (EndsLine-append s t e)

  -- The loop, from a chunk and a session that agree.
  flush_chunks-runs :
      (p : Progress) (before device : C.Device) (menu : C.Menu)
      → Brings p before menu device
      → import_each C (flush_chunks p) before ≡ device
  unfolding flush_chunks
  flush_chunks-runs p before device menu b = elim (Bool-cases (p.current == [])) [
    | inl e ↦
        let empty = (eq_iff p.current []).0 e in
        rw e (
          ap (λ z. z.1)
            (sym (C.load_nothing (C.root, before))
              ∙ (ap (λ s. C.load s (C.root, before)) (sym empty) ∙ b.brought)))
    | inr e ↦ rw e (elim b.whole [
      | inl n ↦ cc (e, (eq_iff p.current []).1 n)
      | inr l ↦
          ap (λ z. z.1)
            (ap (λ s. C.load s (C.root, before)) (ensure_trailing_newline-id p.current l)
              ∙ b.brought)
    ])
  ]

  import_each-append :
      (cs ds : List Text) (device : C.Device)
      → import_each C (cs ++ ds) device ≡ import_each C ds (import_each C cs device)
  import_each-append [] ds device = refl
  import_each-append (c ∷ cs) ds device = import_each-append cs ds (C.load c (C.root, device)).1

  -- An empty chunk agrees with any session.
  empty-Brings :
      (p : Progress) (device : C.Device) (menu : C.Menu)
      → p.current ≡ []
      → p.chunk_has_path ≡ false
      → Brings p device menu device
  empty-Brings p device menu empty unnamed = record {
    whole = inl empty;
    closed = subst (IsClosed C) (sym empty) (λ rest x. ap (C.load rest) (sym (C.load_nothing x)));
    brought =
        ap (λ s. C.load s (C.root, device)) empty
        ∙ (C.load_nothing (C.root, device)
            ∙ ap (λ b. (if b then menu else C.root, device)) (sym unnamed));
  }

  flush-empty :
      (path : Text) (p : Progress)
      → (p.current == []) ≡ false
      → ((flush path p).current ≡ [])
        × ((flush path p).chunk_has_path ≡ false)
        × ((flush path p).current_path ≡ path)
  unfolding flush
  flush-empty path p full = (refl, rw full refl, refl)

  -- The loop is ready for the statements that are left.
  abbrev Ready : List Text → Progress → C.Menu → Type 0
  Ready [] p menu = Unit {0}
  Ready (stmt ∷ stmts) p menu = Fits C p stmt menu

  Ready-Remembers :
      (stmts : List Text) (p : Progress) (menu : C.Menu)
      → Remembers C p.current_path menu
      → Ready stmts p menu
  Ready-Remembers [] p menu k = tt
  Ready-Remembers (stmt ∷ stmts) p menu k = inl k

  Fits-again :
      (p q : Progress) (stmt : Text) (menu : C.Menu)
      → q.current_path ≡ path_after p.current_path stmt
      → Fits C p stmt menu
      → Fits C q stmt menu
  Fits-again p q stmt menu same (inr e) = inr e
  Fits-again p q stmt menu same (inl k) = elim (Bool-cases (restore_path_line stmt)) [
    | inl e ↦ inr e
    | inr e ↦ inl (subst (λ t. Remembers C t menu) (sym (same ∙ path_kept p stmt e)) k)
  ]

  written-Brings :
      (p q : Progress) (stmt : Text) (before device : C.Device) (menu : C.Menu)
      → Brings p before menu device
      → (q ≡ record {
        current = p.current ++ addition p stmt;
        current_path = path_after p.current_path stmt;
        chunk_has_path = has_path_after p stmt;
      })
      → IsClosed C (addition p stmt)
      → (C.load (addition p stmt) (if p.chunk_has_path then menu else C.root, device) ≡ (
        if has_path_after p stmt
            then (C.load (ensure_trailing_newline stmt) (menu, device)).0
            else C.root,
        (C.load (ensure_trailing_newline stmt) (menu, device)).1,
      ))
      → Brings q before
          (C.load (ensure_trailing_newline stmt) (menu, device)).0
          (C.load (ensure_trailing_newline stmt) (menu, device)).1
  written-Brings p q stmt before device menu b same ends read =
      subst
        (λ r.
          Brings r before (C.load (ensure_trailing_newline stmt) (menu, device)).0
            (C.load (ensure_trailing_newline stmt) (menu, device)).1)
        (sym same)
        (record {
          whole = IsWhole-append p.current (addition p stmt) (addition-EndsLine p stmt);
          closed = IsClosed-append C p.current (addition p stmt) b.closed ends;
          brought =
              b.closed (addition p stmt) (C.root, before)
              ∙ (ap (C.load (addition p stmt)) b.brought ∙ read);
        })

  chunks_from-runs :
      (fuel max_bytes : ℕ) (stmts : List Text) (p : Progress) (before device : C.Device)
      (menu : C.Menu) {cs : List Text}
      → All (IsExported C) stmts
      → Brings p before menu device
      → Ready stmts p menu
      → chunks_from fuel max_bytes stmts p ≡ some (ok cs)
      → import_each C cs before ≡ (run_each C stmts (menu, device)).1
  unfolding chunks_from Adds
  chunks_from-runs fuel max_bytes [] p before device menu {cs} x b k h =
      let same : flush_chunks p ≡ cs = cc in
      subst (λ c. import_each C c before ≡ device) same (flush_chunks-runs p before device menu b)
  chunks_from-runs zero max_bytes (stmt ∷ stmts) p before device menu x b k h = cc
  chunks_from-runs (suc fuel) max_bytes (stmt ∷ stmts) p before device menu {cs} x b k h =
      elim (Pass-cases (pass max_bytes stmt p)) [
        | inl e ↦ cc (rw (chunks_from, e) at h)
        | inr (inl (q, e)) ↦
            let (ds, rest, at) = more_chunks-eq-ok max_bytes _ _ (rw (chunks_from, e) at h) in
            let same : q ≡ flush (path_after p.current_path stmt) p =
              pass-retry max_bytes stmt p e in
            let full : (p.current == []) ≡ false = elim (Bool-cases (p.current == [])) [
              | inl n ↦ absurd (pass-retry_full max_bytes stmt p e ((eq_iff p.current []).0 n))
              | inr n ↦ n
            ] in
            let (empty, unnamed, path) = flush-empty (path_after p.current_path stmt) p full in
            let later =
              chunks_from-runs fuel max_bytes (stmt ∷ stmts) q device device menu x
                (empty-Brings q device menu (ap (λ r. r.current) same ∙ empty)
                  (ap (λ r. r.chunk_has_path) same ∙ unnamed))
                (Fits-again p q stmt menu (ap (λ r. r.current_path) same ∙ path) k) rest in
            ap (λ c. import_each C c before) at
            ∙ (import_each-append (flush_chunks p) ds before
                ∙ (ap (import_each C ds) (flush_chunks-runs p before device menu b) ∙ later))
        | inr (inr (q, e)) ↦
            let same = (pass-written max_bytes stmt p e).0 in
            let (ends, brings, known) = adds C p stmt x.0 menu device k in
            chunks_from-runs fuel max_bytes stmts q before _ _ x.1
              (written-Brings p q stmt before device menu b same ends brings)
              (Ready-Remembers stmts q _ (
                subst (λ t. Remembers C t (C.load (ensure_trailing_newline stmt) (menu, device)).0)
                  (sym (ap (λ r. r.current_path) same)) known))
              (rw (chunks_from, e) at h)
      ]

  begin-Brings : (device : C.Device) → Brings begin device C.root device
  begin-Brings device = empty-Brings begin device C.root refl refl

  -- On any console of RouterOS and any device, for a script whose statements are in the form that
  -- `IsExported` states: if `splitRestoreScript` returns chunks, importing them one after the
  -- other, each from the root menu, leaves the device as running the statements that
  -- `restoreStatements` finds, in order in one session from the root menu, leaves it.
  pub split_restore_script_runs :
      (script : Text) (max_bytes : ℕ) (stmts : List Text) (device : C.Device) {cs : List Text}
      → split_restore_script script max_bytes ≡ some (ok cs)
      → restore_statements script ≡ ok stmts
      → All (IsExported C) stmts
      → import_each C cs device ≡ (run_each C stmts (C.root, device)).1
  unfolding Remembers
  split_restore_script_runs script max_bytes stmts device {cs} h s x =
      let (found, e, k, m) = split_restore_script-eq-ok script max_bytes h in
      let same : found ≡ stmts = result_injective (sym e ∙ s) in
      chunks_from-runs (2 * length stmts) max_bytes stmts begin device device C.root x
        (begin-Brings device) (Ready-Remembers stmts begin C.root (inl (refl, refl)))
        (subst (λ l. chunks_from (2 * length l) max_bytes l begin ≡ some (ok cs)) same k)
