-- ===== src/Restore/Limits.antt =====
-- internal/routeros/export.go: the sizes of the chunks of `splitRestoreScript`.
use mathlib.Core.List.{reverse-append}
use mikrotik_operator.Base.{
  ℕ, zero, suc, ◌+◌, ◌*◌, ◌≤◌, Text, List, [], ◌∷◌, ◌++◌, All, length, length-append, reverse,
  has_prefix, ◌==◌, nat_eq, list_eq, true, ◌≡◌, ◌≢◌, ◌⊎◌, refl, ◌∙◌, sym, ap, subst, inl, inr,
  arith, Result, ok, err, Option, none, some, Bool-cases, eq_iff,
}
use mikrotik_operator.Strings.{has_suffix}
use mikrotik_operator.Restore.Statements.{restore_statements, ensure_trailing_newline}
use mikrotik_operator.Restore.Chunks.{
  Progress, written, path_after, addition, needs_path, pass, flush, flush_chunks, more_chunks,
  chunks_from, begin, some_chunks, split_statements, split_restore_script, has_path_after,
}
use mikrotik_operator.Restore.Terminates.{Pass-cases, pass-retry}

abbrev pub EndsLine : Text → Type 0
EndsLine s = has_suffix s (10 ∷ []) ≡ true

has_prefix_more : (s t p : Text) → has_prefix s p ≡ true → has_prefix (s ++ t) p ≡ true
unfolding has_prefix
has_prefix_more s t [] h = refl
has_prefix_more [] t (p ∷ ps) h = cc
has_prefix_more (c ∷ s) t (p ∷ ps) h = ground (arith, has_prefix_more s t ps)

pub EndsLine-append : (s t : Text) → EndsLine t → EndsLine (s ++ t)
unfolding has_suffix
EndsLine-append s t h =
    ap (λ r. has_prefix r (10 ∷ [])) (reverse-append s t)
    ∙ has_prefix_more (reverse t) (reverse s) (10 ∷ []) h

newline-EndsLine : EndsLine (10 ∷ [])
unfolding has_suffix has_prefix
newline-EndsLine = refl

pub ensure_trailing_newline-EndsLine : (s : Text) → EndsLine (ensure_trailing_newline s)
unfolding ensure_trailing_newline
ensure_trailing_newline-EndsLine s = elim (Bool-cases (has_suffix s (10 ∷ []))) [
  | inl e ↦ rw e e
  | inr e ↦ rw e (EndsLine-append s (10 ∷ []) newline-EndsLine)
]

pub ensure_trailing_newline-id : (s : Text) → EndsLine s → ensure_trailing_newline s ≡ s
unfolding ensure_trailing_newline
ensure_trailing_newline-id s h = rw h refl

pub EndsLine-nil : {s : Text} → EndsLine s → s ≢ []
unfolding has_suffix has_prefix
EndsLine-nil h e = cc (h, e)

pub addition-EndsLine : (p : Progress) (stmt : Text) → EndsLine (addition p stmt)
unfolding addition
addition-EndsLine p stmt =
    elim (Bool-cases (needs_path (path_after p.current_path stmt) p.chunk_has_path stmt)) [
      | inl e ↦
          rw e (
            EndsLine-append _ (ensure_trailing_newline stmt)
              (ensure_trailing_newline-EndsLine stmt))
      | inr e ↦ rw e (ensure_trailing_newline-EndsLine stmt)
    ]

-- A chunk that is being written is empty or ends its last line.
abbrev pub IsWhole : Text → Type 0
IsWhole s = (s ≡ []) ⊎ EndsLine s

abbrev pub Fits : ℕ → Text → Type 0
Fits max_bytes s = (length s ≤ max_bytes) × EndsLine s

pub pass-written :
    (max_bytes : ℕ) (stmt : Text) (p : Progress) {q : Progress}
    → pass max_bytes stmt p ≡ written q
    → (q ≡ record {
      current = p.current ++ addition p stmt;
      current_path = path_after p.current_path stmt;
      chunk_has_path = has_path_after p stmt;
    })
      × (length p.current + length (addition p stmt) ≤ max_bytes)
unfolding pass
pass-written max_bytes stmt p h = ground arith

module _ (max_bytes : ℕ) where
  flush_chunks-Fits :
      (p : Progress)
      → IsWhole p.current
      → length p.current ≤ max_bytes
      → All (Fits max_bytes) (flush_chunks p)
  unfolding flush_chunks
  flush_chunks-Fits p w h = elim (Bool-cases (p.current == [])) [
    | inl e ↦ rw e tt
    | inr e ↦ rw e (elim w [
      | inl n ↦ cc (e, (eq_iff p.current []).1 n)
      | inr l ↦ (
        (
          subst (λ s. length s ≤ max_bytes) (sym (ensure_trailing_newline-id p.current l)) h,
          ensure_trailing_newline-EndsLine p.current,
        ),
        tt,
      )
    ])
  ]

  All-append :
      (cs ds : List Text)
      → All (Fits max_bytes) cs
      → All (Fits max_bytes) ds
      → All (Fits max_bytes) (cs ++ ds)
  All-append [] ds h k = k
  All-append (c ∷ cs) ds h k = (h.0, All-append cs ds h.1 k)

  pub more_chunks-eq-ok :
      (cs : List Text) (o : Option (Result (List Text))) {es : List Text}
      → more_chunks cs o ≡ some (ok es)
      → (ds : List Text) × (o ≡ some (ok ds)) × (es ≡ cs ++ ds)
  unfolding more_chunks
  more_chunks-eq-ok cs none h = cc
  more_chunks-eq-ok cs (some (err e)) h = cc
  more_chunks-eq-ok cs (some (ok ds)) h = (ds, refl, cc)

  chunks_from-Fits :
      (fuel : ℕ) (stmts : List Text) (p : Progress) {cs : List Text}
      → IsWhole p.current
      → length p.current ≤ max_bytes
      → chunks_from fuel max_bytes stmts p ≡ some (ok cs)
      → All (Fits max_bytes) cs
  unfolding chunks_from flush
  chunks_from-Fits fuel [] p {cs} w l h =
      let same : flush_chunks p ≡ cs = cc in
      subst (All (Fits max_bytes)) same (flush_chunks-Fits p w l)
  chunks_from-Fits zero (stmt ∷ stmts) p w l h = cc
  chunks_from-Fits (suc fuel) (stmt ∷ stmts) p w l h = elim (Pass-cases (pass max_bytes stmt p)) [
    | inl e ↦ cc (rw (chunks_from, e) at h)
    | inr (inl (q, e)) ↦
        let (ds, k, at) = more_chunks-eq-ok _ _ (rw (chunks_from, e) at h) in
        let empty : q.current ≡ [] = ap (λ r. r.current) (pass-retry max_bytes stmt p e) in
        subst (All (Fits max_bytes)) (sym at) (
          All-append _ ds (flush_chunks-Fits p w l)
            (chunks_from-Fits fuel (stmt ∷ stmts) q (inl empty) (rw empty (omega arith)) k))
    | inr (inr (q, e)) ↦
        let (same, small) = pass-written max_bytes stmt p e in
        let text_of : q.current ≡ p.current ++ addition p stmt = ap (λ r. r.current) same in
        chunks_from-Fits fuel stmts q
          (inr
            (subst EndsLine (sym text_of) (EndsLine-append p.current _ (addition-EndsLine p stmt))))
          (rw text_of (omega (arith, small, length-append p.current (addition p stmt))))
          (rw (chunks_from, e) at h)
  ]

pub some_chunks-eq-ok :
    (r : Result (List Text)) {cs : List Text} → some_chunks r ≡ ok cs → (r ≡ ok cs) × (cs ≢ [])
unfolding some_chunks
some_chunks-eq-ok (ok []) h = cc
some_chunks-eq-ok (ok (c ∷ cs)) h = (h, λ e. cc (h, e))
some_chunks-eq-ok (err e) h = cc

pub split_statements-eq-ok :
    (max_bytes : ℕ) (stmts : List Text) {cs : List Text}
    → split_statements max_bytes (ok stmts) ≡ some (ok cs)
    → (chunks_from (2 * length stmts) max_bytes stmts begin ≡ some (ok cs)) × (cs ≢ [])
unfolding split_statements
split_statements-eq-ok max_bytes stmts {cs} h = found _ refl h
  where
    found :
        (o : Option (Result (List Text)))
        → chunks_from (2 * length stmts) max_bytes stmts begin ≡ o
        → elim o [ none ↦ none | some r ↦ some (some_chunks r) ] ≡ some (ok cs)
        → (chunks_from (2 * length stmts) max_bytes stmts begin ≡ some (ok cs)) × (cs ≢ [])
    found none e h = cc
    found (some r) e h = let (k, n) = some_chunks-eq-ok r cc in (e ∙ ap some k, n)

pub split_restore_script-eq-ok :
    (script : Text) (max_bytes : ℕ) {cs : List Text}
    → split_restore_script script max_bytes ≡ some (ok cs)
    → (stmts : List Text) × (restore_statements script ≡ ok stmts)
      × (chunks_from (2 * length stmts) max_bytes stmts begin ≡ some (ok cs))
      × (cs ≢ [])
unfolding split_restore_script split_statements
split_restore_script-eq-ok script zero h = cc
split_restore_script-eq-ok script (suc n) {cs} h = found (restore_statements script) refl h
  where
    found :
        (r : Result (List Text))
        → restore_statements script ≡ r
        → split_statements (suc n) r ≡ some (ok cs)
        → (stmts : List Text) × (restore_statements script ≡ ok stmts)
          × (chunks_from (2 * length stmts) (suc n) stmts begin ≡ some (ok cs))
          × (cs ≢ [])
    found (err x) e h = cc
    found (ok stmts) e h = let (k, m) = split_statements-eq-ok (suc n) stmts h in (stmts, e, k, m)

-- Whenever `splitRestoreScript` returns chunks, there is at least one, and each ends with a
-- newline and has at most the number of bytes that was given.
pub split_restore_script-Fits :
    (script : Text) (max_bytes : ℕ) {cs : List Text}
    → split_restore_script script max_bytes ≡ some (ok cs)
    → (cs ≢ []) × All (Fits max_bytes) cs
split_restore_script-Fits script max_bytes h =
    let (stmts, e, k, m) = split_restore_script-eq-ok script max_bytes h in
    (m, chunks_from-Fits max_bytes (2 * length stmts) stmts begin (inl refl) (omega arith) k)
