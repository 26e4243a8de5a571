-- ===== src/Restore/Terminates.antt =====
-- internal/routeros/export.go: the steps back, by `i--`, in the loop of `splitRestoreScript`.
use mikrotik_operator.Base.{
  ℕ, zero, suc, ◌*◌, ◌≤◌, Text, List, [], ◌∷◌, ◌++◌, length, nat_eq, list_eq, ◌≡◌, ◌⊎◌, refl, ◌∙◌,
  ap, inl, inr, arith, Result, ok, err, Option, none, some,
}
use mikrotik_operator.Restore.Statements.{restore_statements}
use mikrotik_operator.Restore.Chunks.{
  Progress, Pass, too_long, retry, written, path_after, pass, flush, flush_chunks, more_chunks,
  chunks_from, begin, some_chunks, split_statements, split_restore_script, exceeds,
}

pub Pass-cases :
    (x : Pass)
    → (x ≡ too_long) ⊎ ((q : Progress) × (x ≡ retry q)) ⊎ ((q : Progress) × (x ≡ written q))
Pass-cases too_long = inl refl
Pass-cases (retry q) = inr (inl (q, refl))
Pass-cases (written q) = inr (inr (q, refl))

-- A statement is tried again with an empty chunk.
pub pass-retry :
    (max_bytes : ℕ) (stmt : Text) (p : Progress) {q : Progress}
    → pass max_bytes stmt p ≡ retry q
    → q ≡ flush (path_after p.current_path stmt) p
unfolding pass
pass-retry max_bytes stmt p h = ground arith

pub pass-retry_full :
    (max_bytes : ℕ) (stmt : Text) (p : Progress) {q : Progress}
    → pass max_bytes stmt p ≡ retry q
    → p.current ≡ []
    → ⊥
unfolding pass
pass-retry_full max_bytes stmt p h e = ground (arith, ap length e)

flushed : (path : Text) (p : Progress) → (flush path p).current ≡ []
unfolding flush
flushed path p = refl

abbrev pub Returns : Option (Result (List Text)) → Type 0
Returns o = (r : Result (List Text)) × (o ≡ some r)

more_chunks-Returns :
    (cs : List Text) (o : Option (Result (List Text))) → Returns o → Returns (more_chunks cs o)
unfolding more_chunks
more_chunks-Returns cs none (r, h) = cc
more_chunks-Returns cs (some (ok ds)) h = (ok (cs ++ ds), refl)
more_chunks-Returns cs (some (err e)) h = (err e, refl)

pub chunks_from-Returns :
    (fuel max_bytes : ℕ) (stmts : List Text) (p : Progress)
    → 2 * length stmts ≤ fuel
    → Returns (chunks_from fuel max_bytes stmts p)
unfolding chunks_from
chunks_from-Returns fuel max_bytes [] p h = (ok (flush_chunks p), refl)
chunks_from-Returns zero max_bytes (stmt ∷ stmts) p h = absurd (omega (arith, h))
chunks_from-Returns (suc zero) max_bytes (stmt ∷ stmts) p h = absurd (omega (arith, h))
chunks_from-Returns (suc (suc fuel)) max_bytes (stmt ∷ stmts) p h =
    let later : (n : ℕ) (q : Progress)
        → 2 * length stmts ≤ n
        → Returns (chunks_from n max_bytes stmts q) =
      λ n q k. chunks_from-Returns n max_bytes stmts q k in
    elim (Pass-cases (pass max_bytes stmt p)) [
      | inl e ↦ rw (chunks_from, e) (err (exceeds max_bytes), refl)
      | inr (inl (q, e)) ↦
          let empty : q.current ≡ [] =
            ap (λ r. r.current) (pass-retry max_bytes stmt p e) ∙ flushed _ p in
          rw (chunks_from, e)
            (more_chunks-Returns _ _ (elim (Pass-cases (pass max_bytes stmt q)) [
              | inl f ↦ rw (chunks_from, f) (err (exceeds max_bytes), refl)
              | inr (inl (r, f)) ↦ absurd (pass-retry_full max_bytes stmt q f empty)
              | inr (inr (r, f)) ↦ rw (chunks_from, f) (later fuel r (omega (arith, h)))
            ]))
      | inr (inr (q, e)) ↦ rw (chunks_from, e) (later (suc fuel) q (omega (arith, h)))
    ]

statements-Returns :
    (max_bytes : ℕ) (r : Result (List Text)) → Returns (split_statements max_bytes r)
unfolding split_statements
statements-Returns max_bytes (err e) = (err e, refl)
statements-Returns max_bytes (ok stmts) =
    let (r, h) = chunks_from-Returns (2 * length stmts) max_bytes stmts begin (omega arith) in
    rw (split_statements, h) (some_chunks r, refl)

-- For every script and every limit, `splitRestoreScript` returns chunks or an error: the loop,
-- which steps back to try a statement again, ends within two passes for each statement.
pub split_restore_script_returns :
    (script : Text) (max_bytes : ℕ)
    → (r : Result (List Text)) × (split_restore_script script max_bytes ≡ some r)
unfolding split_restore_script
split_restore_script_returns script zero = (_, refl)
split_restore_script_returns script (suc n) = statements-Returns (suc n) (restore_statements script)
