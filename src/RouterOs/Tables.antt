-- ===== src/RouterOs/Tables.antt =====
-- What removing entries by their ids leaves of a table whose ids are distinct.
use mikrotik_operator.Base.{
  Text, List, [], ◌∷◌, map, keep, All, Nodup, contains, ◌==◌, nat_eq, list_eq, not, ◌&&◌, Bool,
  true, false, ◌≡◌, refl, ◌∙◌, sym, arith, eq_refl, eq_iff, All-intro, keep_congr, keep-true,
  keep-keep, All-keep, All-map,
}
use mikrotik_operator.RouterOs.Defs.{Sentence, id_of, comment_of, select, others, without}

unfoldable pub without_ids : List Text → List Sentence → List Sentence
without_ids ids = keep (λ e. not (contains (id_of e) ids))

-- The entries that `ids` names pass the test.
abbrev pub Owned : (Text → Bool) → List Text → List Sentence → Type 0
Owned mine ids = All (λ e. contains (id_of e) ids ≡ true → mine (comment_of e) ≡ true)

pub without_ids-nil : (l : List Sentence) → without_ids [] l ≡ l
unfolding without_ids
without_ids-nil l = keep-true l

pub without_ids-cons :
    (id : Text) (ids : List Text) (l : List Sentence)
    → without_ids (id ∷ ids) l ≡ without_ids ids (without id l)
unfolding without without_ids
without_ids-cons id ids l = sym (keep-keep _ _ l ∙ fuse)
  where
    fuse :
        keep (λ e. not (id == id_of e) && not (contains (id_of e) ids)) l
        ≡ keep (λ e. not (contains (id_of e) (id ∷ ids))) l
    fuse = keep_congr _ _ l (All-intro _ l (λ e. ground arith))

-- Removing an entry that passes the test leaves the others.
pub others-without :
    (mine : Text → Bool) (id : Text) (ids : List Text) (l : List Sentence)
    → Owned mine (id ∷ ids) l
    → others mine (without id l) ≡ others mine l
unfolding others without
others-without mine id ids l h =
    keep-keep _ _ l ∙ keep_congr _ _ l (All-map _ _ l (λ e k. ground arith) h)

pub Owned-tail :
    (mine : Text → Bool) (id : Text) (ids : List Text) (l : List Sentence)
    → Owned mine (id ∷ ids) l
    → Owned mine ids l
Owned-tail mine id ids l h = All-map _ _ l (λ e k c. k (ground arith)) h

pub Owned-without :
    (mine : Text → Bool) (id : Text) (ids : List Text) (l : List Sentence)
    → Owned mine (id ∷ ids) l
    → Owned mine ids (without id l)
unfolding without
Owned-without mine id ids l h = All-keep _ _ l (Owned-tail mine id ids l h)

-- A new id is not among those of the selected entries.
fresh-select :
    (mine : Text → Bool) (id : Text) (l : List Sentence)
    → contains id (map id_of l) ≡ false
    → contains id (map id_of (select mine l)) ≡ false
unfolding select keep
fresh-select mine id [] h = refl
fresh-select mine id (e ∷ l) h = ground (arith, fresh-select mine id l)

ne_head :
    (id : Text) (l : List Sentence)
    → contains id (map id_of l) ≡ false
    → All (λ e. (id == id_of e) ≡ false) l
ne_head id [] h = tt
ne_head id (e ∷ l) h =
    (ground (arith, eq_iff id (id_of e), eq_iff (id_of e) id), ne_head id l (ground arith))

All-both {ℓ κ μ} :
    {A : Type ℓ} (P : A → Type κ) (Q : A → Type μ) (xs : List A)
    → All P xs
    → All Q xs
    → All (λ x. P x × Q x) xs
All-both P Q [] h k = tt
All-both P Q (x ∷ xs) h k = ((h.0, k.0), All-both P Q xs h.1 k.1)

-- With distinct ids, the ids of the selected entries name those and no other.
pub select-ids :
    (mine : Text → Bool) (l : List Sentence)
    → Nodup (map id_of l)
    → All (λ e. contains (id_of e) (map id_of (select mine l)) ≡ mine (comment_of e)) l
unfolding select keep
select-ids mine [] h = tt
select-ids mine (e ∷ l) h = (
  ground (arith, eq_refl (id_of e), fresh-select mine (id_of e) l h.0),
  All-map _ _ l (λ f k. ground arith)
      (All-both _ _ l (ne_head (id_of e) l h.0) (select-ids mine l h.1)),
)

pub without_ids-select :
    (mine : Text → Bool) (l : List Sentence)
    → Nodup (map id_of l)
    → without_ids (map id_of (select mine l)) l ≡ others mine l
unfolding without_ids others
without_ids-select mine l h = keep_congr _ _ l (All-map _ _ l (λ e k. rw k) (select-ids mine l h))

pub Owned-select :
    (mine : Text → Bool) (l : List Sentence)
    → Nodup (map id_of l)
    → Owned mine (map id_of (select mine l)) l
Owned-select mine l h = All-map _ _ l (λ e k c. sym k ∙ c) (select-ids mine l h)
