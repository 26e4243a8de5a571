-- ===== src/Client/Spares.antt =====
-- What an operation leaves alone: the entries of other owners, and the other menus.
use mikrotik_operator.Base.{
  Text, List, [], ◌∷◌, keep, Bool, true, false, ◌≡◌, refl, ◌∙◌, sym, ap, arith, nat_eq, list_eq,
}
use mikrotik_operator.RouterOs.{Sentence, comment_of, select, others, Menu, RouterOs, Same, SameBut}

-- Between two states only entries of one menu whose comment passes the test have changed.
pub record Spares (R : RouterOs) (m : Menu) (mine : Text → Bool) (s t : R.State) : Type 0 where
  pub kept : others mine (R.table m t) ≡ others mine (R.table m s)
  pub elsewhere : SameBut R m s t

module _ (R : RouterOs) (m : Menu) (mine : Text → Bool) where
  pub Spares-refl : (s : R.State) → Spares R m mine s s
  Spares-refl s = record { kept = refl; elsewhere = λ n h. refl }

  pub Spares-trans :
      (s t u : R.State) → Spares R m mine s t → Spares R m mine t u → Spares R m mine s u
  Spares-trans s t u h k = record {
    kept = k.kept ∙ h.kept;
    elsewhere = λ n d. k.elsewhere n d ∙ h.elsewhere n d;
  }

  pub Spares-Same : (s t : R.State) → Same R s t → Spares R m mine s t
  Spares-Same s t h = record { kept = ap (others mine) (h m); elsewhere = λ n d. h n }

module _ (mine narrow : Text → Bool) (within : (v : Text) → narrow v ≡ true → mine v ≡ true) where
  others-others : (l : List Sentence) → others mine (others narrow l) ≡ others mine l
  unfolding others keep
  others-others [] = refl
  others-others (e ∷ l) = ground (arith, others-others l, within (comment_of e))

  -- To spare more is to spare less.
  pub Spares-weaken :
      (R : RouterOs) (m : Menu) (s t : R.State) → Spares R m narrow s t → Spares R m mine s t
  Spares-weaken R m s t h = record {
    kept =
        sym (others-others (R.table m t)) ∙ (ap (others mine) h.kept ∙ others-others (R.table m s));
    elsewhere = h.elsewhere;
  }

module _ (mine narrow : Text → Bool) (apart : (v : Text) → narrow v ≡ true → mine v ≡ false) where
  select-others_apart : (l : List Sentence) → select mine (others narrow l) ≡ select mine l
  unfolding select others keep
  select-others_apart [] = refl
  select-others_apart (e ∷ l) = ground (arith, select-others_apart l, apart (comment_of e))

  -- The entries of an owner whose comments are not touched stay as they are.
  pub Spares-select :
      (R : RouterOs) (m : Menu) (s t : R.State)
      → Spares R m narrow s t
      → select mine (R.table m t) ≡ select mine (R.table m s)
  Spares-select R m s t h =
      sym (select-others_apart (R.table m t))
      ∙ (ap (select mine) h.kept ∙ select-others_apart (R.table m s))

Menu-discrete : Discrete Menu
Menu-discrete = hlevel

-- The same for every menu at once.
abbrev pub SparesAll : (R : RouterOs) → (Text → Bool) → R.State → R.State → Type 0
SparesAll R mine s t = (m : Menu) → others mine (R.table m t) ≡ others mine (R.table m s)

pub SparesAll-Spares :
    (R : RouterOs) (m : Menu) (mine : Text → Bool) (s t : R.State)
    → Spares R m mine s t
    → SparesAll R mine s t
SparesAll-Spares R m mine s t h n = elim (Menu-discrete n m) [
  | yes e ↦ rw e h.kept
  | no d ↦ ap (others mine) (h.elsewhere n d)
]
