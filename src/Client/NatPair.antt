-- ===== src/Client/NatPair.antt =====
-- What the early return of `EnsurePortForward` saw, and what its additions leave.
use mikrotik_operator.Base.{
  Text, text, List, [], ◌∷◌, ◌++◌, map, contains, ◌==◌, nat_eq, list_eq, if◌then◌else◌, Bool, true,
  false, ◌≡◌, ◌≢◌, ◌⊎◌, refl, ◌∙◌, sym, ap, subst, inl, inr, arith, some, ok, return, >>=-eq-ok,
  Bool-cases, eq_iff,
}
use mikrotik_operator.RouterOs.{
  Sentence, get, lookup, comment_of, select, nat, RouterOs, IsLawful, Same, Added, print_cmd,
  remove_cmd, add_words,
}
use mikrotik_operator.Client.Entries.{
  PortForward, managed_comment_prefix_matches, nat_scan, nat_settled, dstnat_matches,
  srcnat_matches, dstnat_attributes, srcnat_attributes, when_set,
}
use mikrotik_operator.Client.Operations.{
  run_args, managed_entries, delete_matching, first_ids_by_chain, ensure_port_forward,
}
use mikrotik_operator.Client.Delete.{
  managed_entries-eq-ok, shown-Same, delete_matching-table, after_ok,
}
use mikrotik_operator.Client.Add.{select-others, add-Added, Added-select, Added-select_split}
use mikrotik_operator.Client.Nat.{
  nat_properties, IsDstnat, IsSrcnat, IsPair, dst_matches, src_matches, dst-ne-src, add_both,
  rebuild, dst_sent, src_sent, first_ids-Same,
}

module _ (forward : PortForward) (comment : Text) where
  -- The scan accepts one entry of each kind.
  abbrev Accepts : Sentence → Sentence → Type 0
  Accepts e f =
      (comment_of e ≡ comment ++ text "/dstnat")
      × (dstnat_matches e forward ≡ true)
      × (comment_of f ≡ comment ++ text "/srcnat")
      × (srcnat_matches f forward ≡ true)

  scan-Accepts :
      (e f : Sentence) → nat_settled forward comment (e ∷ f ∷ []) ≡ true → Accepts e f ⊎ Accepts f e
  unfolding nat_settled nat_scan
  scan-Accepts e f h = elim (Bool-cases (comment_of e == comment ++ text "/dstnat")) [
    | inl dst ↦ inl (
        ground (
          arith,
          eq_iff (comment_of e) (comment ++ text "/dstnat"),
          eq_iff (comment_of f) (comment ++ text "/dstnat"),
          eq_iff (comment_of f) (comment ++ text "/srcnat"),
        ))
    | inr other ↦ inr (
        ground (
          arith,
          eq_iff (comment_of e) (comment ++ text "/srcnat"),
          eq_iff (comment_of f) (comment ++ text "/dstnat"),
          eq_iff (comment_of f) (comment ++ text "/srcnat"),
          dst-ne-src comment,
        ))
  ]

insert_beside :
    (xs ys : List Sentence) (e f : Sentence)
    → xs ++ ys ≡ e ∷ []
    → (xs ++ (f ∷ ys) ≡ e ∷ f ∷ []) ⊎ (xs ++ (f ∷ ys) ≡ f ∷ e ∷ [])
insert_beside [] ys e f h = inr (ap (λ t. f ∷ t) h)
insert_beside (x ∷ []) ys e f h = inl (ground arith)
insert_beside (x ∷ y ∷ xs) ys e f h = cc

insert_beside_eq :
    {old new : List Sentence} (e f : Sentence)
    → (xs : List Sentence) × (ys : List Sentence) × (old ≡ xs ++ ys) × (new ≡ xs ++ (f ∷ ys))
    → old ≡ e ∷ []
    → (new ≡ e ∷ f ∷ []) ⊎ (new ≡ f ∷ e ∷ [])
insert_beside_eq e f (xs, ys, h, k) alone = elim (insert_beside xs ys e f (sym h ∙ alone)) [
  | inl q ↦ inl (k ∙ q)
  | inr q ↦ inr (k ∙ q)
]

module _ (R : RouterOs) (L : IsLawful R) (forward : PortForward) (comment : Text) where
  abbrev mine : Text → Bool
  mine v = managed_comment_prefix_matches v comment

  abbrev seen : Sentence → Sentence
  seen = R.view nat_properties

  reads_comment : (e : Sentence) → comment_of (seen e) ≡ comment_of e
  unfolding text
  reads_comment e = L.view_reads (text "comment") nat_properties e refl

  reads :
      (e : Sentence) (k v : Text)
      → contains k nat_properties ≡ true
      → (get k (seen e) == v) ≡ true
      → get k e ≡ v
  reads e k v c h = sym (L.view_reads k nat_properties e c) ∙ (eq_iff (get k (seen e)) v).0 h

  dstnat_matches-IsDstnat :
      (e : Sentence)
      → comment_of (seen e) ≡ comment ++ text "/dstnat"
      → dstnat_matches (seen e) forward ≡ true
      → IsDstnat forward comment e
  unfolding dstnat_matches text
  dstnat_matches-IsDstnat e c h = record {
    named = sym (reads_comment e) ∙ c;
    chained = reads e (text "chain") _ refl (ground arith);
    spoken = reads e (text "protocol") _ refl (ground arith);
    exposed = reads e (text "dst-port") _ refl (ground arith);
    acts = reads e (text "action") _ refl (ground arith);
    aimed = reads e (text "to-addresses") _ refl (ground arith);
    landed = reads e (text "to-ports") _ refl (ground arith);
    received = λ set. reads e (text "dst-address") _ refl (ground arith);
  }

  srcnat_matches-IsSrcnat :
      (e : Sentence)
      → comment_of (seen e) ≡ comment ++ text "/srcnat"
      → srcnat_matches (seen e) forward ≡ true
      → IsSrcnat forward comment e
  unfolding srcnat_matches text
  srcnat_matches-IsSrcnat e c h = record {
    named = sym (reads_comment e) ∙ c;
    chained = reads e (text "chain") _ refl (ground arith);
    aimed = reads e (text "dst-address") _ refl (ground arith);
    acts = reads e (text "action") _ refl (ground arith);
  }

  settled-IsPair :
      (es : List Sentence)
      → nat_settled forward comment (map seen es) ≡ true
      → IsPair forward comment es
  unfolding nat_settled
  settled-IsPair es h = pair es h
    where
      two :
          (e f : Sentence)
          → Accepts forward comment (seen e) (seen f) ⊎ Accepts forward comment (seen f) (seen e)
          → IsPair forward comment (e ∷ f ∷ [])
      two e f (inl (c, d, k, q)) =
          (e, f, inl refl, dstnat_matches-IsDstnat e c d, srcnat_matches-IsSrcnat f k q)
      two e f (inr (c, d, k, q)) =
          (f, e, inr refl, dstnat_matches-IsDstnat f c d, srcnat_matches-IsSrcnat e k q)

      pair :
          (es : List Sentence)
          → nat_settled forward comment (map seen es) ≡ true
          → IsPair forward comment es
      pair (e ∷ f ∷ []) h = two e f (scan-Accepts forward comment (seen e) (seen f) h)
      pair [] h = cc
      pair (e ∷ []) h = cc
      pair (e ∷ f ∷ g ∷ es) h = cc

  -- The values sent are such as the device stores them.
  abbrev pub Fits : Sentence → Type 0
  Fits attrs = (k v : Text) → lookup k attrs ≡ some v → R.Canonical k v

  Added-IsDstnat :
      (first : Sentence) {before after : List Sentence}
      (a : Added R (dstnat_attributes forward comment first) before after)
      → Fits (dstnat_attributes forward comment [])
      → IsDstnat forward comment a.entry
  unfolding lookup text when_set
  Added-IsDstnat first a fits = record {
    named = a.stored (text "comment") _ refl (fits (text "comment") _ refl);
    chained = a.stored (text "chain") _ refl (fits (text "chain") _ refl);
    spoken = a.stored (text "protocol") _ refl (fits (text "protocol") _ refl);
    exposed = a.stored (text "dst-port") _ refl (fits (text "dst-port") _ refl);
    acts = a.stored (text "action") _ refl (fits (text "action") _ refl);
    aimed = a.stored (text "to-addresses") _ refl (fits (text "to-addresses") _ refl);
    landed = a.stored (text "to-ports") _ refl (fits (text "to-ports") _ refl);
    received = λ set.
        a.stored (text "dst-address") forward.public_ip (sent first set)
          (fits (text "dst-address") forward.public_ip (sent [] set));
  }
    where
      sent :
          (first : Sentence)
          → forward.public_ip ≢ []
          → lookup (text "dst-address") (dstnat_attributes forward comment first)
            ≡ some forward.public_ip
      sent first set = ground (arith, eq_iff forward.public_ip [])

  Added-IsSrcnat :
      (first : Sentence) {before after : List Sentence}
      (a : Added R (srcnat_attributes forward comment first) before after)
      → Fits (srcnat_attributes forward comment [])
      → IsSrcnat forward comment a.entry
  unfolding lookup text
  Added-IsSrcnat first a fits = record {
    named = a.stored (text "comment") _ refl (fits (text "comment") _ refl);
    chained = a.stored (text "chain") _ refl (fits (text "chain") _ refl);
    aimed = a.stored (text "dst-address") _ refl (fits (text "dst-address") _ refl);
    acts = a.stored (text "action") _ refl (fits (text "action") _ refl);
  }

  module _ (dst_fits : Fits (dstnat_attributes forward comment []))
      (src_fits : Fits (srcnat_attributes forward comment [])) where
    add_both-IsPair :
        (first : Sentence) (w : R.State) {t : R.State} {u : Unit {0}}
        → select mine (R.table nat w) ≡ []
        → add_both R L forward comment first w ≡ (ok u, t)
        → IsPair forward comment (select mine (R.table nat t))
    add_both-IsPair first w {t} empty h =
        let (_, x, added, last) =
          >>=-eq-ok (run_args R (add_words nat (dstnat_attributes forward comment first))) _ h in
        pair x
          (add-Added R L nat mine _ (dst_sent R L forward comment first) (dst_matches comment) w
            added)
          (add-Added R L nat mine _ (src_sent R L forward comment first) (src_matches comment) x
            last)
      where
        pair :
            (x : R.State)
            → Added R (dstnat_attributes forward comment first) (R.table nat w) (R.table nat x)
            → Added R (srcnat_attributes forward comment first) (R.table nat x) (R.table nat t)
            → IsPair forward comment (select mine (R.table nat t))
        pair x a b = (
          a.entry,
          b.entry,
          insert_beside_eq a.entry b.entry
              (Added-select_split R L nat mine _ (src_sent R L forward comment first)
                (src_matches comment) b)
              (Added-select R L nat mine _ (dst_sent R L forward comment first)
                (dst_matches comment) a empty),
          Added-IsDstnat first a dst_fits,
          Added-IsSrcnat first b src_fits,
        )

    rebuild-IsPair :
        (s : R.State) {t : R.State} {u : Unit {0}}
        → rebuild R L forward comment s ≡ (ok u, t)
        → IsPair forward comment (select mine (R.table nat t))
    rebuild-IsPair s h =
        let (_, v, cleared, h₁) =
          >>=-eq-ok (delete_matching R (print_cmd nat) (remove_cmd nat) mine) _ h in
        let (first, w, looked, h₂) = >>=-eq-ok (first_ids_by_chain R (print_cmd nat)) _ h₁ in
        add_both-IsPair first w
          (ap (select mine) (
              after_ok R nat looked
              ∙ (first_ids-Same R L forward comment v nat
                  ∙ delete_matching-table R L nat mine s cleared))
            ∙ select-others mine (R.table nat s))
          h₂

    -- On a device that obeys the laws of RouterOs.Defs, if the attributes of both NAT entries are
    -- stored as they are sent and `EnsurePortForward` succeeds, the entries of the NAT table under
    -- the comment are two, in either order: the destination NAT entry and the masquerade entry of
    -- the port forward.
    pub ensure_port_forward_lem :
        (s : R.State) {t : R.State} {u : Unit {0}}
        → ensure_port_forward R forward comment s ≡ (ok u, t)
        → IsPair forward comment (select mine (R.table nat t))
    unfolding ensure_port_forward text
    ensure_port_forward_lem s {t} {u} h =
        let (es, v, printed, rest) =
          >>=-eq-ok (managed_entries R (print_cmd nat) mine nat_properties) _ h in
        decide (nat_settled forward comment es) v (shown-Same R L nat mine nat_properties s printed)
          (ap (nat_settled forward comment) (sym (saw es printed))) rest
      where
        saw :
            {v : R.State} (es : List Sentence)
            → managed_entries R (print_cmd nat) mine nat_properties s ≡ (ok es, v)
            → es ≡ map seen (select mine (R.table nat s))
        saw es h = managed_entries-eq-ok R L nat mine nat_properties s refl h

        decide :
            (b : Bool) (v : R.State)
            → Same R s v
            → nat_settled forward comment (map seen (select mine (R.table nat s))) ≡ b
            → (if b then return tt else rebuild R L forward comment) v ≡ (ok u, t)
            → IsPair forward comment (select mine (R.table nat t))
        decide true v same e h =
            subst (λ l. IsPair forward comment (select mine l)) (sym (after_ok R nat h ∙ same nat))
              (settled-IsPair _ e)
        decide false v same e h = rebuild-IsPair v h
