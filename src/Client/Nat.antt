-- ===== src/Client/Nat.antt =====
-- internal/routeros/client.go: the steps of `EnsurePortForward`.
use mikrotik_operator.Base.{
  Text, text, List, [], ◌∷◌, ◌++◌, nat_eq, list_eq, if◌then◌else◌, Bool, true, false, ◌≡◌, ◌≢◌, ◌⊎◌,
  refl, arith, show_int, some, M, ◌>>=◌, ◌>>◌, return, >>=-after, >>=-Respects, append_cancel,
  has_prefix-append, has_prefix-append_append,
}
use mikrotik_operator.RouterOs.{
  Sentence, get, lookup, comment_of, nat, RouterOs, IsLawful, Same, print_cmd, remove_cmd,
  add_words,
}
use mikrotik_operator.Client.Entries.{
  PortForward, managed_comment_prefix_matches, nat_settled, dstnat_attributes, srcnat_attributes,
}
use mikrotik_operator.Client.Operations.{
  run_args, managed_entries, delete_matching, first_ids_by_chain, ensure_port_forward,
}
use mikrotik_operator.Client.Spares.{Spares, Spares-refl, Spares-trans, Spares-Same}
use mikrotik_operator.Client.Delete.{managed_entries-Same, shown-Same, delete_matching-Spares}
use mikrotik_operator.Client.Add.{add-Spares}

abbrev pub nat_properties : List Text
nat_properties =
    text "chain"
    ∷ text "protocol"
    ∷ text "dst-port"
    ∷ text "action"
    ∷ text "to-addresses"
    ∷ text "to-ports"
    ∷ text "dst-address"
    ∷ text "comment"
    ∷ []

-- The dst-nat entry of a port forward.
pub record IsDstnat (forward : PortForward) (comment : Text) (e : Sentence) : Type 0 where
  pub named : comment_of e ≡ comment ++ text "/dstnat"
  pub chained : get (text "chain") e ≡ text "dstnat"
  pub spoken : get (text "protocol") e ≡ forward.protocol
  pub exposed : get (text "dst-port") e ≡ show_int forward.external_port
  pub acts : get (text "action") e ≡ text "dst-nat"
  pub aimed : get (text "to-addresses") e ≡ forward.target
  pub landed : get (text "to-ports") e ≡ show_int forward.target_port
  pub received : forward.public_ip ≢ [] → get (text "dst-address") e ≡ forward.public_ip

-- The src-nat entry that masquerades the forwarded traffic.
pub record IsSrcnat (forward : PortForward) (comment : Text) (e : Sentence) : Type 0 where
  pub named : comment_of e ≡ comment ++ text "/srcnat"
  pub chained : get (text "chain") e ≡ text "srcnat"
  pub aimed : get (text "dst-address") e ≡ forward.target
  pub acts : get (text "action") e ≡ text "masquerade"

-- Two entries, one of each, in either order.
abbrev pub IsPair : PortForward → Text → List Sentence → Type 0
IsPair forward comment l =
    (e : Sentence) × (f : Sentence) × ((l ≡ e ∷ f ∷ []) ⊎ (l ≡ f ∷ e ∷ []))
    × IsDstnat forward comment e
    × IsSrcnat forward comment f

matches_under :
    (comment rest : Text)
    → managed_comment_prefix_matches (comment ++ (text "/" ++ rest)) comment ≡ true
unfolding managed_comment_prefix_matches
matches_under comment rest = ground (
  arith,
  has_prefix-append_append comment (text "/" ++ rest) (text "/"),
  has_prefix-append (text "/") rest,
)

pub dst_matches :
    (comment : Text) → managed_comment_prefix_matches (comment ++ text "/dstnat") comment ≡ true
unfolding text
dst_matches comment = matches_under comment (text "dstnat")

pub src_matches :
    (comment : Text) → managed_comment_prefix_matches (comment ++ text "/srcnat") comment ≡ true
unfolding text
src_matches comment = matches_under comment (text "srcnat")

suffixes_differ : text "/dstnat" ≢ text "/srcnat"
unfolding text
suffixes_differ h = ground arith

pub dst-ne-src : (comment : Text) → comment ++ text "/dstnat" ≢ comment ++ text "/srcnat"
dst-ne-src comment h = suffixes_differ (append_cancel comment _ _ h)

module _ (R : RouterOs) (L : IsLawful R) (forward : PortForward) (comment : Text) where
  abbrev pub mine : Text → Bool
  mine v = managed_comment_prefix_matches v comment

  abbrev pub shown : Sentence → Sentence
  shown = R.view nat_properties

  abbrev pub dst_attrs : Sentence → Sentence
  dst_attrs = dstnat_attributes forward comment

  abbrev pub src_attrs : Sentence → Sentence
  src_attrs = srcnat_attributes forward comment

  pub dst_sent :
      (first : Sentence)
      → lookup (text "comment") (dst_attrs first) ≡ some (comment ++ text "/dstnat")
  unfolding lookup text
  dst_sent first = refl

  pub src_sent :
      (first : Sentence)
      → lookup (text "comment") (src_attrs first) ≡ some (comment ++ text "/srcnat")
  unfolding lookup text
  src_sent first = refl

  -- The two additions.
  abbrev pub add_both : Sentence → M R.State (Unit {0})
  add_both first =
      run_args R (add_words nat (dst_attrs first)) >> run_args R (add_words nat (src_attrs first))

  add_both-Spares : (first : Sentence) (s : R.State) → Spares R nat mine s (add_both first s).1
  add_both-Spares first =
      >>=-Respects (Spares R nat mine) (Spares-trans R nat mine)
        (run_args R (add_words nat (dst_attrs first))) _
        (add-Spares R L nat mine (dst_attrs first) (dst_sent first) (dst_matches comment))
        (λ _. add-Spares R L nat mine (src_attrs first) (src_sent first) (src_matches comment))

  pub first_ids-Same : (s : R.State) → Same R s (first_ids_by_chain R (print_cmd nat) s).1
  unfolding first_ids_by_chain
  first_ids-Same s n =
      >>=-after (λ t. R.table n t ≡ R.table n s) (managed_entries R (print_cmd nat) (λ _. true) _) _
        s (managed_entries-Same R L nat (λ _. true) _ s n)
        (λ es t h. shown-Same R L nat (λ _. true) _ s h n)

  abbrev pub rebuild : M R.State (Unit {0})
  rebuild = do
    delete_matching R (print_cmd nat) (remove_cmd nat) mine
    first ← first_ids_by_chain R (print_cmd nat)
    add_both first

  rebuild-Spares : (s : R.State) → Spares R nat mine s (rebuild s).1
  rebuild-Spares =
      >>=-Respects (Spares R nat mine) (Spares-trans R nat mine)
        (delete_matching R (print_cmd nat) (remove_cmd nat) mine) _
        (delete_matching-Spares R L nat mine)
        λ _.
          >>=-Respects (Spares R nat mine) (Spares-trans R nat mine)
            (first_ids_by_chain R (print_cmd nat)) _
            (λ s. Spares-Same R nat mine s _ (first_ids-Same s)) add_both-Spares

  -- On a device that obeys the laws of RouterOs.Defs, whether `EnsurePortForward` succeeds or
  -- fails at any command, the entries of the NAT table whose comments are not under the forward's
  -- comment are the same, and so are the other tables.
  pub ensure_port_forward-Spares :
      (s : R.State) → Spares R nat mine s (ensure_port_forward R forward comment s).1
  unfolding ensure_port_forward
  ensure_port_forward-Spares =
      >>=-Respects (Spares R nat mine) (Spares-trans R nat mine)
        (managed_entries R (print_cmd nat) mine nat_properties) _
        (λ s. Spares-Same R nat mine s _ (managed_entries-Same R L nat mine nat_properties s))
        λ es. choose (nat_settled forward comment es)
    where
      choose :
          (b : Bool) (s : R.State) → Spares R nat mine s ((if b then return tt else rebuild) s).1
      choose true s = Spares-refl R nat mine s
      choose false s = rebuild-Spares s
