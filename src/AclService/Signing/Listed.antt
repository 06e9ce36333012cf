-- ===== src/AclService/Signing/Listed.antt =====
-- Which credentials the entries of a snapshot list.
use smart_gatekeeper.Common.{
  ℕ, ◌≡◌, refl, ◌∙◌, Bool, ◌&&◌, ◌||◌, not, Option, none, some, List, [], ◌∷◌, if◌then◌else◌, leb,
  ltb, list_eq, nat_eq, list_beq, some_of, arith,
}
use smart_gatekeeper.Common.Text.{Text}
use smart_gatekeeper.Acl.{Bytes, Entry, from_hex}
use smart_gatekeeper.AclStore.{Credential}
use smart_gatekeeper.AclStore.Grants.{Granted, order_by}
use smart_gatekeeper.AclStore.Grants.Entitled.{some_of-order_by, row_passes}
use smart_gatekeeper.AclService.Signing.{is_past, entry_of, entries_of, keyed, values, sort_entries}

abbrev pub has_id : Text → Entry → Bool
has_id credential_id e = list_beq e.credential_id credential_id

-- A credential's id is in a list of entries.
abbrev pub is_listed : Text → List Entry → Bool
is_listed credential_id entries = some_of (has_id credential_id) entries

-- The credential has not expired, and its protocols meet the snapshot's.
abbrev pub is_usable_row : ℕ → ℕ → ℕ → Credential → Bool
is_usable_row min_protocol max_protocol now row =
    not (is_past now row.expires_at)
    && not (
        ltb (if leb max_protocol row.max_protocol then max_protocol else row.max_protocol)
          (if leb min_protocol row.min_protocol then row.min_protocol else min_protocol))

keep_usable :
    (past narrow here : Bool) (rest : Bool) {A : Type 0} (q : A → Bool) (e : A) (es : List A)
    → q e ≡ here
    → some_of q es ≡ rest
    → some_of q (if past then es else if narrow then es else e ∷ es)
      ≡ (here && (not past && not narrow) || rest)
keep_usable past narrow here rest q e es h k = ground arith

pub is_listed-entries_of :
    (min_protocol max_protocol now : ℕ) (credential_id : Text) (rows : List Granted)
    → is_listed credential_id (entries_of min_protocol max_protocol now rows)
      ≡ some_of (row_passes (is_usable_row min_protocol max_protocol now) credential_id) rows
unfolding entries_of
is_listed-entries_of min_protocol max_protocol now credential_id [] = refl
is_listed-entries_of min_protocol max_protocol now credential_id ((id, row, permissions) ∷ rows) =
    let entry = entry_of min_protocol max_protocol now (id, row, permissions) in
    keep_usable (is_past now row.expires_at) (ltb entry.max_protocol entry.min_protocol)
      (list_beq id credential_id)
      (some_of (row_passes (is_usable_row min_protocol max_protocol now) credential_id) rows)
      (has_id credential_id) entry (entries_of min_protocol max_protocol now rows) refl
      (is_listed-entries_of min_protocol max_protocol now credential_id rows)

module _ (q : Entry → Bool) where
  some_of-values : (ps : List (Bytes × Entry)) → some_of q (values ps) ≡ some_of (λ p. q p.1) ps
  some_of-values [] = refl
  some_of-values ((key, e) ∷ ps) = ground (arith, some_of-values ps)

  some_of-keyed :
      (es : List Entry) (ps : List (Bytes × Entry))
      → keyed es ≡ some ps
      → some_of (λ p. q p.1) ps ≡ some_of q es
  some_of-keyed [] ps h = ground arith
  some_of-keyed (e ∷ es) ps h = by_key (from_hex e.credential_id) (keyed es) (some_of-keyed es) h
    where
      by_key :
          (key : Option Bytes) (rest : Option (List (Bytes × Entry)))
          → ((ps : List (Bytes × Entry)) → rest ≡ some ps → some_of (λ p. q p.1) ps ≡ some_of q es)
          → (elim key [
            | none ↦ none
            | some key ↦ elim rest [ none ↦ none | some rest ↦ some ((key, e) ∷ rest) ]
          ])
            ≡ some ps
          → some_of (λ p. q p.1) ps ≡ some_of q (e ∷ es)
      by_key none rest ih h = cc
      by_key (some key) none ih h = cc
      by_key (some key) (some rest) ih h =
          let p : (key, e) ∷ rest ≡ ps = cc in rw (← p) (ground (arith, ih rest refl))

  -- Sorting the entries loses and adds none.
  pub some_of-sort_entries :
      (es sorted : List Entry) → sort_entries es ≡ some sorted → some_of q sorted ≡ some_of q es
  unfolding sort_entries
  some_of-sort_entries es sorted h = by_keys (keyed es) refl h
    where
      by_keys :
          (k : Option (List (Bytes × Entry)))
          → keyed es ≡ k
          → (elim k [ none ↦ none | some pairs ↦ some (values (order_by (λ pair. pair.0) pairs)) ])
            ≡ some sorted
          → some_of q sorted ≡ some_of q es
      by_keys none k h = cc
      by_keys (some ps) k h =
          let p : values (order_by (λ pair. pair.0) ps) ≡ sorted = cc in
          rw (← p) (
            some_of-values (order_by (λ pair. pair.0) ps)
            ∙ some_of-order_by (λ pair. pair.0) (λ pair. q pair.1) ps
            ∙ some_of-keyed es ps k)
