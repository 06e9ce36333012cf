-- ===== src/Acl/Lease.antt =====
-- When a target may use a snapshot that it holds.
use smart_gatekeeper.Common.{
  ℕ, ◌+◌, ◌≤◌, ◌<◌, ◌≡◌, ◌≢◌, ◌⊎◌, inl, inr, refl, Bool, true, false, Option, none, some, arith,
  list_beq_iff, list_eq, nat_eq, Bool-cases, Option-cases, leb, not, ◌&&◌, ◌||◌,
}
use smart_gatekeeper.Common.Text.{Text}
use smart_gatekeeper.Common.Try.{Try, done, gave_up, raised, compare_digest}
use smart_gatekeeper.Acl.Receipts.{
  Receipt, acl_snapshot_is_usable, usable_by, decided, is_blank, trusted_time_valid, in_lease,
}

-- The trusted clock shows a time in the snapshot's validity and, where the receipt has one, in the lease
-- from the trusted time of receipt.
abbrev pub IsTrustedTime : Receipt → ℕ → Type 0
IsTrustedTime r now =
    (r.not_before ≤ now)
    × (now < r.expires_at)
    × ((received : ℕ)
        → r.received_epoch ≡ some received
        → (received ≤ now) × (now < received + r.lease_seconds))

in_lease-true :
    (lease now : ℕ) (o : Option ℕ)
    → in_lease lease now o ≡ true
    → (received : ℕ) → o ≡ some received
    → (received ≤ now) × (now < received + lease)
in_lease-true lease now none h received e = cc
in_lease-true lease now (some r) h received e = ground arith

trusted-true :
    (r : Receipt) (now : ℕ) → trusted_time_valid r (some now) ≡ true → IsTrustedTime r now
trusted-true r now h =
    (ground arith, ground arith, in_lease-true r.lease_seconds now r.received_epoch (ground arith))

abbrev pub IsUsable : Receipt → Type 0
IsUsable r =
    (1 ≤ r.lease_seconds)
    × (r.lease_seconds ≤ 3600)
    × ((now : ℕ) → r.trusted_now ≡ some now → IsTrustedTime r now)
    × (((r.receipt_boot_id ≡ r.current_boot_id)
          × (r.received_monotonic ≤ r.now_monotonic)
          × (r.now_monotonic < r.received_monotonic + r.lease_seconds))
        ⊎ ((r.receipt_boot_id ≢ r.current_boot_id)
            × ((received : ℕ) × (now : ℕ) × (r.received_epoch ≡ some received)
                × (r.trusted_now ≡ some now))))

usable_by_sound :
    (r : Receipt) (b : Bool)
    → usable_by r b ≡ true
    → ((now : ℕ) → r.trusted_now ≡ some now → trusted_time_valid r (some now) ≡ true)
      × ((b ≡ true)
            × (r.received_monotonic ≤ r.now_monotonic)
            × (r.now_monotonic < r.received_monotonic + r.lease_seconds)
          ⊎ (b ≡ false)
            × ((received : ℕ) × (now : ℕ) × (r.received_epoch ≡ some received)
                × (r.trusted_now ≡ some now)))
usable_by_sound r true h =
    (λ now e. let h' = rw e at h in ground arith, inl (refl, ground arith, ground arith))
usable_by_sound r false h = elim (Option-cases r.trusted_now) [
  | inl unknown ↦ absurd (let h' = rw unknown at h in ground arith)
  | inr (now, known) ↦ elim (Option-cases r.received_epoch) [
    | inl never ↦ absurd (let h' = rw never at h in ground arith)
    | inr (received, was) ↦
        (λ now' e. let h' = rw e at h in ground arith, inr (refl, (received, now, was, known)))
  ]
]

decided-true :
    (r : Receipt) (o : Try Bool)
    → decided r o ≡ done true
    → (b : Bool) × (o ≡ done b) × (usable_by r b ≡ true)
decided-true r (done b) h = (b, refl, cc)
decided-true r gave_up h = cc
decided-true r raised h = cc

compared :
    (a b : Text) (c : Bool) → compare_digest a b ≡ done c → (c ≡ true → a ≡ b) × (c ≡ false → a ≢ b)
unfolding compare_digest
compared a b c h =
    (λ e. ground (arith, list_beq_iff a b), λ e q. absurd (ground (arith, list_beq_iff a b)))

-- If `acl_snapshot_is_usable` answers true, then the lease is between one second and an hour, the time
-- of a trusted clock, where there is one, is in the snapshot's validity and in the lease from the
-- trusted time of receipt, and either the target still has the boot of the receipt and its monotonic
-- clock is in the lease, or it has another boot and both trusted times are known.
pub acl_snapshot_is_usable-IsUsable :
    (r : Receipt) → acl_snapshot_is_usable r ≡ done true → IsUsable r
unfolding acl_snapshot_is_usable
acl_snapshot_is_usable-IsUsable r h =
    let compare' = compare_digest r.receipt_boot_id r.current_boot_id in
    elim (Bool-cases (
      not (leb 1 r.lease_seconds && leb r.lease_seconds 3600)
      || is_blank r.receipt_boot_id
      || is_blank r.current_boot_id)) [
        | inl refused ↦ absurd (let h' : done false ≡ done true = rw refused at h in cc)
        | inr valid ↦
            let (b, e, by) = decided-true r compare' (rw valid at h) in
            let (same, other) = compared r.receipt_boot_id r.current_boot_id b e in
            let (trusted, rest) = usable_by_sound r b by in
            (
              ground arith,
              ground arith,
              λ now q. trusted-true r now (trusted now q),
              elim rest [
                | inl (q, from, until) ↦ inl (same q, from, until)
                | inr (q, known) ↦ inr (other q, known)
              ],
            )
      ]
