-- ===== src/AclStore/Snapshots/Acks.antt =====
-- A Target may answer as often as it likes.
use smart_gatekeeper.Common.{
  ℕ, ◌≡◌, refl, ap, Bool, true, Option, none, some, list_eq, nat_eq, pair_eq, Bool-cases, inl, inr,
  beq_refl,
}
use smart_gatekeeper.Common.Dict.{lookup, lookup-set_item}
use smart_gatekeeper.AclStore.{
  Result, ok, failed, value_error, AckStatus, applied, rejected, AckKey, Ack, Db,
}
use smart_gatekeeper.AclStore.Snapshots.{same_answer, upserted, upsert_ack}

same_answer_refl : (s : AckStatus) → same_answer s s ≡ true
same_answer_refl applied = refl
same_answer_refl rejected = refl

-- An answer that is there under an ack id
abbrev pub HasAnswer : AckKey → AckStatus → ℕ → Db → Type 0
HasAnswer key status id db =
    (ack : Ack) × (lookup key db.acks ≡ some ack)
    × (same_answer ack.status status ≡ true)
    × (ack.ack_id ≡ id)

abbrev answer_id : Result (ℕ × Bool) → ℕ
answer_id (ok (id, dup)) = id
answer_id (failed e) = 0

upserted-HasAnswer :
    (key : AckKey) (status : AckStatus) (now : ℕ) (o : Option Ack) (db : Db) (id : ℕ) (dup : Bool)
    (db' : Db)
    → lookup key db.acks ≡ o
    → upserted key status now o db ≡ (ok (id, dup), db')
    → HasAnswer key status id db'
unfolding upserted
upserted-HasAnswer key status now none db id dup db' e h =
    let ack : Ack = record { ack_id = db.next_ack_id; status = status; acked_at = now } in
    let looked = lookup-set_item key key ack db.acks in
    let there = rw (beq_refl key) at looked in
    let acks = ap (λ x. x.1.acks) h in
    let is_id : db.next_ack_id ≡ id = ap (λ x. answer_id x.0) h in
    (ack, rw (← acks) there, same_answer_refl status, is_id)
upserted-HasAnswer key status now (some ack) db id dup db' e h =
    elim (Bool-cases (same_answer ack.status status)) [
      | inl same ↦
          let h' : (ok (ack.ack_id, true), db) ≡ (ok (id, dup), db') = rw same at h in
          let acks = ap (λ x. x.1.acks) h' in
          let is_id : ack.ack_id ≡ id = ap (λ x. answer_id x.0) h' in
          (ack, rw (← acks) e, same, is_id)
      | inr other ↦
          let h' : (failed value_error, db) ≡ (ok (id, dup), db') = rw other at h in absurd cc
    ]

answer_again :
    (key : AckKey) (status : AckStatus) (now id : ℕ) (o : Option Ack) (db : Db)
    → lookup key db.acks ≡ o
    → HasAnswer key status id db
    → upserted key status now o db ≡ (ok (id, true), db)
unfolding upserted
answer_again key status now id none db e (ack, found, same, is_id) = absurd cc
answer_again key status now id (some other) db e (ack, found, same, is_id) =
    let q : other ≡ ack = cc in rw (q, same, is_id) refl

-- An answer that was taken is taken again, at any later time, under the same ack id and as a duplicate,
-- and the second one changes nothing.
pub upsert_ack-again :
    (key : AckKey) (status : AckStatus) (now later : ℕ) (db : Db) (id : ℕ) (dup : Bool) (db' : Db)
    → upsert_ack key status now db ≡ (ok (id, dup), db')
    → upsert_ack key status later db' ≡ (ok (id, true), db')
unfolding upsert_ack
upsert_ack-again key status now later db id dup db' h =
    answer_again key status later id (lookup key db'.acks) db' refl
      (upserted-HasAnswer key status now (lookup key db.acks) db id dup db' refl h)
