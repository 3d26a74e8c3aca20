-- ===== src/Transfers/Attempts.antt =====
-- What `recordEconomyTransferAttempt` of src/exchange_service.cpp notes, and what it leaves alone.
use endstone_exchange.Common.{
  ◌∙◌, ◌+◌, ◌≤◌, ◌≡◌, ◌≢◌, ◌⊎◌, inl, inr, refl, sym, ap, subst, Bool, true, false, not, ◌==◌,
  Option, some, none, List, [], ◌∷◌, All, arith, String, Bool-cases, if◌then◌else◌,
}
use endstone_exchange.Table.{select, first, update, affected, first-update_map}
use endstone_exchange.Table.Keys.{IsKeyed}
use endstone_exchange.Tx.{Result, ok, err, Error, Outcome}
use endstone_exchange.Domain.{RowId, TransferStatus, transfer_is_prepared, transfer_is_failed}
use endstone_exchange.Store.{Db, Transfer}
use endstone_exchange.Transfers.{
  slice, has_transfer, is_prepared_transfer, update_transfers, find_transfer, attempted,
  record_attempt,
}

status_failed : (x : TransferStatus) → transfer_is_failed x ≡ true → x ≡ TransferStatus.failed
status_failed TransferStatus.failed h = refl
status_failed x h = cc

status_not_failed : (x : TransferStatus) → transfer_is_failed x ≡ false → x ≢ TransferStatus.failed
status_not_failed x h e = let yes : transfer_is_failed x ≡ true = rw e refl in cc

status_prepared : (x : TransferStatus) → transfer_is_prepared x ≡ true → x ≡ TransferStatus.prepared
status_prepared TransferStatus.prepared h = refl
status_prepared x h = cc

-- The row with one attempt more, and its cause cut to 500 bytes
abbrev pub IsNoted : RowId → String → Db → Outcome Db (Unit {0}) → Transfer → Type 0
IsNoted i e s (r, s') t =
    (find_transfer i s ≡ some t)
    × (t.status ≡ TransferStatus.prepared)
    × (r ≡ ok tt)
    × (find_transfer i s'
        ≡ some
            (record t { attempt_count = t.attempt_count + 1; last_error = some (slice e 0 500) }))
    × (select (λ x. not (x.id == i)) s'.transfers ≡ select (λ x. not (x.id == i)) s.transfers)
    × (record s' { transfers = s.transfers } ≡ s)

-- The answer where no row was changed: an exception for no row and for one that has failed
abbrev pub IsAnswer : RowId → Db → Result (Unit {0}) → Type 0
IsAnswer i s r =
    ((r ≡ err Error.prepared_transfer_missing) × (find_transfer i s ≡ none))
    ⊎ ((t : Transfer) × (find_transfer i s ≡ some t)
        × (((r ≡ err Error.prepared_transfer_missing) × (t.status ≡ TransferStatus.failed))
            ⊎ ((r ≡ ok tt) × (t.status ≢ TransferStatus.failed))))

prepared-le :
    (i : RowId) (ts : List Transfer)
    → affected (is_prepared_transfer i) ts ≤ affected (has_transfer i) ts
unfolding affected
prepared-le i [] = omega arith
prepared-le i (x ∷ xs) = ground (arith, prepared-le i xs)

-- No row with the id is prepared.
abbrev pub IsUnprepared : RowId → List Transfer → Type 0
IsUnprepared i = All (λ t. (t.id ≢ i) ⊎ (t.status ≢ TransferStatus.prepared))

zero-IsUnprepared :
    (i : RowId) (ts : List Transfer) → affected (is_prepared_transfer i) ts ≡ 0 → IsUnprepared i ts
unfolding affected
zero-IsUnprepared i [] h = tt
zero-IsUnprepared i (x ∷ xs) h = elim (Bool-cases (x.id == i)) [
  | inl e ↦ (
    inr (λ q. let yes : transfer_is_prepared x.status ≡ true = rw q refl in absurd (ground arith)),
    zero-IsUnprepared i xs (ground arith),
  )
  | inr e ↦ (inl (λ q. absurd (ground arith)), zero-IsUnprepared i xs (ground arith))
]

-- A table in which one row at most has the id has a prepared row with it, or none.
prepared_row :
    (i : RowId) (ts : List Transfer)
    → affected (has_transfer i) ts ≤ 1
    → ((t : Transfer) × (first (has_transfer i) ts ≡ some t)
        × (is_prepared_transfer i t ≡ true)
        × (affected (is_prepared_transfer i) ts ≡ 1))
      ⊎ (affected (is_prepared_transfer i) ts ≡ 0)
unfolding affected first
prepared_row i [] u = inr refl
prepared_row i (x ∷ xs) u = elim (Bool-cases (x.id == i)) [
  | inl e ↦ elim (Bool-cases (transfer_is_prepared x.status)) [
    | inl z ↦ inl (x, rw e refl, rw e z, ground (arith, prepared-le i xs))
    | inr z ↦ inr (ground (arith, prepared-le i xs))
  ]
  | inr e ↦ elim (prepared_row i xs (ground arith)) [
    | inl (t, f, p, one) ↦ inl (t, rw e f, p, rw e one)
    | inr zero_rows ↦ inr (rw e zero_rows)
  ]
]

update_none :
    (p : Transfer → Bool) (f : Transfer → Transfer) (ts : List Transfer)
    → affected p ts ≡ 0
    → update p f ts ≡ ts
unfolding affected update
update_none p f [] h = refl
update_none p f (x ∷ xs) h = elim (Bool-cases (p x)) [
  | inl e ↦ absurd (ground arith)
  | inr e ↦ rw e (ap (λ rest. x ∷ rest) (update_none p f xs (ground arith)))
]

-- An update of rows with an id leaves the rows with other ids.
others_same :
    (i : RowId) (f : Transfer → Transfer) (ts : List Transfer)
    → ((t : Transfer) → (f t).id ≡ t.id)
    → select (λ x. not (x.id == i)) (update (is_prepared_transfer i) f ts)
      ≡ select (λ x. not (x.id == i)) ts
unfolding select update
others_same i f [] same = refl
others_same i f (x ∷ xs) same = elim (Bool-cases (x.id == i)) [
  | inl e ↦ elim (Bool-cases (transfer_is_prepared x.status)) [
    | inl z ↦ rw e (rw z (rw (same x) (rw e (others_same i f xs same))))
    | inr z ↦ rw e (rw z (rw e (others_same i f xs same)))
  ]
  | inr e ↦ rw e (rw e (ap (λ rest. x ∷ rest) (others_same i f xs same)))
]

run_noted :
    (i : RowId) (e : String) (s : Db)
    → affected (is_prepared_transfer i) s.transfers ≡ 1
    → record_attempt i e s ≡ (ok tt, update_transfers (is_prepared_transfer i) (attempted e) s)
unfolding record_attempt
run_noted i e s one = rw one refl

noted :
    (i : RowId) (e : String) (s : Db) (t : Transfer)
    → first (has_transfer i) s.transfers ≡ some t
    → is_prepared_transfer i t ≡ true
    → IsNoted i e s (ok tt, update_transfers (is_prepared_transfer i) (attempted e) s) t
unfolding find_transfer update_transfers
noted i e s t found p = (
  found,
  status_prepared t.status (ground arith),
  refl,
  changed,
  others_same i (attempted e) s.transfers (λ x. refl),
  refl,
)
  where
    changed :
        first (has_transfer i) (update (is_prepared_transfer i) (attempted e) s.transfers)
        ≡ some (record t { attempt_count = t.attempt_count + 1; last_error = some (slice e 0 500) })
    changed =
        first-update_map (has_transfer i) (is_prepared_transfer i) (attempted e) s.transfers t
          (λ x. refl) found
        ∙ rw p (
            ap (λ n. some (record t { attempt_count = n; last_error = some (slice e 0 500) }))
              (omega arith))

abbrev answered : Db → Option Transfer → Outcome Db (Unit {0})
answered s none = (err Error.prepared_transfer_missing, s)
answered s (some t) =
    if transfer_is_failed t.status then (err Error.prepared_transfer_missing, s) else (ok tt, s)

run_none :
    (i : RowId) (e : String) (s : Db)
    → affected (is_prepared_transfer i) s.transfers ≡ 0
    → record_attempt i e s ≡ answered s (find_transfer i s)
unfolding record_attempt update_transfers
run_none i e s zero_rows =
    let same : update_transfers (is_prepared_transfer i) (attempted e) s ≡ s =
      ap (λ ts. record s { transfers = ts })
        (update_none (is_prepared_transfer i) (attempted e) s.transfers zero_rows) in
    rw zero_rows (ap (λ x. answered x (find_transfer i x)) same)

answered-IsAnswer :
    (i : RowId) (s : Db) (o : Option Transfer)
    → find_transfer i s ≡ o
    → ((answered s o).1 ≡ s) × IsAnswer i s (answered s o).0
answered-IsAnswer i s none h = (refl, inl (refl, h))
answered-IsAnswer i s (some t) h = elim (Bool-cases (transfer_is_failed t.status)) [
  | inl z ↦ rw z (refl, inr (t, h, inl (refl, status_failed t.status z)))
  | inr z ↦ rw z (refl, inr (t, h, inr (refl, status_not_failed t.status z)))
]

-- In a table with ids of their own, `recordEconomyTransferAttempt` does one of two things. For a prepared transfer with
-- the id it answers without an exception, the row has one attempt more and the cause cut to 500 bytes
-- and is else as before, and so is the rest of the database. Or nothing is changed; then it throws where there is no row
-- with the id or the transfer has failed, and else it does not.
pub record_attempt-IsNoted :
    (i : RowId) (e : String) (s : Db)
    → IsKeyed (λ (t : Transfer). t.id) s.next_transfer s.transfers
    → ((t : Transfer) × IsNoted i e s (record_attempt i e s) t)
      ⊎ (IsUnprepared i s.transfers
          × ((record_attempt i e s).1 ≡ s)
          × IsAnswer i s (record_attempt i e s).0)
record_attempt-IsNoted i e s k = elim (prepared_row i s.transfers (k.unique i)) [
  | inl (t, found, p, one) ↦
      inl (t, subst (λ o. IsNoted i e s o t) (sym (run_noted i e s one)) (noted i e s t found p))
  | inr zero_rows ↦
      let (same, answer) =
        subst (λ o. (o.1 ≡ s) × IsAnswer i s o.0) (sym (run_none i e s zero_rows))
          (answered-IsAnswer i s (find_transfer i s) refl) in
      inr (zero-IsUnprepared i s.transfers zero_rows, same, answer)
]
