-- ===== src/Publisher/Settling.antt =====
-- What a mark of the worker leaves, whichever of the two it is, and that it leaves the rows of the
-- other events as they are.
use doxx.Base.{
  ℕ, ◌≡◌, refl, ◌≢◌, Bool, true, false, Option, none, some, List, [], ◌∷◌, arith, String,
  Bool-cases, Option-cases, inl, inr, ◌==◌, ◌=s=◌, ap, ◌∙◌, All, All-map_mono, Pairwise,
}
use mathlib.Core.Path.{sym}
use text.Mathlib.TextEquality.{eq_iff}
use doxx.Table.{find, find-update_where, find-passes, change_if, All-find}
use doxx.Store.Rows.{
  Time, Status, pending, publishing, leased, published, retryable, failed, OutboxRow, Attempt, Db,
  ScraperProductEvent,
}
use doxx.Store.Env.{Externals, Settings}
use doxx.Store.Settle.{settle, published_row, failed_row, mark_outbox_published, mark_outbox_failed}
use doxx.Store.Marking.{row_of}
use doxx.Store.Valid.{AreDistinct, IsValid}

-- The states that fit an outcome: an event that the broker accepted is published, one that it did
-- not accept is to be tried again or given up.
abbrev pub fits_outcome : Bool → Status → Bool
fits_outcome accepted pending = false
fits_outcome accepted publishing = false
fits_outcome accepted leased = false
fits_outcome true published = true
fits_outcome false published = false
fits_outcome true retryable = false
fits_outcome false retryable = true
fits_outcome true failed = false
fits_outcome false failed = true

-- The event has a row, the row shows the outcome, and both columns of its lease are empty.
pub record IsSettled (accepted : Bool) (event_id : String) (db : Db) : Type 0 where
  pub row : OutboxRow
  pub found : row_of event_id db ≡ some row
  pub status : fits_outcome accepted row.status ≡ true
  pub owner : row.lease_owner ≡ none
  pub expires : row.lease_expires_at ≡ none

-- A change that settles whatever row it is applied to.
record Closes (accepted : Bool) (change : OutboxRow → OutboxRow) (r : OutboxRow) : Type 0 where
  event : (change r).event_id ≡ r.event_id
  status : fits_outcome accepted (change r).status ≡ true
  owner : (change r).lease_owner ≡ none
  expires : (change r).lease_expires_at ≡ none

-- Among the rows, one with the id of `row` has its event.
abbrev SameEvent : OutboxRow → OutboxRow → Type 0
SameEvent row r = r.id ≡ row.id → r.event_id ≡ row.event_id

find-SameEvent :
    (p : OutboxRow → Bool) (rs : List OutboxRow) {row : OutboxRow}
    → Pairwise AreDistinct rs
    → find p rs ≡ some row
    → All (SameEvent row) rs
find-SameEvent p [] h e = tt
find-SameEvent p (x ∷ rs) {row} h e = elim (Bool-cases (p x)) [
  | inl t ↦
      let found : some x ≡ some row = rw t at e in
      let same : x ≡ row = cc found in
      (
        (λ i. ap (λ (r : OutboxRow). r.event_id) same),
        All-map_mono (AreDistinct x) (SameEvent row)
            (λ r d i. absurd (d.ids (i ∙ ap (λ (r : OutboxRow). r.id) (sym same)))) rs h.0,
      )
  | inr f ↦
      let later : find p rs ≡ some row = rw f at e in
      let d = All-find (AreDistinct x) p rs h.0 later in
      ((λ i. absurd (d.ids (cc i))), find-SameEvent p rs h.1 later)
]

module _ (accepted : Bool) (row : OutboxRow) (change : OutboxRow → OutboxRow) (st : Status)
    (now : Time) (a : Attempt) (db : Db) (closes : (r : OutboxRow) → Closes accepted change r) where
  row_of-settle :
      (j : String)
      → row_of j (settle row change st now a db)
        ≡ change_if (λ r. r.id == row.id) change (row_of j db)
  unfolding settle
  row_of-settle j =
      find-update_where (λ r. r.event_id =s= j) (λ r. r.id == row.id) change
        (λ r. ap (λ (e : String). e =s= j) (closes r).event) db.outbox

  settle-keeps-IsSettled :
      (event_id : String)
      → Pairwise AreDistinct db.outbox
      → row_of event_id db ≡ some row
      → (ok : Bool) (j : String) → j ≢ event_id
      → IsSettled ok j db
      → IsSettled ok j (settle row change st now a db)
  settle-keeps-IsSettled event_id distinct found ok j other s =
      elim (Bool-cases (s.row.id == row.id)) [
        | inl t ↦
            let same : s.row.event_id ≡ row.event_id =
              All-find (SameEvent row) (λ r. r.event_id =s= j) db.outbox
                (find-SameEvent (λ r. r.event_id =s= event_id) db.outbox distinct found) s.found
                (ground (arith, t)) in
            absurd (
              other (
                ground (
                  arith,
                  same,
                  find-passes (λ (r : OutboxRow). r.event_id =s= j) db.outbox s.found,
                  find-passes (λ (r : OutboxRow). r.event_id =s= event_id) db.outbox found,
                  eq_iff s.row.event_id j,
                  eq_iff row.event_id event_id,
                )))
        | inr f ↦ record {
          row = s.row;
          found = row_of-settle j ∙ ground (arith, s.found, f);
          status = s.status;
          owner = s.owner;
          expires = s.expires;
        }
      ]

  settle-IsSettled :
      (event_id : String)
      → row_of event_id db ≡ some row
      → IsSettled accepted event_id (settle row change st now a db)
  settle-IsSettled event_id found = record {
    row = change row;
    found = row_of-settle event_id ∙ ground (arith, found);
    status = (closes row).status;
    owner = (closes row).owner;
    expires = (closes row).expires;
  }

  settle-keeps-row :
      (j : String) → row_of j db ≢ none → row_of j (settle row change st now a db) ≢ none
  settle-keeps-row j h e = ground (arith, row_of-settle j, e, h)

published-Closes :
    (n : ℕ) (payload : Option String) (now : Time) (r : OutboxRow)
    → Closes true (published_row n payload now) r
unfolding published_row
published-Closes n payload now r = record {
  event = refl;
  status = refl;
  owner = refl;
  expires = refl;
}

failed-Closes :
    (again : Bool) (n : ℕ) (at_time : Time) (message : String) (now : Time) (r : OutboxRow)
    → Closes false (failed_row again n at_time message now) r
unfolding failed_row
failed-Closes true n at_time message now r = record {
  event = refl;
  status = refl;
  owner = refl;
  expires = refl;
}
failed-Closes false n at_time message now r = record {
  event = refl;
  status = refl;
  owner = refl;
  expires = refl;
}

-- What a mark of `event_id` does, of either kind.
pub record Marks (accepted : Bool) (event_id : String) (db db' : Db) : Type 0 where
  pub settles : row_of event_id db ≢ none → IsSettled accepted event_id db'
  pub keeps : (ok : Bool) (j : String) → j ≢ event_id → IsSettled ok j db → IsSettled ok j db'
  pub stays : (j : String) → row_of j db ≢ none → row_of j db' ≢ none

nothing_marked :
    (accepted : Bool) (event_id : String) (db : Db)
    → row_of event_id db ≡ none
    → Marks accepted event_id db db
nothing_marked accepted event_id db e = record {
  settles = λ h. absurd (h e);
  keeps = λ ok j other s. s;
  stays = λ j h. h;
}

settle-Marks :
    (accepted : Bool) (row : OutboxRow) (change : OutboxRow → OutboxRow) (st : Status) (now : Time)
    (a : Attempt) (db : Db)
    → ((r : OutboxRow) → Closes accepted change r)
    → IsValid db
    → (event_id : String) → row_of event_id db ≡ some row
    → Marks accepted event_id db (settle row change st now a db)
settle-Marks accepted row change st now a db closes valid event_id e = record {
  settles = λ h. settle-IsSettled accepted row change st now a db closes event_id e;
  keeps = settle-keeps-IsSettled accepted row change st now a db closes event_id valid.distinct e;
  stays = settle-keeps-row accepted row change st now a db closes;
}

pub mark_outbox_published-Marks :
    (ext : Externals) (event_id publisher_id : String) (event : Option ScraperProductEvent)
    (now : Time) (db : Db)
    → IsValid db
    → Marks true event_id db (mark_outbox_published ext event_id publisher_id event now db)
unfolding mark_outbox_published
mark_outbox_published-Marks ext event_id publisher_id event now db valid =
    elim (Option-cases (row_of event_id db)) [
      | inl e ↦ rw (e, mark_outbox_published) (nothing_marked true event_id db e)
      | inr (row, e) ↦
          rw (e, mark_outbox_published)
            (settle-Marks true row _ _ _ _ db (published-Closes _ _ _) valid event_id e)
    ]

pub mark_outbox_failed-Marks :
    (cfg : Settings) (event_id publisher_id message : String) (retry : Bool) (m b : Option ℕ)
    (now : Time) (db : Db)
    → IsValid db
    → Marks false event_id db
        (mark_outbox_failed cfg event_id publisher_id message retry m b now db)
unfolding mark_outbox_failed
mark_outbox_failed-Marks cfg event_id publisher_id message retry m b now db valid =
    elim (Option-cases (row_of event_id db)) [
      | inl e ↦ rw (e, mark_outbox_failed) (nothing_marked false event_id db e)
      | inr (row, e) ↦
          rw (e, mark_outbox_failed)
            (settle-Marks false row _ _ _ _ db (failed-Closes _ _ _ _ _) valid event_id e)
    ]
