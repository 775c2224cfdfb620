-- ===== src/Reminders/Handle/Writes.antt =====
-- What the statements behind a command about reminders spare, and a cancelling.
use mathlib.Core.Path.{subst}
use zcoms_agent.Prelude.{
  ℕ, Bool, true, false, not, ◌==◌, Option, none, some, inl, inr, ◌≡◌, refl, ap, sym, arith,
  if-either, All, Bool-cases,
}
use zcoms_agent.Prelude.Text.{Text, codes, text_eq, text_eq_refl}
use zcoms_agent.Store.Types.{Reminder, Database, Result, ok, err}
use zcoms_agent.Store.Db.{
  Db, World, query, statement, pure, now, head_fault, tail_faults, ◌>>=◌, ◌>>◌,
}
use zcoms_agent.Store.Rows.{find, exists, update, next_id}
use zcoms_agent.Store.Rows.Keys.{Distinct}
use zcoms_agent.Store.Preserves.{
  Preserves, IsPreorder, Preserves-pure, Preserves-now, Preserves-bind, Preserves-then,
  Preserves-statement, Preserves-statement_at, Preserves-refuse_if, Preserves-require_row,
  Preserves-continue,
}
use zcoms_agent.Store.Reminders.{
  has_id, cancelled, cancel_reminder, add_reminder_event, insert_event, create_reminder,
  insert_reminder, stored, prepared, get_reminder,
}
use zcoms_agent.Reminders.Words.{Requester, key_of}
use zcoms_agent.Reminders.Requests.{may_cancel, cancel_found, cancel_reply, CancelReply}
use zcoms_agent.Reminders.Handle.{Reply, reply_of, value_or, replied, read_or}
use zcoms_agent.Reminders.Handle.Spared.{
  Spares, select-update, select-insert, Holds, found-All, Spares-IsPreorder,
}

module _ (q : Requester) where
  pub kept : IsPreorder (Spares q)
  kept = Spares-IsPreorder q

  -- An operation whose errors become a reply or a default.
  pub replied-Spares :
      {A : Type 0} (f : A → Reply) (m : Db A)
      → Preserves (Spares q) m
      → Preserves (Spares q) (replied f m)
  unfolding replied
  replied-Spares {A = A} f m h = record { at = λ w. same (m w) w.db (h.at w) }
    where
      same :
          (p : Result A × World) (a : Database) → Spares q a p.1.db → Spares q a (reply_of f p).1.db
      same (ok x, v) a k = k
      same (err e, v) a k = k

  pub read_or-Spares :
      {A : Type 0} (a : A) (m : Db A) → Preserves (Spares q) m → Preserves (Spares q) (read_or a m)
  unfolding read_or
  read_or-Spares {A = A} a m h = record { at = λ w. same (m w) w.db (h.at w) }
    where
      same :
          (p : Result A × World) (b : Database) → Spares q b p.1.db → Spares q b (value_or a p).1.db
      same (ok x, v) b k = k
      same (err e, v) b k = k

  pub add_reminder_event-Spares :
      (i : ℕ) (kind detail : Text) → Preserves (Spares q) (add_reminder_event i kind detail)
  unfolding add_reminder_event insert_event
  add_reminder_event-Spares i kind detail = record { at = logged.at }
    where
      logged : Preserves (Spares q) (now >>= λ at. statement (insert_event i at kind detail))
      logged = Preserves-bind kept _ _ (Preserves-now kept) (λ at. Preserves-statement kept _ (λ db.
          if-either (λ (p : Result (Unit {0}) × Database). Spares q db p.1)
            (exists (has_id i) db.reminders) _ _ (λ _. (refl, refl, refl))
            (λ _. (refl, refl, refl))))

  pub create_reminder-Spares :
      (r : Reminder) → r.from_addr ≡ key_of q → Preserves (Spares q) (create_reminder r)
  unfolding create_reminder insert_reminder may_cancel
  create_reminder-Spares r own = Preserves-then kept _ _ (Preserves-refuse_if kept _ _) (
      Preserves-then kept _ _ (Preserves-refuse_if kept _ _) (
        Preserves-bind kept _ _ (Preserves-now kept) (λ at.
          Preserves-bind kept _ _
            (Preserves-statement kept _ (λ db. (
              select-insert (λ s. not (may_cancel q s)) _ db.reminders
                  (his (next_id (λ s. s.id) db.reminders) at),
              refl,
              refl,
            )))
            (λ i. Preserves-pure kept _))))
    where
      his : (i : ℕ) (at : Text) → not (may_cancel q (stored i (prepared at r))) ≡ false
      his i at =
          let same : text_eq r.from_addr (key_of q) ≡ true = rw own (text_eq_refl (key_of q)) in
          ground (arith, same)

  -- A cancelling, by one who may.
  cancel_reminder-Spares :
      (i : ℕ) (w : World)
      → All (λ r. has_id i r ≡ true → not (may_cancel q r) ≡ false) w.db.reminders
      → Spares q w.db (cancel_reminder i w).1.db
  unfolding cancel_reminder ◌>>=◌ now may_cancel
  cancel_reminder-Spares i w h =
      let S : Database → Result Bool × Database = λ db. (
        ok (exists (has_id i) db.reminders),
        record db { reminders = update (has_id i) (cancelled w.time) db.reminders },
      ) in
      Preserves-continue kept w.db (statement S w).0 _ (statement S w).1
        (Preserves-statement_at kept S w (
          select-update (λ r. not (may_cancel q r)) (has_id i) (cancelled w.time) (λ r. refl)
              w.db.reminders h,
          refl,
          refl,
        ))
        (λ met. Preserves-require_row kept met _)

  -- A query, and then what it is followed by from the same tables.
  after_query :
      {A B : Type 0} (f : Database → A) (k : A → Db B) (w : World)
      → ((v : World) → v.db ≡ w.db → Spares q w.db (k (f w.db) v).1.db)
      → Spares q w.db ((query f >>= k) w).1.db
  unfolding ◌>>=◌ statement
  after_query f k w h = elim (Bool-cases (head_fault w.faults)) [
    | inl fault ↦ rw fault (refl, refl, refl)
    | inr fine ↦ rw fine (h (record w { faults = tail_faults w.faults }) refl)
  ]

  cancelled-Spares :
      (i : ℕ) (w : World)
      → All (λ r. has_id i r ≡ true → not (may_cancel q r) ≡ false) w.db.reminders
      → (reply : CancelReply)
      → Spares q w.db
          ((cancel_reminder i >> (add_reminder_event i (codes "cancel") (codes "") >> pure reply))
            w).1.db
  unfolding ◌>>=◌
  cancelled-Spares i w h reply =
      Preserves-continue kept w.db (cancel_reminder i w).0 _ (cancel_reminder i w).1
        (cancel_reminder-Spares i w h)
        (λ done.
          Preserves-then kept _ _ (add_reminder_event-Spares i (codes "cancel") (codes ""))
            (Preserves-pure kept reply))

  pub cancel_reply-Spares :
      (i : ℕ) (w : World)
      → Distinct (λ (a b : Reminder). a.id == b.id) w.db.reminders
      → Spares q w.db (cancel_reply q i w).1.db
  unfolding cancel_reply get_reminder pure
  cancel_reply-Spares i w ids =
      after_query (λ db. find (has_id i) db.reminders) (cancel_found q i) w
        (λ v same.
          by_found (find (has_id i) w.db.reminders) v same
            (λ h. found-All _ i w.db.reminders ids h))
    where
      P : Reminder → Type 0
      P r = not (may_cancel q r) ≡ false

      permitted :
          (v : World)
          → v.db ≡ w.db
          → All (λ r. has_id i r ≡ true → P r) w.db.reminders
          → (reply : CancelReply)
          → Spares q w.db
              ((cancel_reminder i
                  >> (add_reminder_event i (codes "cancel") (codes "") >> pure reply))
                v).1.db
      permitted v same h reply =
          subst
            (λ d.
              Spares q d
                ((cancel_reminder i
                    >> (add_reminder_event i (codes "cancel") (codes "") >> pure reply))
                  v).1.db)
            same
            (cancelled-Spares i v
              (subst (λ (d : Database). All (λ r. has_id i r ≡ true → P r) d.reminders) (sym same)
                h)
              reply)

      by_found :
          (o : Option Reminder) (v : World)
          → v.db ≡ w.db
          → (Holds P o → All (λ r. has_id i r ≡ true → P r) w.db.reminders)
          → Spares q w.db (cancel_found q i o v).1.db
      by_found none v same h = subst (λ d. Spares q d v.db) same (kept.same v.db)
      by_found (some r) v same h =
          if-either (λ (m : Db CancelReply). Spares q w.db (m v).1.db) (may_cancel q r) _ _
            (λ may. permitted v same (h (ap not may)) _)
            (λ not_his. subst (λ d. Spares q d v.db) same (kept.same v.db))
