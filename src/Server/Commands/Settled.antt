-- ===== src/Server/Commands/Settled.antt =====
-- A command that was answered or withdrawn stays so.
use openscreentime.Common.{
  ℕ, ◌≡◌, refl, ap, ◌∙◌, Bool, true, false, ◌&&◌, Option, none, some, List, [], ◌∷◌, ◌++◌, arith,
  ◌==◌, if◌then◌else◌,
}
use openscreentime.Common.Text.{Text, codes, text_eq}
use openscreentime.Server.Commands.{
  Command, Payload, Queue, update, is_open, is_queued, is_due, is_code, is_old_code, fresh_row,
  empty, coalesces, pending_command, refresh_or, insert, mark_sent, to_sent, handed_over, answered,
  withdrawn, scrubbed, spent, asks_for, stays, can_ack, can_cancel, enqueue_command_delivered,
  enqueue_secret_command, pull_pending_commands, apply_command_ack, cancel, sweep, scrub_commands,
  scrub_request,
}
use openscreentime.Server.Commands.Rows.{
  row_at, SameId, changed, changed_row, row_at-update, row_at-append_kept, row_at-keep, row_if,
}
use openscreentime.Server.Commands.Steps.{
  Step, Reach, enqueued, hidden, pulled, answered_by, cancelled_by, swept, scrubbed_at, spent_by,
}
use openscreentime.Server.Commands.Reachable.{Reach-Inv, mark_pulled_due}

-- The row says the same of what became of the command.
pub record Same (c d : Command) : Type 0 where
  pub status : d.status ≡ c.status
  pub result : d.result ≡ c.result
  pub sent_at : d.sent_at ≡ c.sent_at
  pub acked_at : d.acked_at ≡ c.acked_at

-- The row is gone, or says the same.
pub data Kept (c : Command) : Option Command → Type 0 where
  gone : Kept c none
  kept : {d : Command} → Same c d → Kept c (some d)

-- A change that says the same of a command.
abbrev Quiet : (Command → Bool) → (Command → Command) → Command → Type 0
Quiet test change c = Same c (changed test change c)

Same-refl : (c : Command) → Same c c
Same-refl c = record { status = refl; result = refl; sent_at = refl; acked_at = refl }

Same-trans : {b c d : Command} → Same b c → Same c d → Same b d
Same-trans s t = record {
  status = t.status ∙ s.status;
  result = t.result ∙ s.result;
  sent_at = t.sent_at ∙ s.sent_at;
  acked_at = t.acked_at ∙ s.acked_at;
}

-- A row that is settled, found after a statement.
abbrev Found : ℕ → Command → List Command → Type 0
Found id c rows = (d : Command) × (row_at id rows ≡ some d) × Same c d

update-Found :
    (test : Command → Bool) (change : Command → Command) (id : ℕ) (c : Command)
    (rows : List Command)
    → SameId change
    → ((d : Command) → is_open d.status ≡ false → Quiet test change d)
    → is_open c.status ≡ false
    → Found id c rows
    → Found id c (update test change rows)
update-Found test change id c rows same quiet shut (d, e, s) = (
  changed test change d,
  row_at-update id test change rows same ∙ ap (changed_row test change) e,
  Same-trans s (quiet d (rw s.status shut)),
)

append-Found :
    (id : ℕ) (c e : Command) (rows : List Command) → Found id c rows → Found id c (rows ++ e ∷ [])
append-Found id c e rows (d, f, s) = (d, row_at-append_kept id rows d e f, s)

off-Quiet :
    (test : Command → Bool) (change : Command → Command) (d : Command)
    → test d ≡ false
    → Quiet test change d
off-Quiet test change d e = rw e (Same-refl d)

mark_sent-Found :
    (i now id : ℕ) (c : Command) (rows : List Command)
    → is_open c.status ≡ false
    → Found id c rows
    → Found id c (mark_sent i now rows)
unfolding mark_sent
mark_sent-Found i now id c rows shut f =
    update-Found (λ d. (d.id == i) && is_queued d.status) (to_sent now) id c rows
      (λ d. ground arith)
      (λ d o. off-Quiet (λ d. (d.id == i) && is_queued d.status) (to_sent now) d (ground arith))
      shut f

payload-Found :
    (test : Command → Bool) (payload : Payload) (id : ℕ) (c : Command) (rows : List Command)
    → is_open c.status ≡ false
    → Found id c rows
    → Found id c (update test (λ d. record d { payload = payload }) rows)
payload-Found test payload id c rows shut f =
    update-Found test (λ d. record d { payload = payload }) id c rows (λ d. ground arith)
      (λ d o. record {
        status = ground arith;
        result = ground arith;
        sent_at = ground arith;
        acked_at = ground arith;
      })
      shut f

insert-Found :
    (new device : ℕ) (kind : Text) (payload : Payload) (now id : ℕ) (c : Command)
    (rows : List Command)
    → is_open c.status ≡ false
    → Found id c rows
    → Found id c (insert new device kind payload now rows).0
unfolding insert
insert-Found new device kind payload now id c rows shut f =
    refreshed (if coalesces kind then pending_command device kind rows else none)
  where
    refreshed : (o : Option ℕ) → Found id c (refresh_or new device kind payload now rows o).0
    refreshed none = append-Found id c (fresh_row new device kind payload now) rows f
    refreshed (some old) = payload-Found (λ d. d.id == old) payload id c rows shut f

shut_due : (device now : ℕ) (d : Command) → is_open d.status ≡ false → is_due device now d ≡ false
unfolding is_due
shut_due device now d o = ground arith

kept_of : (id : ℕ) (c : Command) (rows : List Command) → Found id c rows → Kept c (row_at id rows)
kept_of id c rows (d, e, s) = rw e (kept s)

update-Kept :
    (test : Command → Bool) (change : Command → Command) (id : ℕ) (c : Command)
    (rows : List Command)
    → SameId change
    → ((d : Command) → is_open d.status ≡ false → Quiet test change d)
    → is_open c.status ≡ false
    → row_at id rows ≡ some c
    → Kept c (row_at id (update test change rows))
update-Kept test change id c rows same quiet shut e =
    kept_of id c (update test change rows)
      (update-Found test change id c rows same quiet shut (c, e, Same-refl c))

kept_if : (b : Bool) (c : Command) → Kept c (row_if b c)
kept_if true c = kept (Same-refl c)
kept_if false c = gone

-- In a queue that the operations reach, no operation, taken whole, changes what became of a command that
-- was answered, failed or withdrawn: its status, its result and its times stay, or the janitor takes its
-- row away.
pub Step-Kept :
    {q q' : Queue} (id : ℕ) (c : Command)
    → Reach q
    → Step q q'
    → row_at id q.rows ≡ some c
    → is_open c.status ≡ false
    → Kept c (row_at id q'.rows)
unfolding enqueue_command_delivered enqueue_secret_command pull_pending_commands apply_command_ack
    cancel sweep scrub_commands scrub_request
Step-Kept {q = q} id c r (enqueued true new device kind payload now f n) e shut =
    let p = insert new device kind payload now q.rows in
    kept_of id c (mark_sent p.1 now p.0) (
      mark_sent-Found p.1 now id c p.0 shut
        (insert-Found new device kind payload now id c q.rows shut (c, e, Same-refl c)))
Step-Kept {q = q} id c r (enqueued false new device kind payload now f n) e shut =
    kept_of id c (insert new device kind payload now q.rows).0
      (insert-Found new device kind payload now id c q.rows shut (c, e, Same-refl c))
Step-Kept {q = q} id c r (hidden true new device payload now f) e shut =
    let rows = q.rows ++ fresh_row new device (codes "login_code") empty now ∷ [] in
    kept_of id c (mark_sent new now rows) (
      mark_sent-Found new now id c rows shut (
        append-Found id c (fresh_row new device (codes "login_code") empty now) q.rows
          (c, e, Same-refl c)))
Step-Kept {q = q} id c r (hidden false new device payload now f) e shut =
    let rows = q.rows ++ fresh_row new device (codes "login_code") empty now ∷ [] in
    kept_of id c
      (update (λ d. (d.id == new) && is_queued d.status) (λ d. record d { payload = payload }) rows)
      (payload-Found (λ d. (d.id == new) && is_queued d.status) payload id c rows shut
        (append-Found id c (fresh_row new device (codes "login_code") empty now) q.rows
          (c, e, Same-refl c)))
Step-Kept {q = q} id c r (pulled device now) e shut =
    rw (mark_pulled_due device now q.rows (Reach-Inv r)) (
      update-Kept (is_due device now) (handed_over now) id c q.rows (λ d. ground arith)
        (λ d o. off-Quiet (is_due device now) (handed_over now) d (shut_due device now d o)) shut e)
Step-Kept {q = q} id c r (answered_by device i status result now) e shut =
    let change = answered (text_eq status (codes "failed")) result now in
    update-Kept (can_ack device i) change id c q.rows (λ d. ground arith)
      (λ d o. off-Quiet (can_ack device i) change d (ground arith)) shut e
Step-Kept {q = q} id c r (cancelled_by devices i) e shut =
    update-Kept (can_cancel devices i) withdrawn id c q.rows (λ d. ground arith)
      (λ d o. off-Quiet (can_cancel devices i) withdrawn d (ground arith)) shut e
Step-Kept {q = q} id c r (swept now) e shut =
    rw (row_at-keep id (stays now) q.rows c (Reach-Inv r).keyed e) (kept_if (stays now c) c)
Step-Kept {q = q} id c r (scrubbed_at now) e shut =
    update-Kept (is_old_code now) (scrubbed now) id c q.rows (λ d. ground arith)
      (λ d o. record {
        status = ground arith;
        result = ground arith;
        sent_at = ground arith;
        acked_at = ground arith;
      })
      shut e
Step-Kept {q = q} id c r (spent_by request) e shut =
    update-Kept (λ d. is_code d.kind && asks_for request d.payload) spent id c q.rows
      (λ d. ground arith)
      (λ d o. record {
        status = ground arith;
        result = ground arith;
        sent_at = ground arith;
        acked_at = ground arith;
      })
      shut e
