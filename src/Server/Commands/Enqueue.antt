-- ===== src/Server/Commands/Enqueue.antt =====
-- Insertions keep the table well-formed.
use openscreentime.Common.{
  ℕ, ◌≡◌, refl, ◌∙◌, inl, inr, Bool, true, false, ◌&&◌, none, some, List, [], ◌∷◌, ◌++◌, arith,
  ◌==◌, any, find_first, Bool-cases, Option-cases,
}
use openscreentime.Common.Text.{Text, codes, text_eq→eq}
use openscreentime.Server.Commands.{
  Command, Payload, empty, Queue, update, is_queued, open_of, fresh_row, pending_command, coalesces,
  is_code, insert, mark_sent, to_sent, enqueue_command_delivered, enqueue_secret_command,
}
use openscreentime.Server.Commands.Rows.{
  has_id, row_at, SameId, changed, row_at-update, row_at-append, row_at_found,
}
use openscreentime.Server.Commands.Counts.{open_count, none_open}
use openscreentime.Server.Commands.Invariant.{Sealed, Inv, append-Inv, one_row-Inv}

-- The row that an insertion leaves under its id.
abbrev Left : List Command × ℕ → Type 0
Left p = (c : Command) × (row_at p.1 p.0 ≡ some c) × (is_code c.kind ≡ false)

open_kind : (device : ℕ) (kind : Text) (c : Command) → open_of device kind c ≡ true → c.kind ≡ kind
open_kind device kind c h = text_eq→eq c.kind kind (ground arith)

append_Left :
    (id device : ℕ) (kind : Text) (payload : Payload) (now : ℕ) (rows : List Command)
    → any (has_id id) rows ≡ false
    → is_code kind ≡ false
    → ((d : ℕ) (k : Text)
        → coalesces k ≡ true
        → open_of d k (fresh_row id device kind payload now) ≡ true
        → open_count d k rows ≡ 0)
    → Inv rows
    → Inv (rows ++ fresh_row id device kind payload now ∷ [])
      × Left (rows ++ fresh_row id device kind payload now ∷ [], id)
append_Left id device kind payload now rows f n alone i =
    let c = fresh_row id device kind payload now in
    (append-Inv rows c f (ground arith) alone i, (c, row_at-append rows c f, n))

refresh_Left :
    (id device : ℕ) (kind : Text) (payload : Payload) (now : ℕ) (rows : List Command) (c : Command)
    → is_code kind ≡ false
    → find_first (open_of device kind) rows ≡ some c
    → Inv rows
    → let rows' = update (λ d. d.id == c.id) (λ d. record d { payload = payload }) rows in
      Inv rows' × Left (rows', c.id)
refresh_Left id device kind payload now rows c n e i =
    let found = row_at_found (open_of device kind) rows c i.keyed e in
    let plain : is_code c.kind ≡ false = rw (open_kind device kind c found.1) n in
    let one : SameId (λ d. record d { payload = payload }) = λ d. ground arith in
    (
      one_row-Inv (λ d. d.id == c.id) (λ d. record d { payload = payload }) c.id rows c (λ d h. h)
          found.0 one (λ d k b o. ground arith) (ground arith) i,
      (
        record c { payload = payload },
        row_at-update c.id (λ d. d.id == c.id) (λ d. record d { payload = payload }) rows one
            ∙ (let self : (c.id == c.id) ≡ true = ground arith in rw (found.0, self) refl),
        plain,
      ),
    )

insert-Left :
    (id device : ℕ) (kind : Text) (payload : Payload) (now : ℕ) (rows : List Command)
    → any (has_id id) rows ≡ false
    → is_code kind ≡ false
    → Inv rows
    → Inv (insert id device kind payload now rows).0 × Left (insert id device kind payload now rows)
unfolding insert pending_command
insert-Left id device kind payload now rows f n i = elim (Bool-cases (coalesces kind)) [
  | inl k ↦ elim (Option-cases (find_first (open_of device kind) rows)) [
    | inl e ↦
        rw (k, e) (append_Left id device kind payload now rows f n (λ d k' h o. alone d k' e o) i)
    | inr (c, e) ↦ rw (k, e) (refresh_Left id device kind payload now rows c n e i)
  ]
  | inr k ↦ rw k (append_Left id device kind payload now rows f n (λ d k' h o. other d k' h o k) i)
]
  where
    alone :
        (d : ℕ) (k' : Text)
        → find_first (open_of device kind) rows ≡ none
        → open_of d k' (fresh_row id device kind payload now) ≡ true
        → open_count d k' rows ≡ 0
    alone d k' e o =
        let same : device ≡ d = ground arith in
        rw⁻¹ same (
          rw⁻¹ (open_kind d k' (fresh_row id device kind payload now) o)
            (none_open device kind rows e))

    other :
        (d : ℕ) (k' : Text)
        → coalesces k' ≡ true
        → open_of d k' (fresh_row id device kind payload now) ≡ true
        → coalesces kind ≡ false
        → open_count d k' rows ≡ 0
    other d k' h o k =
        let h' : coalesces kind ≡ true =
          rw (open_kind d k' (fresh_row id device kind payload now) o) h in
        cc (h', k)

mark_sent-Inv :
    (id now : ℕ) (rows : List Command) (c : Command)
    → row_at id rows ≡ some c
    → Sealed (changed (λ d. (d.id == id) && is_queued d.status) (to_sent now) c)
    → Inv rows
    → Inv (mark_sent id now rows)
unfolding mark_sent
mark_sent-Inv id now rows c e s i =
    one_row-Inv (λ d. (d.id == id) && is_queued d.status) (to_sent now) id rows c
      (λ d h. ground arith) e (λ d. ground arith) (λ d k b o. ground arith) s i

pub enqueue_command_delivered-Inv :
    (live : Bool) (id device : ℕ) (kind : Text) (payload : Payload) (now : ℕ) (q : Queue)
    → any (has_id id) q.rows ≡ false
    → is_code kind ≡ false
    → Inv q.rows
    → Inv (enqueue_command_delivered live id device kind payload now q).0.rows
unfolding enqueue_command_delivered
enqueue_command_delivered-Inv false id device kind payload now q f n i =
    (insert-Left id device kind payload now q.rows f n i).0
enqueue_command_delivered-Inv true id device kind payload now q f n i =
    let p = insert id device kind payload now q.rows in
    let (j, l) = insert-Left id device kind payload now q.rows f n i in
    let (c, e, plain) = l in mark_sent-Inv p.1 now p.0 c e (ground arith) j

abbrev secret_row : ℕ → ℕ → ℕ → Command
secret_row id device now = fresh_row id device (codes "login_code") empty now

code_stays_alone : coalesces (codes "login_code") ≡ false
unfolding coalesces
code_stays_alone = refl

append_secret :
    (id device now : ℕ) (rows : List Command)
    → any (has_id id) rows ≡ false
    → Inv rows
    → Inv (rows ++ secret_row id device now ∷ [])
append_secret id device now rows f i =
    append-Inv rows (secret_row id device now) f (ground arith)
      (λ d k h o.
        let h' : coalesces (codes "login_code") ≡ true =
          rw (open_kind d k (secret_row id device now) o) h in
        cc (h', code_stays_alone))
      i

pub enqueue_secret_command-Inv :
    (live : Bool) (id device : ℕ) (payload : Payload) (now : ℕ) (q : Queue)
    → any (has_id id) q.rows ≡ false
    → Inv q.rows
    → Inv (enqueue_secret_command live id device (codes "login_code") payload now q).0.rows
unfolding enqueue_secret_command
enqueue_secret_command-Inv true id device payload now q f i =
    mark_sent-Inv id now (q.rows ++ secret_row id device now ∷ []) (secret_row id device now)
      (row_at-append q.rows (secret_row id device now) f) (ground arith)
      (append_secret id device now q.rows f i)
enqueue_secret_command-Inv false id device payload now q f i =
    one_row-Inv (λ d. (d.id == id) && is_queued d.status) (λ d. record d { payload = payload }) id
      (q.rows ++ secret_row id device now ∷ []) (secret_row id device now) (λ d h. ground arith)
      (row_at-append q.rows (secret_row id device now) f) (λ d. ground arith)
      (λ d k b o. ground arith) (ground arith) (append_secret id device now q.rows f i)
