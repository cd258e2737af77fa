-- ===== src/Server/Voucher/Single.antt =====
-- How often a voucher signs in.
use openscreentime.Common.{
  ℕ, ◌+◌, ◌≤◌, ◌≡◌, refl, inl, inr, Bool, true, false, ◌&&◌, not, Option, none, some, List, [], ◌∷◌,
  ◌++◌, arith, ltb, ◌==◌, if◌then◌else◌, any, keep, find_first, is_some, length, Bool-cases,
  Option-cases,
}
use openscreentime.Common.Text.{Text, codes, text_eq, trim}
use openscreentime.Server.Ledger.{login_of}
use openscreentime.Server.Voucher.{
  Voucher, Door, Member, Outcome, minted, signed_in, denied, is_live, consumed, change_vouchers,
  mint, mint_for, mint_as, mint_row, member_of, own_device, linked_account, redeem, enter, enter_as,
  sign_in,
}

-- A token that is drawn for a login of a computer, and one that is redeemed.
pub data Visit : Type 0 where
  mints : ℕ → ℕ → ℕ → Text → ℕ → Visit
  redeems : ℕ → ℕ → ℕ → ℕ → Visit

abbrev pub is_signed_in : Outcome → Bool
is_signed_in (minted hash) = false
is_signed_in (signed_in account) = true
is_signed_in (denied why) = false

abbrev pub is_minted : Outcome → Bool
is_minted (minted hash) = true
is_minted (signed_in account) = false
is_minted (denied why) = false

module _ (lower : Text → Text) where
  unfoldable pub visit : Visit → Door → Door × Outcome
  visit (mints hash device tenant name now) st = mint lower hash device tenant name now st
  visit (redeems hash id token now) st = redeem hash id token now st

  abbrev pub is_about : ℕ → Visit → Bool
  is_about i (mints hash device tenant name now) = hash == i
  is_about i (redeems hash id token now) = hash == i

  -- How often a token signs in, and how often it was drawn.
  unfoldable pub sign_ins : ℕ → List Visit → Door → ℕ
  sign_ins i [] st = 0
  sign_ins i (v ∷ vs) st =
      let p = visit v st in (if is_about i v && is_signed_in p.1 then 1 else 0) + sign_ins i vs p.0

  unfoldable pub drawn : ℕ → List Visit → Door → ℕ
  drawn i [] st = 0
  drawn i (v ∷ vs) st =
      let p = visit v st in (if is_about i v && is_minted p.1 then 1 else 0) + drawn i vs p.0

abbrev pub is_unused : ℕ → Voucher → Bool
is_unused i v = (v.hash == i) && not (is_some v.consumed_at)

abbrev pub unused : ℕ → List Voucher → ℕ
unused i vouchers = length (keep (is_unused i) vouchers)

unused-keep : (i : ℕ) (p : Voucher → Bool) (vs : List Voucher) → unused i (keep p vs) ≤ unused i vs
unused-keep i p [] = ground arith
unused-keep i p (v ∷ vs) =
    let rest = unused-keep i p vs in
    elim (Bool-cases (p v)) [
      | inl e ↦ rw e (elim (Bool-cases (is_unused i v)) [
        | inl f ↦ rw f (ground (arith, rest))
        | inr f ↦ rw f rest
      ])
      | inr e ↦ rw e (elim (Bool-cases (is_unused i v)) [
        | inl f ↦ rw f (ground (arith, rest))
        | inr f ↦ rw f rest
      ])
    ]

unused-append :
    (i : ℕ) (vs : List Voucher) (v : Voucher)
    → unused i (vs ++ v ∷ []) ≡ unused i vs + (if is_unused i v then 1 else 0)
unused-append i [] v = elim (Bool-cases (is_unused i v)) [ inl e ↦ rw e refl | inr e ↦ rw e refl ]
unused-append i (w ∷ vs) v = elim (Bool-cases (is_unused i w)) [
  | inl e ↦ rw e (ground (arith, unused-append i vs v))
  | inr e ↦ rw e (unused-append i vs v)
]

unused-change :
    (i hash now : ℕ) (vs : List Voucher)
    → unused i (change_vouchers (is_live hash now) (consumed now) vs) ≤ unused i vs
unused-change i hash now [] = ground arith
unused-change i hash now (v ∷ vs) =
    let rest = unused-change i hash now vs in
    elim (Bool-cases (is_live hash now v)) [
      | inl e ↦
          let gone : is_unused i (consumed now v) ≡ false = ground arith in
          rw (e, gone)
            (elim (Bool-cases (is_unused i v)) [
              | inl f ↦ rw f (ground (arith, rest))
              | inr f ↦ rw f rest
            ])
      | inr e ↦ rw e (elim (Bool-cases (is_unused i v)) [
        | inl f ↦ rw f (ground (arith, rest))
        | inr f ↦ rw f rest
      ])
    ]

-- A voucher that is found is used.
unused-found :
    (i hash now : ℕ) (vs : List Voucher) (v : Voucher)
    → find_first (is_live hash now) vs ≡ some v
    → unused i (change_vouchers (is_live hash now) (consumed now) vs) + (if hash == i then 1 else 0)
      ≤ unused i vs
unused-found i hash now [] v e = cc
unused-found i hash now (w ∷ vs) v e = elim (Bool-cases (is_live hash now w)) [
  | inl l ↦
      let gone : is_unused i (consumed now w) ≡ false = ground arith in
      let same : is_unused i w ≡ (hash == i) = ground (arith, l) in
      let rest = unused-change i hash now vs in
      rw (l, gone, same)
        (elim (Bool-cases (hash == i)) [
          | inl f ↦ rw f (ground (arith, rest))
          | inr f ↦ rw f (ground (arith, rest))
        ])
  | inr l ↦
      let rest = unused-found i hash now vs v (rw l at e) in
      rw l (elim (Bool-cases (is_unused i w)) [
        | inl f ↦ rw f (ground (arith, rest))
        | inr f ↦ rw f rest
      ])
]

sign_in_vouchers :
    (id token account tenant now : ℕ) (o : Option Member) (st : Door)
    → (sign_in id token account tenant now o st).0.vouchers ≡ st.vouchers
sign_in_vouchers id token account tenant now none st = refl
sign_in_vouchers id token account tenant now (some a) st = refl

enter_as_vouchers :
    (id token tenant now : ℕ) (account : Option ℕ) (st : Door)
    → (enter_as id token tenant now account st).0.vouchers ≡ st.vouchers
enter_as_vouchers id token tenant now none st = refl
enter_as_vouchers id token tenant now (some account) st =
    sign_in_vouchers id token account tenant now
      (find_first (λ a. (a.id == account) && (a.tenant == tenant)) st.members) st

enter_vouchers :
    (id token now : ℕ) (v : Voucher) (st : Door)
    → (enter id token now (some v) st).0.vouchers ≡ st.vouchers
enter_vouchers id token now v st =
    elim (Bool-cases (any (λ d. (d.id == v.device) && (d.tenant == v.tenant)) st.computers)) [
      | inl e ↦ rw e (enter_as_vouchers id token v.tenant now v.account st)
      | inr e ↦ rw e refl
    ]

-- What a visit does to the unused vouchers of a token.
abbrev Spends : ℕ → Bool → Door → Door × Outcome → Type 0
Spends i about st p =
    (if about && is_signed_in p.1 then 1 else 0) + unused i p.0.vouchers
    ≤ unused i st.vouchers + (if about && is_minted p.1 then 1 else 0)

redeem-Spends :
    (i hash id token now : ℕ) (st : Door) → Spends i (hash == i) st (redeem hash id token now st)
unfolding redeem
redeem-Spends i hash id token now st =
    let vouchers = change_vouchers (is_live hash now) (consumed now) st.vouchers in
    elim (Option-cases (find_first (is_live hash now) st.vouchers)) [
      | inl e ↦ rw e (ground (arith, unused-change i hash now st.vouchers))
      | inr (v, e) ↦
          let less = unused-found i hash now st.vouchers v e in
          rw (e, enter_vouchers id token now v (record st { vouchers = vouchers }))
            (ground (arith, less))
    ]

mint_row-unused :
    (i hash device tenant account now : ℕ) (st : Door)
    → unused i (mint_row hash device tenant account now st).vouchers
      ≤ unused i st.vouchers + (if hash == i then 1 else 0)
mint_row-unused i hash device tenant account now st =
    let row : Voucher = record {
      hash = hash;
      device = device;
      tenant = tenant;
      account = some account;
      expires_at = now + 120;
      consumed_at = none;
    } in
    let swept =
      unused-keep i (λ v. not (ltb (v.expires_at + 3600) now)) (st.vouchers ++ row ∷ []) in
    ground (arith, swept, unused-append i st.vouchers row)

mint_as-Spends :
    (lower : Text → Text) (i hash device tenant : ℕ) (name : Text) (now account : ℕ)
    (o : Option Member) (st : Door)
    → Spends i (hash == i) st (mint_as lower hash device tenant name now account o st)
mint_as-Spends lower i hash device tenant name now account none st = ground arith
mint_as-Spends lower i hash device tenant name now account (some a) st =
    elim (Bool-cases (
      not (text_eq a.role (codes "member"))
      && not (own_device lower device account name st.computers))) [
        | inl e ↦ rw e (ground arith)
        | inr e ↦ rw e (ground (arith, mint_row-unused i hash device tenant account now st))
      ]

mint_for-Spends :
    (lower : Text → Text) (i hash device tenant : ℕ) (name : Text) (now : ℕ) (o : Option ℕ)
    (st : Door)
    → Spends i (hash == i) st (mint_for lower hash device tenant name now o st)
mint_for-Spends lower i hash device tenant name now none st = ground arith
mint_for-Spends lower i hash device tenant name now (some account) st =
    mint_as-Spends lower i hash device tenant name now account (member_of account st.members) st

visit-Spends :
    (lower : Text → Text) (i : ℕ) (v : Visit) (st : Door)
    → Spends i (is_about lower i v) st (visit lower v st)
unfolding visit mint
visit-Spends lower i (redeems hash id token now) st = redeem-Spends i hash id token now st
visit-Spends lower i (mints hash device tenant name now) st =
    elim (Bool-cases (text_eq (trim name) [])) [
      | inl e ↦ rw e (ground arith)
      | inr e ↦ rw e (
          mint_for-Spends lower i hash device tenant (trim name) now
            (linked_account (login_of device (trim name) st.logins)) st)
    ]

-- However vouchers are drawn and redeemed, a token signs in at most as often as it was drawn, beside the
-- unused vouchers of it that were there at first.
pub sign_ins-drawn :
    (lower : Text → Text) (i : ℕ) (vs : List Visit) (st : Door)
    → sign_ins lower i vs st ≤ drawn lower i vs st + unused i st.vouchers
unfolding sign_ins drawn
sign_ins-drawn lower i [] st = ground arith
sign_ins-drawn lower i (v ∷ vs) st =
    let here = visit-Spends lower i v st in
    let rest = sign_ins-drawn lower i vs (visit lower v st).0 in omega (arith, here, rest)
