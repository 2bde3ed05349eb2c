-- ===== src/Grant/Once.antt =====
-- A grant is consumed at most once, and never after it was revoked.
use aegis_forge.Prelude.{
  ℕ, String, ◌≡◌, refl, ap, ◌∙◌, sym, inl, inr, Bool, true, false, Option, none, some, [], ◌∷◌,
  Memᴰ, arith, eq_refl, Bool-cases, Option-cases, if◌then◌else◌,
}
use aegis_forge.Prelude.Result.{Result, ok, err}
use aegis_forge.Prelude.Table.{select, has_key, update, changes}
use aegis_forge.Prelude.Table.Laws.{
  select-update, select-append, select-Mem, changes-select, changes-none, has_key-none,
}
use aegis_forge.Grant.Store.{
  GrantStatus, active, consumed, revoked, is_active, GrantRow, GrantError, Grants, status, usable,
  revoked_row, revoke, consumed_row, consume, grant_not_found, grant_revoked, grant_replayed,
  SignedGrant, new_row, register_grant, registered_before, status_or_register, ensure_registered,
  grant_not_active,
}
use aegis_forge.Grant.History.{IsValid, Keeps, Reach, Reach-Keeps, consume-Keeps, revoke-Keeps}

pub IsValid-empty : IsValid []
IsValid-empty = record { keyed = tt; fresh = tt }

-- No row is usable under the id, so the UPDATE changes none.
update-unusable :
    (i : String) (f : GrantRow → GrantRow) (t : Grants)
    → changes GrantRow.grant_id i usable t ≡ 0
    → update GrantRow.grant_id i usable f t ≡ t
unfolding changes update
update-unusable i f [] h = refl
update-unusable i f (r ∷ t) h = ground (arith, update-unusable i f t)

-- What `consume` does, by the row of the grant.
abbrev pub consumption :
    String → String → Grants → Option GrantStatus → Result GrantError Bool × Grants
consumption i at t none = (err grant_not_found, t)
consumption i at t (some active) = (ok true, update GrantRow.grant_id i usable (consumed_row at) t)
consumption i at t (some consumed) = (err grant_replayed, t)
consumption i at t (some revoked) = (err grant_revoked, t)

abbrev pub revocation :
    String → String → ℕ → Grants → Option GrantStatus → Result GrantError Bool × Grants
revocation i reason now t none = (err grant_not_found, t)
revocation i reason now t (some active) =
    (ok true, update GrantRow.grant_id i usable (revoked_row reason now) t)
revocation i reason now t (some _) = (err grant_not_active, t)

-- How many rows are usable under an id with that status.
abbrev usable_rows : Option GrantStatus → ℕ
usable_rows none = 0
usable_rows (some s) = if is_active s then 1 else 0

module _ (i : String) (t : Grants) (w : IsValid t) where
  changes-status : changes GrantRow.grant_id i usable t ≡ usable_rows (status i t)
  unfolding status
  changes-status = elim (Option-cases (select GrantRow.grant_id i t)) [
    | inl e ↦
        changes-none GrantRow.grant_id i usable t (has_key-none GrantRow.grant_id i t e) ∙ rw e refl
    | inr (r, e) ↦ changes-select GrantRow.grant_id i usable t r w.keyed e ∙ rw e refl
  ]

  counted :
      (o : Option GrantStatus)
      → status i t ≡ o
      → changes GrantRow.grant_id i usable t ≡ usable_rows o
  counted o e = changes-status ∙ ap usable_rows e

  consume_row :
      (at : String) (o : Option GrantStatus)
      → status i t ≡ o
      → consume i at t ≡ consumption i at t o
  unfolding consume is_active
  consume_row at none e =
      let n = counted none e in rw n (rw (update-unusable i (consumed_row at) t n) (rw e refl))
  consume_row at (some active) e = let n = counted (some active) e in rw n refl
  consume_row at (some consumed) e =
      let n = counted (some consumed) e in
      rw n (rw (update-unusable i (consumed_row at) t n) (rw e refl))
  consume_row at (some revoked) e =
      let n = counted (some revoked) e in
      rw n (rw (update-unusable i (consumed_row at) t n) (rw e refl))

  revoke_row :
      (reason : String) (now : ℕ) (o : Option GrantStatus)
      → status i t ≡ o
      → revoke i reason now t ≡ revocation i reason now t o
  unfolding revoke is_active
  revoke_row reason now none e =
      let n = counted none e in
      rw n (rw (update-unusable i (revoked_row reason now) t n) (rw e refl))
  revoke_row reason now (some active) e = let n = counted (some active) e in rw n refl
  revoke_row reason now (some consumed) e =
      let n = counted (some consumed) e in
      rw n (rw (update-unusable i (revoked_row reason now) t n) (rw e refl))
  revoke_row reason now (some revoked) e =
      let n = counted (some revoked) e in
      rw n (rw (update-unusable i (revoked_row reason now) t n) (rw e refl))

-- `consume` and `revoke` on a table with its invariant: an ACTIVE grant alone is finalized, and its
-- row alone changes; for any other, and for an unknown one, the error tells its status, and nothing
-- is written.
pub finalize_lem :
    (i at reason : String) (now : ℕ) (t : Grants)
    → IsValid t
    → (consume i at t ≡ consumption i at t (status i t))
      × (revoke i reason now t ≡ revocation i reason now t (status i t))
finalize_lem i at reason now t w =
    (consume_row i t w at (status i t) refl, revoke_row i t w reason now (status i t) refl)

-- A finalized status stands through any history.
pub status_stands :
    {t u : Grants} (i : String) (s : GrantStatus)
    → Reach t u
    → status i t ≡ some s
    → is_active s ≡ false
    → status i u ≡ some s
unfolding status
status_stands {t} i s h e n = elim (Option-cases (select GrantRow.grant_id i t)) [
  | inl none_there ↦ absurd (ground arith)
  | inr (r, there) ↦
      let same : r.status ≡ s = ground arith in
      let (r', e', l) = Keeps.rows (Reach-Keeps h) i r there in
      rw e' (ap (λ x. some x.status) (l.final (ap is_active same ∙ n)) ∙ ap some same)
]

-- The UPDATE of an ACTIVE grant gives its row the new status.
finalized :
    (i : String) (f : GrantRow → GrantRow) (t : Grants) (s : GrantStatus)
    → ((r : GrantRow) → (f r).grant_id ≡ r.grant_id)
    → ((r : GrantRow) → (f r).status ≡ s)
    → status i t ≡ some active
    → status i (update GrantRow.grant_id i usable f t) ≡ some s
unfolding status is_active
finalized i f t s id new e = elim (Option-cases (select GrantRow.grant_id i t)) [
  | inl n ↦ absurd (ground arith)
  | inr (r, n) ↦
      let here_active : r.status ≡ active = ground arith in
      rw (select-update GrantRow.grant_id i usable f id i t r n)
        (rw (eq_refl i) (rw (ap is_active here_active) (ap some (new r))))
]

-- The status that `ensure_registered` reports is the one that the table then has.
pub ensure_registered-status :
    (g : SignedGrant) (now : ℕ) (t : Grants) (s : GrantStatus)
    → (ensure_registered g now t).0 ≡ ok s
    → status g.grant_id (ensure_registered g now t).1 ≡ some s
unfolding ensure_registered status_or_register register_grant registered_before status
ensure_registered-status g now t s h = elim (Option-cases (select GrantRow.grant_id g.grant_id t)) [
  | inr (r, e) ↦ ground (arith, e)
  | inl e ↦ elim (Bool-cases (has_key GrantRow.nonce g.nonce t)) [
    | inl n ↦ absurd (ground (arith, e, n, has_key-none GrantRow.grant_id g.grant_id t e))
    | inr n ↦
        let unknown = has_key-none GrantRow.grant_id g.grant_id t e in
        ground (
          arith,
          select-append GrantRow.grant_id g.grant_id t (new_row g now) unknown,
          eq_refl g.grant_id,
        )
  ]
]

-- What succeeds had an ACTIVE grant.
consume_ok :
    (i at : String) (t : Grants) (o : Option GrantStatus)
    → (consumption i at t o).0 ≡ ok true
    → o ≡ some active
consume_ok i at t none e = absurd (cc)
consume_ok i at t (some active) e = refl
consume_ok i at t (some consumed) e = absurd (cc)
consume_ok i at t (some revoked) e = absurd (cc)

revoke_ok :
    (i reason : String) (now : ℕ) (t : Grants) (o : Option GrantStatus)
    → (revocation i reason now t o).0 ≡ ok true
    → o ≡ some active
revoke_ok i reason now t none e = absurd (cc)
revoke_ok i reason now t (some active) e = refl
revoke_ok i reason now t (some consumed) e = absurd (cc)
revoke_ok i reason now t (some revoked) e = absurd (cc)

module _ (i : String) (t : Grants) (w : IsValid t) where
  pub consume-status :
      (at : String) → (consume i at t).0 ≡ ok true → status i (consume i at t).1 ≡ some consumed
  consume-status at e =
      let lem = consume_row i t w at (status i t) refl in
      let a = consume_ok i at t (status i t) (ap (λ x. x.0) (sym lem) ∙ e) in
      ap (λ x. status i x.1) (consume_row i t w at (some active) a)
      ∙ finalized i (consumed_row at) t consumed (λ r. refl) (λ r. refl) a

  revoke-status :
      (reason : String) (now : ℕ)
      → (revoke i reason now t).0 ≡ ok true
      → status i (revoke i reason now t).1 ≡ some revoked
  revoke-status reason now e =
      let lem = revoke_row i t w reason now (status i t) refl in
      let a = revoke_ok i reason now t (status i t) (ap (λ x. x.0) (sym lem) ∙ e) in
      ap (λ x. status i x.1) (revoke_row i t w reason now (some active) a)
      ∙ finalized i (revoked_row reason now) t revoked (λ r. refl) (λ r. refl) a

-- Once a grant was consumed, in a history from the empty table, then after whatever follows every
-- further consume is refused as grant_replayed, every revocation as grant_not_active, and neither
-- writes anything.
pub consumed_once :
    {t u : Grants} (i at at' reason : String) (now : ℕ)
    → Reach [] t
    → (consume i at t).0 ≡ ok true
    → Reach (consume i at t).1 u
    → (consume i at' u ≡ (err grant_replayed, u))
      × (revoke i reason now u ≡ (err grant_not_active, u))
unfolding is_active
consumed_once {t} {u} i at at' reason now before e after =
    let v = Keeps.valid (Reach-Keeps before) IsValid-empty in
    let w = Keeps.valid (Reach-Keeps after) (Keeps.valid (consume-Keeps i at t) v) in
    let s = status_stands i consumed after (consume-status i t v at e) refl in
    (consume_row i u w at' (some consumed) s, revoke_row i u w reason now (some consumed) s)

-- Once a grant was revoked, in a history from the empty table, then after whatever follows every
-- consume is refused as grant_revoked and writes nothing.
pub revoked_refused :
    {t u : Grants} (i at reason : String) (now : ℕ)
    → Reach [] t
    → (revoke i reason now t).0 ≡ ok true
    → Reach (revoke i reason now t).1 u
    → consume i at u ≡ (err grant_revoked, u)
unfolding is_active
revoked_refused {t} {u} i at reason now before e after =
    let v = Keeps.valid (Reach-Keeps before) IsValid-empty in
    let w = Keeps.valid (Reach-Keeps after) (Keeps.valid (revoke-Keeps i reason now t) v) in
    let s = status_stands i revoked after (revoke-status i t v reason now e) refl in
    consume_row i u w at (some revoked) s

-- In every history of the grant table no two grants share a nonce.
nonce_unique :
    {t : Grants} (r s : GrantRow) → Reach [] t → Memᴰ r t → Memᴰ s t → r.nonce ≡ s.nonce → r ≡ s
nonce_unique {t} r s h m n e =
    let w = Keeps.valid (Reach-Keeps h) IsValid-empty in
    ground
      (arith, select-Mem GrantRow.nonce t r w.fresh m, select-Mem GrantRow.nonce t s w.fresh n, e)
