-- ===== src/Grant/History.antt =====
-- Histories of the grant table: any connections, in any order; and what a grant is worth after one.
use aegis_forge.Prelude.{
  ℕ, String, ◌≡◌, refl, ◌∙◌, sym, subst, inl, inr, Bool, true, false, ◌&&◌, ◌||◌, some, arith, ◌==◌,
  eq_iff, Bool-cases, Option-cases, eqb, if◌then◌else◌,
}
use aegis_forge.Prelude.Result.{Result-cases}
use aegis_forge.Prelude.Table.{select, has_key, update, changes, IsKeyed}
use aegis_forge.Prelude.Table.Laws.{
  select-update, select-append, has_key-select, IsKeyed-append, IsKeyed-update,
}
use aegis_forge.Prelude.Table.Columns.{IsKeyed-update_column}
use aegis_forge.Grant.Store.{
  is_active, SignedGrant, GrantRow, Grants, new_row, status, register_grant, status_or_register,
  ensure_registered, usable, revoked_row, revoke, consumed_row, consume,
}

pub record IsValid (t : Grants) : Type 0 where
  pub keyed : IsKeyed GrantRow.grant_id t
  pub fresh : IsKeyed GrantRow.nonce t

-- How a row may look later on.
pub record Lasts (r r' : GrantRow) : Type 0 where
  pub id : r'.grant_id ≡ r.grant_id
  pub nonce : r'.nonce ≡ r.nonce
  pub payload : r'.payload ≡ r.payload
  pub final : is_active r.status ≡ false → r' ≡ r

Lasts-refl : (r : GrantRow) → Lasts r r
Lasts-refl r = record { id = refl; nonce = refl; payload = refl; final = λ h. refl }

Lasts-trans : (a b c : GrantRow) → Lasts a b → Lasts b c → Lasts a c
Lasts-trans a b c p q = record {
  id = q.id ∙ p.id;
  nonce = q.nonce ∙ p.nonce;
  payload = q.payload ∙ p.payload;
  final = λ h. let e = p.final h in q.final (subst (λ x. is_active x.status ≡ false) (sym e) h) ∙ e;
}

pub record Keeps (t u : Grants) : Type 0 where
  pub valid : IsValid t → IsValid u
  pub rows :
      (i : String) (r : GrantRow)
      → select GrantRow.grant_id i t ≡ some r
      → (r' : GrantRow) × (select GrantRow.grant_id i u ≡ some r') × Lasts r r'

Keeps-refl : (t : Grants) → Keeps t t
Keeps-refl t = record { valid = λ w. w; rows = λ i r e. (r, e, Lasts-refl r) }

Keeps-trans : {t u w : Grants} → Keeps t u → Keeps u w → Keeps t w
Keeps-trans p q = record {
  valid = λ v. q.valid (p.valid v);
  rows = λ i r e.
      let (r', e', l) = p.rows i r e in
      let (r'', e'', l') = q.rows i r' e' in (r'', e'', Lasts-trans r r' r'' l l');
}

-- The UPDATE of a usable row, by a change that keeps its names and its payload.
module _ (k : String) (f : GrantRow → GrantRow) (id : (r : GrantRow) → (f r).grant_id ≡ r.grant_id)
    (nonce : (r : GrantRow) → (f r).nonce ≡ r.nonce)
    (payload : (r : GrantRow) → (f r).payload ≡ r.payload) where
  changed-Lasts : (b c : Bool) (r : GrantRow) → usable r ≡ c → Lasts r (if b && c then f r else r)
  changed-Lasts true true r h = record {
    id = id r;
    nonce = nonce r;
    payload = payload r;
    final = λ n. absurd (cc);
  }
  changed-Lasts true false r h = Lasts-refl r
  changed-Lasts false c r h = Lasts-refl r

  update-Keeps : (t : Grants) → Keeps t (update GrantRow.grant_id k usable f t)
  update-Keeps t = record {
    valid = λ w. record {
      keyed = IsKeyed-update GrantRow.grant_id k usable f id t w.keyed;
      fresh = IsKeyed-update_column GrantRow.grant_id GrantRow.nonce k usable f nonce t w.fresh;
    };
    rows = λ i r e. (
      if i == k && usable r then f r else r,
      select-update GrantRow.grant_id k usable f id i t r e,
      changed-Lasts (i == k) (usable r) r refl,
    );
  }

pub revoke-Keeps : (i reason : String) (now : ℕ) (t : Grants) → Keeps t (revoke i reason now t).1
unfolding revoke
revoke-Keeps i reason now t = elim (Bool-cases (eqb (changes GrantRow.grant_id i usable t) 1)) [
  | inl e ↦ rw e (update-Keeps i (revoked_row reason now) (λ r. refl) (λ r. refl) (λ r. refl) t)
  | inr e ↦ rw e (update-Keeps i (revoked_row reason now) (λ r. refl) (λ r. refl) (λ r. refl) t)
]

pub consume-Keeps : (i at : String) (t : Grants) → Keeps t (consume i at t).1
unfolding consume
consume-Keeps i at t = elim (Bool-cases (eqb (changes GrantRow.grant_id i usable t) 1)) [
  | inl e ↦ rw e (update-Keeps i (consumed_row at) (λ r. refl) (λ r. refl) (λ r. refl) t)
  | inr e ↦ rw e (update-Keeps i (consumed_row at) (λ r. refl) (λ r. refl) (λ r. refl) t)
]

register_grant-Keeps : (g : SignedGrant) (now : ℕ) (t : Grants) → Keeps t (register_grant g now t).1
unfolding register_grant
register_grant-Keeps g now t =
    elim (Bool-cases (has_key GrantRow.grant_id g.grant_id t || has_key GrantRow.nonce g.nonce t)) [
      | inl e ↦ rw e (Keeps-refl t)
      | inr e ↦ rw e (record {
        valid = λ w. record {
          keyed = IsKeyed-append GrantRow.grant_id t (new_row g now) w.keyed (ground arith);
          fresh = IsKeyed-append GrantRow.nonce t (new_row g now) w.fresh (ground arith);
        };
        rows = λ i r h. (
          r,
          select-append GrantRow.grant_id i t (new_row g now) (ground arith)
              ∙ ground (arith, h, e, eq_iff g.grant_id i, has_key-select GrantRow.grant_id i t r h),
          Lasts-refl r,
        );
      })
    ]

ensure_registered-Keeps :
    (g : SignedGrant) (now : ℕ) (t : Grants) → Keeps t (ensure_registered g now t).1
unfolding ensure_registered status_or_register
ensure_registered-Keeps g now t = elim (Option-cases (status g.grant_id t)) [
  | inr (s, e) ↦ rw e (Keeps-refl t)
  | inl e ↦ elim (Result-cases (register_grant g now t).0) [
    | inl (b, h) ↦ rw e (rw h (register_grant-Keeps g now t))
    | inr (x, h) ↦ rw e (rw h (register_grant-Keeps g now t))
  ]
]

pub data Step (t : Grants) : Grants → Type 0 where
  registered : {u : Grants} (g : SignedGrant) (now : ℕ) → u ≡ (register_grant g now t).1 → Step t u
  ensured : {u : Grants} (g : SignedGrant) (now : ℕ) → u ≡ (ensure_registered g now t).1 → Step t u
  revoked_by : {u : Grants} (i reason : String) (now : ℕ) → u ≡ (revoke i reason now t).1 → Step t u
  consumed_by : {u : Grants} (i at : String) → u ≡ (consume i at t).1 → Step t u

pub data Reach (t : Grants) : Grants → Type 0 where
  here : Reach t t
  next : {u w : Grants} → Reach t u → Step u w → Reach t w

Step-Keeps : {t u : Grants} → Step t u → Keeps t u
Step-Keeps {t} (registered g now e) = subst (Keeps t) (sym e) (register_grant-Keeps g now t)
Step-Keeps {t} (ensured g now e) = subst (Keeps t) (sym e) (ensure_registered-Keeps g now t)
Step-Keeps {t} (revoked_by i reason now e) = subst (Keeps t) (sym e) (revoke-Keeps i reason now t)
Step-Keeps {t} (consumed_by i at e) = subst (Keeps t) (sym e) (consume-Keeps i at t)

pub Reach-trans : {t u w : Grants} → Reach t u → Reach u w → Reach t w
Reach-trans p here = p
Reach-trans p (next q s) = next (Reach-trans p q) s

pub Reach-Keeps : {t u : Grants} → Reach t u → Keeps t u
Reach-Keeps {t} here = Keeps-refl t
Reach-Keeps (next h s) = Keeps-trans (Reach-Keeps h) (Step-Keeps s)
