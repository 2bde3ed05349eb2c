-- ===== src/Gate/Once.antt =====
-- A grant runs at most once, and a revoked one never.
use aegis_forge.Prelude.{String, ◌≡◌, ◌≢◌, refl, sym, ap, ◌∙◌, some, Memᴰ}
use aegis_forge.Authority.Registry.{AuthorityDb}
use aegis_forge.Grant.Store.{consumed, revoked, status, is_active}
use aegis_forge.Grant.Once
use aegis_forge.Gate.World.{Run, World}
use aegis_forge.Gate.Soundness.{
  Reaches, here, next, IsSpent, IsSound, blank, IsSound-blank, Step-grants, Reaches-IsSound,
}

-- A revoked grant stays revoked.
stays_revoked :
    {w u : World} (i : String)
    → IsSound w
    → Reaches w u
    → status i w.grants ≡ some revoked
    → status i u.grants ≡ some revoked
unfolding is_active
stays_revoked i v here e = e
stays_revoked i v (next r s) e =
    Once.status_stands i revoked (Step-grants s (Reaches-IsSound r v)) (stays_revoked i v r e) refl

revoked_consumed : some revoked ≢ some consumed
revoked_consumed e = absurd (cc)

-- Once a grant is revoked, in a history from an empty database, be it between the stages of a call,
-- then after whatever follows no executor was ever called for it.
pub revoked_unrun :
    {w u : World} (db : AuthorityDb) (i : String) (r : Run)
    → Reaches (blank db) w
    → status i w.grants ≡ some revoked
    → Reaches w u
    → Memᴰ r u.ran
    → r.grant_id ≢ i
revoked_unrun {w} {u} db i r h gone after m e =
    let v = Reaches-IsSound h (IsSound-blank db) in
    let spent = IsSpent.grant (IsSound.spent (Reaches-IsSound after v) r m) in
    revoked_consumed
      (sym (stays_revoked i v after gone) ∙ ap (λ k. status k u.grants) (sym e) ∙ spent)
