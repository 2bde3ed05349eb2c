-- ===== src/Gate/Soundness.antt =====
-- Histories of the gate's world: the stages of calls of `execute`, by any gates, in any interleaving
-- with each other and with steps of other connections on the tables; and the invariant of the world.
use aegis_forge.Prelude.{
  ◌++◌, String, ◌≡◌, ◌≢◌, refl, sym, ap, ◌∙◌, subst, inl, inr, true, false, some, List, [], ◌∷◌,
  Memᴰ, arith, eq_iff,
}
use aegis_forge.Prelude.Result.{Result}
use aegis_forge.Prelude.Table.{has_key, IsKeyed}
use aegis_forge.Prelude.Table.Laws.{IsKeyed-append}
use aegis_forge.Prelude.Table.Columns.{Mem-append}
use aegis_forge.Attempt.Defs.{Attempt}
use aegis_forge.Attempt.Reach
use aegis_forge.Authority.Registry.{AuthorityDb}
use aegis_forge.Grant.Store.{Grants, active, consumed, status, is_active}
use aegis_forge.Grant.History
use aegis_forge.Grant.Once
use aegis_forge.Gate.Artifacts.{CapabilityGrant, Library}
use aegis_forge.Gate.World.{Consumption, Run, World, Gate, Raised, Call}
use aegis_forge.Gate.Execute.{authorize, open_attempt, call_claimed, finish, run_of}
use aegis_forge.Gate.Staging.{authorize-Kept, open_attempt-Kept, finish-Kept, call_claimed_cases}
use aegis_forge.Gate.Taken.{Kept, IsTaken}

pub data Step (w : World) : World → Type 0 where
  -- the stages of a call, each by itself: what is between them is left to the history
  authorized_by :
      {u : World} (lib : Library) (gate : Gate) (c : Call)
      → u ≡ (authorize lib gate c w).1
      → Step w u
  opened :
      {u : World} (lib : Library) (c : Call) (g : CapabilityGrant)
      → u ≡ (open_attempt lib c g w).1
      → Step w u
  taken :
      {u : World} (lib : Library) (c : Call) (g : CapabilityGrant) (a : Attempt)
      → u ≡ (call_claimed lib c g a w).1
      → Step w u
  ended :
      {u : World} (lib : Library) (c : Call) (g : CapabilityGrant) (a : Attempt)
      (r : Result Raised String)
      → u ≡ (finish lib c g a r w).1
      → Step w u
  governed : {u : World} (db : AuthorityDb) → u ≡ record w { authority = db } → Step w u
  granted :
      {u : World} {t : Grants} → History.Step w.grants t → u ≡ record w { grants = t } → Step w u
  attempted :
      {u : World} {t : List Attempt}
      → Reach.Step w.attempts t
      → u ≡ record w { attempts = t }
      → Step w u

pub data Reaches (w : World) : World → Type 0 where
  here : Reaches w w
  next : {u t : World} → Reaches w u → Step u t → Reaches w t

-- What was consumed for each run so far.
pub record IsSpent (r : Run) (w : World) : Type 0 where
  pub grant : status r.grant_id w.grants ≡ some consumed
  pub nonce : has_key Consumption.nonce r.nonce w.consumptions ≡ true

pub record IsSound (w : World) : Type 0 where
  pub grants : History.IsValid w.grants
  pub by_grant : IsKeyed Run.grant_id w.ran
  pub by_nonce : IsKeyed Run.nonce w.ran
  pub spent : (r : Run) → Memᴰ r w.ran → IsSpent r w

-- A database without rows, but for its authorities.
abbrev pub blank : AuthorityDb → World
blank db = record { authority = db; grants = []; attempts = []; consumptions = []; ran = [] }

pub IsSound-blank : (db : AuthorityDb) → IsSound (blank db)
IsSound-blank db = record {
  grants = Once.IsValid-empty;
  by_grant = tt;
  by_nonce = tt;
  spent = λ r m. elim m [ ];
}

-- A table of grants that moves by steps of its store keeps what was spent.
grants_keep :
    (w : World) (t : Grants) (r : Run)
    → History.Reach w.grants t
    → status r.grant_id w.grants ≡ some consumed
    → status r.grant_id t ≡ some consumed
unfolding is_active
grants_keep w t r h e = Once.status_stands r.grant_id consumed h e refl

-- What no run has used is none of the runs' keys.
unspent :
    (key : Run → String) (k : String) (t : List Run)
    → ((r : Run) → Memᴰ r t → key r ≢ k)
    → has_key key k t ≡ false
unfolding has_key
unspent key k [] h = refl
unspent key k (r ∷ t) h =
    ground
      (arith, eq_iff (key r) k, h r (Memᴰ.head refl), unspent key k t (λ x m. h x (Memᴰ.tail m)))

-- A world that keeps all that is consumed, and in which no executor was called.
Kept-IsSound : (w s : World) → IsSound w → Kept w s → IsSound s
Kept-IsSound w s v q = record {
  grants = History.Keeps.valid (History.Reach-Keeps q.grants) v.grants;
  by_grant = subst (IsKeyed Run.grant_id) (sym q.ran) v.by_grant;
  by_nonce = subst (IsKeyed Run.nonce) (sym q.ran) v.by_nonce;
  spent = λ r m.
      let old = v.spent r (subst (Memᴰ r) q.ran m) in
      record {
        grant = grants_keep w s.grants r q.grants old.grant;
        nonce = q.nonces r.nonce old.nonce;
      };
}

active_consumed : some active ≢ some consumed
active_consumed e = absurd (cc)

module _ (g : CapabilityGrant) (w s : World) (v : IsSound w) (h : IsTaken g w s) where
  unrun_grant : has_key Run.grant_id g.grant_id s.ran ≡ false
  unrun_grant =
      ap (has_key Run.grant_id g.grant_id) (Kept.ran (IsTaken.kept h))
      ∙ unspent Run.grant_id g.grant_id w.ran (λ r m e.
        let k = ap (λ i. status i w.grants) e in
        active_consumed (sym (IsTaken.was_active h) ∙ sym k ∙ (v.spent r m).grant))

  unrun_nonce : has_key Run.nonce g.nonce s.ran ≡ false
  unrun_nonce =
      ap (has_key Run.nonce g.nonce) (Kept.ran (IsTaken.kept h))
      ∙ unspent Run.nonce g.nonce w.ran (λ r m e.
        let old = (v.spent r m).nonce in
        let k = ap (λ n. has_key Consumption.nonce n w.consumptions) e in
        let new = IsTaken.was_new h in absurd (ground (arith, old, new, k)))

  -- The world after the executor is called for the grant that was taken.
  started-IsSound :
      (run : Run)
      → run.grant_id ≡ g.grant_id
      → run.nonce ≡ g.nonce
      → IsSound (record s { ran = s.ran ++ run ∷ [] })
  started-IsSound run own one =
      let u = Kept-IsSound w s v (IsTaken.kept h) in
      record {
        grants = u.grants;
        by_grant =
            IsKeyed-append Run.grant_id s.ran run u.by_grant
              (ap (λ i. has_key Run.grant_id i s.ran) own ∙ unrun_grant);
        by_nonce =
            IsKeyed-append Run.nonce s.ran run u.by_nonce
              (ap (λ i. has_key Run.nonce i s.ran) one ∙ unrun_nonce);
        spent = λ r m. elim (Mem-append s.ran run r m) [
          | inl old ↦ record { grant = (u.spent r old).grant; nonce = (u.spent r old).nonce }
          | inr e ↦ record {
            grant =
                ap (λ x. status x.grant_id s.grants) e
                ∙ ap (λ i. status i s.grants) own
                ∙ IsTaken.is_consumed h;
            nonce =
                ap (λ x. has_key Consumption.nonce x.nonce s.consumptions) e
                ∙ ap (λ i. has_key Consumption.nonce i s.consumptions) one
                ∙ IsTaken.is_taken h;
          }
        ];
      }

call_claimed-IsSound :
    (lib : Library) (c : Call) (g : CapabilityGrant) (a : Attempt) (w : World)
    → IsSound w
    → IsSound (call_claimed lib c g a w).1
call_claimed-IsSound lib c g a w v = elim (call_claimed_cases lib c g a w v.grants) [
  | inl (e, h, k) ↦ rw h (Kept-IsSound w _ v k.0)
  | inr (a', h, k) ↦ rw h (started-IsSound g w _ v k (run_of lib c g) refl refl)
]

call_claimed-grants :
    (lib : Library) (c : Call) (g : CapabilityGrant) (a : Attempt) (w : World)
    → IsSound w
    → History.Reach w.grants (call_claimed lib c g a w).1.grants
call_claimed-grants lib c g a w v = elim (call_claimed_cases lib c g a w v.grants) [
  | inl (e, h, k) ↦ rw h (Kept.grants k.0)
  | inr (a', h, k) ↦ rw h (Kept.grants (IsTaken.kept k))
]

-- A step of another connection, as one that calls no executor.
others-Kept :
    (w : World) (db : AuthorityDb) (t : Grants) (a : List Attempt)
    → History.Reach w.grants t
    → Kept w (record w { authority = db; grants = t; attempts = a })
others-Kept w db t a p = record { ran = refl; grants = p; nonces = λ n h. h }

Step-IsSound : {w u : World} → Step w u → IsSound w → IsSound u
Step-IsSound {w} (authorized_by lib gate c e) v =
    subst IsSound (sym e) (Kept-IsSound w _ v (authorize-Kept lib gate c w))
Step-IsSound {w} (opened lib c g e) v =
    subst IsSound (sym e) (Kept-IsSound w _ v (open_attempt-Kept lib c g w))
Step-IsSound {w} (taken lib c g a e) v = subst IsSound (sym e) (call_claimed-IsSound lib c g a w v)
Step-IsSound {w} (ended lib c g a r e) v =
    subst IsSound (sym e) (Kept-IsSound w _ v (finish-Kept lib c g a r w))
Step-IsSound {w} (governed db e) v =
    subst IsSound (sym e) (Kept-IsSound w _ v (others-Kept w db w.grants w.attempts History.here))
Step-IsSound {w} (granted {t = t} s e) v =
    subst IsSound (sym e)
      (Kept-IsSound w _ v (others-Kept w w.authority t w.attempts (History.next History.here s)))
Step-IsSound {w} (attempted {t = t} s e) v =
    subst IsSound (sym e) (Kept-IsSound w _ v (others-Kept w w.authority w.grants t History.here))

pub Reaches-IsSound : {w u : World} → Reaches w u → IsSound w → IsSound u
Reaches-IsSound here v = v
Reaches-IsSound (next r s) v = Step-IsSound s (Reaches-IsSound r v)

-- The grant table moves by steps of its store.
pub Step-grants : {w u : World} → Step w u → IsSound w → History.Reach w.grants u.grants
Step-grants {w} (authorized_by lib gate c e) v =
    subst (λ x. History.Reach w.grants x.grants) (sym e) (Kept.grants (authorize-Kept lib gate c w))
Step-grants {w} (opened lib c g e) v =
    subst (λ x. History.Reach w.grants x.grants) (sym e) (Kept.grants (open_attempt-Kept lib c g w))
Step-grants {w} (taken lib c g a e) v =
    subst (λ x. History.Reach w.grants x.grants) (sym e) (call_claimed-grants lib c g a w v)
Step-grants {w} (ended lib c g a r e) v =
    subst (λ x. History.Reach w.grants x.grants) (sym e) (Kept.grants (finish-Kept lib c g a r w))
Step-grants {w} (governed db e) v =
    subst (λ x. History.Reach w.grants x.grants) (sym e) History.here
Step-grants {w} (granted s e) v =
    subst (λ x. History.Reach w.grants x.grants) (sym e) (History.next History.here s)
Step-grants {w} (attempted s e) v =
    subst (λ x. History.Reach w.grants x.grants) (sym e) History.here
