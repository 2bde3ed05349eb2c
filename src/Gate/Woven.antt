-- ===== src/Gate/Woven.antt =====
-- A call of `execute` with others between its stages is a history of those stages; without others, it
-- is `execute`.
use aegis_forge.Prelude.{◌≡◌, refl, inl, inr}
use aegis_forge.Prelude.Result.{Result-cases, lift}
use aegis_forge.Prelude.Triple.{Triple, bind, cases_of, of_ok, of_err}
use aegis_forge.Gate.Artifacts.{Library}
use aegis_forge.Gate.World.{World, Gate, Call, GateAction}
use aegis_forge.Gate.Execute.{
  Others, meanwhile, authorize, check_executor, open_attempt, call_claimed, call_executor, claim,
  finish, execute_among, execute, run, claim,
}
use aegis_forge.Gate.Soundness.{Step, authorized_by, opened, taken, ended, Reaches, here, next}

-- A step of the history, and what raises or not.
step_Triple :
    {A : Type 0} {w : World} (m : GateAction A)
    → ((s : World) → Step s (m s).1)
    → Triple (Reaches w) m (λ a. Reaches w) (λ e. Reaches w)
step_Triple m k = cases_of m (λ s p a h. next p (k s)) (λ s p e h. next p (k s))

Reaches-trans : {w u s : World} → Reaches w u → Reaches u s → Reaches w s
Reaches-trans p here = p
Reaches-trans p (next q s) = next (Reaches-trans p q) s

-- The call is itself a history of its stages, and of what the others do.
pub execute_among-Reaches :
    (o : Others) (lib : Library) (gate : Gate) (c : Call) (w : World)
    → ((x : World) → Reaches x (o.before_open x))
    → ((x : World) → Reaches x (o.before_claim x))
    → ((x : World) → Reaches x (o.before_end x))
    → Reaches w (execute_among lib o gate c w).1
unfolding execute_among
execute_among-Reaches o lib gate c w k1 k2 k3 =
    elim (Result-cases (execute_among lib o gate c w).0) [
      | inl (a, e) ↦ of_ok _ _ (Triple.holds whole w here) a e
      | inr (x, e) ↦ of_err _ _ (Triple.holds whole w here) x e
    ]
  where
    idle :
        (f : World → World)
        → ((x : World) → Reaches x (f x))
        → Triple (Reaches w) (meanwhile f) (λ u. Reaches w) (λ e. Reaches w)
    idle f k = record { holds = λ s p. Reaches-trans p (k s) }

    whole : Triple (Reaches w) (execute_among lib o gate c) (λ r. Reaches w) (λ e. Reaches w)
    whole = bind (step_Triple (authorize lib gate c) (λ s. authorized_by lib gate c refl)) (λ g.
        bind (cases_of (lift (check_executor lib c)) (λ s p x e. p) (λ s p x e. p)) (λ _.
          bind (idle o.before_open k1) (λ _.
            bind (step_Triple (open_attempt lib c g) (λ s. opened lib c g refl)) (λ a.
              bind (idle o.before_claim k2) (λ _.
                bind (step_Triple (call_claimed lib c g a) (λ s. taken lib c g a refl)) (λ x.
                  bind (idle o.before_end k3) (λ _.
                    step_Triple (finish lib c g x.0 x.1) (λ s. ended lib c g x.0 x.1 refl))))))))

-- Without others, the call is `execute`.
execute_among-alone :
    (lib : Library) (gate : Gate) (c : Call) (w : World)
    → execute_among lib
        (record { before_open = λ x. x; before_claim = λ x. x; before_end = λ x. x })
        gate
        c
        w
      ≡ execute lib gate c w
unfolding execute_among execute call_claimed run call_executor finish
execute_among-alone lib gate c w = elim (Result-cases (authorize lib gate c w).0) [
  | inr (e, h) ↦ rw h refl
  | inl (g, h) ↦ elim (Result-cases (check_executor lib c)) [
    | inr (e, k) ↦ rw h (rw k refl)
    | inl (u, k) ↦ elim (Result-cases (open_attempt lib c g (authorize lib gate c w).1).0) [
      | inr (e, l) ↦ rw h (rw k (rw l refl))
      | inl (a, l) ↦
          elim (Result-cases
            (claim lib c g a (open_attempt lib c g (authorize lib gate c w).1).1).0) [
              | inr (e, m) ↦ rw h (rw k (rw l (rw m refl)))
              | inl (a', m) ↦ rw h (rw k (rw l (rw m refl)))
            ]
    ]
  ]
]
