-- ===== src/Attempt/Expiry.antt =====
-- `expire_leases` is the map over the table that its name promises.
use mathlib.Core.List.{append_assoc}
use mathlib.Core.List.Memᴰ as Memᴰ
use aegis_forge.Prelude.{
  ℕ, ◌≡◌, refl, ◌∙◌, subst, inl, inr, true, some, List, [], ◌∷◌, ◌++◌, Memᴰ, map, arith, Bool-cases,
  if◌then◌else◌,
}
use aegis_forge.Prelude.Result.{ok}
use aegis_forge.Prelude.Table.{IsKeyed}
use aegis_forge.Prelude.Table.Laws.{select-Mem}
use aegis_forge.Prelude.Table.Split.{update-split}
use aegis_forge.Attempt.State.{
  leased, timed_out, allowed, is_terminal, state_eq, state_eq_refl, state_eq_iff,
}
use aegis_forge.Attempt.Defs.{Attempt, Attempts, apply_change, transition_to}
use aegis_forge.Attempt.Leases.{is_lapsed, lapsed_ids, at_time, expire_each, expire_leases}
use aegis_forge.Attempt.TransitionLaws.{transition_to_found, IsKeyed-moved}

-- A leased attempt whose time is up, closed.
abbrev pub closed : ℕ → Attempt → Attempt
closed now r = record r { state = timed_out; finished_at = some now }

abbrev pub lapse : ℕ → Attempt → Attempt
lapse now r = if is_lapsed now r then closed now r else r

abbrev pub all_closed : ℕ → Attempts → List Attempt
all_closed now [] = []
all_closed now (r ∷ t) =
    let rest = all_closed now t in if is_lapsed now r then closed now r ∷ rest else rest

apply_change-closed :
    (now : ℕ) (r : Attempt) → apply_change r timed_out (at_time now) r ≡ closed now r
unfolding apply_change state_eq is_terminal
apply_change-closed now r = refl

is_lapsed-leased : (now : ℕ) (r : Attempt) → is_lapsed now r ≡ true → r.state ≡ leased
unfolding is_lapsed
is_lapsed-leased now r h = ground (arith, state_eq_iff r.state leased)

allowed-leased : (r : Attempt) → r.state ≡ leased → allowed r.state timed_out ≡ true
unfolding allowed
allowed-leased r h = rw h

module _ (now : ℕ) (done : Attempts) (r : Attempt) (rest : Attempts) where
  -- One round of the loop.
  pub expire_one :
      IsKeyed Attempt.attempt_id (done ++ r ∷ rest)
      → is_lapsed now r ≡ true
      → transition_to r.attempt_id timed_out (at_time now) (done ++ r ∷ rest)
        ≡ (ok (closed now r), done ++ closed now r ∷ rest)
  expire_one w h =
      let e = is_lapsed-leased now r h in
      transition_to_found r.attempt_id timed_out (at_time now) (done ++ r ∷ rest) r w (
        select-Mem Attempt.attempt_id (done ++ r ∷ rest) r w
          (Memᴰ.append_right done (Memᴰ.head refl)))
      ∙ rw (allowed-leased r e) (
          rw
            (update-split Attempt.attempt_id r (λ x. state_eq x.state r.state)
              (apply_change r timed_out (at_time now)) done rest w (state_eq_refl r.state))
            (rw apply_change-closed))

  pub IsKeyed-closed :
      IsKeyed Attempt.attempt_id (done ++ r ∷ rest)
      → is_lapsed now r ≡ true
      → IsKeyed Attempt.attempt_id (done ++ closed now r ∷ rest)
  IsKeyed-closed w h =
      subst (IsKeyed Attempt.attempt_id)
        (update-split Attempt.attempt_id r (λ x. state_eq x.state r.state)
            (apply_change r timed_out (at_time now)) done rest w (state_eq_refl r.state)
          ∙ rw apply_change-closed)
        (IsKeyed-moved r timed_out (at_time now) (done ++ r ∷ rest) w)

expire_each-split :
    (now : ℕ) (done rest : Attempts)
    → IsKeyed Attempt.attempt_id (done ++ rest)
    → expire_each now (lapsed_ids now rest) (done ++ rest)
      ≡ (all_closed now rest, done ++ map (lapse now) rest)
unfolding expire_each lapsed_ids
expire_each-split now done [] w = refl
expire_each-split now done (r ∷ rest) w = elim (Bool-cases (is_lapsed now r)) [
  | inl e ↦
      let ih =
        expire_each-split now (done ++ closed now r ∷ []) rest
          (rw append_assoc (IsKeyed-closed now done r rest w e)) in
      rw e (rw (expire_one now done r rest w e) (rw (simp append_assoc at ih)))
  | inr e ↦
      let ih = expire_each-split now (done ++ r ∷ []) rest (rw append_assoc w) in
      rw e (simp append_assoc at ih)
]

-- Under the primary key, `expire_leases` closes exactly the leased attempts whose time is up, each
-- as TIMED_OUT at `now` with nothing else of it changed, and leaves all other attempts as they are;
-- it returns the attempts that it closed. No update of its loop is lost.
pub expire_leases-map :
    (now : ℕ) (t : Attempts)
    → IsKeyed Attempt.attempt_id t
    → expire_leases now t ≡ (all_closed now t, map (lapse now) t)
unfolding expire_leases
expire_leases-map now t w = expire_each-split now [] t w

-- Afterwards no lease that is up remains, so a second call with the same clock does nothing.
lapsed_ids-lapse : (now : ℕ) (t : Attempts) → lapsed_ids now (map (lapse now) t) ≡ []
unfolding lapsed_ids is_lapsed state_eq
lapsed_ids-lapse now [] = refl
lapsed_ids-lapse now (r ∷ t) = ground (arith, lapsed_ids-lapse now t)

pub expire_leases_again :
    (now : ℕ) (t : Attempts)
    → IsKeyed Attempt.attempt_id t
    → expire_leases now (expire_leases now t).1 ≡ ([], (expire_leases now t).1)
expire_leases_again now t w =
    rw (expire_leases-map now t w) (none_left now (map (lapse now) t) (lapsed_ids-lapse now t))
  where
    none_left : (n : ℕ) (u : Attempts) → lapsed_ids n u ≡ [] → expire_leases n u ≡ ([], u)
    none_left n u e = unfold expire_leases expire_each in rw e
