-- ===== src/Executor/Pinning.antt =====
-- An implementation is pinned for good, and an epoch stands for a status.
use aegis_forge.Prelude.{
  ℕ, ◌≤◌, ◌<◌, String, ◌≡◌, refl, ap, ◌∙◌, sym, subst, inl, inr, Bool, true, false, Option, none,
  some, [], ◌∷◌, ◌++◌, arith, ◌==◌, Bool-cases, is_empty, if◌then◌else◌,
}
use aegis_forge.Executor.Identity.{
  ExecutorStatus, Identity, Identities, is_named, find_identity, max_epoch, next_epoch, is_active,
  new_identity, pinned, register_identity, marked, mark, mark_found, set_status_to, set_status,
  of_status,
}

find-append :
    (i v : String) (t : Identities) (x r : Identity)
    → find_identity i v t ≡ some r
    → find_identity i v (t ++ x ∷ []) ≡ some r
unfolding find_identity
find-append i v [] x r e = absurd (cc)
find-append i v (y ∷ t) x r e = ground (arith, find-append i v t x r)

marked-is_named :
    (i v : String) (b : Bool) (s : ExecutorStatus) (epoch : ℕ) (r : Identity)
    → is_named i v (if b then marked s epoch r else r) ≡ is_named i v r
unfolding is_named
marked-is_named i v true s epoch r = refl
marked-is_named i v false s epoch r = refl

some_injective : (x y : Identity) → some x ≡ some y → x ≡ y
some_injective x y e = cc

find-mark :
    (i v j w : String) (s : ExecutorStatus) (epoch : ℕ) (t : Identities) (r : Identity)
    → find_identity i v t ≡ some r
    → find_identity i v (mark j w s epoch t) ≡ some (if is_named j w r then marked s epoch r else r)
unfolding find_identity mark
find-mark i v j w s epoch [] r e = absurd (cc)
find-mark i v j w s epoch (y ∷ t) r e = elim (Bool-cases (is_named i v y)) [
  | inl n ↦
      let same : y ≡ r = some_injective y r (sym (rw n refl) ∙ e) in
      rw (marked-is_named i v (is_named j w y) s epoch y)
        (rw n (ap (λ x. some (if is_named j w x then marked s epoch x else x)) same))
  | inr n ↦
      rw (marked-is_named i v (is_named j w y) s epoch y)
        (rw n (find-mark i v j w s epoch t r (sym (rw n refl) ∙ e)))
]

find-max :
    (i v : String) (t : Identities) (r : Identity)
    → find_identity i v t ≡ some r
    → r.registry_epoch < next_epoch t
unfolding find_identity max_epoch next_epoch
find-max i v [] r e = absurd (cc)
find-max i v (y ∷ t) r e = ground (arith, find-max i v t r)

-- From `t` to `u` an identity stays, under the same implementation; its epoch does not fall, and
-- while it stands, so does the whole row.
abbrev pub Pins : Identities → Identities → Type 0
Pins t u =
    (i v : String) (r : Identity)
    → find_identity i v t ≡ some r
    → (r' : Identity) × (find_identity i v u ≡ some r')
      × (r'.implementation_digest ≡ r.implementation_digest)
      × (r.registry_epoch ≤ r'.registry_epoch)
      × (r'.registry_epoch ≡ r.registry_epoch → r' ≡ r)

Pins-refl : (t : Identities) → Pins t t
Pins-refl t i v r e = (r, e, refl, omega arith, λ h. refl)

append-Pins : (t : Identities) (x : Identity) → Pins t (t ++ x ∷ [])
append-Pins t x i v r e = (r, find-append i v t x r e, refl, omega arith, λ h. refl)

mark-Pins :
    (j w : String) (s : ExecutorStatus) (t : Identities) → Pins t (mark j w s (next_epoch t) t)
mark-Pins j w s t i v r e = elim (Bool-cases (is_named j w r)) [
  | inl n ↦
      let up = find-max i v t r e in
      (
        marked s (next_epoch t) r,
        find-mark i v j w s (next_epoch t) t r e ∙ rw n refl,
        refl,
        omega arith,
        λ h. absurd (omega arith),
      )
  | inr n ↦ (r, find-mark i v j w s (next_epoch t) t r e ∙ rw n refl, refl, omega arith, λ h. refl)
]

pinned-Pins : (i v d : String) (o : Option Identity) (t : Identities) → Pins t (pinned i v d o t).1
unfolding pinned
pinned-Pins i v d none t = append-Pins t (new_identity i v d (next_epoch t))
pinned-Pins i v d (some r) t = elim (Bool-cases (r.implementation_digest == d)) [
  | inr e ↦ rw e (Pins-refl t)
  | inl e ↦ elim (Bool-cases (is_active r.status)) [
    | inr a ↦ rw e (rw a (Pins-refl t))
    | inl a ↦ rw e (rw a (Pins-refl t))
  ]
]

register_identity-Pins : (i v d : String) (t : Identities) → Pins t (register_identity i v d t).1
unfolding register_identity
register_identity-Pins i v d t = elim (Bool-cases (is_empty i)) [
  | inl p ↦ rw p (Pins-refl t)
  | inr p ↦ elim (Bool-cases (is_empty v)) [
    | inl q ↦ rw p (rw q (Pins-refl t))
    | inr q ↦ elim (Bool-cases (is_empty d)) [
      | inl r ↦ rw p (rw q (rw r (Pins-refl t)))
      | inr r ↦ rw p (rw q (rw r (pinned-Pins i v d (find_identity i v t) t)))
    ]
  ]
]

mark_found-Pins :
    (i v : String) (s : ExecutorStatus) (o : Option Identity) (t : Identities)
    → Pins t (mark_found i v s o t).1
unfolding mark_found
mark_found-Pins i v s none t = Pins-refl t
mark_found-Pins i v s (some r) t = mark-Pins i v s t

set_status_to-Pins :
    (i v : String) (o : Option ExecutorStatus) (t : Identities) → Pins t (set_status_to i v o t).1
unfolding set_status_to
set_status_to-Pins i v none t = Pins-refl t
set_status_to-Pins i v (some s) t = mark_found-Pins i v s (find_identity i v t) t

pub data Step (t : Identities) : Identities → Type 0 where
  registered : {u : Identities} (i v d : String) → u ≡ (register_identity i v d t).1 → Step t u
  status_set : {u : Identities} (i v s : String) → u ≡ (set_status i v s t).1 → Step t u
  -- the INSERT of a `register` that found no row, and read the greatest epoch, some time ago
  inserted_late :
      {u : Identities} (i v d : String) (epoch : ℕ)
      → find_identity i v t ≡ none
      → u ≡ t ++ new_identity i v d epoch ∷ []
      → Step t u
  -- the UPDATE of a `set_status` that read the greatest epoch, and the row, some time ago
  marked_late :
      {u : Identities} (i v : String) (s : ExecutorStatus) (epoch : ℕ)
      → u ≡ mark i v s epoch t
      → Step t u

pub data Reach (t : Identities) : Identities → Type 0 where
  here : Reach t t
  next : {u w : Identities} → Reach t u → Step u w → Reach t w

-- No UPDATE of the history came later than its reads.
abbrev pub IsTimely : {t u : Identities} → Step t u → Type 0
IsTimely (registered i v d e) = Unit {0}
IsTimely (status_set i v s e) = Unit {0}
IsTimely (inserted_late i v d epoch n e) = Unit {0}
IsTimely (marked_late i v s epoch e) = ⊥

unfoldable pub AllTimely : {t u : Identities} → Reach t u → Type 0
AllTimely here = Unit {0}
AllTimely (next h s) = AllTimely h × IsTimely s

Step-Pins : {t u : Identities} (s : Step t u) → IsTimely s → Pins t u
unfolding set_status
Step-Pins {t} (registered i v d e) w = subst (Pins t) (sym e) (register_identity-Pins i v d t)
Step-Pins {t} (status_set i v s e) w =
    subst (Pins t) (sym e) (set_status_to-Pins i v (of_status s) t)
Step-Pins {t} (inserted_late i v d epoch n e) w =
    subst (Pins t) (sym e) (append-Pins t (new_identity i v d epoch))
Step-Pins (marked_late i v s epoch e) w = absurd w

Pins-trans : (t u w : Identities) → Pins t u → Pins u w → Pins t w
Pins-trans t u w p q i v r e =
    let (r', e', d, le, same) = p i v r e in
    let (r'', e'', d', le', same') = q i v r' e' in
    (r'', e'', d' ∙ d, omega arith, λ h. same' (omega arith) ∙ same (omega arith))

Reach-Pins : {t u : Identities} (h : Reach t u) → AllTimely h → Pins t u
unfolding AllTimely
Reach-Pins {t} here w = Pins-refl t
Reach-Pins {t} {u} (next {u = z} h s) w = Pins-trans t z u (Reach-Pins h w.0) (Step-Pins s w.1)

-- The digest of the row that is found.
abbrev Digested : Identities → Identities → Type 0
Digested t u =
    (i v : String) (r : Identity)
    → find_identity i v t ≡ some r
    → (r' : Identity) × (find_identity i v u ≡ some r')
      × (r'.implementation_digest ≡ r.implementation_digest)

mark-Digested :
    (j w : String) (s : ExecutorStatus) (epoch : ℕ) (t : Identities)
    → Digested t (mark j w s epoch t)
mark-Digested j w s epoch t i v r e = (
  if is_named j w r then marked s epoch r else r,
  find-mark i v j w s epoch t r e,
  either (is_named j w r),
)
  where
    either :
        (b : Bool)
        → Identity.implementation_digest (if b then marked s epoch r else r)
          ≡ r.implementation_digest
    either true = refl
    either false = refl

Step-Digested : {t u : Identities} → Step t u → Digested t u
unfolding set_status
Step-Digested {t} (registered i v d e) j w r f =
    let (r', f', d', le, same) = subst (Pins t) (sym e) (register_identity-Pins i v d t) j w r f in
    (r', f', d')
Step-Digested {t} (status_set i v s e) j w r f =
    let (r', f', d', le, same) =
      subst (Pins t) (sym e) (set_status_to-Pins i v (of_status s) t) j w r f in
    (r', f', d')
Step-Digested {t} (inserted_late i v d epoch n e) j w r f =
    subst (Digested t) (sym e)
      (λ j' w' r' f'. (r', find-append j' w' t (new_identity i v d epoch) r' f', refl)) j w r f
Step-Digested {t} (marked_late i v s epoch e) j w r f =
    subst (Digested t) (sym e) (mark-Digested i v s epoch t) j w r f

Reach-Digested : {t u : Identities} → Reach t u → Digested t u
Reach-Digested here i v r e = (r, e, refl)
Reach-Digested (next h s) i v r e =
    let (r', e', d) = Reach-Digested h i v r e in
    let (r'', e'', d') = Step-Digested s i v r' e' in (r'', e'', d' ∙ d)

-- In every history of the registry, whatever interleaving of connections made it, an identity stays
-- and its implementation digest never changes. Where no `set_status` wrote later than it read, its
-- epoch never falls, and as long as its epoch is the same, so are its status and the whole row.
pub digest_pinned :
    {t u : Identities} (i v : String) (r : Identity) (h : Reach t u)
    → find_identity i v t ≡ some r
    → (r' : Identity) × (find_identity i v u ≡ some r')
      × (r'.implementation_digest ≡ r.implementation_digest)
      × (AllTimely h
          → (r.registry_epoch ≤ r'.registry_epoch)
            × (r'.registry_epoch ≡ r.registry_epoch → r' ≡ r))
digest_pinned i v r h e =
    let (r', e', d) = Reach-Digested h i v r e in
    (
      r',
      e',
      d,
      λ w.
          let (r'', e'', d'', le, same) = Reach-Pins h w i v r e in
          let one : r'' ≡ r' = some_injective r'' r' (sym e'' ∙ e') in
          (
            subst (λ x. r.registry_epoch ≤ x.registry_epoch) one le,
            λ k. sym one ∙ same (ap Identity.registry_epoch one ∙ k),
          ),
    )
