-- ===== src/Evidence/Binding.antt =====
-- A head that verifies determines the whole chain, where the digest is free of collisions.
use mathlib.Core.List.{append-nil}
use aegis_forge.Prelude.{
  ℕ, ◌≡◌, ◌≢◌, refl, ap, ◌∙◌, sym, subst, ◌↔◌, Bool, true, List, [], ◌∷◌, ◌++◌,
}
use aegis_forge.Evidence.Chain.{Body, Event, valid, head_from, check_chain}
use aegis_forge.Evidence.Integrity.{Links, Links-valid}

-- The events of a list put before a list, the last one first.
abbrev onto : {A : Type 0} → List A → List A → List A
onto [] acc = acc
onto (x ∷ xs) acc = onto xs (x ∷ acc)

onto_twice : {A : Type 0} (xs a b : List A) → onto (onto xs a) b ≡ onto a (xs ++ b)
onto_twice [] a b = refl
onto_twice (x ∷ xs) a b = onto_twice xs (x ∷ a) b

onto_injective : {A : Type 0} (xs ys : List A) → onto xs [] ≡ onto ys [] → xs ≡ ys
onto_injective xs ys e =
    sym (append-nil xs)
    ∙ sym (onto_twice xs [] [])
    ∙ ap (λ l. onto l []) e
    ∙ onto_twice ys [] []
    ∙ append-nil ys

module _ {Hash : Type 0} (same : Hash → Hash → Bool) (genesis : Hash) (digest : Body → Hash → Hash)
    (same_iff : (a b : Hash) → (same a b ≡ true) ↔ (a ≡ b))
    (injective : (b b' : Body) (p p' : Hash) → digest b p ≡ digest b' p' → (b ≡ b') × (p ≡ p'))
    (no_genesis : (b : Body) (p : Hash) → digest b p ≢ genesis) where
  -- The chain read back from its head.
  Reads : Hash → List (Event Hash) → Type 0
  Reads h [] = h ≡ genesis
  Reads h (e ∷ r) = (e.event_hash ≡ h) × (h ≡ digest e.body e.prev_hash) × Reads e.prev_hash r

  Reads-unique : (h : Hash) (r s : List (Event Hash)) → Reads h r → Reads h s → r ≡ s
  unfolding Reads
  Reads-unique h [] [] p q = refl
  Reads-unique h [] (e ∷ s) p (_, d, _) = absurd (no_genesis e.body e.prev_hash (sym d ∙ p))
  Reads-unique h (e ∷ r) [] (_, d, _) q = absurd (no_genesis e.body e.prev_hash (sym d ∙ q))
  Reads-unique h (e ∷ r) (x ∷ s) (eh, d, l) (xh, d', l') =
      let (b, p) = injective e.body x.body e.prev_hash x.prev_hash (sym d ∙ d') in
      let rest = Reads-unique e.prev_hash r s l (subst (λ y. Reads y s) (sym p) l') in
      λ i. record { body = b i; prev_hash = p i; event_hash = (eh ∙ sym xh) i } ∷ rest i

  Links-Reads :
      (before : Hash) (t acc : List (Event Hash))
      → Links same genesis digest same_iff before t
      → Reads before acc
      → Reads (head_from same genesis digest before t) (onto t acc)
  unfolding Reads head_from Links
  Links-Reads before [] acc l r = r
  Links-Reads before (e ∷ t) acc (p, d, l) r =
      Links-Reads e.event_hash t (e ∷ acc) l
        (refl, d ∙ ap (digest e.body) (sym p), subst (λ y. Reads y acc) (sym p) r)

  -- Two lists of events that verify from genesis to the same head are the same list: nothing can be
  -- changed, dropped, added or reordered under a head that is known.
  pub head_determines :
      (s t : List (Event Hash)) (n n' m m' : ℕ) (h : Hash)
      → check_chain same genesis digest genesis n s ≡ valid m h
      → check_chain same genesis digest genesis n' t ≡ valid m' h
      → s ≡ t
  unfolding Reads
  head_determines s t n n' m m' h e e' =
      let (l, top) = Links-valid same genesis digest same_iff genesis h n m s e in
      let (l', top') = Links-valid same genesis digest same_iff genesis h n' m' t e' in
      onto_injective s t (
        Reads-unique h (onto s []) (onto t [])
          (subst (λ x. Reads x (onto s [])) top (Links-Reads genesis s [] l refl))
          (subst (λ x. Reads x (onto t [])) top' (Links-Reads genesis t [] l' refl)))
