-- ===== src/Verification/Attributes/Laws.antt =====
-- Which reports a policy accepts.
use trustflow.Base.{ℕ, ◌≡◌, ◌↔◌, ◌⊎◌, inl, inr, refl, Bool, true, false, List, [], ◌∷◌, Str}
use trustflow.Error.{Result, ok, throw, undefined, ◌>>=◌}
use trustflow.External.{External, IsExternal}
use trustflow.Verification.Attributes.{
  Attributes, attrs_is_match, verify_attributes_from, verify_attributes,
}
use trustflow.Verification.Attributes.Policy.{throws, Matches, Skips, Aborts}
use trustflow.Verification.Attributes.Match.{matched, skipped, aborted, attrs_is_match-Outcome}

-- Some alternative matches, and each before it only has its version or debug flag refused.
abbrev pub Accepts : External → Attributes → List Attributes → Type 0
Accepts X a [] = ⊥
Accepts X a (e ∷ es) = Matches X a e ⊎ (Skips X a e × Accepts X a es)

-- Some alternative matches.
abbrev pub SomeMatches : External → Attributes → List Attributes → Type 0
SomeMatches X a [] = ⊥
SomeMatches X a (e ∷ es) = Matches X a e ⊎ SomeMatches X a es

module _ (X : External) (L : IsExternal X) (a : Attributes) where
  accepted_from :
      (es : List Attributes) (i : ℕ) (msgs : List Str)
      → verify_attributes_from X a es i msgs ≡ ok tt
      → Accepts X a es
  unfolding verify_attributes_from
  accepted_from [] i msgs h = cc
  accepted_from (e ∷ es) i msgs h = elim (attrs_is_match-Outcome X L a e []) [
    | matched p t ↦ inl p
    | skipped p m t ↦ inr (p, accepted_from es _ _ (rw t at h))
    | aborted p t ↦ absurd (stopped (attrs_is_match X a e []) _ t h)
  ]
    where
      stopped :
          (r : Result (Bool × Str)) (k : Bool × Str → Result (Unit {0}))
          → throws r ≡ true
          → ¬ ((r >>= k) ≡ ok tt)
      stopped (ok x) k t h = cc
      stopped (throw x) k t h = cc
      stopped undefined k t h = cc

  not_skipped : (e : Attributes) → Matches X a e → ¬ (Skips X a e)
  not_skipped e h p = p.1 (h.isvsvn, h.debug_disabled)

  not_aborted : (e : Attributes) → Matches X a e → ¬ (Aborts X a e)
  not_aborted e h (inl p) = p h.identity
  not_aborted e h (inr p) = p.3 h.report_data

  not_both : (e : Attributes) → Skips X a e → ¬ (Aborts X a e)
  not_both e h (inl p) = p h.0
  not_both e h (inr p) = h.1 (p.1, p.2)

  attrs_is_match_pass :
      (e : Attributes) (m : Str) → Matches X a e → attrs_is_match X a e m ≡ ok (true, m)
  attrs_is_match_pass e m h = elim (attrs_is_match-Outcome X L a e m) [
    | matched p t ↦ t
    | skipped p m' t ↦ absurd (not_skipped e h p)
    | aborted p t ↦ absurd (not_aborted e h p)
  ]

  attrs_is_match_skip :
      (e : Attributes) (m : Str)
      → Skips X a e
      → (m' : Str) × (attrs_is_match X a e m ≡ ok (false, m'))
  attrs_is_match_skip e m h = elim (attrs_is_match-Outcome X L a e m) [
    | matched p t ↦ absurd (not_skipped e p h)
    | skipped p m' t ↦ (m', t)
    | aborted p t ↦ absurd (not_both e h p)
  ]

  attrs_is_match_abort :
      (e : Attributes) (m : Str) → Aborts X a e → throws (attrs_is_match X a e m) ≡ true
  attrs_is_match_abort e m h = elim (attrs_is_match-Outcome X L a e m) [
    | matched p t ↦ absurd (not_aborted e p h)
    | skipped p m' t ↦ absurd (not_both e p h)
    | aborted p t ↦ t
  ]

  Accepts-from :
      (es : List Attributes) (i : ℕ) (msgs : List Str)
      → Accepts X a es
      → verify_attributes_from X a es i msgs ≡ ok tt
  unfolding verify_attributes_from
  Accepts-from [] i msgs h = absurd h
  Accepts-from (e ∷ es) i msgs (inl h) = rw (attrs_is_match_pass e [] h)
  Accepts-from (e ∷ es) i msgs (inr (p, h)) =
      rw ((attrs_is_match_skip e [] p).1) (Accepts-from es _ _ h)

  -- A report is accepted exactly if some alternative of the policy matches it in all fifteen
  -- attributes, and each alternative before that one allows the ten attributes up to the product id
  -- but refuses the security version or the debug flag.
  pub verify_attributes_iff :
      (policy : List Attributes) → (verify_attributes X a policy ≡ ok tt) ↔ Accepts X a policy
  unfolding verify_attributes
  verify_attributes_iff policy = (accepted_from policy 0 [], Accepts-from policy 0 [])

  some_match : (es : List Attributes) → Accepts X a es → SomeMatches X a es
  some_match [] h = h
  some_match (e ∷ es) (inl h) = inl h
  some_match (e ∷ es) (inr (p, h)) = inr (some_match es h)

  -- No report is accepted that no alternative of the policy matches; with no alternative, none is.
  pub verify_attributes_sound :
      (policy : List Attributes) → verify_attributes X a policy ≡ ok tt → SomeMatches X a policy
  verify_attributes_sound policy h = some_match policy ((verify_attributes_iff policy).0 h)

  -- If an alternative refuses a text attribute that it comes to compare, the whole verification
  -- throws: the alternatives behind it are never tried, whatever they allow.
  pub verify_attributes-Aborts :
      (e : Attributes) (more : List Attributes)
      → Aborts X a e
      → throws (verify_attributes X a (e ∷ more)) ≡ true
  unfolding verify_attributes
  verify_attributes-Aborts e more h =
      throws-bind (attrs_is_match X a e []) _ (attrs_is_match_abort e [] h)
    where
      throws-bind :
          (r : Result (Bool × Str)) (k : Bool × Str → Result (Unit {0}))
          → throws r ≡ true
          → throws (r >>= k) ≡ true
      throws-bind (ok x) k t = cc
      throws-bind (throw x) k t = refl
      throws-bind undefined k t = cc
