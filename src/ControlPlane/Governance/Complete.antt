-- ===== src/ControlPlane/Governance/Complete.antt =====
-- The groups that `classifyGovernanceTier` makes of the evidence
-- (packages/multi-agent-runtime/src/control-plane/governance.ts).
use qodex.Common.{
  ◌≡◌, refl, sym, ◌∙◌, ap, subst, ◌⊎◌, inl, inr, ◌↔◌, String, Bool, true, false, ◌&&◌, ◌||◌, Option,
  none, some, List, [], ◌∷◌, ◌++◌, any, Any, arith, eq_iff, eq_refl, ◌==◌, Bool-cases,
  if◌then◌else◌,
}
use qodex.Common.Maps.{Table, insert}
use qodex.ControlPlane.Governance.{
  Evidence, PolicyDecision, GovernanceOutcome, GovernanceTier, proves_case, proves_failed_closed,
  governance_identity, group_at, group_all, proves_governed, any_group, classify_governance_tier,
}
use qodex.ControlPlane.Governance.Tiers.{
  ProvesGoverned, any-append, group_at-cons, group_at-insert, governed-ProvesGoverned,
}

-- what a group holds, it holds after an insertion
insert-grows :
    (p : Evidence → Bool) (k id : String) (e : Evidence) (groups : Table (List Evidence))
    → any p (group_at k groups) ≡ true
    → any p (group_at k (insert id (group_at id groups ++ e ∷ []) groups)) ≡ true
insert-grows p k id e groups h = elim (Bool-cases (id == k)) [
  | inl same ↦
      let at = (eq_iff id k).0 same in
      let held : any p (group_at id groups) ≡ true =
        subst (λ i. any p (group_at i groups) ≡ true) (sym at) h in
      ground (
        arith,
        any-append p (group_at id groups) (e ∷ []),
        group_at-insert id k (group_at id groups ++ e ∷ []) groups,
      )
  | inr other ↦ ground (arith, group_at-insert id k (group_at id groups ++ e ∷ []) groups)
]

group_all-grows :
    (p : Evidence → Bool) (k : String) (es : List Evidence) (groups : Table (List Evidence))
    → any p (group_at k groups) ≡ true
    → any p (group_at k (group_all es groups)) ≡ true
unfolding group_all
group_all-grows p k [] groups h = h
group_all-grows p k (e ∷ es) groups h =
    group_all-grows p k es _ (insert-grows p k (governance_identity e) e groups h)

insert-holds :
    (p : Evidence → Bool) (id : String) (e : Evidence) (groups : Table (List Evidence))
    → p e ≡ true
    → any p (group_at id (insert id (group_at id groups ++ e ∷ []) groups)) ≡ true
insert-holds p id e groups h = ground (
  arith,
  eq_refl id,
  any-append p (group_at id groups) (e ∷ []),
  group_at-insert id id (group_at id groups ++ e ∷ []) groups,
)

group_all-holds :
    (p : Evidence → Bool) (x : Evidence) (es : List Evidence) (groups : Table (List Evidence))
    → Any (λ y. y ≡ x) es
    → p x ≡ true
    → any p (group_at (governance_identity x) (group_all es groups)) ≡ true
unfolding group_all
group_all-holds p x [] groups h k = elim h [ ]
group_all-holds p x (e ∷ es) groups (inl same) k =
    let proved : p e ≡ true = ap p same ∙ k in
    subst (λ y. any p (group_at (governance_identity y) (group_all (e ∷ es) groups)) ≡ true) same
      (group_all-grows p (governance_identity e) es _
        (insert-holds p (governance_identity e) e groups proved))
group_all-holds p x (e ∷ es) groups (inr later) k = group_all-holds p x es _ later k

any_group-at :
    (p : List Evidence → Bool) (k : String) (groups : Table (List Evidence))
    → p [] ≡ false
    → p (group_at k groups) ≡ true
    → any_group p groups ≡ true
unfolding qodex.Common.Maps.lookup
any_group-at p k [] blank h = cc
any_group-at p k ((j, group) ∷ groups) blank h = elim (Bool-cases (j == k)) [
  | inl same ↦ ground (arith, group_at-cons k j group groups)
  | inr other ↦
      let rest : p (group_at k groups) ≡ true =
        subst (λ l. p l ≡ true)
          (group_at-cons k j group groups ∙ ap (λ b. if b then group else group_at k groups) other)
          h in
      ground (arith, any_group-at p k groups blank rest)
]

module _ (es : List Evidence) (w : ProvesGoverned es) where
  -- the group of the three pieces of evidence
  the_group-proves :
      proves_governed (group_at (governance_identity w.denied) (group_all es [])) ≡ true
  unfolding proves_governed
  the_group-proves =
      let a =
        group_all-holds (λ e. proves_case e GovernanceOutcome.blocked PolicyDecision.block) w.denied
          es [] w.denied_in w.denial in
      let b =
        subst
          (λ i.
            any (λ e. proves_case e GovernanceOutcome.succeeded PolicyDecision.allow)
              (group_at i (group_all es []))
            ≡ true)
          w.permitted_same
          (group_all-holds (λ e. proves_case e GovernanceOutcome.succeeded PolicyDecision.allow)
            w.permitted es [] w.permitted_in w.permission) in
      let c =
        subst (λ i. any proves_failed_closed (group_at i (group_all es [])) ≡ true) w.closed_same
          (group_all-holds proves_failed_closed w.closed es [] w.closed_in w.closure) in
      ground (arith, a, b, c)

ProvesGoverned-governed :
    (es : List Evidence) → ProvesGoverned es → classify_governance_tier es ≡ GovernanceTier.governed
unfolding classify_governance_tier proves_governed
ProvesGoverned-governed [] w = absurd (elim w.denied_in [ ])
ProvesGoverned-governed (e ∷ es) w = ground (
  arith,
  any_group-at proves_governed (governance_identity w.denied) (group_all (e ∷ es) []) refl
      (the_group-proves (e ∷ es) w),
)

-- The tier of a list of evidence is GOVERNED exactly when it has a proof of a block, a proof of an
-- allowed call that succeeded and a proof of a call that failed closed, all on one identity.
pub classify_governance_tier_iff :
    (es : List Evidence)
    → (classify_governance_tier es ≡ GovernanceTier.governed) ↔ ProvesGoverned es
classify_governance_tier_iff es = (governed-ProvesGoverned es, ProvesGoverned-governed es)
