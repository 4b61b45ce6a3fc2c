-- ===== src/ControlPlane/Governance/Tiers.antt =====
-- The evidence behind a tier
-- (packages/multi-agent-runtime/src/control-plane/governance.ts).
use qodex.Common.{
  ◌≡◌, refl, sym, ◌∙◌, ap, subst, inl, inr, String, Bool, true, ◌||◌, List, [], ◌∷◌, ◌++◌, any, All,
  Any, arith, eq_iff, ◌==◌, Bool-cases, if◌then◌else◌,
}
use mathlib.Core.List.{append_assoc}
use qodex.Common.Maps.{Table, lookup, insert, lookup-insert}
use qodex.ControlPlane.Governance.{
  Evidence, PolicyDecision, GovernanceOutcome, GovernanceTier, proves_case, proves_failed_closed,
  governance_identity, group_at, group_all, proves_governed, any_group, classify_governance_tier,
}

-- Three pieces of evidence on one identity that prove the three cases.
pub record ProvesGoverned (es : List Evidence) : Type 0 where
  pub denied : Evidence
  pub permitted : Evidence
  pub closed : Evidence
  pub denied_in : Any (λ x. x ≡ denied) es
  pub permitted_in : Any (λ x. x ≡ permitted) es
  pub closed_in : Any (λ x. x ≡ closed) es
  pub permitted_same : governance_identity permitted ≡ governance_identity denied
  pub closed_same : governance_identity closed ≡ governance_identity denied
  pub denial : proves_case denied GovernanceOutcome.blocked PolicyDecision.block ≡ true
  pub permission : proves_case permitted GovernanceOutcome.succeeded PolicyDecision.allow ≡ true
  pub closure : proves_failed_closed closed ≡ true

module _ {A : Type 0} where
  Any-append_right : (xs : List A) (x : A) (ys : List A) → Any (λ y. y ≡ x) (xs ++ x ∷ ys)
  Any-append_right [] x ys = inl refl
  Any-append_right (y ∷ xs) x ys = inr (Any-append_right xs x ys)

  pub any-append : (p : A → Bool) (xs ys : List A) → any p (xs ++ ys) ≡ (any p xs || any p ys)
  any-append p [] ys = refl
  any-append p (x ∷ xs) ys = ground (arith, any-append p xs ys)

-- what `any` finds, with what is known of every element
any-All :
    (P : Evidence → Type 0) (p : Evidence → Bool) (xs : List Evidence)
    → All P xs
    → any p xs ≡ true
    → (x : Evidence) × P x × (p x ≡ true)
any-All P p [] h k = cc
any-All P p (x ∷ xs) (first, rest) k = elim (Bool-cases (p x)) [
  | inl found ↦ (x, first, found)
  | inr other ↦ any-All P p xs rest (ground arith)
]

All-snoc :
    (P : Evidence → Type 0) (xs : List Evidence) (x : Evidence)
    → All P xs
    → P x
    → All P (xs ++ x ∷ [])
All-snoc P [] x h p = (p, tt)
All-snoc P (y ∷ xs) x (first, rest) p = (first, All-snoc P xs x rest p)

-- every group holds evidence of `es` with the identity that is its key
abbrev IsGroup : List Evidence → String → Evidence → Type 0
IsGroup es k x = Any (λ y. y ≡ x) es × (governance_identity x ≡ k)

abbrev AreGroups : List Evidence → Table (List Evidence) → Type 0
AreGroups es [] = Unit
AreGroups es ((k, group) ∷ groups) = All (IsGroup es k) group × AreGroups es groups

pub group_at-cons :
    (k j : String) (group : List Evidence) (groups : Table (List Evidence))
    → group_at k ((j, group) ∷ groups) ≡ (if j == k then group else group_at k groups)
unfolding lookup
group_at-cons k j group groups = ground arith

pub group_at-insert :
    (k j : String) (group : List Evidence) (groups : Table (List Evidence))
    → group_at j (insert k group groups) ≡ (if k == j then group else group_at j groups)
group_at-insert k j group groups = ground (arith, lookup-insert k j group groups)

group_at-All :
    (es : List Evidence) (k : String) (groups : Table (List Evidence))
    → AreGroups es groups
    → All (IsGroup es k) (group_at k groups)
unfolding lookup
group_at-All es k [] h = tt
group_at-All es k ((j, group) ∷ groups) (first, rest) = elim (Bool-cases (j == k)) [
  | inl same ↦
      subst (All (IsGroup es k))
        (sym
          (group_at-cons k j group groups ∙ ap (λ b. if b then group else group_at k groups) same))
        (subst (λ i. All (IsGroup es i) group) ((eq_iff j k).0 same) first)
  | inr other ↦
      subst (All (IsGroup es k))
        (sym
          (group_at-cons k j group groups ∙ ap (λ b. if b then group else group_at k groups) other))
        (group_at-All es k groups rest)
]

insert-AreGroups :
    (es : List Evidence) (k : String) (group : List Evidence) (groups : Table (List Evidence))
    → All (IsGroup es k) group
    → AreGroups es groups
    → AreGroups es (insert k group groups)
unfolding insert
insert-AreGroups es k group [] new h = (new, tt)
insert-AreGroups es k group ((j, old) ∷ groups) new (first, rest) = elim (Bool-cases (j == k)) [
  | inl same ↦
      subst (AreGroups es)
        (ap (λ b. if b then (k, group) ∷ groups else (j, old) ∷ insert k group groups) (sym same))
        (new, rest)
  | inr other ↦
      subst (AreGroups es)
        (ap (λ b. if b then (k, group) ∷ groups else (j, old) ∷ insert k group groups) (sym other))
        (first, insert-AreGroups es k group groups new rest)
]

-- the elements of `es` are among those of `all`
abbrev IsPart : List Evidence → List Evidence → Type 0
IsPart all es = All (λ e. Any (λ y. y ≡ e) all) es

group_all-AreGroups :
    (all es : List Evidence) (groups : Table (List Evidence))
    → IsPart all es
    → AreGroups all groups
    → AreGroups all (group_all es groups)
unfolding group_all
group_all-AreGroups all [] groups part h = h
group_all-AreGroups all (e ∷ es) groups (first, part) h =
    let id = governance_identity e in
    let group =
      All-snoc (IsGroup all id) (group_at id groups) e (group_at-All all id groups h)
        (first, refl) in
    group_all-AreGroups all es (insert id (group_at id groups ++ e ∷ []) groups) part
      (insert-AreGroups all id (group_at id groups ++ e ∷ []) groups group h)

any_group-found :
    (es : List Evidence) (p : List Evidence → Bool) (groups : Table (List Evidence))
    → AreGroups es groups
    → any_group p groups ≡ true
    → (k : String) × (group : List Evidence) × All (IsGroup es k) group × (p group ≡ true)
any_group-found es p [] h found = cc
any_group-found es p ((k, group) ∷ groups) (first, rest) found = elim (Bool-cases (p group)) [
  | inl here ↦ (k, group, first, here)
  | inr other ↦ any_group-found es p groups rest (ground arith)
]

IsPart-refl : (past es : List Evidence) → IsPart (past ++ es) es
IsPart-refl past [] = tt
IsPart-refl past (e ∷ es) = (
  Any-append_right past e es,
  subst (λ l. IsPart l es) (append_assoc past (e ∷ []) es) (IsPart-refl (past ++ e ∷ []) es),
)

-- the group that proves the tier, as three pieces of evidence
found-ProvesGoverned :
    (es : List Evidence) (k : String) (group : List Evidence)
    → All (IsGroup es k) group
    → proves_governed group ≡ true
    → ProvesGoverned es
unfolding proves_governed
found-ProvesGoverned es k group h proved =
    let (a, (a_in, a_id), a_ok) =
      any-All (IsGroup es k) (λ e. proves_case e GovernanceOutcome.blocked PolicyDecision.block)
        group h (ground arith) in
    let (b, (b_in, b_id), b_ok) =
      any-All (IsGroup es k) (λ e. proves_case e GovernanceOutcome.succeeded PolicyDecision.allow)
        group h (ground arith) in
    let (c, (c_in, c_id), c_ok) =
      any-All (IsGroup es k) proves_failed_closed group h (ground arith) in
    record {
      denied = a;
      permitted = b;
      closed = c;
      denied_in = a_in;
      permitted_in = b_in;
      closed_in = c_in;
      permitted_same = b_id ∙ sym a_id;
      closed_same = c_id ∙ sym a_id;
      denial = a_ok;
      permission = b_ok;
      closure = c_ok;
    }

pub governed-ProvesGoverned :
    (es : List Evidence) → classify_governance_tier es ≡ GovernanceTier.governed → ProvesGoverned es
unfolding classify_governance_tier
governed-ProvesGoverned [] h = cc
governed-ProvesGoverned (e ∷ es) h =
    let groups = group_all-AreGroups (e ∷ es) (e ∷ es) [] (IsPart-refl [] (e ∷ es)) tt in
    let (k, group, members, proved) =
      any_group-found (e ∷ es) proves_governed (group_all (e ∷ es) []) groups (ground arith) in
    found-ProvesGoverned (e ∷ es) k group members proved
