-- ===== src/ControlPlane/Supervisor/Bounds.antt =====
-- How many pairs `matchFindings` makes
-- (packages/multi-agent-runtime/src/control-plane/supervisor.ts).
use qodex.Common.{
  Bool-cases, inl, inr, ◌∙◌, ℕ, suc, ◌+◌, ◌≤◌, ◌<◌, ◌≡◌, refl, ap, String, Bool, true, false, ◌||◌,
  Option, none, some, List, [], ◌∷◌, length, eqb, if◌then◌else◌, arith,
}
use qodex.ControlPlane.Supervisor.Data.{ReviewFinding}
use qodex.ControlPlane.Supervisor.Findings.{FindingHost, MatchedFindingPair}
use qodex.ControlPlane.Supervisor.Matching.{
  Candidate, is_claimed, consider, best_match, extended, match_findings,
}

-- how many of the findings from a place on are not taken
free : List ℕ → ℕ → List ReviewFinding → ℕ
free claimed index [] = 0
free claimed index (right ∷ rest) =
    (if is_claimed index claimed then 0 else 1) + free claimed (suc index) rest

free-bound :
    (claimed : List ℕ) (index : ℕ) (rights : List ReviewFinding)
    → free claimed index rights ≤ length rights
unfolding free
free-bound claimed index [] = omega arith
free-bound claimed index (right ∷ rest) = ground (arith, free-bound claimed (suc index) rest)

free-before :
    (claimed : List ℕ) (j index : ℕ) (rights : List ReviewFinding)
    → j < index
    → free (j ∷ claimed) index rights ≡ free claimed index rights
unfolding free is_claimed
free-before claimed j index [] before = refl
free-before claimed j index (right ∷ rest) before =
    ground (arith, free-before claimed j (suc index) rest (omega (arith, before)))

free-claim :
    (claimed : List ℕ) (j index : ℕ) (rights : List ReviewFinding)
    → index ≤ j
    → j < index + length rights
    → is_claimed j claimed ≡ false
    → suc (free (j ∷ claimed) index rights) ≡ free claimed index rights
unfolding free is_claimed
free-claim claimed j index [] low high fresh = omega (arith, low, high)
free-claim claimed j index (right ∷ rest) low high fresh = elim (Bool-cases (eqb index j)) [
  | inl same ↦
      let here : index ≡ j = ground arith in
      let free_here : is_claimed index claimed ≡ false =
        ap (λ x. is_claimed x claimed) here ∙ fresh in
      ground (arith, free-before claimed j (suc index) rest (omega (arith, here)), same, free_here)
  | inr apart ↦
      let above : suc index ≤ j = ground (arith, low) in
      ground (arith, free-claim claimed j (suc index) rest above (omega (arith, high)) fresh, apart)
]

-- the candidate is a place of the right side that is not taken
Fits : List ℕ → ℕ → Option Candidate → Type 0
Fits claimed count none = Unit
Fits claimed count (some best) = (is_claimed best.index claimed ≡ false) × (best.index < count)

chosen-Fits :
    (claimed : List ℕ) (count : ℕ) (best : Option Candidate) (next : Candidate) (stays : Bool)
    → Fits claimed count best
    → (stays ≡ false → Fits claimed count (some next))
    → Fits claimed count (if stays then best else some next)
unfolding Fits
chosen-Fits claimed count best next true held new = held
chosen-Fits claimed count best next false held new = new refl

||-eq-false : (a b : Bool) → a || b ≡ false → a ≡ false
||-eq-false true b h = cc
||-eq-false false b h = refl

extended-bound :
    (claimed : List ℕ) (count most : ℕ) (o : Option Candidate) (missed : List MatchedFindingPair)
    (found : Candidate → List MatchedFindingPair)
    → Fits claimed count o
    → length missed ≤ most
    → ((best : Candidate)
        → is_claimed best.index claimed ≡ false
        → best.index < count
        → length (found best) ≤ most)
    → length (extended o missed found) ≤ most
unfolding Fits
extended-bound claimed count most none missed found fits low high = low
extended-bound claimed count most (some best) missed found (fresh, inside) low high =
    high best fresh inside

module _ (host : FindingHost) where
  consider-Fits :
      (left : ReviewFinding) (claimed : List ℕ) (count index : ℕ) (right : ReviewFinding)
      (best : Option Candidate)
      → index < count
      → Fits claimed count best
      → Fits claimed count (consider host left claimed index right best)
  unfolding consider Fits
  consider-Fits left claimed count index right best inside held =
      chosen-Fits claimed count best _ _ held
        (λ taken. (||-eq-false (is_claimed index claimed) _ taken, inside))

  best_match-Fits :
      (left : ReviewFinding) (claimed : List ℕ) (count index : ℕ) (rights : List ReviewFinding)
      (best : Option Candidate)
      → index + length rights ≤ count
      → Fits claimed count best
      → Fits claimed count (best_match host left claimed index rights best)
  unfolding best_match
  best_match-Fits left claimed count index [] best inside held = held
  best_match-Fits left claimed count index (right ∷ rest) best inside held =
      best_match-Fits left claimed count (suc index) rest
        (consider host left claimed index right best) (omega (arith, inside))
        (consider-Fits left claimed count index right best (omega (arith, inside)) held)

  matches-free :
      (left_id right_id : String) (lefts rights : List ReviewFinding) (claimed : List ℕ)
      → length (match_findings host left_id right_id lefts rights claimed) ≤ free claimed 0 rights
  unfolding match_findings Fits
  matches-free left_id right_id [] rights claimed = omega arith
  matches-free left_id right_id (left ∷ lefts) rights claimed =
      let count = length rights in
      extended-bound claimed count (free claimed 0 rights)
        (best_match host left claimed 0 rights none) _ _
        (best_match-Fits left claimed count 0 rights none (omega arith) tt)
        (matches-free left_id right_id lefts rights claimed)
        (λ best fits inside. omega (
          arith,
          matches-free left_id right_id lefts rights (best.index ∷ claimed),
          free-claim claimed best.index 0 rights (omega arith) (omega (arith, inside)) fits,
        ))

  matches-left :
      (left_id right_id : String) (lefts rights : List ReviewFinding) (claimed : List ℕ)
      → length (match_findings host left_id right_id lefts rights claimed) ≤ length lefts
  unfolding match_findings Fits
  matches-left left_id right_id [] rights claimed = omega arith
  matches-left left_id right_id (left ∷ lefts) rights claimed =
      let count = length rights in
      extended-bound claimed count (suc (length lefts)) (best_match host left claimed 0 rights none)
        _ _ (best_match-Fits left claimed count 0 rights none (omega arith) tt)
        (omega (arith, matches-left left_id right_id lefts rights claimed))
        (λ best fits inside.
          omega (arith, matches-left left_id right_id lefts rights (best.index ∷ claimed)))

  -- matchFindings makes at most as many pairs as either worker has findings.
  pub match_findings-bounded :
      (left_id right_id : String) (lefts rights : List ReviewFinding)
      → (length (match_findings host left_id right_id lefts rights []) ≤ length lefts)
        × (length (match_findings host left_id right_id lefts rights []) ≤ length rights)
  match_findings-bounded left_id right_id lefts rights = (
    matches-left left_id right_id lefts rights [],
    omega (arith, matches-free left_id right_id lefts rights [], free-bound [] 0 rights),
  )
