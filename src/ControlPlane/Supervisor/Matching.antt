-- ===== src/ControlPlane/Supervisor/Matching.antt =====
-- `matchFindings` (packages/multi-agent-runtime/src/control-plane/supervisor.ts): each finding of
-- the left worker takes the most similar finding of the right worker that is not taken yet.
use qodex.Common.{
  ℕ, suc, ◌*◌, String, Bool, true, false, not, ◌||◌, Option, none, some, List, [], ◌∷◌, any, has,
  leb, eqb, if◌then◌else◌,
}
use qodex.ControlPlane.Supervisor.Data.{ReviewFinding}
use qodex.ControlPlane.Supervisor.Findings.{
  FindingHost, MatchedFindingPair, finding_files, finding_similarity, keep_if,
}

-- the best match so far
pub record Candidate : Type 0 where
  pub index : ℕ
  pub files : List String
  pub part : ℕ
  pub whole : ℕ

unfoldable pub is_claimed : ℕ → List ℕ → Bool
is_claimed index claimed = any (eqb index) claimed

unfoldable below_threshold : ℕ → ℕ → Bool
below_threshold part whole = eqb whole 0 || not (leb (3 * whole) (10 * part))

-- `best && best.similarity >= similarity`
unfoldable beats : Option Candidate → ℕ → ℕ → Bool
beats none part whole = false
beats (some best) part whole = leb (part * best.whole) (best.part * whole)

abbrev pub is_empty : List String → Bool
is_empty [] = true
is_empty (x ∷ xs) = false

unfoldable pub shared_files : ReviewFinding → ReviewFinding → List String
unfolding finding_files keep_if
shared_files left right = keep_if (λ file. has file (finding_files right)) (finding_files left)

abbrev pub extended :
    Option Candidate
    → List MatchedFindingPair
    → (Candidate → List MatchedFindingPair)
    → List MatchedFindingPair
extended none missed found = missed
extended (some best) missed found = found best

module _ (host : FindingHost) where
  -- a round of the inner loop
  unfoldable pub consider :
      ReviewFinding → List ℕ → ℕ → ReviewFinding → Option Candidate → Option Candidate
  unfolding is_claimed below_threshold beats finding_similarity shared_files
  consider left claimed index right best =
      let files = shared_files left right in
      let similarity = finding_similarity host left right in
      if is_claimed index claimed
        || (is_empty files
            || (below_threshold similarity.0 similarity.1 || beats best similarity.0 similarity.1))
      then best
      else some (record { index = index; files = files; part = similarity.0; whole = similarity.1 })

  unfoldable pub best_match :
      ReviewFinding → List ℕ → ℕ → List ReviewFinding → Option Candidate → Option Candidate
  unfolding consider
  best_match left claimed index [] best = best
  best_match left claimed index (right ∷ rest) best =
      best_match left claimed (suc index) rest (consider left claimed index right best)

  abbrev pair_of : String → String → Candidate → MatchedFindingPair
  pair_of left_id right_id best = record {
    left_agent_id = left_id;
    right_agent_id = right_id;
    files = host.sorted best.files;
    similarity = host.rounded best.part best.whole;
  }

  -- the outer loop
  unfoldable pub match_findings :
      String → String → List ReviewFinding → List ReviewFinding → List ℕ → List MatchedFindingPair
  unfolding best_match
  match_findings left_id right_id [] rights claimed = []
  match_findings left_id right_id (left ∷ lefts) rights claimed =
      extended (best_match left claimed 0 rights none)
        (match_findings left_id right_id lefts rights claimed)
        (λ best.
          pair_of left_id right_id best
          ∷ match_findings left_id right_id lefts rights (best.index ∷ claimed))
