-- ===== src/ControlPlane/Supervisor/Findings.antt =====
-- The comparison of findings: `findingFiles`, `findingTokens`, `findingSimilarity` and
-- `matchFindings` (packages/multi-agent-runtime/src/control-plane/supervisor.ts). A similarity is
-- the pair of its numerator and its denominator: quotients of numbers below 2^25 have the order of
-- the fractions, and 0.3 is the quotient of 3 and 10.
use Prim.Native.String.{[] as end_of_text, ◌∷◌ as ◌∷∷◌, ◌++◌ as ◌+++◌}
use Prim.Native.Char.{code}
use qodex.Common.{
  ℕ, suc, String, Bool, false, not, ◌&&◌, ◌||◌, List, [], ◌∷◌, ◌++◌, map, has, length, ◌==◌, leb,
  eqb, if◌then◌else◌,
}
use qodex.ControlPlane.Supervisor.Data.{ReviewFinding}
use qodex.ControlPlane.Supervisor.Admission.{trim}

pub record FindingHost : Type 0 where
  -- `text.toLowerCase()`
  pub lower : String → String
  -- the order of `Array.prototype.sort` on texts
  pub sorted : List String → List String
  -- `Number((part / whole).toFixed(3))`, as text
  pub rounded : ℕ → ℕ → String

pub record MatchedFindingPair : Type 0 where
  pub left_agent_id : String
  pub right_agent_id : String
  pub files : List String
  pub similarity : String

unfoldable pub keep_if : (String → Bool) → List String → List String
keep_if test [] = []
keep_if test (x ∷ xs) = let rest = keep_if test xs in if test x then x ∷ rest else rest

-- `[...new Set(texts)]`
unfoldable pub unique : List String → List String
unfolding keep_if
unique [] = []
unique (x ∷ xs) = x ∷ keep_if (λ y. not (x == y)) (unique xs)

unfoldable forward_slashes : String → String
forward_slashes end_of_text = ""
forward_slashes (c ∷∷ rest) =
    let other = forward_slashes rest in if eqb (code c) 92 then "/" +++ other else c ∷∷ other

-- `text.replace(/^\.\//, "")`
unfoldable without_dot : String → String
without_dot (c ∷∷ (d ∷∷ rest)) =
    if eqb (code c) b'.' && eqb (code d) b'/' then rest else c ∷∷ (d ∷∷ rest)
without_dot text = text

unfoldable normalize_file : String → String
unfolding trim forward_slashes without_dot
normalize_file value = forward_slashes (without_dot (trim value))

unfoldable pub finding_files : ReviewFinding → List String
unfolding unique normalize_file keep_if
finding_files finding =
    unique (keep_if (λ file. not (file == "")) (map normalize_file finding.files))

abbrev is_word : ℕ → Bool
is_word c = (leb b'0' c && leb c b'9') || (leb b'a' c && leb c b'z')

abbrev with_word : String → List String → List String
with_word word rest = if word == "" then rest else word ∷ rest

-- the first word, and the words behind it
unfoldable split_words : String → String × List String
split_words end_of_text = ("", [])
split_words (c ∷∷ text) =
    let later = split_words text in
    if is_word (code c) then (c ∷∷ later.0, later.1) else ("", with_word later.0 later.1)

-- `text.match(/[a-z0-9]+/g) ?? []`
unfoldable words_of : String → List String
unfolding split_words
words_of text = let found = split_words text in with_word found.0 found.1

unfoldable text_length : String → ℕ
text_length end_of_text = 0
text_length (c ∷∷ rest) = suc (text_length rest)

-- the last character that `stem` takes off
unfoldable ends_in_s : (before : ℕ) → String → Bool
ends_in_s before end_of_text = false
ends_in_s before (c ∷∷ end_of_text) = eqb (code c) b's' && not (eqb before b's')
ends_in_s before (c ∷∷ (d ∷∷ rest)) = ends_in_s (code c) (d ∷∷ rest)

unfoldable without_last : String → String
without_last end_of_text = ""
without_last (c ∷∷ end_of_text) = ""
without_last (c ∷∷ (d ∷∷ rest)) = c ∷∷ without_last (d ∷∷ rest)

unfoldable stem : String → String
unfolding text_length ends_in_s without_last
stem value = if leb 5 (text_length value) && ends_in_s 0 value then without_last value else value

abbrev ignored : List String
ignored =
    "a" ∷ "an" ∷ "and" ∷ "are" ∷ "as" ∷ "at" ∷ "be" ∷ "by" ∷ "for" ∷ "from" ∷ "in" ∷ "into" ∷ "is"
    ∷ "it" ∷ "of" ∷ "on" ∷ "or" ∷ "that" ∷ "the" ∷ "this" ∷ "to" ∷ "with" ∷ []

module _ (host : FindingHost) where
  unfoldable finding_tokens : ReviewFinding → List String
  unfolding unique words_of stem keep_if text_length
  finding_tokens finding =
      let words = words_of (host.lower (finding.finding +++ (" " +++ finding.smallest_fix))) in
      unique (keep_if (λ word. leb 3 (text_length word) && not (has word ignored)) (map stem words))

  -- the sizes of the intersection and of the union
  unfoldable pub finding_similarity : ReviewFinding → ReviewFinding → ℕ × ℕ
  unfolding finding_tokens unique keep_if
  finding_similarity left right =
      let mine = finding_tokens left in
      let theirs = finding_tokens right in
      (length (keep_if (λ token. has token theirs) mine), length (unique (mine ++ theirs)))
