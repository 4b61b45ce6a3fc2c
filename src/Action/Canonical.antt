-- ===== src/Action/Canonical.antt =====
-- `canonicalJson`, `computeProposalDigest` and the two patterns for text of
-- packages/action-runtime/src/validation.ts. What the host computes is a field of `ActionHost`.
use Prim.Native.String.{◌∷◌ as ◌∷∷◌, [] as end_of_text, ◌++◌ as ◌+++◌}
use Prim.Native.Char.{code}
use qodex.Common.{
  ℕ, zero, suc, ◌+◌, String, Bool, true, false, not, ◌&&◌, Option, none, some, List, [], ◌∷◌, leb,
  eqb, if◌then◌else◌, Result, ok, guard, ◌>>=◌, ◌>>◌,
}
use qodex.Session.Json.{Number, Json, Items, Fields}
use qodex.Session.Validation.{is_finite}
use qodex.Action.Types.{ActionRisk, ActionProposalInput, ErrorCode}

pub record ActionHost : Type 0 where
  -- `Date.parse`, in milliseconds from the earliest date; `none` for NaN
  pub parse_date : String → Option ℕ
  -- `new Date(time).toISOString()`
  pub iso_text : ℕ → String
  -- `JSON.stringify` of a text and of a finite number
  pub quote : String → String
  pub number_text : Number → String
  -- `left.localeCompare(right) < 0`
  pub precedes : String → String → Bool
  -- `new TextEncoder().encode(text).byteLength`
  pub byte_length : String → ℕ
  -- the SHA-256 digest of the encoded text, in hexadecimal digits
  pub sha256_hex : String → String
  pub evidence_size_limit : Number

abbrev pub action_schema_version : String
action_schema_version = "kerniq.action.v1"

-- `parts.join(",")`
unfoldable join_commas : List String → String
join_commas [] = ""
join_commas (s ∷ []) = s
join_commas (s ∷ t ∷ rest) = s +++ ("," +++ join_commas (t ∷ rest))

module _ (host : ActionHost) where
  -- `Array.prototype.sort`, which is stable, by the keys
  unfoldable insert_entry : String × String → List (String × String) → List (String × String)
  insert_entry entry [] = entry ∷ []
  insert_entry entry (other ∷ rest) =
      let later = insert_entry entry rest in
      if host.precedes other.0 entry.0 then other ∷ later else entry ∷ other ∷ rest

  unfoldable sort_entries : List (String × String) → List (String × String)
  unfolding insert_entry
  sort_entries [] = []
  sort_entries (entry ∷ rest) = insert_entry entry (sort_entries rest)

  -- the entries of an object as they are written
  unfoldable entry_texts : List (String × String) → List String
  entry_texts [] = []
  entry_texts ((key, text) ∷ rest) = (host.quote key +++ (":" +++ text)) ∷ entry_texts rest

  unfoldable mutual
    unfolding sort_entries entry_texts join_commas

    pub canonical_json : Json → Result ErrorCode String
    canonical_json Json.null = ok "null"
    canonical_json (Json.bool true) = ok "true"
    canonical_json (Json.bool false) = ok "false"
    canonical_json (Json.str s) = ok (host.quote s)
    canonical_json (Json.num n) = do
      guard (is_finite n) ErrorCode.invalid_proposal
      ok (host.number_text n)
    canonical_json (Json.arr xs) = do
      parts ← canonical_items xs
      ok ("[" +++ (join_commas parts +++ "]"))
    canonical_json (Json.obj fs) = do
      entries ← canonical_fields fs
      ok ("{" +++ (join_commas (entry_texts (sort_entries entries)) +++ "}"))

    pub canonical_items : Items → Result ErrorCode (List String)
    canonical_items Items.nil = ok []
    canonical_items (Items.cons x xs) = do
      part ← canonical_json x
      parts ← canonical_items xs
      ok (part ∷ parts)

    pub canonical_fields : Fields → Result ErrorCode (List (String × String))
    canonical_fields Fields.end = ok []
    canonical_fields (Fields.field key item fs) = do
      part ← canonical_json item
      parts ← canonical_fields fs
      ok ((key, part) ∷ parts)

  unfoldable risk_text : ActionRisk → String
  risk_text ActionRisk.read = "read"
  risk_text ActionRisk.write = "write"
  risk_text ActionRisk.process = "process"
  risk_text ActionRisk.network = "network"
  risk_text ActionRisk.external = "external"

  abbrev session_field : Option String → Fields → Fields
  session_field none rest = rest
  session_field (some id) rest = Fields.field "sessionId" (Json.str id) rest

  -- the proposal without its digest, as an object
  unfoldable pub digestable : String → ActionProposalInput → Json
  unfolding risk_text
  digestable version input = Json.obj (
      Fields.field "schemaVersion" (Json.str version) (
        Fields.field "actionId" (Json.str input.action_id) (
          Fields.field "taskId" (Json.str input.task_id) (
            session_field input.session_id (
              Fields.field "actionType" (Json.str input.action_type) (
                Fields.field "title" (Json.str input.title) (
                  Fields.field "summary" (Json.str input.summary) (
                    Fields.field "risk" (Json.str (risk_text input.risk)) (
                      Fields.field "parameters" input.parameters (
                        Fields.field "requestedAt" (Json.str input.requested_at)
                          Fields.end))))))))))

  unfoldable pub compute_proposal_digest : String → ActionProposalInput → Result ErrorCode String
  compute_proposal_digest version input = do
    text ← canonical_json (digestable version input)
    ok ("sha256:" +++ host.sha256_hex text)

abbrev is_digit : ℕ → Bool
is_digit c = leb b'0' c && leb c b'9'

-- a pattern answers what is left of the text behind the place where it matches
abbrev Pattern : Type 0
Pattern = String → Option String

abbrev match_then : Option String → Pattern → Option String
match_then none p = none
match_then (some rest) p = p rest

-- `\d{n}`
unfoldable match_digits : ℕ → Pattern
match_digits zero text = some text
match_digits (suc n) end_of_text = none
match_digits (suc n) (c ∷∷ rest) =
    let tail = match_digits n rest in if is_digit (code c) then tail else none

-- a character
unfoldable match_char : ℕ → Pattern
match_char x end_of_text = none
match_char x (c ∷∷ rest) = if eqb (code c) x then some rest else none

-- `\d{0,n}`, as many as there are
unfoldable skip_digits : ℕ → String → String
skip_digits zero text = text
skip_digits (suc n) end_of_text = end_of_text
skip_digits (suc n) (c ∷∷ rest) =
    let tail = skip_digits n rest in if is_digit (code c) then tail else c ∷∷ rest

-- `(?:\.\d{1,9})?`
unfoldable match_fraction : Pattern
unfolding match_char match_digits skip_digits
match_fraction text = elim (match_char b'.' text) [
  | none ↦ some text
  | some rest ↦ elim (match_digits 1 rest) [
    | none ↦ some text
    | some more ↦ some (skip_digits 8 more)
  ]
]

abbrev match_offset : Pattern
match_offset rest = match_then (match_then (match_digits 2 rest) (match_char b':')) (match_digits 2)

-- `(?:Z|[+-]\d{2}:\d{2})`
unfoldable match_zone : Pattern
unfolding match_char match_digits
match_zone text = elim (match_char b'Z' text) [
  | some rest ↦ some rest
  | none ↦ elim (match_char b'+' text) [
    | some rest ↦ match_offset rest
    | none ↦ match_then (match_char b'-' text) match_offset
  ]
]

abbrev match_date : Pattern
match_date text =
    match_then
      (match_then (match_then (match_then (match_digits 4 text) (match_char b'-')) (match_digits 2))
        (match_char b'-'))
      (match_digits 2)

abbrev match_time : Pattern
match_time text =
    match_then
      (match_then (match_then (match_then (match_digits 2 text) (match_char b':')) (match_digits 2))
        (match_char b':'))
      (match_digits 2)

abbrev is_end : Option String → Bool
is_end none = false
is_end (some end_of_text) = true
is_end (some (c ∷∷ rest)) = false

-- `RFC3339_PATTERN.test`
unfoldable pub is_rfc3339 : String → Bool
unfolding match_char match_digits match_fraction match_zone
is_rfc3339 text = is_end (
    match_then
      (match_then (match_then (match_then (match_date text) (match_char b'T')) match_time)
        match_fraction)
      match_zone)

-- `SAFE_ERROR_MESSAGE_PATTERN.test`
unfoldable pub is_safe_message : String → Bool
is_safe_message end_of_text = true
is_safe_message (c ∷∷ rest) = leb 32 (code c) && not (eqb (code c) 127) && is_safe_message rest

-- `text.length`, in UTF-16 units
unfoldable pub utf16_length : String → ℕ
utf16_length end_of_text = 0
utf16_length (c ∷∷ rest) = (if leb 65536 (code c) then 2 else 1) + utf16_length rest
