-- ===== src/Session/Sensitive.antt =====
-- packages/session-runtime/src/sensitive-text.ts: the rules for sensitive text and what they
-- remove. The expressions of the rules are not translated: what the host's `RegExp` answers for a
-- rule is a field of `Patterns`, and a `Rule` only names a place in the list `RULES`. An object here never has the key `__proto__`.
use qodex.Common.{String, Bool, true, false, ◌||◌, List, [], ◌∷◌, if◌then◌else◌}
use qodex.Session.Json.{Json, Items, Fields}

pub data Rule : Type 0 where
  private_key authorization cookie bearer openai_key github_pat github_token : Rule
  aws_key_id aws_secret slack_token google_key quoted_secret bare_secret : Rule
  file_url unc_path drive_path posix_path : Rule

pub data SensitiveTextKind : Type 0 where
  credential absolute_path : SensitiveTextKind

-- `new RegExp(rule.source, rule.flags without g).test(value)`,
-- `value.replace(new RegExp(rule.source, rule.flags), rule.replacement)` and `SENSITIVE_FIELD.test`
pub record Patterns : Type 0 where
  pub test : Rule → String → Bool
  pub replace : Rule → String → String
  pub is_sensitive_field_name : String → Bool

abbrev rules : List Rule
rules =
    Rule.private_key ∷ Rule.authorization ∷ Rule.cookie ∷ Rule.bearer ∷ Rule.openai_key
    ∷ Rule.github_pat ∷ Rule.github_token ∷ Rule.aws_key_id ∷ Rule.aws_secret ∷ Rule.slack_token
    ∷ Rule.google_key ∷ Rule.quoted_secret ∷ Rule.bare_secret ∷ Rule.file_url ∷ Rule.unc_path
    ∷ Rule.drive_path ∷ Rule.posix_path ∷ []

-- `rule.kind === "absolute_path"`
abbrev is_path_rule : Rule → Bool
is_path_rule Rule.file_url = true
is_path_rule Rule.unc_path = true
is_path_rule Rule.drive_path = true
is_path_rule Rule.posix_path = true
is_path_rule _ = false

pub record SensitiveTextScan : Type 0 where
  pub has_sensitive_text : Bool
  pub has_credential : Bool
  pub has_absolute_path : Bool
  pub kinds : List SensitiveTextKind

module _ (ps : Patterns) where
  -- the loop of `inspectSensitiveText`, with its two flags
  unfoldable pub scan : List Rule → String → Bool → Bool → Bool × Bool
  scan [] value secret path = (secret, path)
  scan (r ∷ rs) value secret path =
      if ps.test r value
      then (if is_path_rule r then scan rs value secret true else scan rs value true path)
      else scan rs value secret path

  unfoldable pub inspect_sensitive_text : String → SensitiveTextScan
  unfolding scan
  inspect_sensitive_text value =
      let (secret, path) = scan rules value false false in
      record {
        has_sensitive_text = secret || path;
        has_credential = secret;
        has_absolute_path = path;
        kinds =
            if secret
            then SensitiveTextKind.credential
              ∷ (if path then SensitiveTextKind.absolute_path ∷ [] else [])
            else (if path then SensitiveTextKind.absolute_path ∷ [] else []);
      }

  abbrev pub has_sensitive_text : String → Bool
  has_sensitive_text value = (inspect_sensitive_text value).has_sensitive_text

  abbrev replace_all : List Rule → String → String
  replace_all [] value = value
  replace_all (r ∷ rs) value = replace_all rs (ps.replace r value)

  unfoldable pub sanitize_sensitive_text : String → String
  sanitize_sensitive_text value = replace_all rules value

  unfoldable mutual
    pub sanitize_sensitive_json : Json → Json
    sanitize_sensitive_json Json.null = Json.null
    sanitize_sensitive_json (Json.bool b) = Json.bool b
    sanitize_sensitive_json (Json.num n) = Json.num n
    sanitize_sensitive_json (Json.str s) = Json.str (sanitize_sensitive_text s)
    sanitize_sensitive_json (Json.arr xs) = Json.arr (sanitize_items xs)
    sanitize_sensitive_json (Json.obj fs) = Json.obj (sanitize_fields fs)

    pub sanitize_items : Items → Items
    sanitize_items Items.nil = Items.nil
    sanitize_items (Items.cons x xs) = Items.cons (sanitize_sensitive_json x) (sanitize_items xs)

    pub sanitize_fields : Fields → Fields
    sanitize_fields Fields.end = Fields.end
    sanitize_fields (Fields.field key child fs) =
        let rest = sanitize_fields fs in
        if ps.is_sensitive_field_name key
        then rest
        else Fields.field key (sanitize_sensitive_json child) rest
