-- ===== src/Models/Errors.antt =====
-- harness/models/errors.py. The details of a classification, which are log text, are left out. What
-- Python's `json` and the Unicode tables of `re` answer is an argument.
use dependabot_harness.Prelude.{
  ℕ, Bool, true, false, not, ◌&&◌, ◌||◌, String, Option, none, some, List, [], ◌∷◌, Text, codes,
  length, any, leb, nat_beq, ◌==◌, string_eq, if◌then◌else◌,
}
use dependabot_harness.Version.Parse.{strip}

pub data ResponseClass : Type 0 where
  ok empty transient refusal truncated malformed config : ResponseClass

unfoldable pub is_retryable : ResponseClass → Bool
is_retryable transient = true
is_retryable empty = true
is_retryable truncated = true
is_retryable _ = false

unfoldable pub is_usable : ResponseClass → Bool
is_usable ResponseClass.ok = true
is_usable _ = false

-- What stands at a key of a JSON object: an object, an array of some length, or anything else.
pub data Node : Type 0 where
  object scalar : Node
  array : ℕ → Node

-- `json.loads` of an object, as its `get`; `\w`, and the folding of case.
pub record Python : Type 0 where
  pub loads : Text → Option (String → Option Node)
  pub is_word : ℕ → Bool
  pub fold_case : ℕ → ℕ

-- What is left of a text after a pattern in lower case.
unfoldable pub after_pattern : Python → Text → Text → Option Text
after_pattern py [] text = some text
after_pattern py (p ∷ ps) [] = none
after_pattern py (p ∷ ps) (c ∷ text) =
    let rest = after_pattern py ps text in if nat_beq (py.fold_case c) p then rest else none

-- `\b` after a character of a word.
abbrev ends_word : Python → Text → Bool
ends_word py [] = true
ends_word py (c ∷ text) = not (py.is_word c)

-- `pattern\b` at the start of the text
unfoldable pub word_at : Python → Text → Text → Bool
unfolding after_pattern
word_at py pattern text = elim (after_pattern py pattern text) [
  | none ↦ false
  | some rest ↦ ends_word py rest
]

-- `\bpattern\b` anywhere, after a character that is one of a word or not.
unfoldable pub search_word : Python → Bool → Text → Text → Bool
unfolding word_at
search_word py after_word pattern [] = false
search_word py after_word pattern (c ∷ text) =
    let later = search_word py (py.is_word c) pattern text in
    (not after_word && word_at py pattern (c ∷ text)) || later

-- `_ERROR_BODY_PATTERNS`, with the alternatives of a pattern written out.
abbrev pub error_body_patterns : List Text
error_body_patterns =
    codes "overloaded_error"
    ∷ codes "rate limit"
    ∷ codes "rate_limit"
    ∷ codes "rate limited"
    ∷ codes "rate_limited"
    ∷ codes "rate limit_error"
    ∷ codes "rate_limit_error"
    ∷ codes "internal server error"
    ∷ codes "service unavailable"
    ∷ codes "bad gateway"
    ∷ codes "gateway timeout"
    ∷ codes "gateway time-out"
    ∷ codes "upstream connect error"
    ∷ codes "temporarily unavailable"
    ∷ []

unfoldable pub is_error_text : Python → Text → Bool
is_error_text py body = any (λ pattern. search_word py false pattern body) error_body_patterns

-- `_MARKUP_PATTERN`, on a stripped body
unfoldable pub is_markup : Python → Text → Bool
is_markup py body = word_at py (codes "<!doctype") body || word_at py (codes "<html") body

abbrev pub short_body_chars : ℕ
short_body_chars = 200

-- `_as_json_object`
unfoldable pub as_json_object : Python → Text → Option (String → Option Node)
as_json_object py [] = none
as_json_object py (c ∷ s) = if nat_beq c b'{' then py.loads (c ∷ s) else none

abbrev is_error_node : Option Node → Bool
is_error_node none = false
is_error_node (some object) = true
is_error_node (some scalar) = false
is_error_node (some (array n)) = leb 1 n

-- `_transient_from_json`
unfoldable pub transient_from_json : (String → Option Node) → Bool
transient_from_json parsed = is_error_node (parsed "error") || is_error_node (parsed "errors")

abbrev stripped : Option Text → Text
stripped none = []
stripped (some text) = strip text

abbrev stops_for : String → Option String → Bool
stops_for reason none = false
stops_for reason (some found) = found == reason

-- `classify`, on the stripped text.
unfoldable pub classify_body : Python → Option String → Text → ResponseClass
classify_body py stop_reason body =
    let cut = if stops_for "max_tokens" stop_reason then truncated else ResponseClass.ok in
    elim (as_json_object py body) [
      | some parsed ↦ if transient_from_json parsed then transient else cut
      | none ↦
          if is_markup py body
          then transient
          else if leb (length body) short_body_chars && is_error_text py body
          then transient
          else cut
    ]

unfoldable pub classify : Python → Option Text → Option String → Bool → ResponseClass
classify py text stop_reason has_tool_calls =
    if stops_for "refusal" stop_reason then refusal else elim (stripped text) [
      | [] ↦ if has_tool_calls then ResponseClass.ok else empty
      | c ∷ s ↦ classify_body py stop_reason (c ∷ s)
    ]

-- An exception of a provider's SDK: whether it is an ImportError, its type's name, and its
-- `status_code` where that is an int.
pub record ProviderException : Type 0 where
  pub is_import_error : Bool
  pub type_name : String
  pub status_code : Option ℕ

abbrev permanent_provider_errors : List String
permanent_provider_errors =
    "AuthenticationError" ∷ "PermissionDeniedError" ∷ "NotFoundError" ∷ "BadRequestError"
    ∷ "UnprocessableEntityError" ∷ "AnthropicError" ∷ "OpenAIError" ∷ "TypeError" ∷ []

abbrev permanent_provider_status : List ℕ
permanent_provider_status = 400 ∷ 401 ∷ 403 ∷ 404 ∷ 422 ∷ []

abbrev is_permanent_status : Option ℕ → Bool
is_permanent_status none = false
is_permanent_status (some status) = any (nat_beq status) permanent_provider_status

unfoldable pub is_permanent_provider_error : ProviderException → Bool
is_permanent_provider_error exc =
    exc.is_import_error
    || (any (λ name. name == exc.type_name) permanent_provider_errors
        || is_permanent_status exc.status_code)
