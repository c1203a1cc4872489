-- ===== src/Review/Paths.antt =====
-- The paths and addresses that a review request may name
-- (automation/review_dispatcher_v1/model_legacy_v1.py). The parsers of URLs and addresses and the
-- case table are the standard library's: the parameter `Net` stands for them.
use multiverse_research.Prelude.{
  ℕ, String, Bool, true, false, not, ◌&&◌, ◌||◌, Option, none, some, ◌==◌, string_eq, any, nat_beq,
}
use multiverse_research.Prelude.Value.{Value, str}
use multiverse_research.Prelude.Json.{is_text, text_in}
use multiverse_research.Prelude.Text.{codes, is_empty, has_prefix, split, same_codes}
use multiverse_research.Prelude.Checked.{
  Checked, passed, refused, value_error, require, ◌>>=◌, ◌>>◌,
}

-- What `urlparse` gives; an absent part is `none`, as it is `None`.
pub record Url : Type 0 where
  pub scheme : String
  pub hostname : Option String
  pub username : Option String
  pub password : Option String
  pub query : String
  pub fragment : String
  pub path : String

pub record Address : Type 0 where
  pub is_private : Bool
  pub is_loopback : Bool
  pub is_link_local : Bool
  pub is_multicast : Bool
  pub is_reserved : Bool
  pub is_unspecified : Bool

-- `urlparse` and `ipaddress.ip_address` give nothing where they raise `ValueError`.
pub record Net : Type 0 where
  pub urlparse : String → Option Url
  pub ip_address : String → Option Address
  pub lower : String → String

abbrev has_code : ℕ → String → Bool
has_code c s = any (nat_beq c) (codes s)

-- `safe_repo_path`
unfoldable pub safe_repo_path : Value → Checked (Unit {0})
safe_repo_path v = do
  require (is_text v) "PATH_REQUIRED"
  require (not (has_prefix "/" (text_in v))) "ABSOLUTE_PATH_DENIED"
  require (not (any (same_codes (codes "..")) (split b'/' (codes (text_in v)))))
      "PATH_TRAVERSAL_DENIED"
  require (not (has_code 0 (text_in v))) "PATH_NUL_DENIED"

-- `_address_allowed`
unfoldable pub address_allowed : Address → Bool
address_allowed ip = not (
    ip.is_private || ip.is_loopback || ip.is_link_local || ip.is_multicast || ip.is_reserved
    || ip.is_unspecified)

abbrev or_value_error {ℓ} : {A : Type ℓ} → Option A → Checked A
or_value_error none = refused value_error
or_value_error (some a) = passed a

abbrev text_or_empty : Option String → String
text_or_empty none = ""
text_or_empty (some s) = s

abbrev is_absent : Option String → Bool
is_absent none = true
is_absent (some _) = false

-- `validate_public_https_url`
unfoldable pub validate_public_https_url : Net → Value → Checked (Unit {0})
validate_public_https_url net v = do
  require (is_text v) "URL_REQUIRED"
  parsed ← or_value_error (net.urlparse (text_in v))
  require (parsed.scheme == "https") "HTTPS_REQUIRED"
  require (not (is_empty (text_or_empty parsed.hostname))) "URL_HOST_REQUIRED"
  require (is_absent parsed.username && is_absent parsed.password) "URL_USERINFO_DENIED"
  require (is_empty parsed.query && is_empty parsed.fragment) "URL_QUERY_FRAGMENT_DENIED"
  require (is_empty parsed.path || parsed.path == "/") "URL_BASE_PATH_DENIED"
  let host = net.lower (text_or_empty parsed.hostname)
  require (not (host == "localhost" || host == "localhost.localdomain")) "LOCALHOST_DENIED"
  require (elim (net.ip_address host) [ none ↦ true | some ip ↦ address_allowed ip ])
      "PRIVATE_OR_SPECIAL_IP_DENIED"

-- `validate_http_path`
unfoldable pub validate_http_path : Value → Checked (Unit {0})
validate_http_path v = do
  require (elim v [ str s ↦ has_prefix "/" s | _ ↦ false ]) "HTTP_PATH"
  require (not (has_prefix "//" (text_in v))) "HTTP_NETWORK_PATH_DENIED"
  require (not (has_code 0 (text_in v))) "HTTP_PATH_NUL_DENIED"
  require (not (has_code b'?' (text_in v)) && not (has_code b'#' (text_in v)))
      "HTTP_PATH_QUERY_FRAGMENT_DENIED"
  require (not (has_code 92 (text_in v))) "HTTP_PATH_BACKSLASH_DENIED"
