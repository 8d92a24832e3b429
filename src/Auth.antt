-- ===== src/Auth.antt =====
-- Which requests pass, and where the user is sent after signing in: frontend/proxy.ts and
-- frontend/lib/auth/redirect.ts. A path is the list of its code points.
pub mod Paths
pub mod Origins
pub mod Tests
use prosper.Prelude.{
  ℕ, String, Bool, true, false, not, ◌&&◌, ◌||◌, Option, none, some, List, [], ◌∷◌, ◌++◌, ◌==◌,
  string_eq, nat_beq, if◌then◌else◌, present_text,
}
use prosper.Prelude.Text.{codes, is_prefix}

-- `DEFAULT_AUTHENTICATED_PAGE`
abbrev pub default_authenticated_page : List ℕ
default_authenticated_page = codes "/overview"

-- `path.startsWith('/') && !path.startsWith('//') && !path.startsWith('/\\')`
unfoldable pub is_safe_return_path : List ℕ → Bool
unfolding is_prefix
is_safe_return_path path =
    is_prefix (b'/' ∷ []) path
    && not (is_prefix (b'/' ∷ b'/' ∷ []) path)
    && not (is_prefix (b'/' ∷ b'\\' ∷ []) path)

-- `!maybeUnsafePath || !isSafeReturnPath(maybeUnsafePath)`: the path where the test fails.
unfoldable pub safe_path : Option (List ℕ) → Option (List ℕ)
unfolding is_safe_return_path
safe_path none = none
safe_path (some path) = if is_safe_return_path path then some path else none

-- The sign-in page, with the path to return to in the query.
pub data SignInUrl : Type 0 where
  sign_in_url : SignInUrl
  with_return_path : List ℕ → SignInUrl

unfoldable pub sign_in_url_with_return_path : Option (List ℕ) → SignInUrl
unfolding safe_path
sign_in_url_with_return_path maybe_unsafe_path = elim (safe_path maybe_unsafe_path) [
  | none ↦ sign_in_url
  | some path ↦ with_return_path path
]

unfoldable pub return_path_or_default : Option (List ℕ) → List ℕ
unfolding safe_path
return_path_or_default maybe_unsafe_path = elim (safe_path maybe_unsafe_path) [
  | none ↦ default_authenticated_page
  | some path ↦ path
]

-- What `proxy` reads of a request.
pub record Request : Type 0 where
  pub pathname : String
  pub search : String
  pub method : String
  pub origin : Option String
  pub host : Option String
  pub forwarded_host : Option String
  pub cookie : Option String

-- The response: the request is passed on, with the path tagged and the cookie set again where the
-- code does so, or it is refused.
pub data Response : Type 0 where
  next : Response
  forward : String × String → Option String → Response
  forbidden : Response

abbrev pub sign_out_path : String
sign_out_path = "/api/auth/signout"

-- `new URL(origin).host`, or none for a text that is no URL.
module _ (host_of : String → Option String) where
  -- `sameOrigin`
  unfoldable pub same_origin : Option String → Option String → Bool
  same_origin none host = false
  same_origin (some origin) none = false
  same_origin (some origin) (some host) = elim (host_of origin) [
    | none ↦ false
    | some h ↦ h == host
  ]

  unfoldable pub is_same_origin : Request → Bool
  unfolding same_origin
  is_same_origin r = same_origin r.origin r.host || same_origin r.origin r.forwarded_host

  unfoldable pub proxy : Request → Response
  unfolding is_same_origin
  proxy r =
      if r.pathname == sign_out_path
      then next
      else if r.method == "GET"
      then forward (r.pathname, r.search) (present_text r.cookie)
      else if is_same_origin r
      then forward (r.pathname, r.search) none
      else forbidden
