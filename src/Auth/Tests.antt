-- ===== src/Auth/Tests.antt =====
-- Tests of frontend/lib/auth/redirect.ts and frontend/proxy.ts, and the theorems at concrete inputs.
use prosper.Prelude.{
  ◌≡◌, ◌↔◌, refl, String, true, false, Option, none, some, ◌∷◌, ◌==◌, string_eq, if◌then◌else◌,
}
use prosper.Prelude.Text.{codes}
use prosper.Auth.{
  Request, sign_in_url, sign_in_url_with_return_path, return_path_or_default, proxy, forbidden,
  next, sign_out_path,
}
use prosper.Auth.Paths.{leads_off}
use prosper.Auth.Origins.{IsFrom, proxy-forbidden}

off_site : return_path_or_default (some (codes "//evil.com")) ≡ codes "/overview"
unfolding return_path_or_default
off_site = refl

off_site_sign_in : sign_in_url_with_return_path (some (codes "https://evil.com")) ≡ sign_in_url
unfolding sign_in_url_with_return_path
off_site_sign_in = refl

-- A tab between the slashes is let through, and a browser takes it out.
tab_between : leads_off (return_path_or_default (some (b'/' ∷ 9 ∷ codes "/evil.com"))) ≡ true
unfolding leads_off return_path_or_default
tab_between = refl

abbrev host_of : String → Option String
host_of origin = if origin == "https://evil.com" then some "evil.com" else none

abbrev attack : Request
attack = record {
  pathname = "/new";
  search = "";
  method = "POST";
  origin = some "https://evil.com";
  host = some "prosper.example";
  forwarded_host = none;
  cookie = some "session";
}

attack_refused : proxy host_of attack ≡ forbidden
unfolding proxy
attack_refused = refl

sign_out_passes : proxy host_of (record attack { pathname = sign_out_path }) ≡ next
unfolding proxy
sign_out_passes = refl

proxy-forbidden_example : (proxy host_of attack ≡ forbidden) ↔ (
    ((attack.pathname == sign_out_path) ≡ false)
    × ((attack.method == "GET") ≡ false)
    × ¬ (IsFrom host_of attack.origin attack.host)
    × ¬ (IsFrom host_of attack.origin attack.forwarded_host))
proxy-forbidden_example = proxy-forbidden host_of attack
