-- ===== src/Auth/Origins.antt =====
-- Which requests `proxy` of frontend/proxy.ts refuses.
use prosper.Prelude.{
  ◌≡◌, ◌≢◌, ◌↔◌, inl, inr, refl, String, Bool, true, false, Option, none, some, ◌==◌, string_eq,
  if◌then◌else◌, Bool-cases, Option-cases, ap, sym, ◌∙◌, present_text, ◌||◌,
}
use prosper.Auth.{
  Request, Response, next, forward, forbidden, proxy, is_same_origin, same_origin, sign_out_path,
}

clash : false ≡ true → ⊥
clash h = cc

four_tests :
    (a b p q : Bool) (get same : Response)
    → get ≢ forbidden
    → same ≢ forbidden
    → ((if a then next else if b then get else if p || q then same else forbidden) ≡ forbidden)
      ↔ ((a ≡ false) × (b ≡ false) × (p ≡ false) × (q ≡ false))
four_tests true b p q get same h k = (λ e. cc, λ (x, _, _, _). cc)
four_tests false true p q get same h k = (λ e. absurd (h e), λ (_, x, _, _). cc)
four_tests false false true q get same h k = (λ e. absurd (k e), λ (_, _, x, _). cc)
four_tests false false false true get same h k = (λ e. absurd (k e), λ (_, _, _, x). cc)
four_tests false false false false get same h k = (λ e. (refl, refl, refl, refl), λ e. refl)

module _ (host_of : String → Option String) where
  -- The origin is a URL of the host.
  abbrev pub IsFrom : Option String → Option String → Type 0
  IsFrom origin host =
      (o : String) × (h : String) × (origin ≡ some o) × (host ≡ some h) × (host_of o ≡ some h)

  to_host : (o h : String) → same_origin host_of (some o) (some h) ≡ true → IsFrom (some o) (some h)
  unfolding same_origin
  to_host o h e = elim (Option-cases (host_of o)) [
    | inl nothing ↦ absurd (clash (rw (same_origin, nothing) at e))
    | inr (g, is) ↦ (
      o,
      h,
      refl,
      refl,
      is ∙ ap (λ x. some x) ((string_eq.test_iff g h).0 (rw (same_origin, is) at e)),
    )
  ]

  from_host :
      (o h o' h' : String)
      → some o ≡ some o'
      → some h ≡ some h'
      → host_of o' ≡ some h'
      → same_origin host_of (some o) (some h) ≡ true
  unfolding same_origin
  from_host o h o' h' p q r =
      rw (same_origin, (let e : host_of o ≡ some h = cc in e)) ((string_eq.test_iff h h).1 refl)

  same_origin_iff :
      (origin host : Option String) → (same_origin host_of origin host ≡ true) ↔ IsFrom origin host
  unfolding same_origin
  same_origin_iff none host = (λ h. cc, λ (o, h, p, q, r). cc)
  same_origin_iff (some o) none = (λ h. cc, λ (o, h, p, q, r). cc)
  same_origin_iff (some o) (some h) = (to_host o h, λ (o', h', p, q, r). from_host o h o' h' p q r)

  not-IsFrom :
      (origin host : Option String)
      → (same_origin host_of origin host ≡ false) ↔ (¬ (IsFrom origin host))
  not-IsFrom origin host = (
    λ e from. clash (sym e ∙ (same_origin_iff origin host).1 from),
    λ no_from. elim (Bool-cases (same_origin host_of origin host)) [
      | inl yes_from ↦ absurd (no_from ((same_origin_iff origin host).0 yes_from))
      | inr e ↦ e
    ],
  )

  -- A request is refused exactly when it is no sign-out and no GET request, and its origin is a URL
  -- of neither of the two hosts that it names.
  pub proxy-forbidden :
      (r : Request)
      → (proxy host_of r ≡ forbidden) ↔ (
          ((r.pathname == sign_out_path) ≡ false)
          × ((r.method == "GET") ≡ false)
          × ¬ (IsFrom r.origin r.host)
          × ¬ (IsFrom r.origin r.forwarded_host))
  unfolding proxy is_same_origin
  proxy-forbidden r =
      let (to, from) =
        four_tests (r.pathname == sign_out_path) (r.method == "GET")
          (same_origin host_of r.origin r.host) (same_origin host_of r.origin r.forwarded_host)
          (forward (r.pathname, r.search) (present_text r.cookie))
          (forward (r.pathname, r.search) none) (λ h. cc) (λ h. cc) in
      (
        λ h.
            let (a, b, p, q) = to h in
            (a, b, (not-IsFrom r.origin r.host).0 p, (not-IsFrom r.origin r.forwarded_host).0 q),
        λ (a, b, p, q).
            from
              (a, b, (not-IsFrom r.origin r.host).1 p, (not-IsFrom r.origin r.forwarded_host).1 q),
      )
