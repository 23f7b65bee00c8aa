-- ===== src/RemoteRoute/Upstreams/Endpoints.antt =====
-- The endpoints of a list of URLs that share a scheme.
use mathlib.Core.Path.{subst}
use route_prism.Common.{
  ◌≡◌, refl, sym, ap, ◌⊎◌, inl, inr, Bool, true, false, not, ◌||◌, List, [], ◌∷◌, is_nil,
  if◌then◌else◌, All2, Str, str_eq_iff, is_empty, arith,
}
use route_prism.Common.Results.{Result, value, failure, ◌>>=◌, OnValue, OnValue-intro, OnValue-bind}
use route_prism.RemoteRoute.Upstreams.{
  Url, EnvoyEndpoint, port_for_url, is_http, endpoint_of, add_parsed, parsed, add_url, add_urls,
}

-- The scheme after some URLs: `s` after none, and else a scheme that `s` allows.
abbrev pub Grows : Bool → Str → Str → Type 0
Grows false s s' = s' ≡ s
Grows true s s' = (is_http s' ≡ true) × ((is_empty s ≡ true) ⊎ (s' ≡ s))

record IsAdded (scheme : Str) (u : Url) (s : Str) (ep : EnvoyEndpoint) : Type 0 where
  pub same_scheme : u.scheme ≡ s
  pub grows : Grows true scheme s
  pub has_host : is_empty u.hostname ≡ false
  pub port : port_for_url u ≡ value ep.port
  pub rendered : ep ≡ endpoint_of u ep.port

add_parsed-IsAdded :
    (scheme raw : Str) (u : Url) (s : Str) (ep : EnvoyEndpoint)
    → add_parsed scheme raw u ≡ value (s, ep)
    → IsAdded scheme u s ep
unfolding add_parsed
add_parsed-IsAdded scheme raw u s ep h = ground (arith, str_eq_iff scheme u.scheme)

add_parsed_added :
    (scheme raw : Str) (u : Url) (s : Str) (ep : EnvoyEndpoint)
    → IsAdded scheme u s ep
    → add_parsed scheme raw u ≡ value (s, ep)
unfolding add_parsed
add_parsed_added scheme raw u s ep a = ground (arith, str_eq_iff scheme u.scheme, a.same_scheme)

-- The last scheme is that of all URLs before it.
pub http-not_empty : (s : Str) → is_http s ≡ true → is_empty s ≡ false
http-not_empty [] h = cc
http-not_empty (c ∷ s) h = refl

pub Grows-same : (b : Bool) (s s1 s2 : Str) → Grows true s s1 → Grows b s1 s2 → s2 ≡ s1
Grows-same false s s1 s2 g h = h
Grows-same true s s1 s2 (http, _) (_, inl e) = absurd (let n = http-not_empty s1 http in cc)
Grows-same true s s1 s2 g (_, inr e) = e

pub Grows-trans : (a b : Bool) (s s1 s2 : Str) → Grows a s s1 → Grows b s1 s2 → Grows (a || b) s s2
Grows-trans false b s s1 s2 g h = subst (λ t. Grows b t s2) g h
Grows-trans true b s s1 s2 g h = subst (λ t. Grows true s t) (sym (Grows-same b s s1 s2 g h)) g

module _ (parse_url : Str → Result Str Url) where
  -- The endpoint that the URL `raw` stands for, where all URLs have the scheme.
  pub record IsEndpoint (scheme raw : Str) (ep : EnvoyEndpoint) : Type 0 where
    pub url : Url
    pub is_parsed : parse_url raw ≡ value url
    pub same_scheme : url.scheme ≡ scheme
    pub has_host : is_empty url.hostname ≡ false
    pub port : port_for_url url ≡ value ep.port
    pub rendered : ep ≡ endpoint_of url ep.port

  unfoldable pub has_some : List EnvoyEndpoint → Bool
  has_some eps = not (is_nil eps)

  add_url-IsEndpoint :
      (scheme raw s : Str) (ep : EnvoyEndpoint)
      → add_url parse_url scheme raw ≡ value (s, ep)
      → IsEndpoint s raw ep × Grows true scheme s
  unfolding add_url
  add_url-IsEndpoint scheme raw s ep h = inspect (parse_url raw) refl h
    where
      inspect :
          (r : Result Str Url)
          → parse_url raw ≡ r
          → (parsed parse_url raw r >>= λ u. add_parsed scheme raw u) ≡ value (s, ep)
          → IsEndpoint s raw ep × Grows true scheme s
      inspect (failure e) is_parsed k = cc
      inspect (value u) is_parsed k =
          let a = add_parsed-IsAdded scheme raw u s ep k in
          (
            record {
              url = u;
              is_parsed = is_parsed;
              same_scheme = a.same_scheme;
              has_host = a.has_host;
              port = a.port;
              rendered = a.rendered;
            },
            a.grows,
          )

  add_url_endpoint :
      (scheme raw s : Str) (ep : EnvoyEndpoint)
      → IsEndpoint s raw ep
      → Grows true scheme s
      → add_url parse_url scheme raw ≡ value (s, ep)
  unfolding add_url
  add_url_endpoint scheme raw s ep p g = rw p.is_parsed (
      add_parsed_added scheme raw p.url s ep (record {
        same_scheme = p.same_scheme;
        grows = g;
        has_host = p.has_host;
        port = p.port;
        rendered = p.rendered;
      }))

  -- What a run of the loops over URLs tells of the endpoints.
  unfoldable pub AreEndpoints : Str → List Str → Str × List EnvoyEndpoint → Type 0
  AreEndpoints scheme raws (s, eps) = All2 (IsEndpoint s) raws eps × Grows (has_some eps) scheme s

  pub add_urls-AreEndpoints :
      (scheme : Str) (raws : List Str)
      → OnValue (AreEndpoints scheme raws) (add_urls parse_url scheme raws)
  unfolding add_urls has_some AreEndpoints
  add_urls-AreEndpoints scheme [] = (tt, refl)
  add_urls-AreEndpoints scheme (raw ∷ raws) =
      OnValue-bind (λ (s, ep). IsEndpoint s raw ep × Grows true scheme s) _ _ _
        (OnValue-intro _ _ (λ (s, ep) e. add_url-IsEndpoint scheme raw s ep e))
        (λ (s, ep) (p, g).
          OnValue-bind (AreEndpoints s raws) _ _ _ (add_urls-AreEndpoints s raws)
            (λ (s', eps) (ps, g').
              let same = sym (Grows-same _ scheme s s' g g') in
              (
                (subst (λ t. IsEndpoint t raw ep) same p, ps),
                subst (λ t. Grows true scheme t) same g,
              )))

  pub if_same : {A : Type 0} (b : Bool) (x : A) → (if b then x else x) ≡ x
  if_same true x = refl
  if_same false x = refl

  pub add_urls_endpoints :
      (scheme : Str) (raws : List Str) (s : Str) (eps : List EnvoyEndpoint)
      → All2 (IsEndpoint s) raws eps
      → is_http s ≡ true
      → (is_empty scheme ≡ true) ⊎ (s ≡ scheme)
      → add_urls parse_url scheme raws ≡ value (if has_some eps then s else scheme, eps)
  unfolding add_urls has_some
  add_urls_endpoints scheme [] s [] h http start = refl
  add_urls_endpoints scheme [] s (ep ∷ eps) h http start = absurd h
  add_urls_endpoints scheme (raw ∷ raws) s [] h http start = absurd h
  add_urls_endpoints scheme (raw ∷ raws) s (ep ∷ eps) (p, h) http start =
      rw (add_url_endpoint scheme raw s ep p (http, start)) (
        rw (add_urls_endpoints s raws s eps h http (inr refl))
          (ap (λ t. value (t, ep ∷ eps)) (if_same (has_some eps) s)))
