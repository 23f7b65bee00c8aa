-- ===== src/RemoteRoute/Upstreams/Accepted.antt =====
-- What `resolve_upstreams` accepts, and what it returns.
use mathlib.Core.Path.{subst}
use route_prism.Common.{
  ◌≡◌, refl, sym, ap, ◌∙◌, ◌⊎◌, inl, inr, ◌↔◌, Bool, true, false, not, ◌||◌, none, some, List, [],
  ◌∷◌, ◌++◌, any, is_nil, if◌then◌else◌, All2, Str, str_eq, is_empty, Bool-cases, arith,
}
use route_prism.Common.Results.{
  Result, value, OnValue, OnValue-intro, OnValue-elim, OnValue-bind, >>=-value,
}
use route_prism.Kube.Types.{RemoteLbMode, RemoteUpstream, RemoteRoute}
use route_prism.RemoteRoute.Health.{urls_of}
use route_prism.RemoteRoute.Upstreams.Modes.{add_modes, IsMode, check_modes_iff}
use route_prism.RemoteRoute.Upstreams.{
  scheme_https, Url, EnvoyEndpoint, EnvoyGroup, is_http, insert_mode, check_modes, lb_policy_of,
  Resolved, add_urls, urls_and_modes, add_upstreams, finish_upstreams, resolve_upstreams,
}
use route_prism.RemoteRoute.Upstreams.Endpoints.{
  Grows, http-not_empty, Grows-same, Grows-trans, IsEndpoint, has_some, AreEndpoints,
  add_urls-AreEndpoints, if_same, add_urls_endpoints,
}

module _ (parse_url : Str → Result Str Url) where
  -- An entry of the spec has URLs, of a group or its own.
  abbrev has_urls : RemoteUpstream → Bool
  has_urls up = elim up.group [ some g ↦ true | none ↦ not (is_empty up.url) ]

  abbrev modes_in : RemoteUpstream → List RemoteLbMode
  modes_in up = elim up.group [ some g ↦ g.mode ∷ [] | none ↦ [] ]

  -- The modes of the groups, in the order of the spec.
  abbrev modes_of : List RemoteUpstream → List RemoteLbMode
  modes_of [] = []
  modes_of (up ∷ ups) = modes_in up ++ modes_of ups

  -- The group of Envoy for one entry of the spec.
  pub record IsGroup (scheme : Str) (up : RemoteUpstream) (g : EnvoyGroup) : Type 0 where
    pub same_name : g.name ≡ up.name
    pub given : has_urls up ≡ true
    pub endpoints : All2 (IsEndpoint parse_url scheme) (urls_of up) g.endpoints

  some_endpoint : List EnvoyGroup → Bool
  some_endpoint gs = any (λ g. has_some parse_url g.endpoints) gs

  AreGroups :
      Str
      → List RemoteLbMode
      → List RemoteUpstream
      → Str × List RemoteLbMode × List EnvoyGroup
      → Type 0
  AreGroups scheme modes ups (s, ms, gs) =
      All2 (IsGroup s) ups gs
      × Grows (some_endpoint gs) scheme s
      × (ms ≡ add_modes modes (modes_of ups))

  IsGiven : List RemoteLbMode → RemoteUpstream → List Str × List RemoteLbMode → Type 0
  IsGiven modes up (raws, ms) =
      (has_urls up ≡ true) × (raws ≡ urls_of up) × (ms ≡ add_modes modes (modes_in up))

  urls_and_modes-IsGiven :
      (modes : List RemoteLbMode) (up : RemoteUpstream)
      → OnValue (IsGiven modes up) (urls_and_modes parse_url modes up)
  unfolding urls_and_modes IsGiven
  urls_and_modes-IsGiven modes up =
      OnValue-intro (IsGiven modes up) _ (λ (raws, ms) e. ground arith)

  urls_and_modes_given :
      (modes : List RemoteLbMode) (up : RemoteUpstream)
      → has_urls up ≡ true
      → urls_and_modes parse_url modes up ≡ value (urls_of up, add_modes modes (modes_in up))
  unfolding urls_and_modes
  urls_and_modes_given modes up h = ground (arith)

  retag :
      (b : Bool) (s s1 s2 : Str) (raws : List Str) (eps : List EnvoyEndpoint)
      → All2 (IsEndpoint parse_url s1) raws eps
      → Grows (has_some parse_url eps) s s1
      → Grows b s1 s2
      → All2 (IsEndpoint parse_url s2) raws eps
  unfolding has_some
  retag b s s1 s2 [] [] h g k = tt
  retag b s s1 s2 [] (ep ∷ eps) h g k = absurd h
  retag b s s1 s2 (raw ∷ raws) [] h g k = absurd h
  retag b s s1 s2 (raw ∷ raws) (ep ∷ eps) h g k =
      subst (λ t. All2 (IsEndpoint parse_url t) (raw ∷ raws) (ep ∷ eps))
        (sym (Grows-same b s s1 s2 g k)) h

  add_modes-append :
      (ms l l' : List RemoteLbMode) → add_modes ms (l ++ l') ≡ add_modes (add_modes ms l) l'
  add_modes-append ms [] l' = refl
  add_modes-append ms (m ∷ l) l' = add_modes-append (insert_mode m ms) l l'

  add_upstreams-AreGroups :
      (scheme : Str) (modes : List RemoteLbMode) (ups : List RemoteUpstream)
      → OnValue (AreGroups scheme modes ups) (add_upstreams parse_url scheme modes ups)
  unfolding add_upstreams AreGroups some_endpoint AreEndpoints IsGiven
  add_upstreams-AreGroups scheme modes [] = (tt, refl, refl)
  add_upstreams-AreGroups scheme modes (up ∷ ups) =
      OnValue-bind (IsGiven modes up) (AreGroups scheme modes (up ∷ ups)) _ _
        (urls_and_modes-IsGiven modes up)
        (λ (raws, ms) (given, same_urls, same_modes).
          OnValue-bind (AreEndpoints parse_url scheme raws) (AreGroups scheme modes (up ∷ ups)) _ _
            (add_urls-AreEndpoints parse_url scheme raws)
            (λ (s, eps) (ps, g).
              OnValue-bind (AreGroups s ms ups) (AreGroups scheme modes (up ∷ ups)) _ _
                (add_upstreams-AreGroups s ms ups)
                (λ (s', ms', gs) (groups, g', last). (
                  (
                    record {
                      same_name = refl;
                      given = given;
                      endpoints =
                          subst (λ l. All2 (IsEndpoint parse_url s') l eps) same_urls
                            (retag _ scheme s s' raws eps ps g g');
                    },
                    groups,
                  ),
                  Grows-trans _ _ scheme s s' g g',
                  last
                      ∙ ap (λ l. add_modes l (modes_of ups)) same_modes
                      ∙ sym (add_modes-append modes (modes_in up) (modes_of ups)),
                ))))

  next_scheme :
      (b : Bool) (s scheme : Str)
      → (is_empty scheme ≡ true) ⊎ (s ≡ scheme)
      → (is_empty (if b then s else scheme) ≡ true) ⊎ (s ≡ (if b then s else scheme))
  next_scheme true s scheme h = inr refl
  next_scheme false s scheme h = h

  if_or :
      (a b : Bool) (s t : Str) → (if b then s else if a then s else t) ≡ (if a || b then s else t)
  if_or true b s t = if_same parse_url b s
  if_or false b s t = refl

  add_upstreams_groups :
      (scheme : Str) (modes : List RemoteLbMode) (ups : List RemoteUpstream) (s : Str)
      (gs : List EnvoyGroup)
      → All2 (IsGroup s) ups gs
      → is_http s ≡ true
      → (is_empty scheme ≡ true) ⊎ (s ≡ scheme)
      → add_upstreams parse_url scheme modes ups
        ≡ value (if some_endpoint gs then s else scheme, add_modes modes (modes_of ups), gs)
  unfolding add_upstreams some_endpoint
  add_upstreams_groups scheme modes [] s [] h http start = refl
  add_upstreams_groups scheme modes [] s (g ∷ gs) h http start = absurd h
  add_upstreams_groups scheme modes (up ∷ ups) s [] h http start = absurd h
  add_upstreams_groups scheme modes (up ∷ ups) s (g ∷ gs) (p, h) http start =
      let here = has_some parse_url g.endpoints in
      let scheme' = if here then s else scheme in
      let modes' = add_modes modes (modes_in up) in
      >>=-value (urls_and_modes parse_url modes up) _ (urls_and_modes_given modes up p.given)
      ∙ >>=-value (add_urls parse_url scheme (urls_of up)) _
          (add_urls_endpoints parse_url scheme (urls_of up) s g.endpoints p.endpoints http start)
      ∙ >>=-value (add_upstreams parse_url scheme' modes' ups) _
          (add_upstreams_groups scheme' modes' ups s gs h http (next_scheme here s scheme start))
      ∙ (λ i. value (
        if_or here (some_endpoint gs) s scheme i,
        sym (add_modes-append modes (modes_in up) (modes_of ups)) i,
        record { name = sym p.same_name i; endpoints = g.endpoints } ∷ gs,
      ))

-- What makes the upstreams of a RemoteRoute acceptable, and the result for them: all URLs have one
-- scheme, `http` or `https`, and there is one; each entry becomes the group of its URLs; and all
-- groups of the spec have one mode.
pub record IsAccepted (parse_url : Str → Result Str Url) (rr : RemoteRoute) (r : Resolved)
    : Type 0 where
  pub scheme : Str
  pub http : is_http scheme ≡ true
  pub https : r.is_https ≡ str_eq scheme scheme_https
  pub groups : All2 (IsGroup parse_url scheme) rr.spec.upstreams r.groups
  pub some_url : any (λ g. not (is_nil g.endpoints)) r.groups ≡ true
  pub mode : RemoteLbMode
  pub one_mode : IsMode (modes_of parse_url rr.spec.upstreams) mode
  pub policy : r.lb_policy ≡ lb_policy_of mode

grown : (b : Bool) (s : Str) → Grows b [] s → is_empty s ≡ false → (b ≡ true) × (is_http s ≡ true)
grown true s (http, _) e = (refl, http)
grown false s g e = absurd (let h = ap is_empty g in cc)

module _ (parse_url : Str → Result Str Url) where
  finish-IsAccepted :
      (rr : RemoteRoute) (s : Str) (ms : List RemoteLbMode) (gs : List EnvoyGroup)
      → AreGroups parse_url [] [] rr.spec.upstreams (s, ms, gs)
      → OnValue (IsAccepted parse_url rr) (finish_upstreams parse_url s ms gs)
  unfolding AreGroups some_endpoint has_some finish_upstreams
  finish-IsAccepted rr s ms gs (groups, g, same) = elim (Bool-cases (is_empty s)) [
    | inl e ↦ rw e tt
    | inr e ↦
        let (some_url, http) = grown _ s g e in
        rw e (
          OnValue-bind (λ mode. check_modes ms ≡ value mode) (IsAccepted parse_url rr)
            (check_modes ms) _ (OnValue-intro _ _ (λ mode chosen. chosen))
            (λ mode chosen. record {
              scheme = s;
              http = http;
              https = refl;
              groups = groups;
              some_url = some_url;
              mode = mode;
              one_mode =
                  (check_modes_iff (modes_of parse_url rr.spec.upstreams) mode).0
                    (ap check_modes (sym same) ∙ chosen);
              policy = refl;
            }))
  ]

  finish_accepted :
      (rr : RemoteRoute) (r : Resolved) (a : IsAccepted parse_url rr r)
      → finish_upstreams parse_url a.scheme
          (add_modes [] (modes_of parse_url rr.spec.upstreams))
          r.groups
        ≡ value r
  unfolding finish_upstreams
  finish_accepted rr r a = rw (http-not_empty a.scheme a.http) (
      >>=-value (check_modes (add_modes [] (modes_of parse_url rr.spec.upstreams))) _
        ((check_modes_iff (modes_of parse_url rr.spec.upstreams) a.mode).1 a.one_mode)
      ∙ (λ i.
          value
            (record { groups = r.groups; is_https = sym a.https i; lb_policy = sym a.policy i })))

  -- The upstreams of a RemoteRoute are resolved, to `r`, exactly when `r` is the accepted result for
  -- them.
  pub resolve_upstreams_iff :
      (rr : RemoteRoute) (r : Resolved)
      → (resolve_upstreams parse_url rr ≡ value r) ↔ IsAccepted parse_url rr r
  unfolding resolve_upstreams some_endpoint has_some
  resolve_upstreams_iff rr r = (
    (λ h.
        OnValue-elim (IsAccepted parse_url rr) (resolve_upstreams parse_url rr)
          (OnValue-bind (AreGroups parse_url [] [] rr.spec.upstreams) _ _ _
            (add_upstreams-AreGroups parse_url [] [] rr.spec.upstreams)
            (λ (s, ms, gs) a. finish-IsAccepted rr s ms gs a))
          r h),
    λ a.
        >>=-value (add_upstreams parse_url [] [] rr.spec.upstreams) _ (
          add_upstreams_groups parse_url [] [] rr.spec.upstreams a.scheme r.groups a.groups a.http
            (inl refl))
        ∙ (λ i.
            finish_upstreams parse_url (if a.some_url i then a.scheme else [])
              (add_modes [] (modes_of parse_url rr.spec.upstreams)) r.groups)
        ∙ finish_accepted rr r a,
  )
