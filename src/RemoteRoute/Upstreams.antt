-- ===== src/RemoteRoute/Upstreams.antt =====
-- `resolveUpstreams` (modules/operator/internal/controller/remoteroute_render.go). `url.Parse` is a
-- parameter.
pub mod Modes
pub mod Endpoints
pub mod Ports
pub mod Accepted
use route_prism.Common.{
  ℕ, Bool, true, false, not, ◌&&◌, ◌||◌, Option, none, some, List, [], ◌∷◌, ◌++◌, any, all, length,
  if◌then◌else◌, ◌==◌, leb, Str, str_eq, codes, is_empty, split_on,
}
use route_prism.Common.Atoi.{atoi_unsigned}
use route_prism.Common.Int.{ℤ, pos, int32}
use route_prism.Common.Results.{Result, value, failure, ◌>>=◌}
use route_prism.Kube.Types.{RemoteLbMode, round_robin, random, RemoteUpstream, RemoteRoute}

abbrev pub scheme_http : Str
scheme_http = codes "http"

abbrev pub scheme_https : Str
scheme_https = codes "https"

-- What the code reads of a `url.URL`: `Scheme`, `Hostname()` and `Port()`.
pub record Url : Type 0 where
  pub scheme : Str
  pub hostname : Str
  pub port : Str

-- `envoyEndpoint`; `port` is an `int32`.
pub record EnvoyEndpoint : Type 0 where
  pub host : Str
  pub port : ℤ
  pub hostname : Str

pub record EnvoyGroup : Type 0 where
  pub name : Str
  pub endpoints : List EnvoyEndpoint

-- The errors of `resolveUpstreams`, each with the texts that its message shows.
pub data UpstreamError : Type 0 where
  parse_failed : (raw message : Str) → UpstreamError
  unsupported_scheme : (scheme raw : Str) → UpstreamError
  mixed_schemes : (first second : Str) → UpstreamError
  empty_host : (raw : Str) → UpstreamError
  invalid_port : (port : Str) → UpstreamError
  no_default_port : (scheme : Str) → UpstreamError
  no_url_or_group : (name : Str) → UpstreamError
  no_urls : UpstreamError
  incompatible_modes : List RemoteLbMode → UpstreamError

abbrev pub atoi_port : Str → Option ℕ → Result UpstreamError ℤ
atoi_port text none = failure (invalid_port text)
atoi_port text (some n) = value (int32 n)

-- `portForURL`; the port of a parsed URL has no sign.
unfoldable pub port_for_url : Url → Result UpstreamError ℤ
port_for_url u =
    if not (is_empty u.port)
    then atoi_port u.port (atoi_unsigned u.port)
    else if str_eq u.scheme scheme_http
    then value (pos 80)
    else if str_eq u.scheme scheme_https
    then value (pos 443)
    else failure (no_default_port u.scheme)

-- The sign that `strconv.Atoi` accepts, and the rest.
abbrev signed : Str → Bool × Str
signed [] = (false, [])
signed (c ∷ s) = (c == b'-', if c == b'-' || c == b'+' then s else c ∷ s)

abbrev octet : Bool → Option ℕ → Bool
octet negative none = false
octet negative (some n) = if negative then n == 0 else leb n 255

-- One part of `looksLikeIP`.
unfoldable pub is_octet : Str → Bool
is_octet s = let (negative, digits) = signed s in octet negative (atoi_unsigned digits)

unfoldable pub looks_like_ip : Str → Bool
unfolding is_octet
looks_like_ip s =
    let parts = split_on b'.' s in if not (length parts == 4) then false else all is_octet parts

abbrev pub is_http : Str → Bool
is_http s = str_eq s scheme_http || str_eq s scheme_https

-- The endpoint of a URL: a DNS name is the hint for SNI on TLS.
unfoldable pub endpoint_of : Url → ℤ → EnvoyEndpoint
endpoint_of u port = record {
  host = u.hostname;
  port = port;
  hostname =
      if str_eq u.scheme scheme_https && not (looks_like_ip u.hostname) then u.hostname else [];
}

-- A parsed URL, where `scheme` is that of the URLs before it.
unfoldable pub add_parsed : Str → Str → Url → Result UpstreamError (Str × EnvoyEndpoint)
unfolding endpoint_of
add_parsed scheme raw u =
    if not (is_http u.scheme)
    then failure (unsupported_scheme u.scheme raw)
    else if not (is_empty scheme) && not (str_eq scheme u.scheme)
    then failure (mixed_schemes scheme u.scheme)
    else if is_empty u.hostname
    then failure (empty_host raw)
    else port_for_url u >>= λ port. value (u.scheme, endpoint_of u port)

-- `modes[m] = struct{}{}`
abbrev mode_eq : RemoteLbMode → RemoteLbMode → Bool
mode_eq round_robin round_robin = true
mode_eq round_robin random = false
mode_eq random round_robin = false
mode_eq random random = true

pub insert_mode : RemoteLbMode → List RemoteLbMode → List RemoteLbMode
insert_mode m ms = if any (λ n. mode_eq n m) ms then ms else ms ++ m ∷ []

-- The mode of the cluster.
unfoldable pub check_modes : List RemoteLbMode → Result UpstreamError RemoteLbMode
check_modes [] = value round_robin
check_modes (m ∷ []) = value m
check_modes (m ∷ n ∷ ms) = failure (incompatible_modes (m ∷ n ∷ ms))

abbrev pub lb_policy_of : RemoteLbMode → Str
lb_policy_of round_robin = codes "ROUND_ROBIN"
lb_policy_of random = codes "RANDOM"

-- The three values that `resolveUpstreams` returns.
pub record Resolved : Type 0 where
  pub groups : List EnvoyGroup
  pub is_https : Bool
  pub lb_policy : Str

module _ (parse_url : Str → Result Str Url) where
  abbrev parsed : Str → Result Str Url → Result UpstreamError Url
  parsed raw (failure e) = failure (parse_failed raw e)
  parsed raw (value u) = value u

  -- `addURL`
  unfoldable pub add_url : Str → Str → Result UpstreamError (Str × EnvoyEndpoint)
  unfolding add_parsed
  add_url scheme raw = parsed raw (parse_url raw) >>= λ u. add_parsed scheme raw u

  unfoldable pub add_urls : Str → List Str → Result UpstreamError (Str × List EnvoyEndpoint)
  unfolding add_url
  add_urls scheme [] = value (scheme, [])
  add_urls scheme (raw ∷ raws) =
      add_url scheme raw >>= λ (s, ep). add_urls s raws >>= λ (s', eps). value (s', ep ∷ eps)

  -- One entry of the spec: its URLs, with the modes so far.
  unfoldable pub urls_and_modes :
      List RemoteLbMode → RemoteUpstream → Result UpstreamError (List Str × List RemoteLbMode)
  unfolding insert_mode
  urls_and_modes modes up = elim up.group [
    | some g ↦ value (g.urls, insert_mode g.mode modes)
    | none ↦
        if not (is_empty up.url)
        then value (up.url ∷ [], modes)
        else failure (no_url_or_group up.name)
  ]

  -- The loop over the entries.
  unfoldable pub add_upstreams :
      Str
      → List RemoteLbMode
      → List RemoteUpstream
      → Result UpstreamError (Str × List RemoteLbMode × List EnvoyGroup)
  unfolding add_urls urls_and_modes
  add_upstreams scheme modes [] = value (scheme, modes, [])
  add_upstreams scheme modes (up ∷ ups) = urls_and_modes modes up >>= λ (raws, modes').
      add_urls scheme raws >>= λ (s, eps). add_upstreams s modes' ups >>= λ (s', ms, gs).
      value (s', ms, record { name = up.name; endpoints = eps } ∷ gs)

  abbrev with_mode : Str → List EnvoyGroup → RemoteLbMode → Result UpstreamError Resolved
  with_mode scheme groups mode = value (record {
    groups = groups;
    is_https = str_eq scheme scheme_https;
    lb_policy = lb_policy_of mode;
  })

  -- What follows the loop.
  unfoldable pub finish_upstreams :
      Str → List RemoteLbMode → List EnvoyGroup → Result UpstreamError Resolved
  unfolding check_modes
  finish_upstreams scheme modes groups =
      if is_empty scheme
      then failure no_urls
      else check_modes modes >>= λ mode. with_mode scheme groups mode

  -- `resolveUpstreams`
  unfoldable pub resolve_upstreams : RemoteRoute → Result UpstreamError Resolved
  unfolding add_upstreams finish_upstreams
  resolve_upstreams rr = add_upstreams [] [] rr.spec.upstreams >>= λ (scheme, modes, groups).
      finish_upstreams scheme modes groups
