-- ===== src/RemoteRoute/Health.antt =====
-- `initialUpstreamStatus`, `applyDumpToStatus` and `refreshUpstreamHealth`; messages and probe times
-- are left out.
use route_prism.Common.{
  ℕ, suc, ◌+◌, ◌%◌, ◌^◌, ◌≡◌, refl, ◌∙◌, sym, ap, Bool, true, false, not, ◌&&◌, ◌||◌, Option, none,
  some, List, [], ◌∷◌, ◌++◌, map, any, if◌then◌else◌, ◌==◌, ltb, arith, Str, str_eq, codes,
  is_empty,
}
use route_prism.Kube.Types.{RemoteUpstream, RemoteUpstreamStatus, RemoteRoute}

-- A host of `envoyClusterDump`.
pub record HostStatus : Type 0 where
  pub priority : ℕ
  pub eds_health_status : Str
  pub failed_active_hc : Bool
  pub failed_outlier : Bool

pub record ClusterStatus : Type 0 where
  pub name : Str
  pub host_statuses : List HostStatus

abbrev pub urls_of : RemoteUpstream → List Str
urls_of u = elim u.group [
  | some g ↦ g.urls
  | none ↦ if not (is_empty u.url) then u.url ∷ [] else []
]

-- `initialUpstreamStatus`
unfoldable pub initial_upstream_status : List RemoteUpstream → List RemoteUpstreamStatus
initial_upstream_status us =
    map (λ u. record { name = u.name; urls = urls_of u; healthy = false; healthy_endpoints = 0 }) us

abbrev pub is_healthy : HostStatus → Bool
is_healthy h =
    not h.failed_active_hc
    && not h.failed_outlier
    && (is_empty h.eds_health_status || str_eq h.eds_health_status (codes "HEALTHY"))

-- `healthyByPrio[p]++`
abbrev bump : ℕ → (ℕ → ℕ) → ℕ → ℕ
bump p m i = if p == i then m i + 1 else m i

pub tally_hosts : (ℕ → ℕ) → List HostStatus → ℕ → ℕ
tally_hosts m [] = m
tally_hosts m (h ∷ hs) = tally_hosts (if is_healthy h then bump h.priority m else m) hs

pub tally_clusters : (ℕ → ℕ) → List ClusterStatus → ℕ → ℕ
unfolding tally_hosts
tally_clusters m [] = m
tally_clusters m (c ∷ cs) =
    tally_clusters (if str_eq c.name (codes "remote") then tally_hosts m c.host_statuses else m) cs

-- The loop over the statuses, from the index `i` on.
pub with_health : (ℕ → ℕ) → ℕ → List RemoteUpstreamStatus → List RemoteUpstreamStatus
with_health m i [] = []
with_health m i (s ∷ ss) =
    record s { healthy_endpoints = m i % 2 ^ 32; healthy = ltb 0 (m i) } ∷ with_health m (suc i) ss

-- `applyDumpToStatus`
unfoldable pub apply_dump_to_status :
    List RemoteUpstreamStatus → List ClusterStatus → List RemoteUpstreamStatus
unfolding with_health tally_clusters
apply_dump_to_status statuses dump = with_health (tally_clusters (λ i. 0) dump) 0 statuses

-- The name of the first healthy upstream, or the empty string.
pub first_healthy : List RemoteUpstreamStatus → Str
first_healthy [] = []
first_healthy (s ∷ ss) = let rest = first_healthy ss in if s.healthy then s.name else rest

abbrev probed : List RemoteUpstreamStatus → Option (List ClusterStatus) → List RemoteUpstreamStatus
probed statuses none = statuses
probed statuses (some dump) = apply_dump_to_status statuses dump

-- `refreshUpstreamHealth`; `none` is a failed scrape of the proxy.
unfoldable pub refresh_upstream_health : RemoteRoute → Option (List ClusterStatus) → RemoteRoute
unfolding initial_upstream_status apply_dump_to_status first_healthy
refresh_upstream_health rr dump =
    let statuses = probed (initial_upstream_status rr.spec.upstreams) dump in
    record rr {
      status = record rr.status { upstreams = statuses; active_upstream = first_healthy statuses };
    }

-- The hosts of the proxy's cluster `remote`.
abbrev pub remote_hosts : List ClusterStatus → List HostStatus
remote_hosts [] = []
remote_hosts (c ∷ cs) =
    (if str_eq c.name (codes "remote") then c.host_statuses else []) ++ remote_hosts cs

-- A healthy host of the priority.
abbrev pub serves : ℕ → List HostStatus → Bool
serves i hs = any (λ h. is_healthy h && h.priority == i) hs

-- The first upstream whose index is the priority of a healthy host.
abbrev pub first_served : List HostStatus → ℕ → List RemoteUpstream → Str
first_served hs i [] = []
first_served hs i (u ∷ us) =
    let rest = first_served hs (suc i) us in if serves i hs then u.name else rest

positive_bump :
    (b : Bool) (p i : ℕ) (m : ℕ → ℕ)
    → ltb 0 ((if b then bump p m else m) i) ≡ (ltb 0 (m i) || (b && p == i))
positive_bump false p i m = ground arith
positive_bump true p i m = ground arith

or_assoc : (a b c : Bool) → ((a || b) || c) ≡ (a || (b || c))
or_assoc true b c = refl
or_assoc false b c = refl

any-append :
    (p : HostStatus → Bool) (xs ys : List HostStatus) → any p (xs ++ ys) ≡ (any p xs || any p ys)
any-append p [] ys = refl
any-append p (x ∷ xs) ys =
    ap (λ r. p x || r) (any-append p xs ys) ∙ sym (or_assoc (p x) (any p xs) (any p ys))

tally_hosts-serves :
    (m : ℕ → ℕ) (hs : List HostStatus) (i : ℕ)
    → ltb 0 (tally_hosts m hs i) ≡ (ltb 0 (m i) || serves i hs)
unfolding tally_hosts
tally_hosts-serves m [] i = ground arith
tally_hosts-serves m (h ∷ hs) i =
    tally_hosts-serves (if is_healthy h then bump h.priority m else m) hs i
    ∙ ap (λ b. b || serves i hs) (positive_bump (is_healthy h) h.priority i m)
    ∙ or_assoc (ltb 0 (m i)) (is_healthy h && h.priority == i) (serves i hs)

tally_if-serves :
    (b : Bool) (m : ℕ → ℕ) (hs : List HostStatus) (i : ℕ)
    → ltb 0 ((if b then tally_hosts m hs else m) i)
      ≡ (ltb 0 (m i) || serves i (if b then hs else []))
tally_if-serves true m hs i = tally_hosts-serves m hs i
tally_if-serves false m hs i = ground arith

tally_clusters-serves :
    (m : ℕ → ℕ) (cs : List ClusterStatus) (i : ℕ)
    → ltb 0 (tally_clusters m cs i) ≡ (ltb 0 (m i) || serves i (remote_hosts cs))
unfolding tally_clusters
tally_clusters-serves m [] i = ground arith
tally_clusters-serves m (c ∷ cs) i =
    let remote = str_eq c.name (codes "remote") in
    let here = if remote then c.host_statuses else [] in
    tally_clusters-serves (if remote then tally_hosts m c.host_statuses else m) cs i
    ∙ ap (λ b. b || serves i (remote_hosts cs)) (tally_if-serves remote m c.host_statuses i)
    ∙ or_assoc (ltb 0 (m i)) (serves i here) (serves i (remote_hosts cs))
    ∙ ap (λ b. ltb 0 (m i) || b)
        (sym (any-append (λ h. is_healthy h && h.priority == i) here (remote_hosts cs)))

first_healthy-served :
    (m : ℕ → ℕ) (hs : List HostStatus) (i : ℕ) (us : List RemoteUpstream)
    → ((j : ℕ) → ltb 0 (m j) ≡ serves j hs)
    → first_healthy (with_health m i (initial_upstream_status us)) ≡ first_served hs i us
unfolding first_healthy with_health initial_upstream_status
first_healthy-served m hs i [] same = refl
first_healthy-served m hs i (u ∷ us) same =
    rw (same i, first_healthy-served m hs (suc i) us same) refl

first_healthy-initial : (us : List RemoteUpstream) → first_healthy (initial_upstream_status us) ≡ []
unfolding first_healthy initial_upstream_status
first_healthy-initial [] = refl
first_healthy-initial (u ∷ us) = first_healthy-initial us

-- After a successful scrape of the proxy the active upstream is the first of the upstreams, in the
-- order of the spec, whose index is the priority of a healthy host of the cluster `remote`; it is
-- the empty string if there is none. After a failed scrape it is the empty string.
pub refresh_upstream_health-active :
    (rr : RemoteRoute) (dump : List ClusterStatus)
    → ((refresh_upstream_health rr (some dump)).status.active_upstream
        ≡ first_served (remote_hosts dump) 0 rr.spec.upstreams)
      × ((refresh_upstream_health rr none).status.active_upstream ≡ [])
unfolding refresh_upstream_health apply_dump_to_status
refresh_upstream_health-active rr dump = (
  first_healthy-served (tally_clusters (λ i. 0) dump) (remote_hosts dump) 0 rr.spec.upstreams
      (λ j. tally_clusters-serves (λ i. 0) dump j),
  first_healthy-initial rr.spec.upstreams,
)
