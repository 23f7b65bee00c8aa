-- ===== src/RemoteRoute/Proxy/Selectors.antt =====
-- The labels of the proxy's objects against the selectors that are meant to find them.
use mathlib.Core.List.{Memᴰ}
use route_prism.Common.{
  ◌≡◌, refl, sym, ap, ◌∙◌, ◌⊎◌, inl, inr, ◌↔◌, Bool, true, false, ◌&&◌, Option, none, some, [], ◌∷◌,
  if◌then◌else◌, All, Str, str_eq, str_eq_iff, str_eq_self, Bool-cases, Option-cases, arith,
}
use route_prism.Common.Assoc.{lookup, put, keys, lookup-put, entry-lookup}
use route_prism.Common.SortStrict.{IsDistinct}
use route_prism.Kube.Meta.{Labels}
use route_prism.Kube.Types.{RemoteRoute, EdgeTransformation}
use route_prism.Kube.Workloads.{app_name, is_value, selects, IsWired}
use route_prism.RemoteRoute.Proxy.{
  rr_identity_labels, copy, rr_service_labels, render_remote_config_map, render_remote_service,
  render_remote_admin_service, render_remote_deployment,
}
use route_prism.Translator.Objects.{translator_labels, render_translator_deployment}

abbrev or_else : Option Str → Option Str → Option Str
or_else none o = o
or_else (some v) o = some v

absent :
    (j k : Str) (m : Labels)
    → All (λ s. str_eq j s ≡ false) (keys m)
    → str_eq j k ≡ true
    → lookup k m ≡ none
absent j k [] h e = refl
absent j k ((i, v) ∷ m) (d, h) e =
    ground (arith, absent j k m h e, str_eq_iff i k, str_eq_iff j k, str_eq_iff j i)

lookup-copy :
    (k : Str) (dst src : Labels)
    → IsDistinct (λ s. s) (keys src)
    → lookup k (copy dst src) ≡ or_else (lookup k src) (lookup k dst)
lookup-copy k dst [] h = refl
lookup-copy k dst ((j, v) ∷ src) (d, h) =
    lookup-copy k (put j v dst) src h
    ∙ ap (λ o. or_else (lookup k src) o) (lookup-put k j v dst)
    ∙ elim (Bool-cases (str_eq j k)) [ inl e ↦ rw (e, absent j k src d e) refl | inr e ↦ rw e refl ]

-- Selection by labels, entry by entry.
is_value-eq : (v : Str) (o : Option Str) → (is_value v o ≡ true) ↔ (o ≡ some v)
is_value-eq v none = ground arith
is_value-eq v (some w) = ground (arith, str_eq_iff v w)

selects_both :
    (sel labels : Labels) (j w : Str)
    → selects ((j, w) ∷ sel) labels ≡ true
    → (lookup j labels ≡ some w) × (selects sel labels ≡ true)
selects_both sel labels j w h = ground (arith, is_value-eq w (lookup j labels))

pub selects_entry :
    (sel labels : Labels) (k v : Str)
    → Memᴰ (k, v) sel
    → selects sel labels ≡ true
    → lookup k labels ≡ some v
selects_entry [] labels k v m h = elim m [ ]
selects_entry ((j, w) ∷ sel) labels k v (Memᴰ.head e) h =
    let same_key : k ≡ j = ap (λ p. p.0) e in
    let same_value : v ≡ w = ap (λ p. p.1) e in
    rw (same_key, same_value) (selects_both sel labels j w h).0
selects_entry ((j, w) ∷ sel) labels k v (Memᴰ.tail m) h =
    selects_entry sel labels k v m (selects_both sel labels j w h).1

pub selects_all :
    (sel labels : Labels)
    → ((k v : Str) → Memᴰ (k, v) sel → lookup k labels ≡ some v)
    → selects sel labels ≡ true
selects_all [] labels h = refl
selects_all ((k, v) ∷ sel) labels h = ground (
  arith,
  is_value-eq v (lookup k labels),
  h k v (Memᴰ.head refl),
  selects_all sel labels (λ j w m. h j w (Memᴰ.tail m)),
)

lookup-entry :
    (k v : Str) (m : Labels) → IsDistinct (λ s. s) (keys m) → Memᴰ (k, v) m → lookup k m ≡ some v
lookup-entry k v [] d m = elim m [ ]
lookup-entry k v ((j, w) ∷ m) (d, ds) (Memᴰ.head e) =
    let same_key : k ≡ j = ap (λ p. p.0) e in
    let same_value : v ≡ w = ap (λ p. p.1) e in rw (same_key, same_value, str_eq_self j) refl
lookup-entry k v ((j, w) ∷ m) (d, ds) (Memᴰ.tail i) = elim (Bool-cases (str_eq j k)) [
  | inl e ↦ absurd (let a = absent j k m d e in let l = lookup-entry k v m ds i in cc)
  | inr e ↦ rw e (lookup-entry k v m ds i)
]

-- The proxy's Service has a label of the ContextRoute's selector unless that label is
-- `app.kubernetes.io/name`, which is the name of the RemoteRoute.
lookup-rr_service_labels :
    (rr : RemoteRoute) (variant_labels : Labels) (k : Str)
    → IsDistinct (λ s. s) (keys variant_labels)
    → lookup k (rr_service_labels rr variant_labels) ≡ (
        if str_eq app_name k
        then some rr.name
        else or_else (lookup k variant_labels) (lookup k (rr_identity_labels rr)))
unfolding rr_service_labels
lookup-rr_service_labels rr variant_labels k d =
    lookup-put k app_name rr.name (copy (rr_identity_labels rr) variant_labels)
    ∙ ap (λ o. if str_eq app_name k then some rr.name else o)
        (lookup-copy k (rr_identity_labels rr) variant_labels d)

-- `matchLabels` allow the proxy's Service: they have no `app.kubernetes.io/name`, or have it with
-- the name of the RemoteRoute.
abbrev pub Allows : RemoteRoute → Labels → Type 0
Allows rr variant_labels =
    (lookup app_name variant_labels ≡ none) ⊎ (lookup app_name variant_labels ≡ some rr.name)

settle :
    (a k n v : Str) (m : Labels)
    → a ≡ k
    → lookup k m ≡ some v
    → (lookup a m ≡ none) ⊎ (lookup a m ≡ some n)
    → some n ≡ some v
settle a k n v m e l (inl h) = absurd (let l' : lookup a m ≡ some v = rw e l in cc)
settle a k n v m e l (inr h) = let l' : lookup a m ≡ some v = rw e l in sym h ∙ l'

allowed_entry :
    (rr : RemoteRoute) (variant_labels : Labels)
    → IsDistinct (λ s. s) (keys variant_labels)
    → Allows rr variant_labels
    → (k v : Str) → Memᴰ (k, v) variant_labels
    → lookup k (rr_service_labels rr variant_labels) ≡ some v
allowed_entry rr variant_labels d allows k v m =
    let given = lookup-entry k v variant_labels d m in
    lookup-rr_service_labels rr variant_labels k d ∙ elim (Bool-cases (str_eq app_name k)) [
      | inl e ↦
          rw e
            (settle app_name k rr.name v variant_labels ((str_eq_iff app_name k).0 e) given allows)
      | inr e ↦ rw (e, given) refl
    ]

-- The `matchLabels` of the ContextRoute select the Service that is rendered for a RemoteRoute exactly
-- when they have no entry for `app.kubernetes.io/name` or have the name of the RemoteRoute there.
pub rr_service_labels-selected :
    (rr : RemoteRoute) (variant_labels : Labels)
    → IsDistinct (λ s. s) (keys variant_labels)
    → (selects variant_labels (render_remote_service rr variant_labels).labels ≡ true)
      ↔ Allows rr variant_labels
unfolding render_remote_service
rr_service_labels-selected rr variant_labels d = (
  (λ h. elim (Option-cases (lookup app_name variant_labels)) [
    | inl e ↦ inl e
    | inr (v, e) ↦ inr (
        e
        ∙ sym
            (selects_entry variant_labels _ app_name v (entry-lookup app_name v variant_labels e) h)
        ∙ lookup-rr_service_labels rr variant_labels app_name d)
  ]),
  λ allows. selects_all variant_labels _ (allowed_entry rr variant_labels d allows),
)

rr_pods : (rr : RemoteRoute) → selects (rr_identity_labels rr) (rr_identity_labels rr) ≡ true
unfolding rr_identity_labels
rr_pods rr = rw (str_eq_self rr.name) refl

-- The ConfigMap, the Service (the one for requests and the one for the admin interface) and the
-- Deployment of a RemoteRoute fit together.
pub render_remote-IsWired :
    (checksum : Str → Str) (rr : RemoteRoute) (variant_labels : Labels) (conf : Str)
    → IsWired
        (render_remote_config_map rr conf)
        (render_remote_service rr variant_labels)
        (render_remote_deployment checksum rr conf)
      × IsWired
          (render_remote_config_map rr conf)
          (render_remote_admin_service rr)
          (render_remote_deployment checksum rr conf)
unfolding render_remote_config_map render_remote_service render_remote_admin_service
    render_remote_deployment
render_remote-IsWired checksum rr variant_labels conf = (
  record {
    service_namespace = refl;
    config_namespace = refl;
    service_owner = refl;
    config_owner = refl;
    own_pods = rr_pods rr;
    served_pods = rr_pods rr;
    served_ports = refl;
    ready_port = refl;
    volume_source = refl;
    volume_mounted = refl;
  },
  record {
    service_namespace = refl;
    config_namespace = refl;
    service_owner = refl;
    config_owner = refl;
    own_pods = rr_pods rr;
    served_pods = rr_pods rr;
    served_ports = refl;
    ready_port = refl;
    volume_source = refl;
    volume_mounted = refl;
  },
)

-- The Services of a RemoteRoute select the pods of no other RemoteRoute with another name, and no
-- pods of a translator.
pub render_remote-isolated :
    (checksum : Str → Str) (a b : RemoteRoute) (variant_labels : Labels) (conf : Str)
    (et : EdgeTransformation)
    → (selects
          (render_remote_service a variant_labels).selector
          (render_remote_deployment checksum b conf).pod_labels
        ≡ str_eq a.name b.name)
      × (selects
            (render_remote_admin_service a).selector
            (render_remote_deployment checksum b conf).pod_labels
          ≡ str_eq a.name b.name)
      × (selects
            (render_remote_service a variant_labels).selector
            (render_translator_deployment checksum et conf).pod_labels
          ≡ false)
      × (selects
            (render_remote_admin_service a).selector
            (render_translator_deployment checksum et conf).pod_labels
          ≡ false)
unfolding render_remote_service render_remote_admin_service render_remote_deployment
    rr_identity_labels render_translator_deployment translator_labels
render_remote-isolated checksum a b variant_labels conf et =
    (twice (str_eq a.name b.name), twice (str_eq a.name b.name), refl, refl)
  where
    twice : (c : Bool) → (c && (c && true)) ≡ c
    twice true = refl
    twice false = refl
