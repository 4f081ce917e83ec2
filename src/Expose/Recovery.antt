-- ===== src/Expose/Recovery.antt =====
-- The pod that internal/expose/port.go makes, against the selector of its service and the start of
-- internal/expose/client.go.
use localizer.Base.{
  ◌≡◌, refl, ◌∙◌, true, List, [], ◌∷◌, none, some, Bytes, codes, str_eq_iff, str_eq_refl, arith,
  All, All-mono,
}
use localizer.Base.Dict.{Dict, lookup, insert, lookup-insert, NodupKeys}
use localizer.Kube.{has_all, label}
use localizer.Kube.Resolution.{has_all_iff}
use localizer.Expose.{
  exposed_pod_label, ScaledObject, with_selector, server_labels, ServiceForward, server_pod,
}

lookup-with_selector :
    (selector labels : Dict Bytes) (key : Bytes)
    → NodupKeys selector
    → lookup key (with_selector selector labels)
      ≡ elim (lookup key selector) [ some v ↦ some v | none ↦ lookup key labels ]
unfolding with_selector lookup
lookup-with_selector [] labels key h = refl
lookup-with_selector ((k, v) ∷ selector) labels key h =
    lookup-with_selector selector (insert k v labels) key h.1
    ∙ ground (arith, lookup-insert k key v labels, str_eq_iff k key, h.0)

-- Every entry of a map without a key twice is found under its key.
entries-lookup : {V : Type 0} (m : Dict V) → NodupKeys m → All (λ e. lookup e.0 m ≡ some e.1) m
unfolding lookup
entries-lookup [] h = tt
entries-lookup ((k, v) ∷ m) h = (
  ground (arith, str_eq_refl k),
  All-mono (λ e. lookup e.0 m ≡ some e.1) m
      (λ e found. ground (arith, found, h.0, str_eq_iff k e.0)) (entries-lookup m h.1),
)

-- The pod that stands in for a service has every label of the service's selector, so the service
-- sends its traffic to it; and it is marked, unless the selector has that label itself. A selector
-- has no key twice.
pub server_pod-labels :
    (marshal : List ScaledObject → Bytes) (key : Bytes) (p : ServiceForward)
    → NodupKeys p.selector
    → let pod = server_pod marshal key p in
      (has_all pod.labels p.selector ≡ true)
      × (lookup exposed_pod_label p.selector ≡ none
          → label pod.labels exposed_pod_label ≡ codes "true")
unfolding server_pod server_labels
server_pod-labels marshal key p h =
    let start = insert exposed_pod_label (codes "true") [] in
    let merged = with_selector p.selector start in
    (
      (has_all_iff merged p.selector).1 (
          All-mono (λ e. lookup e.0 p.selector ≡ some e.1) p.selector
            (λ e found. ground (arith, lookup-with_selector p.selector start e.0 h, found))
            (entries-lookup p.selector h)),
      λ absent. ground (
        arith,
        lookup-with_selector p.selector start exposed_pod_label h,
        absent,
        lookup-insert exposed_pod_label exposed_pod_label (codes "true") [],
        str_eq_refl exposed_pod_label,
      ),
    )
