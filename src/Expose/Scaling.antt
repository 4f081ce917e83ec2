-- ===== src/Expose/Scaling.antt =====
-- What `Start` of internal/expose/port.go does to the scale of the controllers of a service.
use localizer.Base.{
  ℕ, ◌+◌, ◌≡◌, refl, sym, subst, ◌∙◌, false, List, [], ◌∷◌, ◌++◌, Option, none, some, Bytes, codes,
  str_eq, str_eq_refl, ok, err, arith, All,
}
use localizer.Base.Dict.{lookup, insert, lookup-insert}
use localizer.Expose.{ScaledObject, Scales, scale_object, scale_down, scale_back, start_scales}

-- The object under a key keeps its place: no later object has the key.
abbrev pub DistinctKeys : List ScaledObject → Type 0
DistinctKeys [] = Unit
DistinctKeys (o ∷ os) = All (λ q. str_eq q.key o.key ≡ false) os × DistinctKeys os

module _ (refuses : ℕ → Option Bytes) where
  scaled :
      (o : ScaledObject) (replicas : ℕ) (s : Scales)
      → refuses s.sent ≡ none
      → scale_object refuses o replicas s
        ≡ (record { scale = insert o.key replicas s.scale; sent = s.sent + 1 }, ok tt)
  unfolding scale_object
  scaled o replicas s e = rw (scale_object, e) refl

  scale_back-other :
      (os : List ScaledObject) (key : Bytes) (s : Scales)
      → ((n : ℕ) → refuses n ≡ none)
      → All (λ q. str_eq q.key key ≡ false) os
      → lookup key (scale_back refuses os s).scale ≡ lookup key s.scale
  unfolding scale_back
  scale_back-other [] key s accepts h = refl
  scale_back-other (o ∷ os) key s accepts (miss, h) =
      let s' = (scale_object refuses o o.replicas s).0 in
      scale_back-other os key s' accepts h
      ∙ subst (λ t. lookup key (t.0.scale) ≡ lookup key s.scale)
          (sym (scaled o o.replicas s (accepts s.sent)))
          (ground (arith, lookup-insert o.key key o.replicas s.scale, miss))

  -- The objects get the scales back that they had, when every patch is accepted.
  pub scale_back-restores :
      (os : List ScaledObject) (s : Scales)
      → ((n : ℕ) → refuses n ≡ none)
      → DistinctKeys os
      → All (λ o. lookup o.key (scale_back refuses os s).scale ≡ some o.replicas) os
  unfolding scale_back
  scale_back-restores [] s accepts h = tt
  scale_back-restores (o ∷ os) s accepts (apart, h) =
      let s' = (scale_object refuses o o.replicas s).0 in
      (
        scale_back-other os o.key s' accepts apart
            ∙ subst (λ t. lookup o.key (t.0.scale) ≡ some o.replicas)
                (sym (scaled o o.replicas s (accepts s.sent)))
                (ground (arith, lookup-insert o.key o.key o.replicas s.scale, str_eq_refl o.key)),
        scale_back-restores os s' accepts h,
      )

  scale_down_accepted :
      (os : List ScaledObject) (s : Scales)
      → ((n : ℕ) → refuses n ≡ none)
      → (scale_down refuses os s).1 ≡ ok tt
  unfolding scale_down
  scale_down_accepted [] s accepts = refl
  scale_down_accepted (o ∷ os) s accepts =
      let t : Scales = record { scale = insert o.key 0 s.scale; sent = s.sent + 1 } in
      ground (arith, scaled o 0 s (accepts s.sent), scale_down_accepted os t accepts)

  start_scales_eq :
      (between : Scales → Scales) (os : List ScaledObject) (s : Scales)
      → (scale_down refuses os s).1 ≡ ok tt
      → start_scales refuses between os s
        ≡ (scale_back refuses os (between (scale_down refuses os s).0), ok tt)
  unfolding start_scales
  start_scales_eq between os s e = ground arith

  -- While the API server accepts every patch, a service that was exposed gets all its controllers
  -- back at the scale that they had, whatever happens to the scales meanwhile. The controllers have
  -- different keys.
  pub start_scales-restores :
      (between : Scales → Scales) (os : List ScaledObject) (s : Scales)
      → ((n : ℕ) → refuses n ≡ none)
      → DistinctKeys os
      → let t = start_scales refuses between os s in
        (t.1 ≡ ok tt) × All (λ o. lookup o.key t.0.scale ≡ some o.replicas) os
  start_scales-restores between os s accepts apart =
      let moved = start_scales_eq between os s (scale_down_accepted os s accepts) in
      subst (λ t. (t.1 ≡ ok tt) × All (λ o. lookup o.key t.0.scale ≡ some o.replicas) os)
        (sym moved)
        (refl, scale_back-restores os (between (scale_down refuses os s).0) accepts apart)

  -- When the second controller of two or more cannot be scaled down, `Start` ends with an error and
  -- leaves the first one at no replicas: the deferred restore is not registered yet.
  pub start_scales_abandons :
      (between : Scales → Scales) (o q : ScaledObject) (os : List ScaledObject) (s : Scales)
      (e : Bytes)
      → refuses s.sent ≡ none
      → refuses (s.sent + 1) ≡ some e
      → let t = start_scales refuses between (o ∷ q ∷ os) s in
        (lookup o.key t.0.scale ≡ some 0) × (t.1 ≡ err (codes "failed to scale down object: " ++ e))
  unfolding start_scales scale_down scale_object
  start_scales_abandons between o q os s e first second =
      ground (arith, lookup-insert o.key o.key 0 s.scale, str_eq_refl o.key)
