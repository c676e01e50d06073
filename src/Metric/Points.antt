-- ===== src/Metric/Points.antt =====
-- The point of a collection or a user (src/commons/Metric.common.ts) and the detail beside it.
use u2u_marketplace_api.Common.{
  ℕ, ◌+◌, ◌<◌, ◌≡◌, refl, sym, ap, ◌∙◌, ◌⊎◌, inl, inr, Bool, true, false, Option, none, some, arith,
  Bool-cases,
}
use u2u_marketplace_api.Common.Int.{
  ℤ, pos, leb_ℤ, ltb_ℤ, ◌+ℤ◌, ◌-ℤ◌, ◌≤ℤ◌, int_laws, pos_part, neg_part,
}
use u2u_marketplace_api.Metric.{
  Level, Award, CollectionDetail, CollectionLevels, General, CollectionMetric, base_point, clamp,
  update_metric_detail, set_check_point_metric, recompute, verify_collection, UserMetric,
  verify_user,
}

pub parts : {a b : ℤ} → a ≡ b → (pos_part a ≡ pos_part b) × (neg_part a ≡ neg_part b)
parts e = (ap pos_part e, ap neg_part e)

some_inj : {a b : Level} → some a ≡ some b → a ≡ b
some_inj h = cc h

-- What the detail accounts for.
abbrev pub total_of : CollectionDetail → ℤ
total_of d =
    d.verified +ℤ pos d.total_items.total +ℤ pos d.total_unique_owner.total +ℤ pos d.volume.total

abbrev pub IsConsistent : CollectionMetric → Type 0
IsConsistent c = c.metric_point ≡ total_of c.metric_detail

-- The stored total of a measure that reaches no level now.
abbrev pub lost_of : ℕ × Option Level → Award → ℕ
lost_of (sum, none) award = award.total
lost_of (sum, some level) award = 0

update_metric_detail-lost :
    (r : ℕ × Option Level) (p : ℤ) (a : Award)
    → (update_metric_detail r (p, a)).0 +ℤ pos (lost_of r a)
      ≡ p +ℤ pos (update_metric_detail r (p, a)).1.total
unfolding update_metric_detail
update_metric_detail-lost (sum, none) p a = refl
update_metric_detail-lost (sum, some level) p a = omega int_laws

pub clamp_nonneg : (p : ℤ) → pos 0 ≤ℤ p → clamp p ≡ p
clamp_nonneg p h = ground arith

base_point-verified :
    (c : CollectionMetric)
    → IsConsistent c
    → pos 0 ≤ℤ c.metric_detail.verified
    → base_point c ≡ c.metric_detail.verified
unfolding base_point
base_point-verified c h v =
    let rest : c.metric_point
          -ℤ pos c.metric_detail.total_items.total
          -ℤ pos c.metric_detail.total_unique_owner.total
          -ℤ pos c.metric_detail.volume.total
        ≡ c.metric_detail.verified =
      omega (int_laws, ap pos_part h, ap neg_part h) in
    rw rest (clamp_nonneg c.metric_detail.verified v)

base_point_nonneg : (c : CollectionMetric) → pos 0 ≤ℤ base_point c
unfolding base_point
base_point_nonneg c = clamp-nonneg (
    c.metric_point
    -ℤ pos c.metric_detail.total_items.total
    -ℤ pos c.metric_detail.total_unique_owner.total
    -ℤ pos c.metric_detail.volume.total)
  where
    clamp-nonneg : (p : ℤ) → pos 0 ≤ℤ clamp p
    clamp-nonneg p = ground arith

update_metric_detail-some :
    (r : ℕ × Option Level) (l : Level) (p : ℤ) (a : Award)
    → r.1 ≡ some l
    → update_metric_detail r (p, a) ≡ (p +ℤ pos r.0, record { level = l; total = r.0 })
unfolding update_metric_detail
update_metric_detail-some (sum, none) l p a h = absurd (cc h)
update_metric_detail-some (sum, some m) l p a h =
    ap (λ (x : Level). (p +ℤ pos sum, record { level = x; total = sum })) (some_inj h)

module _ (levels : CollectionLevels) (general : General) where
  abbrev pub reached_items : ℕ × Option Level
  reached_items = set_check_point_metric levels.item_levels general.total_nft 0

  abbrev pub reached_owners : ℕ × Option Level
  reached_owners = set_check_point_metric levels.owner_levels general.total_owner 0

  abbrev pub reached_volume : ℕ × Option Level
  reached_volume = set_check_point_metric levels.volume_levels general.volumn 0

  abbrev pub lost : CollectionDetail → ℕ
  lost d =
      lost_of reached_items d.total_items
      + lost_of reached_owners d.total_unique_owner
      + lost_of reached_volume d.volume

  -- For a consistent collection whose mark does not count negative points the recomputation leaves the point below what the detail accounts
  -- for by the stored totals of the measures that reach no level now, and by nothing else.
  pub recompute-lost :
      (c : CollectionMetric)
      → IsConsistent c
      → pos 0 ≤ℤ c.metric_detail.verified
      → (recompute levels general c).metric_point +ℤ pos (lost c.metric_detail)
        ≡ total_of (recompute levels general c).metric_detail
  unfolding recompute
  recompute-lost c h v =
      let d = c.metric_detail in
      let base = base_point-verified c h v in
      let items = update_metric_detail-lost reached_items (base_point c) d.total_items in
      let p₁ = (update_metric_detail reached_items (base_point c, d.total_items)).0 in
      let owners = update_metric_detail-lost reached_owners p₁ d.total_unique_owner in
      let p₂ = (update_metric_detail reached_owners (p₁, d.total_unique_owner)).0 in
      let volume = update_metric_detail-lost reached_volume p₂ d.volume in
      omega (int_laws, ap pos_part base, ap neg_part base, parts items, parts owners, parts volume)

  abbrev Reached : ℕ × Option Level → Type 0
  Reached r = (l : Level) × (r.1 ≡ some l)

  module _ (i o v : Level) (hi : reached_items.1 ≡ some i) (ho : reached_owners.1 ≡ some o)
      (hv : reached_volume.1 ≡ some v) where
    -- What a computation leaves that starts from the point `base`.
    abbrev settled : ℤ → ℤ → CollectionMetric
    settled base verified = record {
      metric_point = base +ℤ pos reached_items.0 +ℤ pos reached_owners.0 +ℤ pos reached_volume.0;
      metric_detail = record {
        verified = verified;
        volume = record { level = v; total = reached_volume.0 };
        total_unique_owner = record { level = o; total = reached_owners.0 };
        total_items = record { level = i; total = reached_items.0 };
      };
    }

    recompute-settled :
        (c : CollectionMetric)
        → recompute levels general c ≡ settled (base_point c) c.metric_detail.verified
    unfolding recompute
    recompute-settled c =
        let d = c.metric_detail in
        let items = update_metric_detail-some reached_items i (base_point c) d.total_items hi in
        let owners =
          update_metric_detail-some reached_owners o (base_point c +ℤ pos reached_items.0)
            d.total_unique_owner ho in
        let volume =
          update_metric_detail-some reached_volume v
            (base_point c +ℤ pos reached_items.0 +ℤ pos reached_owners.0) d.volume hv in
        rw items (rw owners (rw volume refl))

    base_point-settled : (b verified : ℤ) → pos 0 ≤ℤ b → base_point (settled b verified) ≡ b
    unfolding base_point
    base_point-settled b verified h =
        let rest : b
              +ℤ pos reached_items.0
              +ℤ pos reached_owners.0
              +ℤ pos reached_volume.0
              -ℤ pos reached_items.0
              -ℤ pos reached_owners.0
              -ℤ pos reached_volume.0
            ≡ b =
          omega int_laws in
        rw rest (clamp_nonneg b h)

    -- While every measure reaches a level, computing twice from the same figures is computing
    -- once.
    pub recompute_idempotent :
        (c : CollectionMetric)
        → recompute levels general (recompute levels general c) ≡ recompute levels general c
    recompute_idempotent c =
        let verified = c.metric_detail.verified in
        let once = recompute-settled c in
        ap (recompute levels general) once
        ∙ recompute-settled (settled (base_point c) verified)
        ∙ ap (λ b. settled b verified)
            (base_point-settled (base_point c) verified (base_point_nonneg c))
        ∙ sym once

not_both : (v : ℤ) → leb_ℤ v (pos 0) ≡ true → (false ≡ true) ⊎ (ltb_ℤ (pos 0) v ≡ true) → ⊥
not_both v t which = ground arith

not_le_zero : (v : ℤ) (p : ℕ) → 0 < p → pos 0 ≤ℤ v → leb_ℤ (v +ℤ pos p) (pos 0) ≡ false
unfolding ◌+ℤ◌
not_le_zero v p h k = ground arith

-- The case `Verified` keeps a collection consistent where the collection is verified or its detail
-- says that it was.
pub verify_collection-IsConsistent :
    (levels : CollectionLevels) (is_verified : Bool) (c : CollectionMetric)
    → (is_verified ≡ true) ⊎ (ltb_ℤ (pos 0) c.metric_detail.verified ≡ true)
    → IsConsistent c
    → IsConsistent (verify_collection levels is_verified c)
unfolding verify_collection
verify_collection-IsConsistent levels true c which h =
    elim (Bool-cases (leb_ℤ c.metric_detail.verified (pos 0))) [
      | inl t ↦ rw t (omega (int_laws, parts h))
      | inr f ↦ rw f h
    ]
verify_collection-IsConsistent levels false c which h =
    elim (Bool-cases (leb_ℤ c.metric_detail.verified (pos 0))) [
      | inl t ↦ absurd (not_both c.metric_detail.verified t which)
      | inr f ↦ rw f (omega (int_laws, parts h))
    ]

-- Taking the mark from a collection whose detail has no points for it takes them from its point
-- all the same, and leaves the detail as it was: the call can be repeated, and each time the
-- collection loses `Verified.point` points that it never got.
pub verify_collection-unverified :
    (levels : CollectionLevels) (c : CollectionMetric)
    → leb_ℤ c.metric_detail.verified (pos 0) ≡ true
    → verify_collection levels false c
      ≡ record c { metric_point = c.metric_point -ℤ pos levels.verified_point }
unfolding verify_collection
verify_collection-unverified levels c h =
    let same : c.metric_detail.verified +ℤ pos levels.verified_point -ℤ pos levels.verified_point
        ≡ c.metric_detail.verified =
      omega int_laws in
    rw h (
      ap
        (λ x. record {
          metric_point = c.metric_point -ℤ pos levels.verified_point;
          metric_detail = record c.metric_detail { verified = x };
        })
        same)

-- The case `Verified` of a user gives the points once: a second call changes nothing, where the
-- points to give are positive and those given before are not negative.
pub verify_user_idempotent :
    (point : ℕ) (u : UserMetric)
    → 0 < point
    → pos 0 ≤ℤ u.metric_detail.verified
    → verify_user point (verify_user point u) ≡ verify_user point u
unfolding verify_user
verify_user_idempotent point u h v = elim (Bool-cases (leb_ℤ u.metric_detail.verified (pos 0))) [
  | inl t ↦ rw t (rw (not_le_zero u.metric_detail.verified point h v) refl)
  | inr f ↦ rw f (rw f refl)
]
