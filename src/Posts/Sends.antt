-- ===== src/Posts/Sends.antt =====
-- How often a post of backend/app/services/social_post_service.py reaches an integration.
use socio_seo_agent.Prelude.{
  ℕ, ◌+◌, ◌-◌, ◌≤◌, ◌⊎◌, String, ◌≡◌, refl, ap, ◌∙◌, Bool, true, false, Option, none, some, List,
  [], ◌∷◌, ◌++◌, arith, str_eq, eq_iff, length, length-append, if◌then◌else◌, Bool-cases,
  Option-cases, inl, inr,
}
use socio_seo_agent.Strings.{is_blank}
use mathlib.Core.Path.{subst}
use socio_seo_agent.Actuators.Ledger
use socio_seo_agent.Actuators.Ledger.{Actuation, Row, Table, row_at, claim, claim_at}
use socio_seo_agent.Actuators.Actuate.{Actuator, World, carry_out, request, actuate}
use socio_seo_agent.Actuators.Actuate.Once.{calls, calls-snoc}
use socio_seo_agent.Posts.{Post, Desk, is_publishable, is_row, load}
use socio_seo_agent.Posts.Publishing.{
  Press, post_key, actuation_of, is_over_week, publish_post, publish_loaded, send_post,
  record_outcome,
}
use socio_seo_agent.Posts.Misses.{key_of_post}
use socio_seo_agent.Posts.Desks.{
  Operation, queueing, scheduling, cancelling, publishing, desk_behind, operate, operate_all,
}

pub load-IsRow :
    (b : ℕ) (id : String) (posts : List Post) (p : Post) → load b id posts ≡ some p → p.id ≡ id
unfolding load is_row
load-IsRow b id [] p h = absurd (ground arith)
load-IsRow b id (x ∷ xs) p h = elim (Bool-cases (is_row b id x)) [
  | inl e ↦ ground (arith, eq_iff x.id id)
  | inr e ↦ load-IsRow b id xs p (ground arith)
]

-- Whether a request publishes the post.
unfoldable pub publishes : String → Operation → Bool
publishes id (publishing press) = str_eq press.post_id id
publishes id op = false

module _ (derive : Actuation → String) where
  -- No call was added, or one under this key.
  abbrev Adds : String → World → World → Type 0
  Adds key w v =
      (v.sent ≡ w.sent)
      ⊎ ((a : Actuation) × (v.sent ≡ w.sent ++ a ∷ []) × (Ledger.idempotency_key derive a ≡ key))

  carry_out-Adds :
      (key : String) (actuator : Actuator) (a : Actuation) (w : World)
      → Adds (Ledger.idempotency_key derive a) w (carry_out key actuator a w).1
  unfolding carry_out
  carry_out-Adds key actuator a w = elim (Bool-cases (is_blank a.approved_by)) [
    | inl blank ↦ rw (blank, carry_out) (inl refl)
    | inr approved ↦ rw (approved, carry_out) (inr (a, refl, refl))
  ]

  claimed-Adds :
      (key : String) (actuator : Actuator) (a : Actuation) (w : World) (now : ℕ)
      (found : Option Row)
      → Adds
          (Ledger.idempotency_key derive a)
          w
          (request key actuator a w (claim_at now key a w.rows found)).1
  unfolding request claim_at
  claimed-Adds key actuator a w now none =
      carry_out-Adds key actuator a (record w { rows = (claim_at now key a w.rows none).1 })
  claimed-Adds key actuator a w now (some row) = inl refl

  actuate-Adds :
      (now : ℕ) (actuator : Actuator) (a : Actuation) (w : World)
      → Adds (Ledger.idempotency_key derive a) w (actuate derive now actuator a w).1
  unfolding actuate claim
  actuate-Adds now actuator a w = elim (Bool-cases (str_eq actuator.action_type a.action_type)) [
    | inr wrong ↦ rw (wrong, actuate) (inl refl)
    | inl right ↦ rw (right, actuate) (claimed-Adds _ actuator a w now _)
  ]

  sent-Adds :
      (press : Press) (post : Post) (desk : Desk) (actuator : Option Actuator)
      → post.id ≡ press.post_id
      → Adds (post_key press.post_id) desk.world (send_post derive press post desk actuator).1.world
  unfolding send_post record_outcome
  sent-Adds press post desk none e = inl refl
  sent-Adds press post desk (some actuator) e =
      let a = actuation_of press.business_id press.approved_by post in
      subst (λ key. Adds key desk.world (actuate derive press.now actuator a desk.world).1)
        (key_of_post derive press.business_id press.approved_by post ∙ ap post_key e)
        (actuate-Adds press.now actuator a desk.world)

  publish_post-Adds :
      (press : Press) (desk : Desk)
      → Adds
          (post_key press.post_id)
          desk.world
          (desk_behind desk (publish_post derive press desk)).world
  unfolding publish_post publish_loaded desk_behind
  publish_post-Adds press desk =
      elim (Option-cases (load press.business_id press.post_id desk.posts)) [
        | inl e ↦ rw (e, publish_post) (inl refl)
        | inr (post, e) ↦ elim (Bool-cases (is_publishable post.status)) [
          | inr shut ↦ rw (e, publish_post, shut) (inl refl)
          | inl open_ ↦ elim (Bool-cases (is_over_week press)) [
            | inl over ↦ rw (e, publish_post, open_, over) (inl refl)
            | inr room ↦
                rw (e, publish_post, open_, room)
                  (sent-Adds press post desk press.actuator
                    (load-IsRow press.business_id press.post_id desk.posts post e))
          ]
        ]
      ]

  -- A call that was added is a call under the key, and no other key loses one.
  Adds-calls :
      (key : String) (w v : World)
      → Adds key w v
      → (length v.sent - length w.sent) + calls derive key w.sent ≤ calls derive key v.sent
  Adds-calls key w v (inl same) = rw same (omega arith)
  Adds-calls key w v (inr (a, more, own)) =
      let named : str_eq (Ledger.idempotency_key derive a) key ≡ true =
        (eq_iff (Ledger.idempotency_key derive a) key).1 own in
      rw (more, length-append, calls-snoc, named) (omega arith)

  Adds-keeps :
      (key other : String) (w v : World)
      → Adds key w v
      → calls derive other w.sent ≤ calls derive other v.sent
  Adds-keeps key other w v (inl same) = rw same (omega arith)
  Adds-keeps key other w v (inr (a, more, own)) = rw (more, calls-snoc) (omega arith)

module _ (lower : String → String) (uuid : List Post → String) (derive : Actuation → String) where
  -- The calls that a request makes for a post.
  unfoldable pub sends_of : String → Operation → Desk → ℕ
  unfolding publishes operate
  sends_of id op desk =
      if publishes id op
      then length (operate lower uuid derive op desk).world.sent - length desk.world.sent
      else 0

  -- The calls that requests make for a post, whatever they are called under.
  unfoldable pub sends : String → List Operation → Desk → ℕ
  unfolding sends_of operate
  sends id [] desk = 0
  sends id (op ∷ ops) desk =
      let rest = sends id ops (operate lower uuid derive op desk) in sends_of id op desk + rest

  sends_of-calls :
      (id : String) (op : Operation) (desk : Desk)
      → sends_of id op desk + calls derive (post_key id) desk.world.sent
        ≤ calls derive (post_key id) (operate lower uuid derive op desk).world.sent
  unfolding sends_of publishes operate
  sends_of-calls id (queueing business_id piece when renderings) desk = omega arith
  sends_of-calls id (scheduling business_id post_id when) desk = omega arith
  sends_of-calls id (cancelling business_id post_id) desk = omega arith
  sends_of-calls id (publishing press) desk = elim (Bool-cases (str_eq press.post_id id)) [
    | inl own ↦ rw own (
        subst
          (λ p.
            (length (operate lower uuid derive (publishing press) desk).world.sent
                - length desk.world.sent)
              + calls derive (post_key p) desk.world.sent
            ≤ calls derive (post_key p)
                (operate lower uuid derive (publishing press) desk).world.sent)
          ((eq_iff press.post_id id).0 own)
          (Adds-calls derive (post_key press.post_id) desk.world
            (operate lower uuid derive (publishing press) desk).world
            (publish_post-Adds derive press desk)))
    | inr other ↦ rw other (
        omega (
          arith,
          Adds-keeps derive (post_key press.post_id) (post_key id) desk.world
              (operate lower uuid derive (publishing press) desk).world
              (publish_post-Adds derive press desk),
        ))
  ]

  -- Every call for a post is one under its key.
  pub sends-calls :
      (id : String) (ops : List Operation) (desk : Desk)
      → sends id ops desk + calls derive (post_key id) desk.world.sent
        ≤ calls derive (post_key id) (operate_all lower uuid derive ops desk).world.sent
  unfolding sends operate_all
  sends-calls id [] desk = omega arith
  sends-calls id (op ∷ ops) desk =
      omega
        (arith, sends_of-calls id op desk, sends-calls id ops (operate lower uuid derive op desk))
