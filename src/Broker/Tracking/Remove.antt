-- ===== src/Broker/Tracking/Remove.antt =====
-- The commands that end a job: those of Acknowledge and DeleteJob.
use mini_sidekiq.Prelude.{
  String, ◌≡◌, ◌≢◌, refl, fun_ext, subst, ap, sym, ◌∙◌, Option, some, none, Bool, true, false, ◌==◌,
  ◌&&◌, if◌then◌else◌, arith, Bool-cases, inl, inr, ◌⊎◌, eq_iff, eq_refl, ltb,
}
use mini_sidekiq.Exec.{Exec, ok, pure, ◌>>◌}
use mini_sidekiq.Redis.{Redis, call_zrem, call_lrem_all}
use mini_sidekiq.Redis.Values.{Value, missing}
use mini_sidekiq.Broker.Codec.{Codec}
use mini_sidekiq.Broker.Keys.{
  Place, in_queue, in_retry, in_dead, in_active, in_scheduled, place_key, job_key, job_key-eq,
  queue_key, retry_key, dead_key, active_key, scheduled_key, place_key-injective,
}
use mini_sidekiq.Broker.Tracking.Records.{place_cases}
use mini_sidekiq.Broker.Shapes.{IsListPlace, IsZsetPlace, occ, record-IsShaped, record-occ}
use mini_sidekiq.Broker.Commands.{
  Effect, zrem-Effect, lrem_all-Effect, call_zrem-eq, call_lrem_all-eq,
}
use mini_sidekiq.Broker.Tracking.{Placement, Tracks, Recorded, IsText, forget, at_place, IsHome}

abbrev pub stands : Option Place → Place → Bool
stands none p = false
stands (some q) p = place_key q == place_key p

stands_at : (o : Option Place) (p : Place) → stands o p ≡ true → o ≡ some p
stands_at none p h = cc
stands_at (some q) p h =
    ap some (place_key-injective q p ((eq_iff (place_key q) (place_key p)).0 h))

-- The id is gone from `p`, if it stood there.
abbrev pub leave : String → Place → Placement → Placement
leave id p w a = if (id == a) && stands (w a) p then none else w a

module _ (w : Placement) (id : String) (p : Place) where
  pub leave-forget : w id ≡ some p → leave id p w ≡ forget id w
  leave-forget here =
      fun_ext λ a. ground (arith, here, eq_iff id a, eq_iff (place_key p) (place_key p))

  pub leave-stays : w id ≢ some p → leave id p w ≡ w
  leave-stays away = fun_ext stays
    where
      stays : (a : String) → leave id p w a ≡ w a
      stays a = elim (Bool-cases ((id == a) && stands (w a) p)) [
        | inl e ↦ absurd (away (stands_at (w id) p (ground (arith, e, eq_iff id a))))
        | inr e ↦ rw e
      ]

pub leave-either :
    (id : String) (p : Place) (w u : Placement)
    → (u ≡ w) ⊎ (u ≡ forget id w)
    → (leave id p u ≡ w) ⊎ (leave id p u ≡ forget id w)
leave-either id p w u (inl e) = elim (place_cases (w id) p) [
  | inl here ↦ inr (ap (leave id p) e ∙ leave-forget w id p here)
  | inr away ↦ inl (ap (leave id p) e ∙ leave-stays w id p away)
]
leave-either id p w u (inr e) =
    inr (ap (leave id p) e ∙ leave-stays (forget id w) id p (λ h. ground (arith, h, eq_refl id)))

at_place-leave :
    (o : Option Place) (b : Bool) (p q : Place)
    → at_place (if b && stands o p then none else o) q
      ≡ (if place_key p == place_key q then (if b then 0 else at_place o p) else at_place o q)
at_place-leave none b p q = ground arith
at_place-leave (some x) b p q = ground (
  arith,
  eq_iff (place_key x) (place_key p),
  eq_iff (place_key x) (place_key q),
  eq_iff (place_key p) (place_key q),
)

module _ (c : Codec) (r : Redis c.Data) where
  open r use {Db, value, del, zrem, lrem_all}

  Recorded-IsText :
      (v : Value c.Data) (a : String) (o : Option Place) → Recorded c v a o → IsText c v
  Recorded-IsText v a none h = h
  Recorded-IsText v a (some p) h = rw h.holds tt

  module _ (id : String) (p : Place) (db db' : Db) (w : Placement) (t : Tracks c r db w) where
    leave-Tracks :
        Effect r p (λ a n. if id == a then 0 else n) db db' → Tracks c r db' (leave id p w)
    leave-Tracks e = record {
      shaped = e.shaped;
      placed = λ a q.
          ground
            (arith, e.placed a q, t.placed a q, t.placed a p, at_place-leave (w a) (id == a) p q);
      recorded = λ a. elim (Bool-cases ((id == a) && stands (w a) p)) [
        | inl b ↦ rw (b, e.records a) (Recorded-IsText _ a (w a) (t.recorded a))
        | inr b ↦ rw (b, e.records a) (t.recorded a)
      ];
    }

  -- ZREM and LREM, each with what it replies.
  pub zrem_tracks :
      (id : String) (p : Place)
      → IsZsetPlace p
      → (db : Db) (w : Placement) → Tracks c r db w
      → (db' : Db) × (call_zrem r (place_key p) id db ≡ (ok (ltb 0 (occ r db id p)), db'))
        × Tracks c r db' (leave id p w)
  zrem_tracks id p h db w t = (
    zrem (place_key p) id db,
    call_zrem-eq r p id db t.shaped h,
    leave-Tracks id p db _ w t (zrem-Effect r p id db t.shaped h),
  )

  pub lrem_tracks :
      (id : String) (p : Place)
      → IsListPlace p
      → (db : Db) (w : Placement) → Tracks c r db w
      → (db' : Db) × (call_lrem_all r (place_key p) id db ≡ (ok tt, db'))
        × Tracks c r db' (leave id p w)
  lrem_tracks id p h db w t = (
    lrem_all (place_key p) id db,
    call_lrem_all-eq r p id db t.shaped h,
    leave-Tracks id p db _ w t (lrem_all-Effect r p id db t.shaped h),
  )

  Recorded-del :
      (db : Db) (w : Placement) (id a : String)
      → w id ≡ none
      → Recorded c (value db (job_key a)) a (w a)
      → Recorded c (value (del (job_key id) db) (job_key a)) a (w a)
  Recorded-del db w id a gone old = elim (Bool-cases (id == a)) [
    | inl e ↦
        rw (r.value-del (job_key id) db (job_key a), job_key-eq id a, e)
          (subst (λ x. Recorded c missing a (w x)) ((eq_iff id a).0 e) (rw gone tt))
    | inr e ↦ rw (r.value-del (job_key id) db (job_key a), job_key-eq id a, e) old
  ]

  -- A record that no place refers to is deleted: Acknowledge's second half.
  pub del-Tracks :
      (db : Db) (w : Placement) (id : String)
      → Tracks c r db w
      → w id ≡ none
      → Tracks c r (del (job_key id) db) w
  del-Tracks db w id t gone = record {
    shaped = record-IsShaped r id (λ _. missing) db _ (r.value-del (job_key id) db) t.shaped;
    placed =
        λ a p. record-occ r id (λ _. missing) db _ (r.value-del (job_key id) db) a p ∙ t.placed a p;
    recorded = λ a. Recorded-del db w id a gone (t.recorded a);
  }

  abbrev pub leave_all : String → String → Placement → Placement
  leave_all queue id w = leave id in_scheduled (
      leave id in_active
        (leave id (in_dead queue) (leave id (in_retry queue) (leave id (in_queue queue) w))))

  leave_all_option :
      (queue id a : String) (w : Placement) (o : Option Place)
      → w a ≡ o
      → ((p : Place) → o ≡ some p → IsHome p queue)
      → (id == a) ≡ true
      → leave_all queue id w a ≡ none
  leave_all_option queue id a w none e h b = rw (b, e)
  leave_all_option queue id a w (some (in_queue q)) e h b =
      rw (b, e) (ground (arith, h (in_queue q) refl, eq_iff (queue_key q) (queue_key queue)))
  leave_all_option queue id a w (some (in_retry q)) e h b =
      rw (b, e) (ground (arith, h (in_retry q) refl, eq_iff (retry_key q) (retry_key queue)))
  leave_all_option queue id a w (some (in_dead q)) e h b =
      rw (b, e) (ground (arith, h (in_dead q) refl, eq_iff (dead_key q) (dead_key queue)))
  leave_all_option queue id a w (some in_active) e h b =
      rw (b, e) (ground (arith, eq_refl active_key))
  leave_all_option queue id a w (some in_scheduled) e h b =
      rw (b, e) (ground (arith, eq_refl scheduled_key))

  pub leave_all-eq :
      (queue id : String) (w : Placement)
      → ((p : Place) → w id ≡ some p → IsHome p queue)
      → (a : String) → leave_all queue id w a ≡ forget id w a
  leave_all-eq queue id w h a = elim (Bool-cases (id == a)) [
    | inl b ↦
        leave_all_option queue id a w (w a) refl (λ p e. h p (ap w ((eq_iff id a).0 b) ∙ e)) b
        ∙ sym (rw b)
    | inr b ↦ rw b
  ]

  -- A command that takes the id away from a place.
  abbrev pub Removal : String → Place → Exec Db (Unit {0}) → Type 0
  Removal id p command =
      (db : Db) (w : Placement)
      → Tracks c r db w
      → (db' : Db) × (command db ≡ (ok tt, db')) × Tracks c r db' (leave id p w)

  pub zrem-Removal :
      (id : String) (p : Place)
      → IsZsetPlace p
      → Removal id p (call_zrem r (place_key p) id >> pure tt)
  zrem-Removal id p h db w t = let (db', e, t') = zrem_tracks id p h db w t in (db', rw e refl, t')
