-- ===== src/Broker/Apart.antt =====
-- The keys of the jobs' records and those of the places, under the commands of the scripts.
use mini_sidekiq.Prelude.{ℕ, String, ◌≡◌, refl, sym, ◌∙◌, ==-false_of_ne}
use mini_sidekiq.Redis.{Redis}
use mini_sidekiq.Broker.Keys.{Place, place_key, job_key, job_key-ne-place_key}

module _ {D : Type 0} (r : Redis D) where
  open r use {Db, value, set, lpush, rpop, zadd}

  -- Writing a record changes no place, and the other way round.
  pub set-place :
      (i : String) (d : D) (db : Db) (p : Place)
      → value (set (job_key i) d db) (place_key p) ≡ value db (place_key p)
  set-place i d db p =
      r.value-set (job_key i) d db (place_key p)
      ∙ rw (==-false_of_ne (job_key i) (place_key p) (job_key-ne-place_key i p)) refl

  pub lpush-record :
      (p : Place) (x i : String) (db : Db)
      → value (lpush (place_key p) x db) (job_key i) ≡ value db (job_key i)
  lpush-record p x i db =
      r.value-lpush (place_key p) x db (job_key i)
      ∙ rw (==-false_of_ne (place_key p) (job_key i) (λ e. job_key-ne-place_key i p (sym e))) refl

  pub rpop-record :
      (p : Place) (i : String) (db : Db)
      → value (rpop (place_key p) db) (job_key i) ≡ value db (job_key i)
  rpop-record p i db =
      r.value-rpop (place_key p) db (job_key i)
      ∙ rw (==-false_of_ne (place_key p) (job_key i) (λ e. job_key-ne-place_key i p (sym e))) refl

  pub zadd-record :
      (p : Place) (n : ℕ) (x i : String) (db : Db)
      → value (zadd (place_key p) n x db) (job_key i) ≡ value db (job_key i)
  zadd-record p n x i db =
      r.value-zadd (place_key p) n x db (job_key i)
      ∙ rw (==-false_of_ne (place_key p) (job_key i) (λ e. job_key-ne-place_key i p (sym e))) refl
