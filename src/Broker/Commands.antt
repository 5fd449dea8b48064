-- ===== src/Broker/Commands.antt =====
-- Each command at the key of a place: its reply, and all that it changes.
use mini_sidekiq.Prelude.{
  ℕ, String, ◌≡◌, List, ◌∷◌, none, some, ◌+◌, ◌-◌, ◌<◌, ◌==◌, ◌⊎◌, inl, inr, arith, tally, ltb,
  if◌then◌else◌, ==-false_of_ne, Option-cases, ap, sym, eq_refl,
}
use mini_sidekiq.Exec.{ok}
use mini_sidekiq.Redis.{
  Redis, call_lpush, call_rpop, call_lrem_one, call_lrem_all, call_zadd, call_zrem,
}
use mini_sidekiq.Redis.Values.{
  Value, drop_last, last, on_list, on_zset, insert_scored, erase_scored, erase_first, erase_all,
}
use mini_sidekiq.Redis.Occurrences.{
  occurrences, IsListLike, IsZsetLike, list_entries, read_list-like, read_zset-like, on_list-like,
  on_zset-like, occurrences-push, occurrences-pop, occurrences-last-none, occurrences-erase_first,
  occurrences-erase_all, occurrences-score, occurrences-unscore, occurs-list_entries,
  occurs-zset_entries,
}
use mini_sidekiq.Broker.Keys.{Place, place_key, job_key, job_key-ne-place_key}
use mini_sidekiq.Broker.Shapes.{
  IsListPlace, IsZsetPlace, Fits, Fits-list, Fits-zset, list-Fits, zset-Fits, IsShaped, occ,
  Changes, Changes-IsShaped, Changes-occ, unchanged,
}

module _ {D : Type 0} (r : Redis D) where
  open r use {Db, value, lpush, rpop, lrem_one, lrem_all, zadd, zrem}

  -- The occurrences at `p` become what `change` says, and no others change.
  abbrev pub Shifts : Place → (String → ℕ → ℕ) → Db → Db → Type 0
  Shifts p change db db' =
      (a : String) (q : Place)
      → occ r db' a q
        ≡ (if place_key p == place_key q then change a (occ r db a p) else occ r db a q)

  -- At the place `p` the occurrences become what `change` says, and nothing else changes.
  pub record Effect (p : Place) (change : String → ℕ → ℕ) (db db' : Db) : Type 0 where
    pub shaped : IsShaped r db'
    pub placed : Shifts p change db db'
    pub records : (i : String) → value db' (job_key i) ≡ value db (job_key i)

  Changes-Effect :
      (p : Place) (f : Value D → Value D) (change : String → ℕ → ℕ) (db db' : Db)
      → Changes r (place_key p) f db db'
      → IsShaped r db
      → Fits p (f (value db (place_key p)))
      → ((a : String) → occurrences a (f (value db (place_key p))) ≡ change a (occ r db a p))
      → Effect p change db db'
  Changes-Effect p f change db db' c s fits n = record {
    shaped = Changes-IsShaped r p f db db' c fits s;
    placed = λ a q. Changes-occ r p f db db' c a (change a (occ r db a p)) q (n a);
    records = λ i.
        unchanged r (place_key p) f db db' c (job_key i)
          (==-false_of_ne _ _ (λ e. job_key-ne-place_key i p (sym e)));
  }

  module _ (p : Place) (x : String) (db : Db) (s : IsShaped r db) where
    module _ (l : IsListPlace p) where
      like : IsListLike (value db (place_key p))
      like = Fits-list p _ l (s p)

      list-Effect :
          (f : List String → List String) (change : String → ℕ → ℕ) (db' : Db)
          → Changes r (place_key p) (on_list f) db db'
          → ((a : String)
              → occurrences a (on_list f (value db (place_key p))) ≡ change a (occ r db a p))
          → Effect p change db db'
      list-Effect f change db' c n =
          Changes-Effect p (on_list f) change db db' c s (list-Fits p _ l (on_list-like f _ like)) n

      pub lpush-Effect : Effect p (λ a n. tally (x == a) + n) db (lpush (place_key p) x db)
      unfolding occ
      lpush-Effect =
          list-Effect (◌∷◌ x) _ _ (r.value-lpush (place_key p) x db)
            (λ a. occurrences-push a x _ like)

      pub lrem_one-Effect : Effect p (λ a n. n - tally (x == a)) db (lrem_one (place_key p) x db)
      unfolding occ
      lrem_one-Effect =
          list-Effect (erase_first x) _ _ (r.value-lrem_one (place_key p) x db)
            (λ a. occurrences-erase_first a x _ like)

      pub lrem_all-Effect :
          Effect p (λ a n. if x == a then 0 else n) db (lrem_all (place_key p) x db)
      unfolding occ
      lrem_all-Effect =
          list-Effect (erase_all x) _ _ (r.value-lrem_all (place_key p) x db)
            (λ a. occurrences-erase_all a x _ like)

      pub call_lpush-eq : call_lpush r (place_key p) x db ≡ (ok tt, lpush (place_key p) x db)
      unfolding call_lpush
      call_lpush-eq = rw (read_list-like _ like)

      pub call_lrem_all-eq :
          call_lrem_all r (place_key p) x db ≡ (ok tt, lrem_all (place_key p) x db)
      unfolding call_lrem_all
      call_lrem_all-eq = rw (read_list-like _ like)

      pub call_lrem_one-eq :
          call_lrem_one r (place_key p) x db
          ≡ (ok (ltb 0 (occ r db x p)), lrem_one (place_key p) x db)
      unfolding occ call_lrem_one
      call_lrem_one-eq = rw (read_list-like _ like, occurs-list_entries x _ like)

    module _ (z : IsZsetPlace p) where
      zlike : IsZsetLike (value db (place_key p))
      zlike = Fits-zset p _ z (s p)

      zset-Effect :
          (f : List (String × ℕ) → List (String × ℕ)) (change : String → ℕ → ℕ) (db' : Db)
          → Changes r (place_key p) (on_zset f) db db'
          → ((a : String)
              → occurrences a (on_zset f (value db (place_key p))) ≡ change a (occ r db a p))
          → Effect p change db db'
      zset-Effect f change db' c n =
          Changes-Effect p (on_zset f) change db db' c s (zset-Fits p _ z (on_zset-like f _ zlike))
            n

      pub zadd-Effect :
          (n : ℕ) → Effect p (λ a m. if x == a then 1 else m) db (zadd (place_key p) n x db)
      unfolding occ
      zadd-Effect n =
          zset-Effect (λ l. insert_scored n x (erase_scored x l)) _ _
            (r.value-zadd (place_key p) n x db) (λ a. occurrences-score a x _ n zlike)

      pub zrem-Effect : Effect p (λ a m. if x == a then 0 else m) db (zrem (place_key p) x db)
      unfolding occ
      zrem-Effect =
          zset-Effect (erase_scored x) _ _ (r.value-zrem (place_key p) x db)
            (λ a. occurrences-unscore a x _ zlike)

      pub call_zadd-eq :
          (n : ℕ) → call_zadd r (place_key p) n x db ≡ (ok tt, zadd (place_key p) n x db)
      unfolding call_zadd
      call_zadd-eq n = rw (read_zset-like _ zlike)

      pub call_zrem-eq :
          call_zrem r (place_key p) x db ≡ (ok (ltb 0 (occ r db x p)), zrem (place_key p) x db)
      unfolding occ call_zrem
      call_zrem-eq = rw (read_zset-like _ zlike, occurs-zset_entries x _ zlike)

  -- RPOP finds the key empty, or takes one occurrence of the id that it replies.
  pub rpop_cases :
      (p : Place) (db : Db)
      → IsShaped r db
      → IsListPlace p
      → ((call_rpop r (place_key p) db ≡ (ok none, rpop (place_key p) db))
          × ((a : String) → occ r db a p ≡ 0)
          × Effect p (λ a n. n) db (rpop (place_key p) db))
        ⊎ ((x : String) × (call_rpop r (place_key p) db ≡ (ok (some x), rpop (place_key p) db))
            × (0 < occ r db x p)
            × Effect p (λ a n. n - tally (x == a)) db (rpop (place_key p) db))
  unfolding occ call_rpop
  rpop_cases p db s l = elim (Option-cases (last (list_entries (value db (place_key p))))) [
    | inl e ↦ inl (
      rw (read_list-like _ (like p "" db s l), e),
      λ a. (occurrences-last-none a _ (like p "" db s l) e).0,
      list-Effect p "" db s l drop_last (λ a n. n) _ (r.value-rpop (place_key p) db)
          (λ a. (occurrences-last-none a _ (like p "" db s l) e).1),
    )
    | inr (x, e) ↦ inr (
      x,
      rw (read_list-like _ (like p "" db s l), e),
      omega (arith, occurrences-pop x x _ (like p "" db s l) e, ap tally (eq_refl x)),
      list-Effect p "" db s l drop_last (λ a n. n - tally (x == a)) _
          (r.value-rpop (place_key p) db)
          (λ a. omega (arith, occurrences-pop a x _ (like p "" db s l) e)),
    )
  ]
