-- ===== src/Redis/Memory.antt =====
-- The interface can be met: a server that keeps its keys in a list, the newest value first.
use mini_sidekiq.Prelude.{String, refl, List, [], ◌∷◌, ◌==◌, if◌then◌else◌}
use mini_sidekiq.Redis.{Redis}
use mini_sidekiq.Redis.Values.{
  Value, missing, text, insert_scored, erase_scored, drop_last, erase_first, erase_all, on_list,
  on_zset,
}

abbrev lookup {ℓ} : {V : Type ℓ} → V → String → List (String × V) → V
lookup d j [] = d
lookup d j ((k, v) ∷ db) = if k == j then v else lookup d j db

abbrev update :
    {D : Type 0} → String → (Value D → Value D) → List (String × Value D) → List (String × Value D)
update k f db = (k, f (lookup missing k db)) ∷ db

abbrev pub memory : (D : Type 0) → Redis D
memory D = record {
  Db = List (String × Value D);
  value = λ db j. lookup missing j db;
  set = λ k d. update k (λ _. text d);
  del = λ k. update k (λ _. missing);
  lpush = λ k x. update k (on_list (◌∷◌ x));
  rpop = λ k. update k (on_list drop_last);
  lrem_one = λ k x. update k (on_list (erase_first x));
  lrem_all = λ k x. update k (on_list (erase_all x));
  zadd = λ k s m. update k (on_zset (λ l. insert_scored s m (erase_scored m l)));
  zrem = λ k m. update k (on_zset (erase_scored m));
  value-set = λ k d db j. refl;
  value-del = λ k db j. refl;
  value-lpush = λ k x db j. refl;
  value-rpop = λ k db j. refl;
  value-lrem_one = λ k x db j. refl;
  value-lrem_all = λ k x db j. refl;
  value-zadd = λ k s m db j. refl;
  value-zrem = λ k m db j. refl;
}
