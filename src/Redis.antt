-- ===== src/Redis.antt =====
-- The Redis server, which the broker calls and which is not part of the program: its documented
-- commands as an interface, and the commands as the scripts and the client call them.
pub mod Values
pub mod Occurrences
pub mod Ends
pub mod Memory
use mini_sidekiq.Prelude.{
  ℕ, String, ◌≡◌, List, [], ◌∷◌, Bool, true, false, ◌||◌, Option, none, some, ◌==◌, if◌then◌else◌,
  leb, eqb, take, occurs, length,
}
use mini_sidekiq.Exec.{Result, ok, err, Exec}
use Values.{
  Value, missing, text, list, zset, insert_scored, erase_scored, drop_last, last, erase_first,
  erase_all, members, on_list, on_zset, read_text, read_list, read_zset,
}

-- `D` is the type of stored texts. `value` is what the server holds at a key, as its reading
-- commands show it; each writing command changes its own key alone.
pub record Redis (D : Type 0) : Type 1 where
  pub Db : Type 0
  pub value : Db → String → Value D
  pub set : String → D → Db → Db
  pub del : String → Db → Db
  pub lpush : String → String → Db → Db
  pub rpop : String → Db → Db
  pub lrem_one : String → String → Db → Db
  pub lrem_all : String → String → Db → Db
  pub zadd : String → ℕ → String → Db → Db
  pub zrem : String → String → Db → Db
  pub value-set :
      (k : String) (d : D) (db : Db) (j : String)
      → value (set k d db) j ≡ (if k == j then text d else value db j)
  pub value-del :
      (k : String) (db : Db) (j : String)
      → value (del k db) j ≡ (if k == j then missing else value db j)
  pub value-lpush :
      (k x : String) (db : Db) (j : String)
      → value (lpush k x db) j ≡ (if k == j then on_list (◌∷◌ x) (value db k) else value db j)
  pub value-rpop :
      (k : String) (db : Db) (j : String)
      → value (rpop k db) j ≡ (if k == j then on_list drop_last (value db k) else value db j)
  pub value-lrem_one :
      (k x : String) (db : Db) (j : String)
      → value (lrem_one k x db) j
        ≡ (if k == j then on_list (erase_first x) (value db k) else value db j)
  pub value-lrem_all :
      (k x : String) (db : Db) (j : String)
      → value (lrem_all k x db) j
        ≡ (if k == j then on_list (erase_all x) (value db k) else value db j)
  pub value-zadd :
      (k : String) (s : ℕ) (m : String) (db : Db) (j : String)
      → value (zadd k s m db) j ≡ (
          if k == j
          then on_zset (λ l. insert_scored s m (erase_scored m l)) (value db k)
          else value db j)
  pub value-zrem :
      (k m : String) (db : Db) (j : String)
      → value (zrem k m db) j
        ≡ (if k == j then on_zset (erase_scored m) (value db k) else value db j)

abbrev pub reply {ℓ κ} : {A : Type ℓ} {B : Type κ} → (A → B) → Result A → Result B
reply f (ok a) = ok (f a)
reply f (err e) = err e

-- ZRANGEBYSCORE k -inf hi
pub due_members : ℕ → List (String × ℕ) → List String
due_members hi [] = []
due_members hi ((m, s) ∷ l) = let rest = due_members hi l in if leb s hi then m ∷ rest else rest

-- The commands: the reply is read from what the key held before.
module _ {D : Type 0} (r : Redis D) where
  open r use {Db, value, set, del, lpush, rpop, lrem_one, lrem_all, zadd, zrem}

  unfoldable pub call_set : String → D → Exec Db (Unit {0})
  call_set k d db = (ok tt, set k d db)

  unfoldable pub call_get : String → Exec Db (Option D)
  call_get k db = (read_text (value db k), db)

  unfoldable pub call_del : String → Exec Db (Unit {0})
  call_del k db = (ok tt, del k db)

  unfoldable pub call_lpush : String → String → Exec Db (Unit {0})
  call_lpush k x db = (reply (λ _. tt) (read_list (value db k)), lpush k x db)

  unfoldable pub call_rpop : String → Exec Db (Option String)
  call_rpop k db = (reply last (read_list (value db k)), rpop k db)

  -- LREM k 1 x, whose reply is the number removed
  unfoldable pub call_lrem_one : String → String → Exec Db Bool
  call_lrem_one k x db = (reply (occurs x) (read_list (value db k)), lrem_one k x db)

  -- LREM k 0 x
  unfoldable pub call_lrem_all : String → String → Exec Db (Unit {0})
  call_lrem_all k x db = (reply (λ _. tt) (read_list (value db k)), lrem_all k x db)

  unfoldable pub call_zadd : String → ℕ → String → Exec Db (Unit {0})
  call_zadd k s m db = (reply (λ _. tt) (read_zset (value db k)), zadd k s m db)

  -- ZREM k m: whether the member was there
  unfoldable pub call_zrem : String → String → Exec Db Bool
  call_zrem k m db = (reply (λ l. occurs m (members l)) (read_zset (value db k)), zrem k m db)

  unfoldable pub call_zrangebyscore : String → ℕ → Exec Db (List String)
  call_zrangebyscore k hi db = (reply (due_members hi) (read_zset (value db k)), db)

  -- LRANGE k 0 (n - 1), for a positive n
  unfoldable pub call_lrange : String → ℕ → Exec Db (List String)
  call_lrange k n db = (reply (take n) (read_list (value db k)), db)

  -- ZRANGE k 0 (n - 1): all members if n is 0
  unfoldable pub call_zrange : String → ℕ → Exec Db (List String)
  call_zrange k n db =
      (reply (λ l. if eqb n 0 then members l else take n (members l)) (read_zset (value db k)), db)

  unfoldable pub call_llen : String → Exec Db ℕ
  call_llen k db = (reply length (read_list (value db k)), db)

  unfoldable pub call_zcard : String → Exec Db ℕ
  call_zcard k db = (reply length (read_zset (value db k)), db)
