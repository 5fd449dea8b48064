-- ===== src/Redis/Ends.antt =====
-- Lists that are kept as Redis values, and the end of one that grows at its head.
use mini_sidekiq.Prelude.{String, ◌≡◌, refl, ap, List, [], ◌∷◌, ◌++◌, some}
use mini_sidekiq.Exec.{ok}
use mini_sidekiq.Redis.Values.{last, drop_last, on_list, list_or_missing, read_list}

pub last-append : (l : List String) (x : String) → last (l ++ (x ∷ [])) ≡ some x
unfolding last
last-append [] x = refl
last-append (y ∷ []) x = refl
last-append (y ∷ z ∷ l) x = last-append (z ∷ l) x

pub drop_last-append : (l : List String) (x : String) → drop_last (l ++ (x ∷ [])) ≡ l
unfolding drop_last
drop_last-append [] x = refl
drop_last-append (y ∷ []) x = refl
drop_last-append (y ∷ z ∷ l) x = ap (◌∷◌ y) (drop_last-append (z ∷ l) x)

pub read_list-or_missing :
    (D : Type 0) (l : List String) → read_list {D = D} (list_or_missing l) ≡ ok l
read_list-or_missing D [] = refl
read_list-or_missing D (x ∷ l) = refl

module _ {D : Type 0} where
  pub on_list-or_missing :
      (f : List String → List String) (l : List String)
      → on_list {D = D} f (list_or_missing l) ≡ list_or_missing (f l)
  on_list-or_missing f [] = refl
  on_list-or_missing f (x ∷ l) = refl
