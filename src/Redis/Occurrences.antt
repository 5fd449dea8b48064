-- ===== src/Redis/Occurrences.antt =====
-- How often an id stands in the list or sorted set at a key, and what each command does to that.
use mini_sidekiq.Prelude.{
  occurs, ℕ, String, ◌≡◌, ◌≢◌, refl, List, [], ◌∷◌, some, ◌+◌, ◌-◌, ◌==◌, eq_iff, arith, count,
  tally, ltb, none, if◌then◌else◌,
}
use mini_sidekiq.Exec.{ok}
use mini_sidekiq.Redis.Values.{
  Value, missing, text, list, zset, insert_scored, erase_scored, drop_last, last, erase_first,
  erase_all, members, on_list, on_zset, read_list, read_zset, list_or_missing, zset_or_missing,
}

count-insert_scored :
    (a m : String) (s : ℕ) (l : List (String × ℕ))
    → count a (members (insert_scored s m l)) ≡ tally (m == a) + count a (members l)
unfolding insert_scored members
count-insert_scored a m s [] = refl
count-insert_scored a m s ((n, t) ∷ l) = ground (arith, count-insert_scored a m s l)

count-erase_scored :
    (a m : String) (l : List (String × ℕ))
    → count a (members (erase_scored m l)) ≡ (if m == a then 0 else count a (members l))
unfolding erase_scored members
count-erase_scored a m [] = ground arith
count-erase_scored a m ((n, t) ∷ l) =
    ground (arith, count-erase_scored a m l, eq_iff n m, eq_iff n a, eq_iff m a)

count-drop_last :
    (a : String) (l : List String) {x : String}
    → last l ≡ some x
    → tally (x == a) + count a (drop_last l) ≡ count a l
unfolding last drop_last
count-drop_last a [] h = cc
count-drop_last a (x ∷ []) h = ground arith
count-drop_last a (x ∷ y ∷ l) h = omega (arith, count-drop_last a (y ∷ l) h)

count-erase_first :
    (a x : String) (l : List String) → count a (erase_first x l) ≡ count a l - tally (x == a)
unfolding erase_first
count-erase_first a x [] = ground arith
count-erase_first a x (y ∷ l) =
    ground (arith, count-erase_first a x l, eq_iff y x, eq_iff y a, eq_iff x a)

count-erase_all :
    (a x : String) (l : List String) → count a (erase_all x l) ≡ (if x == a then 0 else count a l)
unfolding erase_all
count-erase_all a x [] = ground arith
count-erase_all a x (y ∷ l) =
    ground (arith, count-erase_all a x l, eq_iff y x, eq_iff y a, eq_iff x a)

last-ne-none : (x : String) (l : List String) → last (x ∷ l) ≢ none
unfolding last
last-ne-none x [] e = cc
last-ne-none x (y ∷ l) e = last-ne-none y l e

nil_of_last : (l : List String) → last l ≡ none → l ≡ []
nil_of_last [] h = refl
nil_of_last (x ∷ l) h = absurd (last-ne-none x l h)

pub occurs-count : (a : String) (l : List String) → occurs a l ≡ ltb 0 (count a l)
occurs-count a [] = refl
occurs-count a (x ∷ l) = ground (arith, occurs-count a l)

module _ {D : Type 0} where
  abbrev pub occurrences : String → Value D → ℕ
  occurrences a (list l) = count a l
  occurrences a (zset l) = count a (members l)
  occurrences a _ = 0

  -- What a list command takes.
  abbrev pub IsListLike : Value D → Type 0
  IsListLike missing = Unit
  IsListLike (list l) = Unit
  IsListLike _ = ⊥

  abbrev pub IsZsetLike : Value D → Type 0
  IsZsetLike missing = Unit
  IsZsetLike (zset l) = Unit
  IsZsetLike _ = ⊥

  abbrev pub list_entries : Value D → List String
  list_entries (list l) = l
  list_entries _ = []

  abbrev pub zset_entries : Value D → List (String × ℕ)
  zset_entries (zset l) = l
  zset_entries _ = []

list_or_missing-like : (D : Type 0) (l : List String) → IsListLike {D = D} (list_or_missing l)
list_or_missing-like D [] = tt
list_or_missing-like D (x ∷ l) = tt

zset_or_missing-like : (D : Type 0) (l : List (String × ℕ)) → IsZsetLike {D = D} (zset_or_missing l)
zset_or_missing-like D [] = tt
zset_or_missing-like D (x ∷ l) = tt

occurrences-list_or_missing :
    (D : Type 0) (a : String) (l : List String)
    → occurrences {D = D} a (list_or_missing l) ≡ count a l
occurrences-list_or_missing D a [] = refl
occurrences-list_or_missing D a (x ∷ l) = refl

occurrences-zset_or_missing :
    (D : Type 0) (a : String) (l : List (String × ℕ))
    → occurrences {D = D} a (zset_or_missing l) ≡ count a (members l)
unfolding members
occurrences-zset_or_missing D a [] = refl
occurrences-zset_or_missing D a (x ∷ l) = refl

module _ {D : Type 0} where
  pub read_list-like : (v : Value D) → IsListLike v → read_list v ≡ ok (list_entries v)
  read_list-like v h = ground arith

  pub read_zset-like : (v : Value D) → IsZsetLike v → read_zset v ≡ ok (zset_entries v)
  read_zset-like v h = ground arith

  pub on_list-like :
      (f : List String → List String) (v : Value D) → IsListLike v → IsListLike (on_list f v)
  on_list-like f missing h = list_or_missing-like _ (f [])
  on_list-like f (list l) h = list_or_missing-like _ (f l)
  on_list-like f (text d) h = h
  on_list-like f (zset l) h = h

  pub on_zset-like :
      (f : List (String × ℕ) → List (String × ℕ)) (v : Value D)
      → IsZsetLike v
      → IsZsetLike (on_zset f v)
  on_zset-like f missing h = zset_or_missing-like _ (f [])
  on_zset-like f (zset l) h = zset_or_missing-like _ (f l)
  on_zset-like f (text d) h = h
  on_zset-like f (list l) h = h

  occurrences-list_entries :
      (a : String) (v : Value D) → IsListLike v → occurrences a v ≡ count a (list_entries v)
  occurrences-list_entries a v h = ground arith

  occurrences-zset_entries :
      (a : String) (v : Value D)
      → IsZsetLike v
      → occurrences a v ≡ count a (members (zset_entries v))
  unfolding members
  occurrences-zset_entries a v h = ground arith

  occurrences-on_list :
      (a : String) (f : List String → List String) (v : Value D)
      → IsListLike v
      → occurrences a (on_list f v) ≡ count a (f (list_entries v))
  occurrences-on_list a f missing h = occurrences-list_or_missing _ a (f [])
  occurrences-on_list a f (list l) h = occurrences-list_or_missing _ a (f l)
  occurrences-on_list a f (text d) h = absurd h
  occurrences-on_list a f (zset l) h = absurd h

  occurrences-on_zset :
      (a : String) (f : List (String × ℕ) → List (String × ℕ)) (v : Value D)
      → IsZsetLike v
      → occurrences a (on_zset f v) ≡ count a (members (f (zset_entries v)))
  occurrences-on_zset a f missing h = occurrences-zset_or_missing _ a (f [])
  occurrences-on_zset a f (zset l) h = occurrences-zset_or_missing _ a (f l)
  occurrences-on_zset a f (text d) h = absurd h
  occurrences-on_zset a f (list l) h = absurd h

  module _ (a x : String) (v : Value D) where
    pub occurrences-push :
        IsListLike v → occurrences a (on_list (◌∷◌ x) v) ≡ tally (x == a) + occurrences a v
    occurrences-push h = rw (occurrences-on_list a _ v h, occurrences-list_entries a v h)

    pub occurrences-pop :
        IsListLike v
        → last (list_entries v) ≡ some x
        → tally (x == a) + occurrences a (on_list drop_last v) ≡ occurrences a v
    occurrences-pop h e =
        rw (occurrences-on_list a drop_last v h, occurrences-list_entries a v h)
          (count-drop_last a (list_entries v) e)

    pub occurrences-erase_first :
        IsListLike v → occurrences a (on_list (erase_first x) v) ≡ occurrences a v - tally (x == a)
    occurrences-erase_first h =
        rw (occurrences-on_list a (erase_first x) v h, occurrences-list_entries a v h)
          (count-erase_first a x (list_entries v))

    pub occurrences-erase_all :
        IsListLike v
        → occurrences a (on_list (erase_all x) v) ≡ (if x == a then 0 else occurrences a v)
    occurrences-erase_all h =
        rw (occurrences-on_list a (erase_all x) v h, occurrences-list_entries a v h)
          (count-erase_all a x (list_entries v))

    pub occurrences-score :
        (s : ℕ)
        → IsZsetLike v
        → occurrences a (on_zset (λ l. insert_scored s x (erase_scored x l)) v)
          ≡ (if x == a then 1 else occurrences a v)
    occurrences-score s h =
        rw
          (
            occurrences-on_zset a (λ l. insert_scored s x (erase_scored x l)) v h,
            occurrences-zset_entries a v h,
          )
          (ground (
            arith,
            count-insert_scored a x s (erase_scored x (zset_entries v)),
            count-erase_scored a x (zset_entries v),
          ))

    pub occurrences-unscore :
        IsZsetLike v
        → occurrences a (on_zset (erase_scored x) v) ≡ (if x == a then 0 else occurrences a v)
    occurrences-unscore h =
        rw (occurrences-on_zset a (erase_scored x) v h, occurrences-zset_entries a v h)
          (count-erase_scored a x (zset_entries v))

  -- Nothing to pop: the key is empty, and RPOP leaves it so.
  pub occurrences-last-none :
      (a : String) (v : Value D)
      → IsListLike v
      → last (list_entries v) ≡ none
      → (occurrences a v ≡ 0) × (occurrences a (on_list drop_last v) ≡ occurrences a v)
  unfolding drop_last
  occurrences-last-none a v h e =
      rw
        (
          occurrences-on_list a drop_last v h,
          occurrences-list_entries a v h,
          nil_of_last (list_entries v) e,
        )
        (refl, refl)

  pub occurs-list_entries :
      (a : String) (v : Value D)
      → IsListLike v
      → occurs a (list_entries v) ≡ ltb 0 (occurrences a v)
  occurs-list_entries a v h = rw (occurrences-list_entries a v h) (occurs-count a (list_entries v))

  pub occurs-zset_entries :
      (a : String) (v : Value D)
      → IsZsetLike v
      → occurs a (members (zset_entries v)) ≡ ltb 0 (occurrences a v)
  occurs-zset_entries a v h =
      rw (occurrences-zset_entries a v h) (occurs-count a (members (zset_entries v)))
