-- ===== src/Redis/Values.antt =====
-- What a Redis key holds, and the documented effect of each command on it.
use Prim.Native.Char.{code}
use mini_sidekiq.Prelude.{
  ℕ, String, List, [], ◌∷◌, Bool, true, false, ◌||◌, ◌&&◌, Option, none, some, ◌==◌, ltb, eqb,
  if◌then◌else◌,
}
use mini_sidekiq.Exec.{Result, ok, err, wrong_type}

-- A sorted set is kept as its members with their scores, in the order of ZRANGE.
pub data Value (D : Type 0) : Type 0 where
  missing : Value D
  text : D → Value D
  list : List String → Value D
  zset : List (String × ℕ) → Value D

-- Texts in byte order, which in UTF-8 is the order of code points.
abbrev text_lt : String → String → Bool
text_lt String.[] String.[] = false
text_lt String.[] (String.◌∷◌ d t) = true
text_lt (String.◌∷◌ c s) String.[] = false
text_lt (String.◌∷◌ c s) (String.◌∷◌ d t) =
    ltb (code c) (code d) || (eqb (code c) (code d) && text_lt s t)

unfoldable pub insert_scored : ℕ → String → List (String × ℕ) → List (String × ℕ)
insert_scored s m [] = (m, s) ∷ []
insert_scored s m ((n, t) ∷ l) =
    if ltb s t || (eqb s t && text_lt m n)
    then (m, s) ∷ (n, t) ∷ l
    else (n, t) ∷ insert_scored s m l

unfoldable pub erase_scored : String → List (String × ℕ) → List (String × ℕ)
erase_scored m [] = []
erase_scored m ((n, t) ∷ l) = let rest = erase_scored m l in if n == m then rest else (n, t) ∷ rest

unfoldable pub drop_last : List String → List String
drop_last [] = []
drop_last (x ∷ []) = []
drop_last (x ∷ y ∷ l) = x ∷ drop_last (y ∷ l)

unfoldable pub last : List String → Option String
last [] = none
last (x ∷ []) = some x
last (x ∷ y ∷ l) = last (y ∷ l)

unfoldable pub erase_first : String → List String → List String
erase_first x [] = []
erase_first x (y ∷ l) = if y == x then l else y ∷ erase_first x l

unfoldable pub erase_all : String → List String → List String
erase_all x [] = []
erase_all x (y ∷ l) = let rest = erase_all x l in if y == x then rest else y ∷ rest

unfoldable pub members : List (String × ℕ) → List String
members [] = []
members ((m, s) ∷ l) = m ∷ members l

module _ {D : Type 0} where
  -- A key whose list or sorted set runs empty is deleted.
  abbrev pub list_or_missing : List String → Value D
  list_or_missing [] = missing
  list_or_missing (x ∷ l) = list (x ∷ l)

  abbrev pub zset_or_missing : List (String × ℕ) → Value D
  zset_or_missing [] = missing
  zset_or_missing (x ∷ l) = zset (x ∷ l)

  -- A command on a value of another type fails and changes nothing.
  abbrev pub on_list : (List String → List String) → Value D → Value D
  on_list f missing = list_or_missing (f [])
  on_list f (list l) = list_or_missing (f l)
  on_list f v = v

  abbrev pub on_zset : (List (String × ℕ) → List (String × ℕ)) → Value D → Value D
  on_zset f missing = zset_or_missing (f [])
  on_zset f (zset l) = zset_or_missing (f l)
  on_zset f v = v

  abbrev pub read_text : Value D → Result (Option D)
  read_text missing = ok none
  read_text (text d) = ok (some d)
  read_text _ = err wrong_type

  abbrev pub read_list : Value D → Result (List String)
  read_list missing = ok []
  read_list (list l) = ok l
  read_list _ = err wrong_type

  abbrev pub read_zset : Value D → Result (List (String × ℕ))
  read_zset missing = ok []
  read_zset (zset l) = ok l
  read_zset _ = err wrong_type
