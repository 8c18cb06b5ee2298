-- ===== src/Json/Order.antt =====
-- The order of keys is a strict total order, so that insertions of distinct keys commute.
use jaa.Prelude.{ℕ, true, false, List, [], ◌∷◌, ◌≡◌, ◌≢◌, refl, arith}
use jaa.Json.Canonical.{before, Entry, insert}

pub before_connex : (a b : List ℕ) → before a b ≡ false → before b a ≡ false → a ≡ b
unfolding before
before_connex [] [] h k = refl
before_connex [] (y ∷ ys) h k = cc
before_connex (x ∷ xs) [] h k = cc
before_connex (x ∷ xs) (y ∷ ys) h k = ground (arith, before_connex xs ys)

pub before_asymm : (a b : List ℕ) → before a b ≡ true → before b a ≡ false
unfolding before
before_asymm [] [] h = refl
before_asymm [] (y ∷ ys) h = refl
before_asymm (x ∷ xs) [] h = cc
before_asymm (x ∷ xs) (y ∷ ys) h = ground (arith, before_asymm xs ys)

pub before_trans : (a b c : List ℕ) → before a b ≡ true → before b c ≡ true → before a c ≡ true
unfolding before
before_trans [] [] c h k = cc
before_trans [] (y ∷ ys) [] h k = cc
before_trans [] (y ∷ ys) (z ∷ zs) h k = refl
before_trans (x ∷ xs) [] c h k = cc
before_trans (x ∷ xs) (y ∷ ys) [] h k = cc
before_trans (x ∷ xs) (y ∷ ys) (z ∷ zs) h k = ground (arith, before_trans xs ys zs)

pub insert_comm :
    (a b : Entry) (l : List Entry) → a.0 ≢ b.0 → insert a (insert b l) ≡ insert b (insert a l)
unfolding insert
insert_comm a b [] ne = ground (arith, before_connex a.0 b.0, before_asymm a.0 b.0)
insert_comm a b (c ∷ l) ne = ground (
  arith,
  insert_comm a b l ne,
  before_connex a.0 b.0,
  before_asymm a.0 b.0,
  before_trans c.0 a.0 b.0,
  before_trans c.0 b.0 a.0,
)
