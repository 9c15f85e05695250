-- ===== src/Db/Keys.antt =====
-- Primary keys: what every insert keeps (the `serial` and `integer primary key` columns of
-- DB/DBPostgres.cpp and DB/DBSQLite.cpp).
use mathlib.Core.List.{map-append}
use wrongthink.Base.{
  ℕ, suc, ◌<◌, ◌≡◌, Option, none, some, [], ◌∷◌, map, All, All-append, All-map, arith,
}
use wrongthink.Action.{Exception}
use wrongthink.Db.Engine.{Engine, IssuesFreshIds}
use wrongthink.Db.Tables.{Table, next_id, appended, insert}
use wrongthink.Db.Order.{Rising, Rising-snoc}

-- The keys are positive, rise in the order of insertion, and stay below the sequence.
pub record IsKeyed {R : Type 0} (key : R → ℕ) (t : Table R) : Type 0 where
  pub rising : Rising key 1 t.rows
  pub below : All (λ i. i < t.sequence) (map key t.rows)
  pub started : 0 < t.sequence

module _ {R : Type 0} (key : R → ℕ) (e : Engine) (fresh : IssuesFreshIds e) (row : ℕ → R)
    (keyed : (i : ℕ) → key (row i) ≡ i) (t : Table R) (v : IsKeyed key t) where
  id : ℕ
  id = next_id e key t

  pub appended-IsKeyed : IsKeyed key (appended e key row t)
  unfolding id
  appended-IsKeyed = record {
    rising =
        Rising-snoc key 1 t.rows (row id)
          (omega (arith, fresh.positive t.sequence (map key t.rows) v.started, keyed id))
          (rw (keyed id) (fresh.above t.sequence (map key t.rows) v.below)) v.rising;
    below = rw (map-append key t.rows (row id ∷ [])) (
        All-append (λ i. i < suc t.sequence) (map key t.rows) (key (row id) ∷ [])
          (All-map _ _ (λ i h. omega arith) (map key t.rows) v.below)
          (omega (arith, keyed id, fresh.within t.sequence (map key t.rows) v.below), tt));
    started = omega arith;
  }

  -- An insert keeps the keys so, whether a constraint refuses it or not.
  pub insert-IsKeyed : (violation : Option Exception) → IsKeyed key (insert e key row violation t).1
  insert-IsKeyed none = appended-IsKeyed
  insert-IsKeyed (some x) = record {
    rising = v.rising;
    below = All-map _ _ (λ i h. omega (arith, fresh.grows t.sequence)) (map key t.rows) v.below;
    started = omega (arith, fresh.grows t.sequence, v.started);
  }
