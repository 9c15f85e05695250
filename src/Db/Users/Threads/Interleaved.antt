-- ===== src/Db/Users/Threads/Interleaved.antt =====
-- What calls of `createUser` guarantee in any interleaving (DB/DBPostgres.cpp).
use wrongthink.Base.{
  Grown, not_grown, ℕ, String, Bool, true, false, some, List, [], ◌∷◌, ◌++◌, ◌≡◌, refl, sym, arith,
  ◌||◌, not, any, any-append, find?, find?-append_some, length-filter_zero, Bool-cases,
  Option-cases, inl, inr, if◌then◌else◌,
}
use wrongthink.Db.Engine.{Engine}
use wrongthink.Db.Tables.{User, Db, next_id}
use wrongthink.Db.Sql.Schema.{IsReady}
use wrongthink.Db.Users.{named, user_violation}
use wrongthink.Db.Users.Accounts.{
  count_admins_ready, user_id_by_name_ready, insert_user_row_accepted, insert_user_row_refused,
  find-with_user, with_user-IsReady, new_user,
}
use wrongthink.Db.Users.Threads.{
  Creating, counting, inserting, selecting, answered, failed, advance, Calls, run_calls,
}
use wrongthink.Concurrent.{IsBackedPool, IsStepped, turns, run-IsBackedPool}
use mathlib.Core.Path.{subst}

abbrev pub has_admin : List User → Bool
has_admin rows = any (λ u. u.admin) rows

abbrev pub is_empty : List User → Bool
is_empty [] = true
is_empty (u ∷ us) = false

-- There are no accounts, or one of them is an admin.
abbrev pub IsAdministered : List User → Type 0
IsAdministered rows = (is_empty rows || has_admin rows) ≡ true

-- What a call has established of the accounts: before it inserts an account that is no admin, it has
-- seen one; after its insert, the account that its name stands for has its flag, and in the end the
-- key that it answers.
abbrev pub IsBacked : List User → Creating → Type 0
IsBacked rows (counting _ _ _) = Unit
IsBacked rows (inserting _ _ true) = Unit
IsBacked rows (inserting _ _ false) = has_admin rows ≡ true
IsBacked rows (selecting uname admin) =
    (u : User) × (find? (named uname) rows ≡ some u) × (u.admin ≡ admin)
IsBacked rows (answered uname uid admin) =
    (u : User) × (find? (named uname) rows ≡ some u) × (u.admin ≡ admin) × (u.user_id ≡ uid)
IsBacked rows (failed _) = Unit

-- New accounts take nothing away.
IsBacked-append :
    (rows more : List User) (p : Creating) → IsBacked rows p → IsBacked (rows ++ more) p
IsBacked-append rows more (counting _ _ _) h = tt
IsBacked-append rows more (inserting _ _ true) h = tt
IsBacked-append rows more (inserting _ _ false) h =
    rw (any-append (λ (u : User). u.admin) rows more, h) refl
IsBacked-append rows more (selecting uname admin) (u, found, flag) =
    (u, find?-append_some (named uname) u rows more found, flag)
IsBacked-append rows more (answered uname uid admin) (u, found, flag, key) =
    (u, find?-append_some (named uname) u rows more found, flag, key)
IsBacked-append rows more (failed _) h = tt

pub IsBacked-Grown :
    (rows after : List User)
    → Grown rows after
    → (p : Creating) → IsBacked rows p
    → IsBacked after p
IsBacked-Grown rows after (more, same) p h =
    subst (λ rows. IsBacked rows p) (sym same) (IsBacked-append rows more p h)

-- The schema is complete, and the accounts are administered.
pub record IsGood (db : Db) : Type 0 where
  pub ready : IsReady db
  pub administered : IsAdministered db.users.rows

abbrev pub Backed : Db → Creating → Type 0
Backed db p = IsBacked db.users.rows p

-- Accounts are only added.
abbrev pub HasGrown : Db → Db → Type 0
HasGrown before after = Grown before.users.rows after.users.rows

abbrev IsAdvanced : Db → Creating × Db → Type 0
IsAdvanced db r = IsStepped IsGood Backed HasGrown db r

has_admin-append :
    (admin : Bool) (rows : List User) (u : User) (uname token : String)
    → u.admin ≡ admin
    → IsBacked rows (inserting uname token admin)
    → has_admin (rows ++ u ∷ []) ≡ true
unfolding any
has_admin-append true rows u uname token flag backed =
    rw (any-append (λ (u : User). u.admin) rows (u ∷ []), flag) (ground arith)
has_admin-append false rows u uname token flag backed =
    rw (any-append (λ (u : User). u.admin) rows (u ∷ []), backed) refl

module _ (e : Engine) (db : Db) (ready : IsReady db) (v : IsAdministered db.users.rows) where
  same_rows : (p : Creating) → IsBacked db.users.rows p → IsAdvanced db (p, db)
  same_rows p backed = record {
    good = record { ready = ready; administered = v };
    backed = backed;
    later = not_grown db.users.rows;
  }

  advance_insert :
      (uname token : String) (admin : Bool)
      → IsBacked db.users.rows (inserting uname token admin)
      → IsAdvanced db (advance e (inserting uname token admin) db)
  unfolding advance
  advance_insert uname token admin backed =
      elim (Option-cases (user_violation e uname token db.users.rows)) [
        | inl free ↦ rw (insert_user_row_accepted e uname token admin db ready free) (record {
          good = record {
            ready = with_user-IsReady e uname token admin db ready;
            administered =
                rw
                  (has_admin-append admin db.users.rows
                    (new_user uname token admin (next_id e (λ u. u.user_id) db.users)) uname token
                    refl backed)
                  (ground arith);
          };
          backed = (_, find-with_user e uname token admin db ready free, refl);
          later = (_, refl);
        })
        | inr (x, refused) ↦
            rw (insert_user_row_refused e uname token admin db ready x refused) (record {
              good = record { ready = ground (arith, ready); administered = v };
              backed = tt;
              later = not_grown db.users.rows;
            })
      ]

  -- The flag that a call inserts, from the admins that it has counted.
  counted_flag :
      (uname token : String) (admin : Bool)
      → IsBacked db.users.rows
          (inserting uname token (if not (has_admin db.users.rows) then true else admin))
  counted_flag uname token true = elim (Bool-cases (has_admin db.users.rows)) [
    | inl some_admin ↦ rw some_admin tt
    | inr no_admin ↦ rw no_admin tt
  ]
  counted_flag uname token false = elim (Bool-cases (has_admin db.users.rows)) [
    | inl some_admin ↦ rw some_admin some_admin
    | inr no_admin ↦ rw no_admin tt
  ]

  pub advance_lem : (p : Creating) → IsBacked db.users.rows p → IsAdvanced db (advance e p db)
  unfolding advance
  advance_lem (counting uname token admin) backed =
      rw (count_admins_ready db ready, length-filter_zero (λ (u : User). u.admin) db.users.rows)
        (same_rows _ (counted_flag uname token admin))
  advance_lem (inserting uname token admin) backed = advance_insert uname token admin backed
  advance_lem (selecting uname admin) (u, found, flag) =
      rw (user_id_by_name_ready db ready uname, found)
        (same_rows (answered uname u.user_id admin) (u, found, flag, refl))
  advance_lem (answered uname uid admin) backed = same_rows (answered uname uid admin) backed
  advance_lem (failed x) backed = same_rows (failed x) backed

-- The schema is complete, the accounts are administered, and each call is backed.
abbrev pub IsConsistent : Calls → Type 0
IsConsistent s = IsBackedPool IsGood Backed s

-- However the statements of any number of calls interleave, from a state in which this is so: the
-- schema is complete, some account is an admin unless there is none, a call that is about to insert
-- an account without the flag has seen an admin who is still there, and a call that has answered
-- has answered the key and the flag of the account that its name stands for.
pub run_calls-IsConsistent :
    (e : Engine) (schedule : List ℕ) (s : Calls)
    → IsConsistent s
    → IsConsistent (run_calls e schedule s)
run_calls-IsConsistent e schedule s v =
    run-IsBackedPool (λ (u : Unit {0}). advance e) IsGood Backed HasGrown
      (λ u p db g b. advance_lem e db g.ready g.administered p b)
      (λ before after p g b. IsBacked-Grown before.users.rows after.users.rows g p b)
      (turns schedule) s v
