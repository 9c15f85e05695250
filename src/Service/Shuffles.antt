-- ===== src/Service/Shuffles.antt =====
-- Streaming the rows of a query with no `order by`: the engine may return them in any order.
use mathlib.Core.List.Permᴰ
use mathlib.Core.List.{Permᴰ}
use wrongthink.Base.{List, ◌∷◌, ◌≡◌, refl, ap, ◌∙◌, sym, inl, inr}
use wrongthink.Action.{Exception, Outcome, ok, thrown, Outcome-cases}
use wrongthink.Db.Cells.{Row}
use wrongthink.Service.{write_rows}

stopped : (x : Exception) → ◌≡◌ {A = Outcome (Unit {0})} (thrown x) (ok tt) → ⊥
stopped x h = cc

module _ {M : Type 0} (read : Row → Outcome M) where
  abbrev Written : Type 0
  Written = List M × Outcome (Unit {0})

  abbrev Writes : List Row → List M → Type 0
  Writes rows ms = write_rows read rows ≡ (ms, ok tt)

  write_cons :
      (r : Row) (rows : List Row) (m : M) (ms : List M)
      → read r ≡ ok m
      → Writes rows ms
      → Writes (r ∷ rows) (m ∷ ms)
  unfolding write_rows
  write_cons r rows m ms h k = rw (h, write_rows) (rw k)

  write_uncons :
      (r : Row) (rows : List Row) (ms : List M)
      → Writes (r ∷ rows) ms
      → (m : M) × (ms' : List M) × (read r ≡ ok m) × Writes rows ms' × (ms ≡ m ∷ ms')
  unfolding write_rows
  write_uncons r rows ms h = elim (Outcome-cases (read r)) [
    | inl (m, e) ↦
        let k = (rw (e, write_rows) at h) in
        (
          m,
          (write_rows read rows).0,
          e,
          ap (λ (p : Written). let q : Written = ((write_rows read rows).0, p.1) in q) k,
          sym (ap (λ (p : Written). p.0) k),
        )
    | inr (x, e) ↦ absurd (stopped x (ap (λ (p : Written). p.1) (rw (e, write_rows) at h)))
  ]

  -- Rows in another order are written in another order.
  pub Writes-perm :
      {xs ys : List Row} (p : Permᴰ xs ys) (ms : List M)
      → Writes ys ms
      → (ns : List M) × Writes xs ns × Permᴰ ns ms
  Writes-perm Permᴰ.nil ms h = (ms, h, Permᴰ.refl ms)
  Writes-perm (Permᴰ.cons {a} {b} {l₁} {l₂} e p) ms h =
      let (m, rest, reads, k, parts) = write_uncons b l₂ ms h in
      let (ns, q, shuffled) = Writes-perm p rest k in
      (m ∷ ns, write_cons a l₁ m ns (ap read e ∙ reads) q, rw parts (Permᴰ.cons refl shuffled))
  Writes-perm (Permᴰ.swap {a} {b} {a'} {b'} {l} e f) ms h =
      let (m, rest, reads, k, parts) = write_uncons a' (b' ∷ l) ms h in
      let (n, last, reads', k', parts') = write_uncons b' l rest k in
      (
        n ∷ m ∷ last,
        write_cons a (b ∷ l) n (m ∷ last) (ap read e ∙ reads')
            (write_cons b l m last (ap read f ∙ reads) k'),
        rw (parts, parts') (Permᴰ.swap refl refl),
      )
  Writes-perm (Permᴰ.trans p q) ms h =
      let (ns, k, shuffled) = Writes-perm q ms h in
      let (os, k', shuffled') = Writes-perm p ns k in (os, k', Permᴰ.trans shuffled' shuffled)
