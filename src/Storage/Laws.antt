-- ===== src/Storage/Laws.antt =====
-- What `get` finds after `set` and `remove`, and how they change the number of entries of a value.
use zkredit.Prelude.{suc, ◌≡◌, refl, none, some, [], ◌∷◌, if◌then◌else◌, arith}
use zkredit.Storage.{Eq, equals, Table, find, put, remove, Unique, tally}

module _ {K V : Type 0} ⦃e : Eq K⦄ where
  pub find-put :
      (j k : K) (v : V) (t : Table K V)
      → find j (put k v t) ≡ (if equals j k then some v else find j t)
  unfolding find put
  find-put j k v [] = refl
  find-put j k v ((i, w) ∷ t) =
      ground (arith, find-put j k v t, e.beq_iff k i, e.beq_iff j i, e.beq_iff j k)

  pub find-remove :
      (j k : K) (t : Table K V) → find j (remove k t) ≡ (if equals j k then none else find j t)
  unfolding find remove
  find-remove j k [] = ground arith
  find-remove j k ((i, w) ∷ t) =
      ground (arith, find-remove j k t, e.beq_iff k i, e.beq_iff j i, e.beq_iff j k)

  pub put-Unique : (k : K) (v : V) (t : Table K V) → Unique t → Unique (put k v t)
  unfolding put find
  put-Unique k v [] u = (refl, tt)
  put-Unique k v ((i, w) ∷ t) (fresh, u) =
      ground (arith, put-Unique k v t u, find-put i k v t, e.beq_iff k i, e.beq_iff i k)

  pub remove-Unique : (k : K) (t : Table K V) → Unique t → Unique (remove k t)
  unfolding remove
  remove-Unique k [] u = tt
  remove-Unique k ((i, w) ∷ t) (fresh, u) = ground (arith, remove-Unique k t u, find-remove i k t)

  remove_absent : (k : K) (t : Table K V) → find k t ≡ none → remove k t ≡ t
  unfolding find remove
  remove_absent k [] h = refl
  remove_absent k ((i, w) ∷ t) h = ground (arith, remove_absent k t)

  module _ ⦃f : Eq V⦄ where
    pub tally-put :
        (c : V) (k : K) (v : V) (t : Table K V)
        → find k t ≡ none
        → tally c (put k v t) ≡ (if equals v c then suc (tally c t) else tally c t)
    unfolding find put tally
    tally-put c k v [] h = refl
    tally-put c k v ((i, w) ∷ t) h = ground (arith, tally-put c k v t)

    pub tally-remove :
        (c : V) (k : K) (v : V) (t : Table K V)
        → Unique t
        → find k t ≡ some v
        → tally c t ≡ (if equals v c then suc (tally c (remove k t)) else tally c (remove k t))
    unfolding find remove tally
    tally-remove c k v [] u h = ground arith
    tally-remove c k v ((i, w) ∷ t) (fresh, u) h =
        ground (arith, tally-remove c k v t u, remove_absent k t, e.beq_iff k i)
