-- ===== src/OsServices/IoMultiplexer/Undo.antt =====
-- What a transaction adds and takes back, as seen through the owners of ids and the interest list.
use the_pipe.Base.{
  ℕ, ◌≡◌, ◌⊎◌, refl, ◌∙◌, Bool, true, false, Option, none, some, List, [], ◌∷◌, ◌++◌, ◌==◌,
  if◌then◌else◌, arith, Bool-cases, inl, inr,
}
use the_pipe.OsServices.IoMultiplexer.Invariant.{Agree}

unfoldable pub has : ℕ → List ℕ → Bool
has id [] = false
has id (item ∷ ids) = if item == id then true else has id ids

has-append :
    (id item : ℕ) (ids : List ℕ)
    → has id (ids ++ item ∷ []) ≡ (if item == id then true else has id ids)
unfolding has
has-append id item [] = refl
has-append id item (x ∷ ids) = ground (arith, has-append id item ids)

-- What was there before, `owner0` and `interest0`, comes back when the listeners `ids` are removed
-- from what is there now.
pub record Undo (owner0 owner : ℕ → Option ℕ) (interest0 interest : ℕ → Option (ℕ × ℕ))
    (ids : List ℕ) : Type 0 where
  pub older : (id : ℕ) → has id ids ≡ false → owner id ≡ owner0 id
  pub newer : (id : ℕ) → has id ids ≡ true → owner0 id ≡ none
  pub changed :
      (g : ℕ)
      → (interest g ≡ interest0 g)
        ⊎ ((interest0 g ≡ none)
            × (events : ℕ) × (id : ℕ) × (has id ids ≡ true)
            × (interest g ≡ some (events, id)))

module _ {owner0 owner : ℕ → Option ℕ} {interest0 interest : ℕ → Option (ℕ × ℕ)}
    {current0 current : ℕ} (a0 : Agree owner0 interest0 current0)
    (a : Agree owner interest current) where
  -- A listener under the next id is added, on a descriptor that was not watched.
  pub extend :
      (ids : List ℕ) (owner' : ℕ → Option ℕ) (interest' : ℕ → Option (ℕ × ℕ)) (fd events : ℕ)
      → Undo owner0 owner interest0 interest ids
      → interest fd ≡ none
      → ((j : ℕ) → owner' j ≡ (if current == j then some fd else owner j))
      → ((g : ℕ) → interest' g ≡ (if fd == g then some (events, current) else interest g))
      → Undo owner0 owner' interest0 interest' (ids ++ current ∷ [])
  extend ids owner' interest' fd events u free o i = record {
    older = λ id h. ground (arith, o id, has-append id current ids, u.older id);
    newer = λ id h. ground (
      arith,
      has-append id current ids,
      u.newer id,
      u.older id,
      a.fresh id,
      u.older current,
      u.newer current,
      a.fresh current,
    );
    changed = λ g. elim (Bool-cases (fd == g)) [
      | inl same ↦ inr (
        elim (u.changed g) [ inl e ↦ ground (arith, e, free) | inr (e, ev, id, k, f) ↦ e ],
        events,
        current,
        ground (arith, has-append current current ids),
        ground (arith, i g),
      )
      | inr other ↦ elim (u.changed g) [
        | inl e ↦ inl (ground (arith, i g, e))
        | inr (e, ev, id, k, f) ↦
            inr (e, ev, id, ground (arith, has-append id current ids, k), ground (arith, i g, f))
      ]
    ];
  }

  -- The first of the listeners is removed.
  pub shorten :
      (owner' : ℕ → Option ℕ) (interest' : ℕ → Option (ℕ × ℕ)) (item fd : ℕ) (rest : List ℕ)
      → Undo owner0 owner interest0 interest (item ∷ rest)
      → owner item ≡ some fd
      → ((j : ℕ) → owner' j ≡ (if item == j then none else owner j))
      → ((g : ℕ) → interest' g ≡ (if fd == g then none else interest g))
      → Undo owner0 owner' interest0 interest' rest
  unfolding has
  shorten owner' interest' item fd rest u mine o i = record {
    older = λ id h. ground (arith, o id, u.older id, u.newer id);
    newer = λ id h. ground (arith, u.newer id);
    changed = λ g. elim (Bool-cases (fd == g)) [
      | inl same ↦
          let (ev, at_g) = a.watched item fd mine in
          elim (u.changed g) [
            | inl e ↦ inl (ground (arith, e, at_g, a0.linked g ev item, u.newer item))
            | inr (e, ev, id, k, f) ↦ inl (ground (arith, i g, e))
          ]
      | inr other ↦ elim (u.changed g) [
        | inl e ↦ inl (ground (arith, i g, e))
        | inr (e, ev, id, k, f) ↦
            inr (e, ev, id, ground (arith, k, f, mine, a.linked g ev id), ground (arith, i g, f))
      ]
    ];
  }

  -- The first of the listeners was not there.
  pub pass :
      (item : ℕ) (rest : List ℕ)
      → Undo owner0 owner interest0 interest (item ∷ rest)
      → owner item ≡ none
      → Undo owner0 owner interest0 interest rest
  unfolding has
  pass item rest u gone = record {
    older = λ id h. ground (arith, u.older id, u.newer id);
    newer = λ id h. ground (arith, u.newer id);
    changed = λ g. elim (u.changed g) [
      | inl e ↦ inl e
      | inr (e, ev, id, k, f) ↦ inr (e, ev, id, ground (arith, k, f, gone, a.linked g ev id), f)
    ];
  }

  -- Nothing that can be seen has changed.
  pub undisturbed :
      {ids : List ℕ} (owner' : ℕ → Option ℕ) (interest' : ℕ → Option (ℕ × ℕ))
      → Undo owner0 owner interest0 interest ids
      → ((j : ℕ) → owner' j ≡ owner j)
      → ((g : ℕ) → interest' g ≡ interest g)
      → Undo owner0 owner' interest0 interest' ids
  undisturbed owner' interest' u o i = record {
    older = λ id h. o id ∙ u.older id h;
    newer = u.newer;
    changed = λ g. elim (u.changed g) [
      | inl e ↦ inl (i g ∙ e)
      | inr (e, ev, id, k, f) ↦ inr (e, ev, id, k, i g ∙ f)
    ];
  }

  -- When no listener is left to be removed, all is as it was before.
  pub Undo-done :
      Undo owner0 owner interest0 interest []
      → ((id : ℕ) → owner id ≡ owner0 id) × ((g : ℕ) → interest g ≡ interest0 g)
  unfolding has
  Undo-done u =
      (λ id. u.older id refl, λ g. elim (u.changed g) [ inl e ↦ e | inr (e, ev, id, k, f) ↦ cc ])
