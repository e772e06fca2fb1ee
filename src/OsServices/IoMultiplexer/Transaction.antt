-- ===== src/OsServices/IoMultiplexer/Transaction.antt =====
-- The configuration transaction: without a commit, all that it added is taken back.
use the_pipe.Base.{ℕ, ◌≡◌, refl, ◌∙◌, none, List, [], ◌∷◌, arith, inl, length}
use the_pipe.OsServices.Fd.Activity.{ActivityStatus}
use the_pipe.OsServices.IoMultiplexer.{
  Kernel, EpollInstance, ConfigTransaction, transaction_add, commit, remove_all, close_transaction,
}
use the_pipe.OsServices.IoMultiplexer.Invariant.{IsConsistent, HasIds}
use the_pipe.OsServices.IoMultiplexer.Undo.{has}
use the_pipe.OsServices.IoMultiplexer.Pending.{
  IsUnchanged, remove_all-IsUnchanged, Pending, Step, transaction_add-Undoes,
  transaction_add-Pending,
}

module _ {H : Type 0} where
  abbrev pub NotAmong : ℕ → List (ℕ × ActivityStatus × H) → Type 0
  NotAmong fd [] = Unit
  NotAmong fd ((g, status, h) ∷ items) = ¬ (fd ≡ g) × NotAmong fd items

module _ {K : Kernel} {H : Type 0} where
  -- Additions to a transaction, also behind one that has failed.
  unfoldable pub adds :
      List (ℕ × ActivityStatus × H) → ConfigTransaction K H → ConfigTransaction K H
  adds [] t = t
  adds ((fd, status, h) ∷ items) t = adds items (transaction_add K H t fd status h).1

  -- The descriptors are not watched yet, and distinct.
  abbrev pub AreFree : List (ℕ × ActivityStatus × H) → EpollInstance K H → Type 0
  AreFree [] ep = Unit
  AreFree ((fd, status, h) ∷ items) ep =
      (K.interest ep.kernel fd ≡ none) × NotAmong fd items × AreFree items ep

  pub AreFree-after :
      (fd : ℕ) (items : List (ℕ × ActivityStatus × H)) (before after : EpollInstance K H)
      → Step fd before after
      → NotAmong fd items
      → AreFree items before
      → AreFree items after
  AreFree-after fd [] before after s n a = tt
  AreFree-after fd ((g, status, h) ∷ items) before after s (n, ns) (free, apart, a) =
      (s.elsewhere g n ∙ free, apart, AreFree-after fd items before after s ns a)

  adds-Pending :
      (items : List (ℕ × ActivityStatus × H)) (ep0 : EpollInstance K H) (t : ConfigTransaction K H)
      → IsConsistent K H ep0
      → Pending ep0 t
      → AreFree items t.monitor
      → HasIds K H t.monitor (length items)
      → Pending ep0 (adds items t)
  unfolding adds
  adds-Pending [] ep0 t c0 p a ids = p
  adds-Pending ((fd, status, h) ∷ items) ep0 t c0 p (free, apart, a) ids =
      let (u, s) = transaction_add-Undoes ep0 t fd status h c0 p free (omega arith) in
      let t' = (transaction_add K H t fd status h).1 in
      adds-Pending items ep0 t' c0
        (transaction_add-Pending ep0 t fd status h c0 p free (omega arith))
        (AreFree-after fd items t.monitor t'.monitor s apart a) (rw s.one_id (omega arith))

  abbrev pub begin : EpollInstance K H → ConfigTransaction K H
  begin ep = record { monitor = ep; added_ids = [] }

  pub begin-Pending : (ep : EpollInstance K H) → IsConsistent K H ep → Pending ep (begin ep)
  unfolding has
  begin-Pending ep c = record {
    consistent = c;
    undoes = record { older = λ id h. refl; newer = λ id h. cc; changed = λ g. inl refl };
  }

  -- A transaction adds descriptors that are distinct and not watched yet, while the ids last; any of
  -- the additions may fail. If it ends without a commit, every listener has the descriptor it had
  -- before and every descriptor is watched as before, and the listeners and the kernel agree; after a
  -- commit, its end changes nothing.
  pub close_transaction_lem :
      (items : List (ℕ × ActivityStatus × H)) (ep : EpollInstance K H)
      → IsConsistent K H ep
      → AreFree items ep
      → HasIds K H ep (length items)
      → (IsUnchanged ep (close_transaction K H (adds items (begin ep)))
          × IsConsistent K H (close_transaction K H (adds items (begin ep))))
        × (close_transaction K H (commit K H (adds items (begin ep)))
            ≡ (adds items (begin ep)).monitor)
  unfolding close_transaction commit remove_all
  close_transaction_lem items ep c a ids =
      let p = adds-Pending items ep (begin ep) c (begin-Pending ep c) a ids in
      (
        remove_all-IsUnchanged (adds items (begin ep)).added_ids ep (adds items (begin ep)).monitor
            c p.consistent p.undoes,
        refl,
      )
