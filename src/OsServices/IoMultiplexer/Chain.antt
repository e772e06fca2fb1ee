-- ===== src/OsServices/IoMultiplexer/Chain.antt =====
-- The calls of `add` of a transaction one behind the other, where the first exception ends them.
use the_pipe.Base.{ℕ, ◌≡◌, refl, sym, ◌∙◌, true, List, [], ◌∷◌, arith, length, subst}
use the_pipe.Base.Results.{Error, Result, ok, err, is_ok}
use the_pipe.OsServices.Fd.Activity.{ActivityStatus}
use the_pipe.OsServices.IoMultiplexer.{Kernel, EpollInstance, ConfigTransaction, transaction_add}
use the_pipe.OsServices.IoMultiplexer.Invariant.{IsConsistent, HasIds}
use the_pipe.OsServices.IoMultiplexer.Pending.{
  Pending, Step, transaction_add-Undoes, transaction_add-Pending,
}
use the_pipe.OsServices.IoMultiplexer.Transaction.{NotAmong, AreFree, AreFree-after}
use the_pipe.OsServices.IoMultiplexer.Added.{Watches, transaction_add-Watches}

ok_of_is_ok {ℓ} : {A : Type ℓ} (r : Result A) → is_ok r ≡ true → (a : A) × (r ≡ ok a)
ok_of_is_ok (ok a) h = (a, refl)
ok_of_is_ok (err e) h = cc

module _ {K : Kernel} {H : Type 0} where
  -- One more call, unless there was an exception.
  abbrev pub then_add :
      Result (ConfigTransaction K H) × ConfigTransaction K H
      → ℕ × ActivityStatus × H
      → Result (ConfigTransaction K H) × ConfigTransaction K H
  then_add (ok done, t) (fd, status, h) = transaction_add K H t fd status h
  then_add (err e, t) item = (err e, t)

  unfoldable pub chain :
      List (ℕ × ActivityStatus × H)
      → Result (ConfigTransaction K H) × ConfigTransaction K H
      → Result (ConfigTransaction K H) × ConfigTransaction K H
  unfolding transaction_add
  chain [] r = r
  chain (item ∷ items) r = chain items (then_add r item)

  chain-err :
      (items : List (ℕ × ActivityStatus × H)) (e : Error) (t : ConfigTransaction K H)
      → chain items (err e, t) ≡ (err e, t)
  unfolding chain
  chain-err [] e t = refl
  chain-err (item ∷ items) e t = chain-err items e t

  abbrev pub AllWatched : List (ℕ × ActivityStatus × H) → EpollInstance K H → Type 0
  AllWatched [] ep = Unit
  AllWatched ((fd, status, h) ∷ items) ep = Watches ep fd status × AllWatched items ep

  -- What a chain leaves that began at `ep0` and has come to `t`.
  pub record Chained (ep0 : EpollInstance K H) (items : List (ℕ × ActivityStatus × H))
      (t : ConfigTransaction K H) (r : Result (ConfigTransaction K H) × ConfigTransaction K H)
      : Type 0 where
    pub pending : Pending ep0 r.1
    pub elsewhere :
        (g : ℕ) → NotAmong g items → K.interest r.1.monitor.kernel g ≡ K.interest t.monitor.kernel g
    pub watched : is_ok r.0 ≡ true → AllWatched items r.1.monitor

  chain-step :
      (ep0 : EpollInstance K H) (fd : ℕ) (status : ActivityStatus) (h : H)
      (items : List (ℕ × ActivityStatus × H)) (t : ConfigTransaction K H)
      (r : Result (ConfigTransaction K H) × ConfigTransaction K H)
      → Pending ep0 r.1
      → Step fd t.monitor r.1.monitor
      → NotAmong fd items
      → (is_ok r.0 ≡ true → Watches r.1.monitor fd status)
      → (is_ok r.0 ≡ true → Chained ep0 items r.1 (chain items r))
      → Chained ep0 ((fd, status, h) ∷ items) t (chain items r)
  chain-step ep0 fd status h items t (ok done, t1) p s apart w go =
      let c = go refl in
      record {
        pending = c.pending;
        elsewhere = λ g n. c.elsewhere g n.1 ∙ s.elsewhere g (λ e. n.0 (sym e));
        watched = λ fine.
            let (id, at_fd) = w refl in ((id, c.elsewhere fd apart ∙ at_fd), c.watched fine);
      }
  chain-step ep0 fd status h items t (err e, t1) p s apart w go =
      rw (chain-err items e t1) (record {
        pending = p;
        elsewhere = λ g n. s.elsewhere g (λ q. n.0 (sym q));
        watched = λ fine. cc;
      })

  -- A chain of additions of descriptors that are distinct and not watched yet.
  pub chain-Chained :
      (items : List (ℕ × ActivityStatus × H)) (ep0 : EpollInstance K H)
      (done t : ConfigTransaction K H)
      → IsConsistent K H ep0
      → Pending ep0 t
      → AreFree items t.monitor
      → HasIds K H t.monitor (length items)
      → Chained ep0 items t (chain items (ok done, t))
  unfolding chain
  chain-Chained [] ep0 done t c0 p a ids = record {
    pending = p;
    elsewhere = λ g n. refl;
    watched = λ fine. tt;
  }
  chain-Chained ((fd, status, h) ∷ items) ep0 done t c0 p (free, apart, a) ids =
      let r = transaction_add K H t fd status h in
      let s = (transaction_add-Undoes ep0 t fd status h c0 p free (omega arith)).1 in
      let p' = transaction_add-Pending ep0 t fd status h c0 p free (omega arith) in
      chain-step ep0 fd status h items t r p' s apart
        (λ fine.
          let (added, e) = ok_of_is_ok r.0 fine in
          transaction_add-Watches t fd status h added p.consistent (omega arith) e)
        (λ fine.
          let (added, e) = ok_of_is_ok r.0 fine in
          let a' = AreFree-after fd items t.monitor r.1.monitor s apart a in
          subst
            (λ (x : Result (ConfigTransaction K H)). Chained ep0 items r.1 (chain items (x, r.1)))
            (sym e) (chain-Chained items ep0 added r.1 c0 p' a' (rw s.one_id (omega arith))))
