-- ===== src/OsServices/Ipc/Descriptors.antt =====
-- The addresses of sockets.
use the_pipe.Base.{
  ℕ, suc, ◌-◌, ◌<◌, ◌≤◌, zero, ◌≡◌, ◌⊎◌, leb→le, refl, false, List, [], ◌∷◌, ◌++◌, leb, length,
  take, replicate, length-append, arith, Bool-cases, inl, inr,
}
use the_pipe.Base.Results.{runtime_error, ok, err}
use the_pipe.OsServices.Ipc.{SockaddrUn, make_abstract_sockaddr_un, sun_path_size}

length-replicate : (n a : ℕ) → length (replicate n a) ≡ n
length-replicate zero a = refl
length-replicate (suc n) a = omega (arith, length-replicate n a)

take-append : (path rest : List ℕ) → take (length path) (path ++ rest) ≡ path
take-append [] rest = refl
take-append (b ∷ path) rest = rw (take-append path rest) refl

below : (n : ℕ) → leb 106 n ≡ false → n < 106
below n h = ground arith

-- A path of fewer than 106 bytes gives an address that fills `sun_path`, begins with a zero and
-- continues with the path; a longer one is refused.
pub make_abstract_sockaddr_un_lem :
    (path : List ℕ)
    → ((length path < 106)
        × (a : SockaddrUn) × (make_abstract_sockaddr_un path ≡ ok a)
        × (length a.sun_path ≡ 108)
        × (take (suc (length path)) a.sun_path ≡ 0 ∷ path))
      ⊎ ((106 ≤ length path)
          × (make_abstract_sockaddr_un path ≡ err (runtime_error "Address to long")))
unfolding make_abstract_sockaddr_un
make_abstract_sockaddr_un_lem path = elim (Bool-cases (leb 106 (length path))) [
  | inl long ↦ inr (leb→le 106 (length path) long, rw long refl)
  | inr short ↦
      let padding = replicate (sun_path_size - 1 - length path) 0 in
      inl (
        below (length path) short,
        record { sun_path = 0 ∷ path ++ padding },
        rw short refl,
        omega (
          arith,
          length-append path padding,
          length-replicate (sun_path_size - 1 - length path) 0,
          below (length path) short,
        ),
        rw (take-append path padding) refl,
      )
]
