-- ===== src/Net/Socket/Made.antt =====
-- What making sockets leaves open (.mooncakes/moonbitlang/async/src/socket/socket.c).
use moonbit.Prelude.{
  ◌≡◌, refl, ◌∙◌, ℕ, Bool, true, false, not, ◌&&◌, ◌||◌, Bool-cases, inl, inr, arith,
}
use moonbit.Prelude.Int.{ℤ, pos, ltb_ℤ}
use moonbit.Runtime.Calls.{is_nonzero, eq_ℤ}
use moonbit.Net.Socket.{
  Family, SocketType, SocketOption, so_reuseaddr, sock_dgram, SocketKernel, family_of,
  make_udp_socket,
}

-- The manual of socket, setsockopt and close: a new socket is a descriptor that was not open, an
-- option opens and closes nothing, and `close` closes the descriptor.
pub record SocketLaws {S : Type 0} (K : SocketKernel S) : Type 0 where
  pub fresh :
      (family : Family) (type : SocketType) (s : S) (fd : ℤ)
      → (K.is_open s fd && eq_ℤ fd (K.socket family type s).0) ≡ false
  pub opened :
      (family : Family) (type : SocketType) (s : S) (fd : ℤ)
      → let r = K.socket family type s in
        K.is_open r.1 fd ≡ (K.is_open s fd || (not (ltb_ℤ r.0 (pos 0)) && eq_ℤ fd r.0))
  pub kept :
      (sock : ℤ) (option : SocketOption) (s : S) (fd : ℤ)
      → K.is_open (K.setsockopt sock option s).1 fd ≡ K.is_open s fd
  pub closed :
      (sock : ℤ) (s : S) (fd : ℤ)
      → K.is_open (K.close sock s) fd ≡ (K.is_open s fd && not (eq_ℤ fd sock))
  pub reused :
      (sock : ℤ) (s : S)
      → let r = K.setsockopt sock (so_reuseaddr (pos 1)) s in
        (ltb_ℤ r.0 (pos 0) || K.reuses r.1 sock) ≡ true

module _ {S : Type 0} (K : SocketKernel S) (laws : SocketLaws K) where
  -- The descriptors that are open are those from before and the result, if it is one.
  abbrev OpensOnly : S → ℤ × S → Type 0
  OpensOnly s r =
      (fd : ℤ) → K.is_open r.1 fd ≡ (K.is_open s fd || (not (ltb_ℤ r.0 (pos 0)) && eq_ℤ fd r.0))

  closed_again : (a e n : Bool) → (a && e) ≡ false → ((a || (n && e)) && not e) ≡ (a || false)
  closed_again a e n apart = ground arith

  reused_or : (n m r : Bool) → m ≡ false → (m || r) ≡ true → (n || r) ≡ true
  reused_or n m r works h = ground arith

  -- A UDP socket with its options, whichever call fails: nothing is open afterwards that was not
  -- before but the socket that is given back, and nothing is closed; if it is for multicast its
  -- address can be reused.
  make_udp_socket_lem :
      (family : ℕ) (multicast : ℤ) (s : S)
      → let r = make_udp_socket K family multicast s in
        OpensOnly s r
        × ((not (is_nonzero multicast) || ltb_ℤ r.0 (pos 0) || K.reuses r.1 r.0) ≡ true)
  unfolding make_udp_socket
  make_udp_socket_lem family multicast s =
      let made = K.socket (family_of family) sock_dgram s in
      let set = K.setsockopt made.0 (so_reuseaddr (pos 1)) made.1 in
      elim (Bool-cases (is_nonzero multicast)) [
        | inr plain ↦ rw plain (λ fd. laws.opened (family_of family) sock_dgram s fd, refl)
        | inl wanted ↦ elim (Bool-cases (ltb_ℤ set.0 (pos 0))) [
          | inl fails ↦
              rw (wanted, fails)
                (
                  λ fd.
                      laws.closed made.0 set.1 fd
                      ∙ rw
                          (
                            laws.kept made.0 (so_reuseaddr (pos 1)) made.1 fd,
                            laws.opened (family_of family) sock_dgram s fd,
                          )
                          (closed_again (K.is_open s fd) (eq_ℤ fd made.0)
                            (not (ltb_ℤ made.0 (pos 0)))
                            (laws.fresh (family_of family) sock_dgram s fd)),
                  refl,
                )
          | inr works ↦
              rw (wanted, works)
                (
                  λ fd.
                      laws.kept made.0 (so_reuseaddr (pos 1)) made.1 fd
                      ∙ laws.opened (family_of family) sock_dgram s fd,
                  reused_or (ltb_ℤ made.0 (pos 0)) (ltb_ℤ set.0 (pos 0)) (K.reuses set.1 made.0)
                      works (laws.reused made.0 made.1),
                )
        ]
      ]
