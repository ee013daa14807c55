-- ===== src/Client/Connect.antt =====
-- `connect_async`.
use mathlib.Core.Path.{subst}
use asio_kcp.Prelude.{
  ℕ, zero, suc, ◌≡◌, ◌≢◌, ◌⊎◌, refl, sym, ◌∙◌, true, false, arith, Option-cases, inl, inr,
}
use asio_kcp.Prelude.Int.{ℤ, pos, negsuc, is_negative}
use asio_kcp.Client
use asio_kcp.Client.{
  Client, Effect, Outcome, Received, try_again, datagram, send_to_server, event, connect, returned,
  ConnectCalls, Target, SockAddr, to_u16,
}
use asio_kcp.Client.Verdict.{IsValid}

set_up_socket_lem :
    (calls : ConnectCalls)
    → (Client.set_up_socket calls ≡ pos 0) ⊎ (is_negative (Client.set_up_socket calls) ≡ true)
unfolding Client.set_up_socket
set_up_socket_lem calls = ground arith

module _ {Cb : Type 0} where
  -- What a call of `connect_async` may do: refuse a client that has a socket, and leave it as it is; or keep
  -- the arguments, and start the connect stage, or fail. A failure leaves the arguments, the address made of
  -- them and the socket.
  abbrev pub Connects : Target → ℕ → Client Cb → Client Cb × ℤ → Type 0
  Connects target clock c (c', ret) =
      IsValid c'
      × (((c.udp_socket ≢ negsuc 0) × (ret ≡ Client.kcp_err_already_connected) × (c' ≡ c))
          ⊎ ((c.udp_socket ≡ negsuc 0)
              × (c'.udp_port_bind ≡ target.udp_port_bind)
              × (c'.server_ip ≡ target.server_ip)
              × (c'.server_port ≡ target.server_port)
              × (c'.servaddr.sin_port ≡ to_u16 target.server_port)
              × (((ret ≡ pos 0)
                    × (c'.in_connect_stage ≡ true)
                    × (c'.connect_start_time ≡ clock)
                    × (is_negative c'.udp_socket ≡ false)
                    × (c' ≡ record (Client.aimed target c) {
                      in_connect_stage = true;
                      connect_start_time = clock;
                      udp_socket = c'.udp_socket;
                      servaddr = c'.servaddr;
                    }))
                  ⊎ ((is_negative ret ≡ true)
                      × (c' ≡ record (Client.aimed target c) {
                        udp_socket = c'.udp_socket;
                        servaddr = c'.servaddr;
                      })))))

  connect_async-refused :
      (target : Target) (calls : ConnectCalls) (clock : ℕ) (c : Client Cb) (s : ℤ)
      → c.udp_socket ≡ s
      → s ≢ negsuc 0
      → Client.connect_async target calls clock c ≡ (c, Client.kcp_err_already_connected)
  unfolding Client.connect_async
  connect_async-refused target calls clock c (pos n) e ne = ground arith
  connect_async-refused target calls clock c (negsuc zero) e ne = absurd (ne refl)
  connect_async-refused target calls clock c (negsuc (suc n)) e ne = ground arith

  connect_async-fresh :
      (target : Target) (calls : ConnectCalls) (clock : ℕ) (c : Client Cb)
      → c.udp_socket ≡ negsuc 0
      → Client.connect_async target calls clock c
        ≡ Client.start_connect clock (Client.init_udp_connect calls (Client.aimed target c))
  unfolding Client.connect_async
  connect_async-fresh target calls clock c e = ground arith

  -- A client without a socket is neither connecting nor connected.
  at_rest :
      (c : Client Cb)
      → IsValid c
      → c.udp_socket ≡ negsuc 0
      → (c.in_connect_stage ≡ false) × (c.connect_succeed ≡ false)
  at_rest c v e = ground (arith, v.connecting, v.connected)

  -- Such a client may take any socket, and any address.
  with_socket :
      (target : Target) (c : Client Cb) (s : ℤ) (a : SockAddr)
      → IsValid c
      → c.udp_socket ≡ negsuc 0
      → IsValid (record (Client.aimed target c) { udp_socket = s; servaddr = a })
  with_socket target c s a v e =
      let (off, lost) = at_rest c v e in record { connecting = λ h. cc; connected = λ h. cc }

  start_connect-failed :
      (clock : ℕ) (c : Client Cb) (ret : ℤ)
      → is_negative ret ≡ true
      → Client.start_connect clock (c, ret) ≡ (c, ret)
  start_connect-failed clock c ret h = rw h refl

  set_up-Connects :
      (target : Target) (calls : ConnectCalls) (clock fd address : ℕ) (c : Client Cb)
      → IsValid c
      → c.udp_socket ≡ negsuc 0
      → Connects target clock c (
          Client.start_connect clock (
            record (Client.with_address address (Client.aimed target c)) { udp_socket = pos fd },
            Client.set_up_socket calls,
          ))
  set_up-Connects target calls clock fd address c v e = elim (set_up_socket_lem calls) [
    | inl z ↦ rw z (
      record {
        connecting = λ h. ((at_rest c v e).1, refl);
        connected = λ h. let lost = (at_rest c v e).1 in cc;
      },
      inr (e, refl, refl, refl, refl, inl (refl, refl, refl, refl, refl)),
    )
    | inr n ↦
        let c' = record (Client.with_address address (Client.aimed target c)) {
          udp_socket = pos fd;
        } in
        subst (Connects target clock c)
          (sym (start_connect-failed clock c' (Client.set_up_socket calls) n))
          (
            with_socket target c (pos fd) c'.servaddr v e,
            inr (e, refl, refl, refl, refl, inr (n, refl)),
          )
  ]

  fresh-Connects :
      (target : Target) (calls : ConnectCalls) (clock : ℕ) (c : Client Cb)
      → IsValid c
      → c.udp_socket ≡ negsuc 0
      → Connects target clock c
          (Client.start_connect clock (Client.init_udp_connect calls (Client.aimed target c)))
  unfolding Client.init_udp_connect
  fresh-Connects target calls clock c v e = elim (Option-cases calls.inet_pton) [
    | inl i ↦
        rw (Client.init_udp_connect, i)
          (
            with_socket target c c.udp_socket _ v e,
            inr (e, refl, refl, refl, refl, inr (refl, refl)),
          )
    | inr (address, i) ↦ elim (Option-cases calls.socket) [
      | inl s ↦
          rw (Client.init_udp_connect, i, s)
            (
              with_socket target c (negsuc 0) _ v e,
              inr (e, refl, refl, refl, refl, inr (refl, refl)),
            )
      | inr (fd, s) ↦
          rw (Client.init_udp_connect, i, s) (set_up-Connects target calls clock fd address c v e)
    ]
  ]

  -- `connect_async` keeps a well-formed client so. A client that has a socket is refused and stays as it is.
  -- Otherwise the arguments are kept, the port of the server is put into its address, and the call returns 0,
  -- with the connect stage started and a socket, or fails with a result below zero; and nothing else
  -- has changed but the address and the socket.
  pub connect_async_lem :
      (target : Target) (calls : ConnectCalls) (clock : ℕ) (c : Client Cb)
      → IsValid c
      → Connects target clock c (Client.connect_async target calls clock c)
  connect_async_lem target calls clock c v = by_socket c.udp_socket refl
    where
      refused :
          (s : ℤ)
          → c.udp_socket ≡ s
          → s ≢ negsuc 0
          → Connects target clock c (Client.connect_async target calls clock c)
      refused s e ne =
          subst (Connects target clock c) (sym (connect_async-refused target calls clock c s e ne))
            (v, inl ((λ q. ne (sym e ∙ q)), refl, refl))

      by_socket :
          (s : ℤ)
          → c.udp_socket ≡ s
          → Connects target clock c (Client.connect_async target calls clock c)
      by_socket (pos n) e = refused (pos n) e (λ q. cc)
      by_socket (negsuc zero) e =
          subst (Connects target clock c) (sym (connect_async-fresh target calls clock c e))
            (fresh-Connects target calls clock c v e)
      by_socket (negsuc (suc n)) e = refused (negsuc (suc n)) e (λ q. cc)
