-- ===== src/Kcp.antt =====
-- The library KCP (util/ikcp.c, a copy of github.com/skywind3000/kcp), which the program only calls:
-- its operations as the program sees them, and what its documentation (util/ikcp.h) says of them.
use asio_kcp.Prelude.{ℕ, List, Option, Bytes}
use asio_kcp.Prelude.Int.{ℤ}

pub record Kcp : Type 1 where
  -- `ikcpcb`.
  pub Cb : Type 0
  pub create : ℕ → Cb
  -- Its arguments: nodelay, interval, resend, nc.
  pub nodelay : ℕ → ℕ → ℕ → ℕ → Cb → Cb
  pub send : Bytes → Cb → Cb × ℤ
  pub input : Bytes → Cb → Cb
  -- The size of the caller's buffer; `none` stands for a result below zero.
  pub recv : ℕ → Cb → Cb × Option Bytes
  -- The clock; the datagrams that go to the output callback, in their order.
  pub update : ℕ → Cb → Cb × List Bytes
  -- `none` stands for the result 0.
  pub get_conv : Bytes → Option ℕ
  -- The field `conv`.
  pub conv : Cb → ℕ
