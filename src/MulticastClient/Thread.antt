-- ===== src/MulticastClient/Thread.antt =====
-- `receive_thread_func`: the loop of the thread around `poll`. The calls of the other threads come between:
-- what the client is when a pass begins, and when a datagram is handled, is part of the input.
pub mod Datagrams
pub mod Ends
use asio_kcp.Prelude.{ℕ, Bool, true, false, List, [], ◌∷◌, ◌++◌, Bytes, if◌then◌else◌}
use asio_kcp.Prelude.Maps.{keys}
use asio_kcp.MulticastClient.{MulticastClient, Action, receive}

-- What the thread finds at one socket after `poll`: nothing to read; a failure of `recvfrom`, whichever;
-- or a datagram, handled while the client is as given.
pub data Arrival : Type 0 where
  not_readable : Arrival
  recv_failed : Arrival
  received : Bytes → MulticastClient → Arrival

-- The result of `poll`, with what is at the sockets in the order of the groups.
pub data Poll : Type 0 where
  interrupted : Poll
  poll_failed : Poll
  timed_out : Poll
  ready : List Arrival → Poll

-- One pass of the loop.
pub record Pass : Type 0 where
  pub client : MulticastClient
  pub poll : Poll

-- What a pass leads to.
pub data Next : Type 0 where
  breaks : Next
  goes_on : List Action → Next

unfoldable pub receive_from : ℕ → Arrival → List Action
unfolding receive
receive_from group_id not_readable = []
receive_from group_id recv_failed = []
receive_from group_id (received buffer c) = receive group_id buffer c

unfoldable pub receive_all : List ℕ → List Arrival → List Action
unfolding receive_from
receive_all [] arrivals = []
receive_all (g ∷ gs) [] = []
receive_all (g ∷ gs) (a ∷ arrivals) = receive_from g a ++ receive_all gs arrivals

unfoldable pub after_poll : List ℕ → Poll → Next
unfolding receive_all
after_poll group_ids interrupted = goes_on []
after_poll group_ids poll_failed = breaks
after_poll group_ids timed_out = goes_on []
after_poll group_ids (ready arrivals) = goes_on (receive_all group_ids arrivals)

-- Without a group there is nothing to poll, and the thread sleeps.
unfoldable pub receive_pass : Pass → Next
unfolding after_poll
receive_pass p = elim (keys p.client.groups) [
  | [] ↦ goes_on []
  | (g ∷ gs) ↦ after_poll (g ∷ gs) p.poll
]

-- The actions of the passes, and whether the thread still runs after them (`thread_running_`).
unfoldable pub receive_thread_func : List Pass → List Action × Bool
unfolding receive_pass
receive_thread_func [] = ([], true)
receive_thread_func (p ∷ passes) =
    let (actions, running) = receive_thread_func passes in
    if p.client.running
    then elim (receive_pass p) [ breaks ↦ ([], false) | goes_on now ↦ (now ++ actions, running) ]
    else ([], false)
