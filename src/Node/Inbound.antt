-- ===== src/Node/Inbound.antt =====
-- The task of `Node::start` in src/node.rs that listens for inbound connections. The network and
-- LDK's peer manager are parameters.
use ln_node.Prelude.{◌≡◌, refl, List, [], ◌∷◌, ◌++◌, Result, ok, err}

module _ {PeerManager Socket : Type 0} (setup_inbound : PeerManager → Socket → PeerManager) where
  -- What `accept` gives: a connection, whose `into_std` may fail, or an error.
  pub data Arrival : Type 0 where
    accepted : Result (Unit {0}) Socket → Arrival
    accept_failed : Arrival

  -- How the task stands.
  pub data Listening : Type 0 where
    listens listener_panicked : Listening

  -- The task of one connection; a panic there ends that task only.
  unfoldable pub set_up : Result (Unit {0}) Socket → PeerManager → PeerManager
  set_up (err e) peers = peers
  set_up (ok socket) peers = setup_inbound peers socket

  unfoldable pub accept_all : List Arrival → PeerManager → Listening × PeerManager
  unfolding set_up
  accept_all [] peers = (listens, peers)
  accept_all (accept_failed ∷ more) peers = (listener_panicked, peers)
  accept_all (accepted socket ∷ more) peers = accept_all more (set_up socket peers)

  unfoldable pub listen_inbound :
      Result (Unit {0}) (Unit {0}) → List Arrival → PeerManager → Listening × PeerManager
  unfolding accept_all
  listen_inbound (err e) arrivals peers = (listener_panicked, peers)
  listen_inbound (ok _) arrivals peers = accept_all arrivals peers

  -- After an `accept` that fails, the listener takes no further connection.
  pub accept_all_stops :
      (arrivals more : List Arrival) (peers : PeerManager)
      → (accept_all (arrivals ++ (accept_failed ∷ more)) peers).1 ≡ (accept_all arrivals peers).1
  unfolding accept_all
  accept_all_stops [] more peers = refl
  accept_all_stops (accept_failed ∷ arrivals) more peers = refl
  accept_all_stops (accepted socket ∷ arrivals) more peers =
      accept_all_stops arrivals more (set_up socket peers)
