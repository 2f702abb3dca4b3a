-- ===== src/Effects/Lift.antt =====
-- A component's state beside the world: calls of the world leave the state as it is.
use zkredit.Effects.Browser.{Http, Clock, Wallet, Chain}

module _ {S W : Type 0} where
  abbrev pub beside : {A : Type 0} → (W → A × W) → S × W → A × (S × W)
  beside op (s, w) = ((op w).0, (s, (op w).1))

  -- `setState`
  abbrev pub update : (S → S) → S × W → S × W
  update f (s, w) = (f s, w)

  abbrev pub lift_http : Http W → Http (S × W)
  lift_http http = record { fetch = λ r. beside (http.fetch r) }

  abbrev pub lift_clock : Clock W → Clock (S × W)
  lift_clock clock = record {
    now = λ (s, w). clock.now w;
    delay = λ ms (s, w). (s, clock.delay ms w);
  }

  abbrev pub lift_wallet : Wallet W → Wallet (S × W)
  lift_wallet wallet = record {
    get_network = beside wallet.get_network;
    is_connected = beside wallet.is_connected;
    is_allowed = beside wallet.is_allowed;
    set_allowed = beside wallet.set_allowed;
    request_access = beside wallet.request_access;
    get_address = beside wallet.get_address;
    sign_transaction =
        λ tx passphrase address. beside (wallet.sign_transaction tx passphrase address);
  }

  abbrev pub lift_chain : Chain W → Chain (S × W)
  lift_chain chain = record {
    get_account = λ id. beside (chain.get_account id);
    prepare_transaction = λ tx. beside (chain.prepare_transaction tx);
    simulate_transaction = λ tx. beside (chain.simulate_transaction tx);
    send_transaction = λ tx. beside (chain.send_transaction tx);
    get_transaction = λ hash. beside (chain.get_transaction hash);
    from_xdr = chain.from_xdr;
    to_address = chain.to_address;
    contract = chain.contract;
  }
