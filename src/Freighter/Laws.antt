-- ===== src/Freighter/Laws.antt =====
-- What the wallet functions throw, and what they have checked when they return.
use zkredit.Prelude.{String, none}
use zkredit.Effects.Io.{pure}
use zkredit.Effects.Safe.{Safe, IsPlain, safe_rules, Safe-try_catch, Safe-pure}
use zkredit.Effects.Browser.{Wallet}
use zkredit.Freighter.{
  Network, assert_supported_network, request_permission, request_key, connect_freighter,
  get_connected_address, look_up_address, sign_with_freighter,
}

module _ {W : Type 0} (network : Network) (wallet : Wallet W) where
  assert_supported_network-Safe : Safe IsPlain ⊥ (assert_supported_network network wallet)
  unfolding assert_supported_network
  assert_supported_network-Safe = search safe_rules

  request_permission-Safe : Safe IsPlain ⊥ (request_permission network wallet)
  unfolding request_permission
  request_permission-Safe = search safe_rules depth 8

  request_key-Safe : Safe IsPlain ⊥ (request_key network wallet)
  unfolding request_key
  request_key-Safe = search safe_rules depth 8

  -- Connecting the wallet ends for all answers of the extension, and what it throws is an instance
  -- of none of the client's error classes.
  pub connect_freighter-Safe : Safe IsPlain ⊥ (connect_freighter network wallet)
  unfolding connect_freighter
  connect_freighter-Safe =
      search (safe_rules, assert_supported_network-Safe, request_permission-Safe, request_key-Safe)
        depth 9

  -- So does signing.
  pub sign_with_freighter-Safe :
      (tx passphrase address : String)
      → Safe IsPlain ⊥ (sign_with_freighter network wallet tx passphrase address)
  unfolding sign_with_freighter
  sign_with_freighter-Safe tx passphrase address =
      search (safe_rules, assert_supported_network-Safe) depth 8

  look_up_address-Safe : Safe IsPlain ⊥ (look_up_address network wallet)
  unfolding look_up_address
  look_up_address-Safe = search safe_rules depth 12

  -- Looking for a connected wallet returns for all answers of the extension, and throws nothing.
  get_connected_address-Safe : Safe (λ _. ⊥) ⊥ (get_connected_address network wallet)
  unfolding get_connected_address
  get_connected_address-Safe =
      Safe-try_catch {P' = IsPlain} (look_up_address network wallet) (λ _. pure none)
        look_up_address-Safe (λ e h. Safe-pure none)
