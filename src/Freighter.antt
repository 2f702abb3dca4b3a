-- ===== src/Freighter.antt =====
-- frontend/src/lib/freighter.ts: the wallet extension behind @stellar/freighter-api, and the network
-- of frontend/src/lib/contracts/config.ts, which the build sets.
pub mod Laws
use zkredit.Prelude.{
  String, Bool, true, false, not, ◌&&◌, ◌||◌, Option, none, some, ◌<>◌, if◌then◌else◌, str_eq,
  starts_with, includes_ci,
}
use zkredit.Effects.Errors.{
  Exception, error, base_error, Foreign, error_object, bare, FreighterKind, extension_missing,
  authorization_failed, address_unavailable, wrong_network, sign_rejected, unknown, freighter,
}
use zkredit.Effects.Io.{Io, Reply, returns, throws, ◌>>=◌, ◌>>◌, throw, pure, await, try_catch}
use zkredit.Effects.Browser.{Connection, NetworkDetails, Allowed, Access, Signed, Wallet}

-- `NETWORK` of config.ts
pub record Network : Type 0 where
  pub rpc_url : String
  pub passphrase : String
  pub risk_attestation : String
  pub attestor_registry : String
  pub mock_lending_pool : String
  pub wallet_identity : String

-- `errMessage`
abbrev pub err_message : Foreign → String
err_message (error_object message) = message
err_message (bare text) = text

-- The truth of an optional `error`: only an empty text is false.
abbrev pub has_error : Option Foreign → Bool
has_error none = false
has_error (some (error_object message)) = true
has_error (some (bare text)) = not (str_eq text "")

abbrev pub error_text : Option Foreign → String
error_text none = "undefined"
error_text (some e) = err_message e

-- `makeFreighterError`: the object is made by `new Error`, whatever its static type says.
abbrev pub make_freighter_error : FreighterKind → String → Exception
make_freighter_error kind message = error base_error (freighter kind) message

unfoldable pub target_network_name : Network → String
target_network_name network =
    if starts_with network.passphrase "Public Global Stellar Network"
    then "Mainnet"
    else if starts_with network.passphrase "Test SDF Network"
    then "Testnet"
    else "the correct network"

-- `a || b` on texts
abbrev pub or_text : String → String → String
or_text a b = if str_eq a "" then b else a

abbrev pub wrong_network_error : Network → String → Exception
wrong_network_error network name = make_freighter_error wrong_network (
    "Freighter is connected to "
    <> or_text name "another network"
    <> ". Switch it to Stellar "
    <> target_network_name network
    <> " and try again.")

-- Does a refusal to sign come from the user?
unfoldable pub is_rejection : String → Bool
is_rejection message =
    includes_ci message "rejected"
    || includes_ci message "declined"
    || includes_ci message "denied"
    || includes_ci message "cancel"

module _ {W : Type 0} (network : Network) (wallet : Wallet W) where
  unfoldable pub assert_supported_network : Io W (Unit {0})
  assert_supported_network = do
    net ← await wallet.get_network
    if has_error net.error
        then throw (make_freighter_error unknown (error_text net.error))
        else if str_eq net.network_passphrase network.passphrase
        then pure tt
        else throw (wrong_network_error network net.network)

  unfoldable pub request_permission : Io W (Unit {0})
  request_permission = do
    allowed ← await wallet.is_allowed
    if allowed.is_allowed then pure tt else do
      granted ← await wallet.set_allowed
      if has_error granted.error
          then throw (make_freighter_error authorization_failed (error_text granted.error))
          else pure tt

  unfoldable pub request_key : Io W String
  request_key = do
    access ← await wallet.request_access
    if has_error access.error
        then throw (make_freighter_error authorization_failed (error_text access.error))
        else if str_eq access.address ""
        then throw (
            make_freighter_error address_unavailable
              "Freighter did not return an address. Unlock the extension and try again.")
        else pure access.address

  unfoldable pub connect_freighter : Io W String
  connect_freighter = do
    conn ← await wallet.is_connected
    if has_error conn.error
        then throw (make_freighter_error unknown (error_text conn.error))
        else if not conn.is_connected
        then throw (
            make_freighter_error extension_missing
              "Freighter extension not detected. Install it from freighter.app and reload.")
        else assert_supported_network >> request_permission >> request_key

  -- The protected part of `getConnectedAddress`; `none` is null.
  unfoldable pub look_up_address : Io W (Option String)
  look_up_address = do
    conn ← await wallet.is_connected
    if not conn.is_connected then pure none else do
      allowed ← await wallet.is_allowed
      if not allowed.is_allowed then pure none else do
        res ← await wallet.get_address
        if has_error res.error || str_eq res.address "" then pure none else pure (some res.address)

  -- Nothing is thrown: any failure is null too.
  unfoldable pub get_connected_address : Io W (Option String)
  get_connected_address = try_catch look_up_address (λ _. pure none)

  unfoldable pub sign_with_freighter : String → String → String → Io W String
  sign_with_freighter tx_xdr network_passphrase address = assert_supported_network >> (do
    res ← await (wallet.sign_transaction tx_xdr network_passphrase address)
    if has_error res.error
        then if is_rejection (error_text res.error)
          then throw (make_freighter_error sign_rejected (error_text res.error))
          else throw (make_freighter_error unknown (error_text res.error))
        else if str_eq res.signed_tx_xdr ""
        then throw
            (make_freighter_error sign_rejected "Freighter did not return a signed transaction.")
        else pure res.signed_tx_xdr)
