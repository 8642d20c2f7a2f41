-- ===== src/Wallet/Signing.antt =====
-- The traits by which LDK asks `WalletManager` (src/onchain_wallet.rs) for keys and signatures: each
-- call goes to LDK's `KeysManager`, an interface here. The scripts come from the bdk wallet instead.
pub mod Identity
use ln_node.Prelude.{◌≡◌, ℕ, Bool, true, String, Option, Result}
use ln_node.Kv.{Bytes}
use ln_node.Storage.{PublicKey}
use ln_node.Ldk.{ScriptBuf}
use ln_node.Wallet.{BdkWallet, internal}
use ln_node.Wallet.Startup.{Keys, WalletManager}

-- LDK's `Recipient`.
pub data Recipient : Type 0 where
  node phantom_node : Recipient

-- The calls of `KeysManager`, of which the first draws from its random source.
pub record Signer (K : Keys) : Type 1 where
  pub InMemorySigner : Type 0
  pub secure_random_bytes : K.KeysManager → Bytes × K.KeysManager
  pub expanded_key : K.KeysManager → Bytes
  pub peer_storage_key : K.KeysManager → Bytes
  pub receive_auth_key : K.KeysManager → Bytes
  pub node_id : Recipient → K.KeysManager → Result (Unit {0}) PublicKey
  pub ecdh : Recipient → PublicKey → Option Bytes → K.KeysManager → Result (Unit {0}) Bytes
  pub sign_invoice : Bytes → Recipient → K.KeysManager → Result (Unit {0}) Bytes
  pub sign_bolt12_invoice : Bytes → K.KeysManager → Result (Unit {0}) Bytes
  pub sign_gossip_message : Bytes → K.KeysManager → Result (Unit {0}) Bytes
  pub sign_message : Bytes → K.KeysManager → Result (Unit {0}) String
  pub generate_channel_keys_id : Bool → ℕ → K.KeysManager → Bytes
  pub derive_channel_signer : Bytes → K.KeysManager → InMemorySigner

module _ (B : BdkWallet) (K : Keys) (G : Signer K) where
  unfoldable pub get_secure_random_bytes : WalletManager B K → Bytes × WalletManager B K
  get_secure_random_bytes m =
      let (bytes, keys) = G.secure_random_bytes m.ldk_keys_manager in
      (bytes, record m { ldk_keys_manager = keys })

  unfoldable pub get_expanded_key : WalletManager B K → Bytes
  get_expanded_key m = G.expanded_key m.ldk_keys_manager

  unfoldable pub get_peer_storage_key : WalletManager B K → Bytes
  get_peer_storage_key m = G.peer_storage_key m.ldk_keys_manager

  unfoldable pub get_receive_auth_key : WalletManager B K → Bytes
  get_receive_auth_key m = G.receive_auth_key m.ldk_keys_manager

  unfoldable pub get_node_id : Recipient → WalletManager B K → Result (Unit {0}) PublicKey
  get_node_id recipient m = G.node_id recipient m.ldk_keys_manager

  unfoldable pub ecdh :
      Recipient → PublicKey → Option Bytes → WalletManager B K → Result (Unit {0}) Bytes
  ecdh recipient other_key tweak m = G.ecdh recipient other_key tweak m.ldk_keys_manager

  unfoldable pub sign_invoice : Bytes → Recipient → WalletManager B K → Result (Unit {0}) Bytes
  sign_invoice invoice recipient m = G.sign_invoice invoice recipient m.ldk_keys_manager

  unfoldable pub sign_bolt12_invoice : Bytes → WalletManager B K → Result (Unit {0}) Bytes
  sign_bolt12_invoice invoice m = G.sign_bolt12_invoice invoice m.ldk_keys_manager

  unfoldable pub sign_gossip_message : Bytes → WalletManager B K → Result (Unit {0}) Bytes
  sign_gossip_message msg m = G.sign_gossip_message msg m.ldk_keys_manager

  unfoldable pub sign_message : Bytes → WalletManager B K → Result (Unit {0}) String
  sign_message msg m = G.sign_message msg m.ldk_keys_manager

  unfoldable pub generate_channel_keys_id : Bool → ℕ → WalletManager B K → Bytes
  generate_channel_keys_id inbound user_channel_id m =
      G.generate_channel_keys_id inbound user_channel_id m.ldk_keys_manager

  unfoldable pub derive_channel_signer : Bytes → WalletManager B K → G.InMemorySigner
  derive_channel_signer channel_keys_id m =
      G.derive_channel_signer channel_keys_id m.ldk_keys_manager

  unfoldable pub get_change_destination_script : WalletManager B K → ScriptBuf × WalletManager B K
  get_change_destination_script m =
      let (script, wallet) = B.next_unused_address internal m.bdk_wallet in
      (script, record m { bdk_wallet = wallet })

-- What LDK documents of `KeysManager`: the node id, signatures over messages and the signers of
-- channels depend on the seed alone, the starting time only feeds the random numbers.
pub record IsSeeded (K : Keys) (G : Signer K) : Type 0 where
  pub same_node_id :
      (seed : Bytes) (r : Recipient) (s t s' t' : ℕ)
      → G.node_id r (K.keys_manager seed s t true) ≡ G.node_id r (K.keys_manager seed s' t' true)
  pub same_signature :
      (seed : Bytes) (msg : Bytes) (s t s' t' : ℕ)
      → G.sign_message msg (K.keys_manager seed s t true)
        ≡ G.sign_message msg (K.keys_manager seed s' t' true)
  pub same_signer :
      (seed : Bytes) (keys_id : Bytes) (s t s' t' : ℕ)
      → G.derive_channel_signer keys_id (K.keys_manager seed s t true)
        ≡ G.derive_channel_signer keys_id (K.keys_manager seed s' t' true)
