-- ===== src/Wallet/Signing/Identity.antt =====
-- The node's identity over a restart.
use ln_node.Prelude.{◌≡◌, ℕ, true, ok}
use ln_node.Kv.{Bytes}
use ln_node.Config.{Network}
use ln_node.Wallet.{BdkWallet}
use ln_node.Wallet.Startup.{Keys, Directory, WalletManager, IsDurable, new_wallet}
use ln_node.Wallet.Startup.Restart.{new_wallet-restart}
use ln_node.Wallet.Signing.{
  Recipient, Signer, IsSeeded, get_node_id, sign_message, derive_channel_signer,
}

module _ (B : BdkWallet) (K : Keys) (D : Directory B K) (L : IsDurable B K D) (G : Signer K)
    (Q : IsSeeded K G) where
  -- If the directory is durable and LDK's keys depend on the seed as documented: after a start
  -- that left a seed file, the next start, if it can open the database, succeeds, has the same
  -- node id, signs messages the same way, and derives the same signer for every channel.
  pub identity-restart :
      (entropy later : Bytes) (secs nanos secs' nanos' : ℕ) (n : Network) (d d' : D.State)
      (m : WalletManager B K)
      → new_wallet B K D entropy secs nanos n d ≡ (ok m, d')
      → D.seed_exists d' ≡ true
      → (D.open_database d').0 ≡ ok tt
      → (m' : WalletManager B K) × ((new_wallet B K D later secs' nanos' n d').0 ≡ ok m')
        × ((r : Recipient) → get_node_id B K G r m' ≡ get_node_id B K G r m)
        × ((msg : Bytes) → sign_message B K G msg m' ≡ sign_message B K G msg m)
        × ((id : Bytes) → derive_channel_signer B K G id m' ≡ derive_channel_signer B K G id m)
  unfolding get_node_id sign_message derive_channel_signer
  identity-restart entropy later secs nanos secs' nanos' n d d' m h there opens =
      let (seed, keys, again) =
        new_wallet-restart B K D L entropy later secs nanos secs' nanos' n d d' m h there opens in
      (
        _,
        again,
        (λ r. rw keys (Q.same_node_id seed r secs' nanos' secs nanos)),
        (λ msg. rw keys (Q.same_signature seed msg secs' nanos' secs nanos)),
        (λ id. rw keys (Q.same_signer seed id secs' nanos' secs nanos)),
      )
