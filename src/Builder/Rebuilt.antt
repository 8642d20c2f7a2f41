-- ===== src/Builder/Rebuilt.antt =====
-- What a node that was built rests on.
use ln_node.Prelude.{
  ◌≡◌, ◌≢◌, refl, sym, ap, ◌∙◌, ◌%◌, ◌^◌, true, false, ◌⊎◌, inl, inr, ok, err, Result-cases,
  Outcome-cases, returned, arith,
}
use ln_node.Kv.{IoError, KvStore}
use ln_node.Config.{NodeBuilder}
use ln_node.Wallet.{BdkWallet}
use ln_node.Wallet.Startup.{Keys, Directory, WalletManager, IsDurable, new_wallet}
use ln_node.Wallet.Signing.{Signer, IsSeeded, node, get_node_id}
use ln_node.Wallet.Signing.Identity.{identity-restart}
use ln_node.Builder.{Ldk, Found, Built, Now, ensure_path, load_routing, channels, assemble, build}
use ln_node.Builder.Restored.{IsRestored, IsFresh, channels-cases}

module _ (S : KvStore) (B : BdkWallet) (K : Keys) (D : Directory B K) (G : Signer K) (L : Ldk) where
  record Assembled (b : NodeBuilder) (now : Now) (found : Found S L) (wallet : WalletManager B K)
      (built : Built B K L) : Type 0 where
    identified : get_node_id B K G node wallet ≡ ok built.node_id
    carried : built.onchain_wallet ≡ wallet
    managed :
        channels S L b (now.cur_secs % 2 ^ 32) found
        ≡ returned (ok (built.channel_manager, built.chain_monitor))

  assemble-Assembled :
      (b : NodeBuilder) (now : Now) (found : Found S L) (wallet : WalletManager B K)
      (built : Built B K L)
      → assemble S B K D G L b now found wallet ≡ returned (ok built)
      → Assembled b now found wallet built
  unfolding assemble
  assemble-Assembled b now found wallet built h =
      elim (Result-cases (load_routing S L b.config.network found.kv_store)) [
        | inr (x, failed) ↦ absurd (ground (arith, h, failed))
        | inl ((graph, scoring), loaded) ↦
            elim (Outcome-cases (channels S L b (now.cur_secs % 2 ^ 32) found)) [
              | inr crash ↦ absurd (ground (arith, h, loaded, crash))
              | inl (err x, failed) ↦ absurd (ground (arith, h, loaded, failed))
              | inl (ok (manager, watching), got) ↦
                  elim (Result-cases (get_node_id B K G node wallet)) [
                    | inr (x, failed) ↦ absurd (ground (arith, h, loaded, got, failed))
                    | inl (id, known) ↦ record {
                      identified = ground (arith, h, loaded, got, known);
                      carried = ground (arith, h, loaded, got, known);
                      managed = ground (arith, h, loaded, got, known);
                    }
                  ]
            ]
      ]

  build-Assembled :
      (b : NodeBuilder) (now : Now) (found : Found S L) (d d' : D.State) (built : Built B K L)
      → build S B K D G L b now found d ≡ (returned (ok built), d')
      → (new_wallet B K D now.entropy now.secs now.nanos b.config.network d
          ≡ (ok built.onchain_wallet, d'))
        × Assembled b now found built.onchain_wallet built
  unfolding build
  build-Assembled b now found d d' built h = elim (Result-cases (ensure_path S L found)) [
    | inr (x, failed) ↦ absurd (ground (arith, h, failed))
    | inl (_, there) ↦
        elim (Result-cases (new_wallet B K D now.entropy now.secs now.nanos b.config.network d).0) [
          | inr (x, failed) ↦ absurd (ground (arith, h, there, failed))
          | inl (wallet, made) ↦
              let parts =
                assemble-Assembled b now found wallet built (ground (arith, h, there, made)) in
              let same = parts.carried in
              (
                ground (arith, h, there, made, same),
                record {
                  identified = cc (parts.identified, same);
                  carried = refl;
                  managed = parts.managed;
                },
              )
        ]
  ]

  -- A node that `build` returns is fresh or restored. Where the store's directory does not exist,
  -- its channel manager was made anew at bitcoind's best block. Where it exists, the channel
  -- manager was decoded from the manager file with exactly the monitors that were read from disk,
  -- and the chain monitor took each of them completely.
  pub build-restores :
      (b : NodeBuilder) (now : Now) (found : Found S L) (d d' : D.State) (built : Built B K L)
      → build S B K D G L b now found d ≡ (returned (ok built), d')
      → ((found.store_exists ≡ ok false)
          × IsFresh S L b now.cur_secs found built.channel_manager built.chain_monitor)
        ⊎ ((found.store_exists ≡ ok true)
            × IsRestored S L b found built.channel_manager built.chain_monitor)
  build-restores b now found d d' built h =
      channels-cases S L b now.cur_secs found built.channel_manager built.chain_monitor
        (build-Assembled b now found d d' built h).1.managed

  -- If the directory is durable and LDK's keys depend on the seed as documented: two builds in a
  -- row that both return a node, the first leaving a seed file and the database opening again,
  -- give the same node id, whatever else differs between them but the network.
  pub build-same_node :
      (V : IsDurable B K D) (Q : IsSeeded K G) (b c : NodeBuilder) (now later : Now)
      (found refound : Found S L) (d d' d'' : D.State) (built rebuilt : Built B K L)
      → b.config.network ≡ c.config.network
      → build S B K D G L b now found d ≡ (returned (ok built), d')
      → D.seed_exists d' ≡ true
      → (D.open_database d').0 ≡ ok tt
      → build S B K D G L c later refound d' ≡ (returned (ok rebuilt), d'')
      → rebuilt.node_id ≡ built.node_id
  build-same_node V Q b c now later found refound d d' d'' built rebuilt net h there opens k =
      let (first, parts) = build-Assembled b now found d d' built h in
      let (second, reparts) = build-Assembled c later refound d' d'' rebuilt k in
      let (m', made, ids, _, _) =
        identity-restart B K D V G Q now.entropy later.entropy now.secs now.nanos later.secs
          later.nanos b.config.network d d' built.onchain_wallet first there opens in
      let wallets : ok m' ≡ ok rebuilt.onchain_wallet = sym made ∙ rw net (ap (λ r. r.0) second) in
      cc (wallets, ids node, reparts.identified, parts.identified)

  -- Where the store's directory exists without a readable manager file, no build returns a node.
  pub build-manager_missing :
      (b : NodeBuilder) (now : Now) (found : Found S L) (d d' : D.State) (built : Built B K L)
      (e : IoError)
      → found.store_exists ≡ ok true
      → found.manager ≡ err e
      → build S B K D G L b now found d ≢ (returned (ok built), d')
  build-manager_missing b now found d d' built e there missing h =
      elim (build-restores b now found d d' built h) [
        | inl (gone, _) ↦ cc (there, gone)
        | inr (_, r) ↦ cc (missing, r.opened)
      ]
